-- ===== src/Ring/Examples.antt =====
-- Reads of a buffer of four bytes, around its end.
use kognizance_tool.Prelude.{
  ℕ, ◌+◌, ◌%◌, ◌≡◌, refl, some, List, [], ◌∷◌, get_or, arith, replicate, ◌++◌,
}
use kognizance_tool.Watch.Address.{word_size}
use kognizance_tool.Ring.{Ring, read_mmap_buffer, wp_collect_trigger_info}
use kognizance_tool.Ring.Reads.{read_mmap_buffer-get, wp_collect_trigger_info-drained}

abbrev ring : Ring
ring = record { data_head = 10; data_tail = 7; payload = 5 ∷ 6 ∷ 7 ∷ 8 ∷ [] }

read_mmap_buffer-get_example :
    (bs : List ℕ) × (read_mmap_buffer ring 3 4
      ≡ (some bs, record ring { data_tail = (7 + 3) % word_size }))
    × (get_or bs 1 0 ≡ get_or (5 ∷ 6 ∷ 7 ∷ 8 ∷ []) ((7 + 1) % 4) 0)
read_mmap_buffer-get_example =
    read_mmap_buffer-get ring 4 3 1 refl (ground arith) (ground arith) (ground arith)

abbrev record_ring : Ring
record_ring = record {
  data_head = 32;
  data_tail = 8;
  payload = replicate 8 0 ++ (9 ∷ 0 ∷ 0 ∷ 0 ∷ 0 ∷ 64 ∷ 24 ∷ 0 ∷ []) ++ replicate 16 3;
}

wp_collect_trigger_info-drained_example :
    (wp_collect_trigger_info record_ring 64 32).1 ≡ record record_ring { data_tail = 32 }
wp_collect_trigger_info-drained_example =
    wp_collect_trigger_info-drained record_ring 64 32 (ground arith) (ground arith) (ground arith)
