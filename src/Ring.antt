-- ===== src/Ring.antt =====
-- The ring buffer of a watchpoint's file, which the kernel fills:
-- kvmTest/src/tools/witchTool/watchpoint-lib/src/watchpoint_mmap.cpp. The payload is the list of
-- its `pgsz` bytes, and pgsz is a power of two, so the masked tail is a remainder. A read past the
-- payload's end, which a request longer than the payload makes, gives fewer bytes here.
use kognizance_tool.Prelude.{
  ℕ, ◌+◌, ◌-◌, ◌*◌, ◌/◌, ◌%◌, ◌^◌, Bool, true, false, Option, none, some, List, [], ◌∷◌, ◌++◌, ◌==◌,
  ltb, if◌then◌else◌, take, drop, get_or, length,
}
use kognizance_tool.Watch.Address.{sub64, add64}
pub mod Reads
mod Examples

-- The header page's counters and the payload.
pub record Ring : Type 0 where
  pub data_head : ℕ
  pub data_tail : ℕ
  pub payload : List ℕ

-- `tail`, `avail_sz` and `m` of ReadMmapBuffer.
abbrev pub tail_of : Ring → ℕ → ℕ
tail_of r pgsz = r.data_tail % pgsz

abbrev pub avail_of : Ring → ℕ
avail_of r = sub64 r.data_head r.data_tail

abbrev pub first_part : Ring → ℕ → ℕ → ℕ
first_part r sz pgsz = let c = pgsz - tail_of r pgsz in if ltb c sz then c else sz

-- The two copies, up to the payload's end and from its start.
unfoldable pub bytes_at : Ring → ℕ → ℕ → List ℕ
bytes_at r sz pgsz =
    let m = first_part r sz pgsz in
    take m (drop (tail_of r pgsz) r.payload) ++ (if ltb m sz then take (sz - m) r.payload else [])

-- The bytes, `none` for -1, and the buffer.
unfoldable pub read_mmap_buffer : Ring → ℕ → ℕ → Option (List ℕ) × Ring
read_mmap_buffer r sz pgsz =
    if ltb (avail_of r) sz
    then (none, r)
    else (some (bytes_at r sz pgsz), record r { data_tail = add64 r.data_tail sz })

unfoldable pub consume_all_ring_buffer_data : Ring → Ring
consume_all_ring_buffer_data r = record r { data_tail = r.data_head }

-- A number from its bytes, the least significant first.
unfoldable pub of_le : List ℕ → ℕ
of_le [] = 0
of_le (b ∷ bs) = b + 256 * of_le bs

-- The fields of perf_event_header that are read.
abbrev pub header_type : List ℕ → ℕ
header_type h = of_le (take 4 h)

abbrev pub header_misc : List ℕ → ℕ
header_misc h = of_le (take 2 (drop 4 h))

abbrev pub perf_record_sample : ℕ
perf_record_sample = 9

-- What WP_CollectTriggerInfo writes to the trigger's record.
pub record Collected : Type 0 where
  pub pc : ℕ
  pub pc_precise : Bool
  pub va : ℕ

-- WP_CollectTriggerInfo; `none` is false. PERF_RECORD_SAMPLE has the bit of PERF_SAMPLE_IP, so the
-- assertion holds, and PERF_RECORD_MISC_EXACT_IP is bit 14.
unfoldable pub wp_collect_trigger_info : Ring → ℕ → ℕ → Option Collected × Ring
wp_collect_trigger_info r va pgsz =
    let (header, r1) = read_mmap_buffer r 8 pgsz in
    elim header [
      | none ↦ (none, r1)
      | some h ↦
          if header_type h == perf_record_sample
          then (let (ip, r2) = read_mmap_buffer r1 8 pgsz in
              elim ip [
                | none ↦ (none, r2)
                | some b ↦ (
                  some (record {
                    pc = of_le b;
                    pc_precise = header_misc h / 2 ^ 14 % 2 == 1;
                    va = va;
                  }),
                  consume_all_ring_buffer_data r2,
                )
              ])
          else (none, consume_all_ring_buffer_data r1)
    ]
