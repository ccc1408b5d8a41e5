-- ===== src/Watch/Bounds.antt =====
-- What the length, alignment, overlap and program-counter checks of the watchpoint library accept.
use kognizance_tool.Prelude.{ℕ, ◌+◌, ◌-◌, ◌%◌, ◌^◌, ◌≤◌, ◌<◌, ◌≡◌, ◌↔◌, ◌⊎◌, true, arith}
use Prim.Native.Nat.{min, max}
use kognizance_tool.Prelude.Int.{pos}
use kognizance_tool.Watch.Address.{
  word_size, addresses_overlap, overlap_bytes, get_floor_wp_length, validate_wp_data, is_pc_sane,
}

-- A length that a debug register can watch.
abbrev pub IsLength : ℕ → Type 0
IsLength n = (n ≡ 1) ⊎ (n ≡ 2) ⊎ (n ≡ 4) ⊎ (n ≡ 8)

-- For an access of at least one byte, the watch length is the largest one that a debug register
-- supports and that the access covers.
get_floor_wp_length-greatest :
    (len w : ℕ)
    → 1 ≤ len
    → IsLength w
    → w ≤ len
    → IsLength (get_floor_wp_length len)
      × (get_floor_wp_length len ≤ len)
      × (w ≤ get_floor_wp_length len)
unfolding get_floor_wp_length
get_floor_wp_length-greatest len w h l k = ground arith

-- The validation accepts exactly the supported lengths at a multiple of the length.
validate_wp_data_iff :
    (va len : ℕ) → (validate_wp_data va len ≡ true) ↔ (IsLength len × (va % len ≡ 0))
unfolding validate_wp_data
validate_wp_data_iff va len = ground arith

-- Two ranges of at least one byte that end below 2^64 pass the overlap test exactly when they
-- share a byte.
addresses_overlap_iff :
    (a m b n : ℕ)
    → a + m < word_size
    → b + n < word_size
    → 1 ≤ m
    → 1 ≤ n
    → (addresses_overlap a m b n ≡ true) ↔ ((x : ℕ) × (a ≤ x) × (x < a + m) × (b ≤ x) × (x < b + n))
unfolding addresses_overlap
addresses_overlap_iff a m b n p q h k =
    ((λ e. (max a b, ground arith, ground arith, ground arith, ground arith)), (λ s. ground arith))

-- For ranges that overlap, end below 2^64 and are shorter than 2^31, the overlap is the number of
-- bytes that both hold.
overlap_bytes-count :
    (a m b n : ℕ)
    → a + m < word_size
    → b + n < word_size
    → m < 2 ^ 31
    → n < 2 ^ 31
    → a < b + n
    → b < a + m
    → overlap_bytes a m b n ≡ pos (min (a + m) (b + n) - max a b)
unfolding overlap_bytes
overlap_bytes-count a m b n p q h k l r = ground arith

-- For addresses less than 2^63 apart, a patched program counter is accepted exactly when it is not
-- null, not behind the context's one, and at most 127 bytes in front of it.
is_pc_sane_iff :
    (c p : ℕ)
    → c < word_size
    → c < p + 2 ^ 63
    → (is_pc_sane c p ≡ true) ↔ ((1 ≤ p) × (p ≤ c) × (c < p + 128))
unfolding is_pc_sane
is_pc_sane_iff c p h k = ground arith
