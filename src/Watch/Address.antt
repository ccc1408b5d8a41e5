-- ===== src/Watch/Address.antt =====
-- The address arithmetic of the watchpoint library: the macros of
-- kvmTest/includes/tools/witchTool/watchpoint-lib/watchpoint_util.h and the checks on lengths,
-- alignment and program counters of
-- kvmTest/src/tools/witchTool/watchpoint-lib/src/watchpoint.cpp. An address is a 64-bit number.
use kognizance_tool.Prelude.{
  ℕ, ◌+◌, ◌-◌, ◌/◌, ◌%◌, ◌^◌, Bool, true, false, ◌&&◌, ◌||◌, ltb, leb, ◌==◌, if◌then◌else◌,
}
use kognizance_tool.Prelude.Int.{ℤ, pos, negsuc, ltz, lez, minz, ◌-ℤ◌, signed64, to_int32}

abbrev pub word_size : ℕ
word_size = 2 ^ 64

-- `a + n` and `a - b` of type uintptr_t.
abbrev pub add64 : ℕ → ℕ → ℕ
add64 a n = (a + n) % word_size

abbrev pub sub64 : ℕ → ℕ → ℕ
sub64 a b = (a + word_size - b) % word_size

-- IS_ALIGNED; at a power of two the masked bits are the remainder.
unfoldable pub is_aligned : ℕ → ℕ → Bool
is_aligned address alignment = address % alignment == 0

-- ADDRESSES_OVERLAP
unfoldable pub addresses_overlap : ℕ → ℕ → ℕ → ℕ → Bool
addresses_overlap addr1 len1 addr2 len2 =
    ltb addr2 (add64 addr1 len1) && ltb addr1 (add64 addr2 len2)

-- `(int64_t)(a) - (int64_t)(b)`
abbrev pub diff64 : ℕ → ℕ → ℤ
diff64 a b = signed64 (sub64 a b)

-- GET_OVERLAP_BYTES, as the callbacks store it in an int.
unfoldable pub overlap_bytes : ℕ → ℕ → ℕ → ℕ → ℤ
overlap_bytes a a_len b b_len = to_int32 (
    if leb b a
    then minz (pos a_len) (pos b_len -ℤ diff64 a b)
    else minz (pos b_len) (pos a_len -ℤ diff64 b a))

-- FIRST_OVERLAPPED_BYTE_OFFSET_IN_FIRST
unfoldable pub offset_in_first : ℕ → ℕ → ℤ
offset_in_first a b = to_int32 (if lez (signed64 b) (signed64 a) then pos 0 else diff64 b a)

-- FIRST_OVERLAPPED_BYTE_OFFSET_IN_SECOND
unfoldable pub offset_in_second : ℕ → ℕ → ℤ
offset_in_second a b = to_int32 (if lez (signed64 a) (signed64 b) then pos 0 else diff64 a b)

unfoldable pub get_floor_wp_length : ℕ → ℕ
get_floor_wp_length access_len =
    if access_len == 8
    then 8
    else if access_len == 7 || access_len == 6 || access_len == 5 || access_len == 4
    then 4
    else if access_len == 3 || access_len == 2
    then 2
    else if access_len == 1
    then 1
    else 8

unfoldable pub validate_wp_data : ℕ → ℕ → Bool
unfolding is_aligned
validate_wp_data va wp_length =
    if wp_length == 0
    then false
    else if wp_length == 1 || wp_length == 2 || wp_length == 4 || wp_length == 8
    then is_aligned va wp_length
    else false

-- `(uint64_t*)a - (uint64_t*)b`: the distance in words of eight bytes.
abbrev pub word_distance : ℕ → ℕ → ℤ
word_distance a b = elim (diff64 a b) [ pos n ↦ pos (n / 8) | negsuc n ↦ negsuc (n / 8) ]

unfoldable pub is_pc_sane : ℕ → ℕ → Bool
is_pc_sane context_pc possible_pc =
    if possible_pc == 0
      || (ltb context_pc possible_pc || ltz (pos 15) (word_distance context_pc possible_pc))
    then false
    else true
