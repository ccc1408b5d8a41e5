-- ===== src/Perf/Words.antt =====
-- Reads from the copied buffer in perf_mmap_read, kvmTest/src/platform/device/perf_parser.cpp. A
-- step has the event and the offset; a read beyond the buffer, which the code does not test for, is
-- a fault, `none`, and so is a copy of a negative length.
use kognizance_tool.Prelude.{
  ℕ, zero, suc, ◌+◌, ◌-◌, ◌/◌, ◌%◌, ◌^◌, Bool, true, false, Option, none, some, List, [], ◌∷◌,
  length, take, drop, ltb, leb, ◌==◌, if◌then◌else◌,
}
use kognizance_tool.Prelude.Int.{ℤ, pos, negsuc}
use kognizance_tool.Event.{Event}
use kognizance_tool.Ring.{of_le}

-- The event and `offset`.
pub record Cursor : Type 0 where
  pub event : Event
  pub at : ℕ

abbrev pub Step : Type 0
Step = Cursor → Option Cursor

infixl 30 ◌then◌
abbrev pub ◌then◌ : Step → Step → Step
(f then g) c = elim (f c) [ none ↦ none | some d ↦ g d ]

-- `if (b)` around a step.
abbrev pub when : Bool → Step → Step
when true f = f
when false f = some

-- Bit i of a mask.
unfoldable pub has_bit : ℕ → ℕ → Bool
has_bit mask i = mask / 2 ^ i % 2 == 1

-- memcpy of n bytes at an offset, as a number.
unfoldable pub word : List ℕ → ℕ → ℕ → Option ℕ
word bytes n o = if leb (o + n) (length bytes) then some (of_le (take n (drop o bytes))) else none

unfoldable pub skip : ℕ → Step
skip n c = some (record c { at = c.at + n })

-- `offset += n` for a signed n; an offset before the buffer's start is a fault.
unfoldable pub shift : ℤ → Step
shift (pos n) c = skip n c
shift (negsuc n) c = if ltb n c.at then some (record c { at = c.at - suc n }) else none

module _ (bytes : List ℕ) where
  -- A word of n bytes at the offset, given on, and the offset behind it.
  unfoldable pub read : ℕ → (ℕ → Step) → Step
  read n k c = elim (word bytes n c.at) [ none ↦ none | some v ↦ k v (record c { at = c.at + n }) ]

  -- A word that is kept in the event.
  unfoldable pub store_word : ℕ → (ℕ → Event → Event) → Step
  store_word n set = read n λ v c. some (record c { event = set v c.event })

  -- A word that is only printed.
  unfoldable pub pass : ℕ → Step
  pass n = read n λ v c. some c

  -- A copy of `n` bytes.
  unfoldable pub copy : ℕ → Step
  copy n c = if leb (c.at + n) (length bytes) then skip n c else none

  -- A copy whose length is signed.
  unfoldable pub copy_signed : ℤ → Step
  copy_signed (pos n) c = copy n c
  copy_signed (negsuc n) c = none

  unfoldable pub passes : List ℕ → Step
  passes [] c = some c
  passes (n ∷ ns) c = elim (pass n c) [ none ↦ none | some d ↦ passes ns d ]

-- A loop of n rounds.
unfoldable pub repeat : ℕ → Step → Step
repeat zero f c = some c
repeat (suc n) f c = elim (f c) [ none ↦ none | some d ↦ repeat n f d ]
