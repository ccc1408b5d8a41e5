-- ===== src/Python/Bytecode.antt =====
-- PyBytecodeIterator of kvmTest/src/agent/pythonAgent/pyBytecodeIterator.cpp, with the opcodes of
-- kvmTest/includes/agent/pythonAgent/pyopcode.hpp that the agent uses. The two fields that the
-- constructor leaves uninitialised start as 0. The int of an argument is given by its 32 bits.
use kognizance_tool.Prelude.{
  ℕ, ◌+◌, ◌*◌, Bool, true, false, Option, none, some, List, ◌==◌, leb, length, get_elem?,
  if◌then◌else◌,
}

abbrev pub have_argument : ℕ
have_argument = 90

abbrev pub extended_arg : ℕ
extended_arg = 144

-- HAS_ARG
abbrev pub has_arg : ℕ → Bool
has_arg op = leb have_argument op

pub record Iterator : Type 0 where
  pub opcode : ℕ
  pub oparg : ℕ
  pub cur_index : ℕ
  pub next_index : ℕ
  pub error : Bool

-- Two bytes, the low one first.
abbrev pub two_bytes : ℕ → ℕ → ℕ
two_bytes low high = low + 256 * high

-- Reads out of the bytecode are `none`.
infixl 5 ◌>>=◌
abbrev pub ◌>>=◌ : {A B : Type 0} → Option A → (A → Option B) → Option B
none >>= f = none
some a >>= f = f a

module _ (bytecode : List ℕ) where
  abbrev pub is_done : Iterator → Bool
  is_done it = it.cur_index == length bytecode

  -- The argument of the instruction behind EXTENDED_ARG, from its opcode on.
  unfoldable pub advance_extended : Iterator → Option Iterator
  advance_extended it =
      if leb (length bytecode) (it.next_index + 2) then some (record it { error = true }) else (do
        op ← get_elem? bytecode it.next_index
        let named = record it { opcode = op }
        if has_arg op
            then (do
              low ← get_elem? bytecode (it.next_index + 1)
              high ← get_elem? bytecode (it.next_index + 2)
              some (record named {
                oparg = it.oparg * 65536 + two_bytes low high;
                next_index = it.next_index + 3;
              }))
            else some (record named { error = true }))

  -- The argument, with `next_index` behind the opcode.
  unfoldable pub advance_argument : Iterator → Option Iterator
  advance_argument it =
      if leb (length bytecode) (it.next_index + 1) then some (record it { error = true }) else (do
        low ← get_elem? bytecode it.next_index
        high ← get_elem? bytecode (it.next_index + 1)
        let read = record it { oparg = two_bytes low high; next_index = it.next_index + 2 }
        if it.opcode == extended_arg then advance_extended read else some read)

  -- Advance
  unfoldable pub advance : Iterator → Option Iterator
  advance it =
      let here = record it { cur_index = it.next_index } in
      if is_done here then some here else (do
        op ← get_elem? bytecode it.next_index
        let named = record here { opcode = op; next_index = it.next_index + 1 }
        if has_arg op then advance_argument named else some named)

  -- The iterator before the constructor's Advance, at an index.
  abbrev pub before : ℕ → Iterator
  before index = record { opcode = 0; oparg = 0; cur_index = 0; next_index = index; error = false }

  -- PyBytecodeIterator(bytecode_string)
  unfoldable pub new_iterator : Option Iterator
  new_iterator = advance (before 0)
