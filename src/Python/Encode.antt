-- ===== src/Python/Encode.antt =====
-- Code in the format that the iterator of kvmTest/src/agent/pythonAgent/pyBytecodeIterator.cpp
-- reads, as the interpreter before Python 3.6 writes it, and what the iterator holds at an
-- instruction.
use kognizance_tool.Prelude.{
  ℕ, ◌+◌, ◌*◌, ◌≤◌, ◌<◌, ◌≢◌, false, Option, some, List, [], ◌∷◌, ◌++◌, length,
}
use kognizance_tool.Python.Bytecode.{Iterator, extended_arg, two_bytes}

-- An instruction without an argument, with one of two bytes, or of four behind EXTENDED_ARG, the
-- high two first.
pub data Instruction : Type 0 where
  plain : ℕ → Instruction
  argument : ℕ → ℕ → ℕ → Instruction
  extended : ℕ → ℕ → ℕ → ℕ → ℕ → Instruction

abbrev pub encode : Instruction → List ℕ
encode (plain op) = op ∷ []
encode (argument op low high) = op ∷ low ∷ high ∷ []
encode (extended op low high a b) = extended_arg ∷ a ∷ b ∷ op ∷ low ∷ high ∷ []

-- The code of some instructions before other bytes.
abbrev pub encode_all : List Instruction → List ℕ → List ℕ
encode_all [] bytes = bytes
encode_all (i ∷ is) bytes = encode i ++ encode_all is bytes

abbrev pub size_of : List Instruction → ℕ
size_of [] = 0
size_of (i ∷ is) = length (encode i) + size_of is

-- The opcodes of each form.
abbrev pub IsFormed : Instruction → Type 0
IsFormed (plain op) = op < 90
IsFormed (argument op low high) = (90 ≤ op) × (op ≢ extended_arg)
IsFormed (extended op low high a b) = 90 ≤ op

abbrev pub AllFormed : List Instruction → Type 0
AllFormed [] = Unit
AllFormed (i ∷ is) = IsFormed i × AllFormed is

abbrev pub opcode_of : Instruction → ℕ
opcode_of (plain op) = op
opcode_of (argument op low high) = op
opcode_of (extended op low high a b) = op

-- An instruction without an argument leaves the last one.
abbrev pub oparg_of : Instruction → ℕ → ℕ
oparg_of (plain op) old = old
oparg_of (argument op low high) old = two_bytes low high
oparg_of (extended op low high a b) old = two_bytes a b * 65536 + two_bytes low high

-- The iterator at an instruction.
abbrev pub iterator_at : ℕ → Instruction → ℕ → Iterator
iterator_at index i old = record {
  opcode = opcode_of i;
  oparg = oparg_of i old;
  cur_index = index;
  next_index = index + length (encode i);
  error = false;
}

abbrev pub first : List Instruction → Instruction → Instruction
first [] j = j
first (i ∷ is) j = i

-- The opcode before the instruction behind some others.
abbrev pub last_opcode : List Instruction → Option ℕ → Option ℕ
last_opcode [] prev = prev
last_opcode (i ∷ is) prev = last_opcode is (some (opcode_of i))
