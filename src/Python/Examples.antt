-- ===== src/Python/Examples.antt =====
-- The theorems on the Python agent at a frame that loads, stores and returns.
use kognizance_tool.Prelude.{ℕ, suc, ◌-◌, ◌≡◌, ◌≢◌, none, some, List, [], ◌∷◌, ◌++◌, length, arith}
use kognizance_tool.Prelude.Int.{pos}
use kognizance_tool.Event.{store}
use kognizance_tool.Witch.Cases.{event_of}
use kognizance_tool.Python.Bytecode.{new_iterator, ◌>>=◌}
use kognizance_tool.Python.Stack.{PyFrame, Sampled, find_opcode, get_stack_trace}
use kognizance_tool.Python.Walks.{get_stack_trace-depth}
use kognizance_tool.Python.Encode.{
  Instruction, plain, argument, extended, encode, encode_all, size_of, iterator_at, last_opcode,
}
use kognizance_tool.Python.Reads.{find_opcode-encode}
use Prim.Native.Nat.{min}

-- LOAD_CONST with an extended argument, and STORE_NAME.
abbrev body : List Instruction
body = extended 100 2 0 1 0 ∷ argument 90 0 0 ∷ []

-- RETURN_VALUE
abbrev end : Instruction
end = plain 83

abbrev code : List ℕ
code = encode_all body (encode end ++ [])

abbrev frame : PyFrame
frame = record {
  lnotab = some (0 ∷ 1 ∷ 9 ∷ 1 ∷ []);
  lineno = 3;
  lasti = pos 6;
  code = code;
  name = 102 ∷ [];
  filename = 103 ∷ [];
}

get_stack_trace-depth_example :
    (s : Sampled) × (get_stack_trace (some (frame ∷ frame ∷ [])) (event_of 5 store 10, none) 16
      ≡ some (s, min (length (frame ∷ frame ∷ [])) (16 - 1)))
get_stack_trace-depth_example =
    get_stack_trace-depth (frame ∷ frame ∷ []) (event_of 5 store 10, none) 16

ne : ◌≢◌ {A = ℕ} 90 144
ne e = absurd (omega (arith, e))

find_opcode-encode_example :
    (arg : ℕ) × ((new_iterator code >>= λ it.
    find_opcode code (suc (length code)) (size_of body) it none)
      ≡ some (iterator_at (size_of body) end arg, last_opcode body none))
find_opcode-encode_example =
    find_opcode-encode body end [] (omega arith, ((omega arith, ne), tt)) (omega arith)
