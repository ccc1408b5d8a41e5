-- ===== src/Decoder/Examples.antt =====
-- Searches in a short program.
use kognizance_tool.Prelude.{
  ℕ, ◌≤◌, ◌≡◌, ◌↔◌, refl, true, false, Option, none, some, [], ◌∷◌, ◌==◌, if◌then◌else◌, arith,
}
use kognizance_tool.Decoder.{Xed, other_category, type_other, is_excluded, get_previous_instruction}
use kognizance_tool.Decoder.Search.{
  Before, get_previous_instruction-total, get_previous_instruction_iff,
}

-- Instructions of two bytes, known by their addresses, but no instruction at 12.
abbrev pairs : Xed ℕ
pairs = record {
  decode = λ a. if a == 12 then none else some a;
  get_length = λ i. 2;
  number_of_memory_operands = λ i. 1;
  mem_read = λ i. true;
  mem_written = λ i. false;
  memory_operand_length = λ i. 4;
  category = λ i. other_category;
  operands = λ i. [];
  element_type_at = λ i n. type_other;
  agen = λ i. some 64;
}

pairs_grow : (i : ℕ) → 1 ≤ 2
pairs_grow i = ground arith

get_previous_instruction-total_example :
    (r : Option ℕ) × (get_previous_instruction pairs (some 10) 15 [] ≡ some r)
get_previous_instruction-total_example =
    get_previous_instruction-total pairs pairs_grow (some 10) 15 []

get_previous_instruction_iff_example :
    (get_previous_instruction pairs (some 10) 15 (40 ∷ []) ≡ some (some 13)) ↔ Before pairs 10 15 13
unfolding is_excluded
get_previous_instruction_iff_example =
    get_previous_instruction_iff pairs pairs_grow 10 15 13 (40 ∷ []) refl
