-- ===== src/Decoder.antt =====
-- The instruction decoder of the native agent, kvmTest/src/agent/nativeAgent/decoder.cpp. The XED
-- library is a parameter: its type of decoded instructions and the queries that the decoder makes.
use kognizance_tool.Prelude.{
  ℕ, zero, suc, ◌+◌, ◌-◌, ◌/◌, ◌%◌, ◌^◌, Bool, true, false, Option, none, some, List, [], ◌∷◌, ◌==◌,
  ◌&&◌, ◌||◌, not, ltb, leb, if◌then◌else◌,
}
use kognizance_tool.Event.{
  AccessType, load, store, load_and_store, unknown, FloatType, float16, single, double, longdouble,
  longbcd, elem_unknown,
}
pub mod Search
mod Examples

-- The categories that the decoder tells apart: those of a data transfer (AES, CONVERT, PCLMULQDQ,
-- SSE, AVX2, AVX, MMX, DATAXFER), those of the x87 unit (X87_ALU, FCMOV), and the others.
pub data Category : Type 0 where
  transfer x87 other_category : Category

pub data ElementType : Type 0 where
  type_float16 type_single type_double type_longdouble type_longbcd type_other : ElementType

-- An operand, by whether it is XED_OPERAND_MEM0, with its element type.
pub record Operand : Type 0 where
  pub is_mem0 : Bool
  pub element_type : ElementType

pub record Xed (I : Type 0) : Type 0 where
  pub decode : ℕ → Option I
  pub get_length : I → ℕ
  pub number_of_memory_operands : I → ℕ
  pub mem_read : I → Bool
  pub mem_written : I → Bool
  pub memory_operand_length : I → ℕ
  pub category : I → Category
  pub operands : I → List Operand
  pub element_type_at : I → ℕ → ElementType
  pub agen : I → Option ℕ

unfoldable pub float_of_element : ElementType → FloatType
float_of_element type_float16 = float16
float_of_element type_single = single
float_of_element type_double = double
float_of_element type_longdouble = longdouble
float_of_element type_longbcd = longbcd
float_of_element type_other = elem_unknown

unfoldable pub length_of_element : ElementType → ℕ
length_of_element type_float16 = 2
length_of_element type_single = 4
length_of_element type_double = 8
length_of_element type_longdouble = 10
length_of_element _ = 0

-- The loop over the operands, up to the first XED_OPERAND_MEM0.
unfoldable pub float_of_operands : List Operand → FloatType
float_of_operands [] = elem_unknown
float_of_operands (o ∷ os) =
    let rest = float_of_operands os in if o.is_mem0 then float_of_element o.element_type else rest

-- `*floatType`; the categories that leave it alone keep the caller's value.
unfoldable pub float_type_of : Category → ℕ → List Operand → FloatType → FloatType
float_type_of transfer len os old = float_of_operands os
float_type_of x87 len os old =
    if len == 4 then single else if len == 8 then double else elem_unknown
float_type_of other_category len os old = old

-- The four cases of get_mem_access_length_and_type_address__decoder.
unfoldable pub access_of : Bool → Bool → AccessType
access_of true true = load_and_store
access_of true false = load
access_of false true = store
access_of false false = unknown

-- What the decoder stores for its caller.
pub record Access : Type 0 where
  pub length : ℕ
  pub kind : AccessType
  pub float_type : FloatType
  pub address : Option ℕ

module _ {I : Type 0} (xed : Xed I) where
  open xed use {
    decode, get_length, number_of_memory_operands, mem_read, mem_written, memory_operand_length,
    category, operands, element_type_at, agen,
  }

  -- get_float_operation_length, for the element types of an instruction's operands.
  unfoldable pub get_float_operation_length : ℕ → ℕ → ℕ
  get_float_operation_length ip op_idx = elim (decode ip) [
    | none ↦ 0
    | some i ↦ length_of_element (element_type_at i op_idx)
  ]

  unfoldable pub get_access_type : ℕ → AccessType
  get_access_type ip = elim (decode ip) [
    | none ↦ unknown
    | some i ↦
        if number_of_memory_operands i == 0
        then unknown
        else if mem_read i && mem_written i
        then load_and_store
        else if mem_read i
        then load
        else store
  ]

  -- get_mem_access_length_and_type_address__decoder with pointers for the length and the types, and
  -- for the address if that is asked for; `none` is false.
  unfoldable pub get_mem_access : Bool → ℕ → FloatType → Option Access
  get_mem_access wants_address ip old = elim (decode ip) [
    | none ↦ none
    | some i ↦
        let found : Option ℕ → Access = λ address. record {
          length = memory_operand_length i;
          kind = access_of (mem_read i) (mem_written i);
          float_type = float_type_of (category i) (memory_operand_length i) (operands i) old;
          address = address;
        } in
        if not (number_of_memory_operands i == 1)
        then none
        else if not wants_address
        then some (found none)
        else (elim (agen i) [ none ↦ none | some address ↦ some (found (some address)) ])
  ]

  -- get_mem_access_length_and_type: no float type and no address are asked for.
  unfoldable pub get_mem_access_length_and_type : ℕ → Option (ℕ × AccessType)
  get_mem_access_length_and_type ip = elim (decode ip) [
    | none ↦ none
    | some i ↦
        if not (number_of_memory_operands i == 1)
        then none
        else some (memory_operand_length i, access_of (mem_read i) (mem_written i))
  ]

  -- A watched address below the instruction forbids to touch the function's code.
  unfoldable pub is_excluded : ℕ → ℕ → List ℕ → Bool
  is_excluded start ins [] = false
  is_excluded start ins (a ∷ excludes) =
      let rest = is_excluded start ins excludes in if leb start a && ltb a ins then true else rest

  -- The loop from `pins` on, with as many rounds as the first argument: `none` when they do not
  -- suffice, and inside it the null pointer as `none`.
  unfoldable pub sweep : ℕ → ℕ → ℕ → Option (Option ℕ)
  sweep zero pins ins = none
  sweep (suc fuel) pins ins =
      let step : ℕ = elim (decode pins) [ none ↦ 1 | some i ↦ get_length i ] in
      let decoded : Bool = elim (decode pins) [ none ↦ false | some i ↦ true ] in
      let rest = sweep fuel (pins + step) ins in
      if leb pins ins
      then (if decoded && pins + step == ins then some (some pins) else rest)
      else some none

  -- get_previous_instruction__decoder; `start` is the start of the function, `none` for -1.
  unfoldable pub get_previous_instruction : Option ℕ → ℕ → List ℕ → Option (Option ℕ)
  get_previous_instruction none ins excludes = some none
  get_previous_instruction (some start) ins excludes =
      if is_excluded start ins excludes
      then some none
      else sweep (suc (suc (ins - start))) start ins
