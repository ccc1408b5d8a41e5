-- ===== src/Guest/Reading.antt =====
-- The KVM agent's decoder, kvmTest/src/agent/kvmAgent/decoder.cpp. It decodes copies of the guest's
-- code: an address here is an offset in such a copy.
use kognizance_tool.Prelude.{
  ℕ, zero, suc, ◌+◌, ◌-◌, ◌%◌, ◌^◌, Bool, true, false, Option, none, some, List, take, drop, ◌==◌,
  ◌&&◌, ltb, if◌then◌else◌,
}
use kognizance_tool.Prelude.Int.{ℤ, pos, negsuc, signed32}
use kognizance_tool.Watch.Address.{sub64}
use kognizance_tool.Event.{AccessType, unknown}
use kognizance_tool.Decoder.{
  Xed, Access, get_float_operation_length, get_access_type, get_mem_access,
}
use kognizance_tool.Registers.{Register, RegisterRead, guest_register_value}
use kognizance_tool.AgentApi.{Agent}
use kognizance_tool.Guest.Memory.{Guest, get_value_at_address, unless_negative, host_copy}

-- XED: decoding from bytes, the address of an operand by the callback for registers, and the other
-- queries, those of `queries`.
pub record ByteXed (I : Type 0) : Type 0 where
  pub decode_bytes : List ℕ → Option I
  pub agen_by : (Register → RegisterRead) → I → Option ℕ
  pub queries : Xed I

-- MAX_BYTES_TO_DECODE
abbrev pub max_bytes_to_decode : ℕ
max_bytes_to_decode = 15

-- The pointer to the instruction that was found, in the guest.
abbrev pub at_start : ℕ → Option (Option ℕ) → Option (Option ℕ)
at_start start none = none
at_start start (some none) = some none
at_start start (some (some offset)) = some (some (start + offset))

-- The pointer, 0 for NULL.
abbrev pub guest_pointer : Option (Option ℕ) → ℕ
guest_pointer (some (some p)) = p
guest_pointer _ = 0

module _ {I : Type 0} (xed : ByteXed I) (guest : Guest) where
  -- Decoding at the offsets of a buffer.
  abbrev pub in_buffer : List ℕ → Xed I
  in_buffer buffer = record xed.queries {
    decode = λ offset. xed.decode_bytes (take max_bytes_to_decode (drop offset buffer));
    agen = xed.agen_by (guest_register_value guest.registers);
  }

  -- The failure -1 is returned as an unsigned int.
  unfoldable pub guest_float_operation_length : ℕ → ℕ → ℕ
  guest_float_operation_length ip op_idx = elim (host_copy guest ip 8) [
    | none ↦ 2 ^ 32 - 1
    | some buffer ↦ get_float_operation_length (in_buffer buffer) 0 op_idx
  ]

  unfoldable pub guest_access_type : ℕ → AccessType
  guest_access_type ip = elim (host_copy guest ip 8) [
    | none ↦ unknown
    | some buffer ↦ get_access_type (in_buffer buffer) 0
  ]

  -- The failure -1 is returned as true: the caller's variables stay.
  unfoldable pub guest_mem_access : Bool → ℕ → Access → Option Access
  guest_mem_access wants_address ip old = elim (host_copy guest ip 8) [
    | none ↦ some old
    | some buffer ↦ get_mem_access (in_buffer buffer) wants_address 0 old.float_type
  ]

  -- The loop over a copy of `size` bytes, with as many rounds as the first argument: `none` when they
  -- do not suffice, and inside it the null pointer as `none`.
  unfoldable pub copy_sweep : List ℕ → ℕ → ℕ → ℕ → Option (Option ℕ)
  copy_sweep buffer zero pins size = none
  copy_sweep buffer (suc fuel) pins size =
      let found = xed.decode_bytes (take max_bytes_to_decode (drop pins buffer)) in
      let step : ℕ = elim found [ none ↦ 1 | some i ↦ xed.queries.get_length i ] in
      let decoded : Bool = elim found [ none ↦ false | some i ↦ true ] in
      let rest = copy_sweep buffer fuel (pins + step) size in
      if ltb pins size
      then (if decoded && pins + step == size then some (some pins) else rest)
      else some none

  -- From the size on, which is an int: with none left the function's start is the answer, and for a
  -- negative one the loop has no round.
  unfoldable pub search_copy : ℕ → ℤ → Option (Option ℕ)
  search_copy start (pos size) =
      if size == 0 then some (some start) else (elim (host_copy guest start size) [
        | none ↦ some none
        | some buffer ↦ at_start start (copy_sweep buffer (suc (suc size)) 0 size)
      ])
  search_copy start (negsuc n) = some none

  unfoldable pub previous_from : ℕ → ℕ → Option (Option ℕ)
  previous_from start ins =
      if start == ins then some none else search_copy start (signed32 (sub64 ins start % 2 ^ 32))

  -- get_previous_instruction__decoder; `start` is the start of the function, `none` for -1. The
  -- exclude list is not used.
  unfoldable pub guest_previous_instruction : Option ℕ → ℕ → Option (Option ℕ)
  guest_previous_instruction none ins = some none
  guest_previous_instruction (some start) ins = previous_from start ins

  -- The agent, with the search for a function's start.
  unfoldable pub guest_agent : (ℕ → Option ℕ) → Agent
  guest_agent start_of = record {
    mem_access = guest_mem_access;
    previous_instruction =
        λ ip excludes. guest_pointer (guest_previous_instruction (start_of ip) ip);
    value_at = λ addr len. unless_negative (get_value_at_address guest addr len);
  }
