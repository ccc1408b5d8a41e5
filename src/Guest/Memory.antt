-- ===== src/Guest/Memory.antt =====
-- What the KVM agent reads of the guest: getValueAtAddress and kvm_get_regs of
-- kvmTest/src/agent/kvmAgent/myagent.cpp.
use kognizance_tool.Prelude.{
  ℕ, zero, ◌*◌, Bool, Option, none, some, List, [], ◌++◌, replicate, if◌then◌else◌,
}
use kognizance_tool.Prelude.Int.{ℤ, pos, negsuc}
use kognizance_tool.Registers.{Registers}

-- The hypervisor: whether it has registered itself, getGuestPhysicalMemory with its answer and the
-- bytes of the buffer, and the registers that kvm_get_regs stores, or that stand in the variable.
pub record Guest : Type 0 where
  pub connected : Bool
  pub physical_memory : ℕ → ℕ → ℤ × List ℕ
  pub registers : Registers

unfoldable pub get_value_at_address : Guest → ℕ → ℕ → ℤ × List ℕ
get_value_at_address g addr len = if g.connected then g.physical_memory addr len else (negsuc 0, [])

-- The answer that fixIP takes for a success.
abbrev pub unless_negative : ℤ × List ℕ → Option (List ℕ)
unless_negative (pos n, bytes) = some bytes
unless_negative (negsuc n, bytes) = none

-- The answer that the decoder takes for a success.
abbrev pub if_zero : ℤ × List ℕ → Option (List ℕ)
if_zero (pos zero, bytes) = some bytes
if_zero _ = none

-- The buffer of `calloc(len, sizeof(uint8_t*))` with the bytes copied to its front.
unfoldable pub host_copy : Guest → ℕ → ℕ → Option (List ℕ)
host_copy g addr len = elim (if_zero (get_value_at_address g addr len)) [
  | none ↦ none
  | some bytes ↦ some (bytes ++ replicate (7 * len) 0)
]
