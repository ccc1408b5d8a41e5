-- ===== src/AgentApi.antt =====
-- What the tool asks of an agent: kvmTest/includes/agent/agent.hpp. The KVM agent's answers are in
-- Guest, the native agent's in Native.
use kognizance_tool.Prelude.{ℕ, Bool, Option, List}
use kognizance_tool.Decoder.{Access}

-- `mem_access` is get_mem_access_length_and_type_address, with whether the address is asked for and
-- what the caller's variables hold; `previous_instruction` is 0 where the code sets the null
-- pointer; `value_at` is getValueAtAddress, `none` for a negative answer.
pub record Agent : Type 0 where
  pub mem_access : Bool → ℕ → Access → Option Access
  pub previous_instruction : ℕ → List ℕ → ℕ
  pub value_at : ℕ → ℕ → Option (List ℕ)
