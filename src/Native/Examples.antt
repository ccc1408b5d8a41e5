-- ===== src/Native/Examples.antt =====
-- Runs of the native agent's search for a function's start and of its backtrace on three symbols.
use kognizance_tool.Prelude.{
  Bool, true, false, ◌++◌, ℕ, ◌≡◌, refl, some, List, [], ◌∷◌, arith, none, replicate, ◌+◌,
}
use kognizance_tool.Prelude.Int.{pos, signed_key}
use kognizance_tool.Ring.{Ring}
use kognizance_tool.Platform.World.{pure}
use kognizance_tool.Platform.Attributes.{Build, all_loads}
use kognizance_tool.Platform.Ensures.{Ensures}
use kognizance_tool.Perf.Ends.{Ended}
use kognizance_tool.Tool.Cases.{sampler}
use kognizance_tool.Native.Signal.{dev_signal_handler, dev_signal_handler-Ended}
use kognizance_tool.Native.{Unwound, get_start_address, agent_retrieve_backtrace}
use kognizance_tool.Event.{store}
use kognizance_tool.Witch.Cases.{event_of}
use kognizance_tool.Native.Backtraces.{first_calls, from_signal, agent_retrieve_backtrace-calls}
use kognizance_tool.Native.Symbols.{IsFloor, get_start_address-IsFloor}

abbrev symbols : List ℕ
symbols = 4096 ∷ 4160 ∷ 4352 ∷ []

get_start_address-IsFloor_example :
    (m : ℕ) × (get_start_address symbols 4170 ≡ some m) × IsFloor m 4170 symbols
unfolding signed_key
get_start_address-IsFloor_example =
    get_start_address-IsFloor 4096 4352 4170 (4160 ∷ 4352 ∷ [])
      ((omega arith, (omega arith, tt)), ((omega arith, tt), (tt, tt))) (omega arith) (omega arith)
      (omega arith) refl (omega arith)

abbrev frame : ℕ → Bool → Unwound
frame ip is_signal = record { ip = ip; is_signal_frame = is_signal }

-- The handler, the signal in a function that was called by itself, and its first caller.
abbrev stack : List Unwound
stack = frame 4200 false ∷ frame 4100 true ∷ frame 4110 false ∷ frame 4170 false ∷ []

agent_retrieve_backtrace-calls_example :
    (agent_retrieve_backtrace (get_start_address symbols) stack (event_of 5 store 10)).context_host
    ≡ (event_of 5 store 10).context_host
      ++ first_calls (get_start_address symbols) 4096 [] (from_signal stack)
agent_retrieve_backtrace-calls_example =
    agent_retrieve_backtrace-calls (get_start_address symbols) stack (event_of 5 store 10)

abbrev build : Build
build = record { attr_size = 112; pebs_sampling_period = none; sampled_loads = all_loads }

-- A ring whose head is behind bytes that are no record.
abbrev filled : Ring
filled = record { payload = replicate 64 255; data_head = 40; data_tail = 0 }

dev_signal_handler-Ended_example : Ensures Ended (
    dev_signal_handler
      (λ d e s. pure (s + 1))
      (get_start_address symbols)
      stack
      build
      4096
      (event_of 5 store 10)
      sampler
      (pos 0)
      (some filled)
      3)
dev_signal_handler-Ended_example =
    dev_signal_handler-Ended (λ d e s. pure (s + 1)) (get_start_address symbols) stack sampler 3
      build 4096 (event_of 5 store 10) (pos 0) (some filled)
