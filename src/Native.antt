-- ===== src/Native.antt =====
-- The native agent: kvmTest/src/agent/nativeAgent/myagent.cpp and symbol.cpp. The frames that
-- libunwind finds and the symbols that libbfd reads are arguments.
use kognizance_tool.Prelude.{
  ℕ, Bool, true, false, Option, none, some, List, [], ◌∷◌, ◌++◌, ◌==◌, ltb, leb, not, ◌&&◌, ◌||◌,
  if◌then◌else◌,
}
use kognizance_tool.Prelude.Int.{signed_key}
use kognizance_tool.Event.{Event, Frame}
use kognizance_tool.Decoder.{Xed, get_mem_access, get_previous_instruction}
use kognizance_tool.AgentApi.{Agent}
pub mod Symbols
pub mod Backtraces
pub mod Signal
mod Examples

-- The last of the ascending symbols below an address, or the address itself if there is one at it.
unfoldable pub symbol_below : ℕ → ℕ → List ℕ → Option ℕ
symbol_below last addr [] = none
symbol_below last addr (s ∷ ss) =
    let rest = symbol_below s addr ss in
    if ltb (signed_key s) (signed_key addr)
    then rest
    else if signed_key s == signed_key addr
    then some s
    else some last

-- Symbol::getStartAddress, over the keys of the map, which ascend as numbers of the type long; `none`
-- is -1.
unfoldable pub get_start_address : List ℕ → ℕ → Option ℕ
get_start_address [] addr = some addr
get_start_address (s ∷ ss) addr =
    if leb (signed_key addr) (signed_key s) then some addr else symbol_below s addr ss

-- A step of the cursor: the instruction pointer, and whether the frame is a signal's.
pub record Unwound : Type 0 where
  pub ip : ℕ
  pub is_signal_frame : Bool

-- The variables of the loop; `parent` is none for -1.
pub record Backtrace : Type 0 where
  pub in_signal_frame : Bool
  pub parent : Option ℕ
  pub map_for_recursion : List ℕ
  pub frames : List Frame

abbrev pub contains : ℕ → List ℕ → Bool
contains n [] = false
contains n (m ∷ ms) = n == m || contains n ms

abbrev pub is_parent : Option ℕ → ℕ → Bool
is_parent none ip = false
is_parent (some p) ip = p == ip

abbrev pub frame_at : ℕ → Frame
frame_at ip = record { binary_addr = ip; src_lineno = 0; method_name = []; source_file = [] }

module _ (start_of : ℕ → Option ℕ) (h_ip_addr : ℕ) where
  -- One round: the frame at a signal gets the event's precise instruction pointer.
  unfoldable pub unwind_step : Unwound → Backtrace → Backtrace
  unwind_step u b =
      let inside = b.in_signal_frame && not u.is_signal_frame in
      let frame = frame_at (if u.is_signal_frame then h_ip_addr else u.ip) in
      let next = record b { in_signal_frame = inside } in
      elim (start_of u.ip) [
        | none ↦ next
        | some start ↦
            if inside || is_parent b.parent u.ip || contains start b.map_for_recursion
            then next
            else record {
              in_signal_frame = inside;
              parent = some u.ip;
              map_for_recursion = start ∷ b.map_for_recursion;
              frames = b.frames ++ (frame ∷ []);
            }
      ]

  unfoldable pub unwind : List Unwound → Backtrace → Backtrace
  unwind [] b = b
  unwind (u ∷ us) b = unwind us (unwind_step u b)

-- agent_retrieveBacktrace
unfoldable pub agent_retrieve_backtrace : (ℕ → Option ℕ) → List Unwound → Event → Event
agent_retrieve_backtrace start_of us e =
    let b =
      unwind start_of e.h_ip_addr us
        (record { in_signal_frame = true; parent = none; map_for_recursion = []; frames = [] }) in
    record e { context_host = e.context_host ++ b.frames }

-- processEvent
unfoldable pub process_event : Event → Event
process_event e = record e {
  ip_addr = e.h_ip_addr;
  data_addr = e.h_data_addr;
  cpu = e.h_cpu;
  p_id = e.h_p_id;
  t_id = e.h_t_id;
  context_agent = e.context_host;
}

-- The pointer that get_previous_instruction leaves, 0 for NULL.
abbrev pub pointer_of : Option (Option ℕ) → ℕ
pointer_of (some (some p)) = p
pointer_of _ = 0

-- getValueAtAddress answers -1.
unfoldable pub native_agent : {I : Type 0} → Xed I → List ℕ → Agent
native_agent xed symbols = record {
  mem_access = λ wants_address ip old. get_mem_access xed wants_address ip old.float_type;
  previous_instruction = λ ip excludes.
      pointer_of (get_previous_instruction xed (get_start_address symbols ip) ip excludes);
  value_at = λ addr len. none;
}
