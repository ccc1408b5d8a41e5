-- ===== src/Tool/Examples.antt =====
-- A session of the witch tool under RedSpy that takes one sample.
use kognizance_tool.Prelude.{inr, ℕ, ◌≡◌, refl, true, false, some, [], ◌∷◌, arith}
use kognizance_tool.Prelude.Map.{pair_key}
use kognizance_tool.Decoder.{Xed, other_category, type_other}
use kognizance_tool.Native.{native_agent}
use kognizance_tool.Platform.Ensures.{Returned, Ensures}
use kognizance_tool.Watch.Slots.{ThreadData}
use kognizance_tool.Watch.Thread.{fresh_slot}
use kognizance_tool.Watch.Subscribe.{wp_thread_init-IsValid}
use kognizance_tool.Watch.Accepted.{granting}
use kognizance_tool.Watch.Cases.{counting, config}
use kognizance_tool.Witch.Logics.{redspy}
use kognizance_tool.Witch.Cases.{whole, flags, no_tables-IsRooted}
use kognizance_tool.Tool.Handlers.{tool_event_handler, tool_session_exit, tool_pebs_event_handler}
use kognizance_tool.Tool.Cases.{
  avoided, agent, sampler, sampling, thread, logic, sample, sampler_found,
}
use kognizance_tool.Tool.Sound.{Sound, tool_event_handler-Sound}
use kognizance_tool.Platform.Removed.{Leaves}
use kognizance_tool.Tool.Exit.{AllReleased, AllGone, tool_session_exit-Released}
use kognizance_tool.Tool.Refused.{tool_pebs_event_handler-native}

tool_event_handler-Sound_example : Returned Sound (
    tool_event_handler
      (granting 9)
      false
      1
      counting
      whole
      whole
      flags
      avoided
      agent
      redspy
      config
      sampler.kind
      9
      20
      sample
      thread
      logic
      sampling)
tool_event_handler-Sound_example =
    tool_event_handler-Sound (granting 9) false 1 counting whole whole flags avoided agent redspy
      config sample thread logic (wp_thread_init-IsValid counting config 1 7, no_tables-IsRooted)
      (omega arith, omega arith) sampler sampling sampler_found 9 20

-- Instructions of two bytes, known by their addresses.
abbrev pairs : Xed ℕ
pairs = record {
  decode = λ a. some a;
  get_length = λ i. 2;
  number_of_memory_operands = λ i. 1;
  mem_read = λ i. false;
  mem_written = λ i. true;
  memory_operand_length = λ i. 4;
  category = λ i. other_category;
  operands = λ i. [];
  element_type_at = λ i n. type_other;
  agen = λ i. some 64;
}

tool_pebs_event_handler-native_example :
    Ensures
      (λ q. q ≡ (thread, logic))
      (tool_pebs_event_handler
        (granting 9)
        false
        1
        counting
        whole
        whole
        flags
        avoided
        (native_agent pairs (4096 ∷ []))
        redspy
        config
        20
        sample
        thread
        logic)
tool_pebs_event_handler-native_example =
    tool_pebs_event_handler-native pairs (4096 ∷ []) (granting 9) false 1 counting whole whole flags
      avoided redspy config 20 sample thread logic refl

abbrev watching_thread : ThreadData ℕ
watching_thread = record thread {
  slots =
      record (fresh_slot 1) { va = 64; wp_length = 8; is_active = true; file_handle = some 9 } ∷ [];
}

tool_session_exit-Released_example :
    Leaves
      (λ vs v. AllReleased vs × AllGone 1 watching_thread.slots v)
      (tool_session_exit (granting 9) false 1 counting watching_thread sampling)
unfolding fresh_slot
tool_session_exit-Released_example =
    tool_session_exit-Released (granting 9) false 1 counting watching_thread sampling
      (inr (inr (inr (inr refl)), omega arith, refl), tt, tt)
