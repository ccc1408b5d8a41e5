-- ===== src/Guest/Sound.antt =====
-- The witch tool under the KVM agent: from kvm__doneEventProcessing_HyPerf of
-- kvmTest/src/agent/kvmAgent/kvminterface.cpp to tool_eventHandler of
-- kvmTest/src/tools/witchTool/mytool.cpp.
use kognizance_tool.Prelude.{ℕ, ◌+◌, ◌<◌, ◌≡◌, ap, ◌∙◌, Bool, some}
use kognizance_tool.Prelude.Map.{lookup, pair_key}
use kognizance_tool.Event.{Event}
use kognizance_tool.AgentApi.{Agent}
use kognizance_tool.Platform.World.{Device, Host, World}
use kognizance_tool.Platform.Ensures.{Returned}
use kognizance_tool.Watch.Address.{word_size}
use kognizance_tool.Watch.Slots.{ThreadData}
use kognizance_tool.Watch.Victim.{Random}
use kognizance_tool.Watch.Arm.{Config}
use kognizance_tool.Witch.Tree.{Floats}
use kognizance_tool.Witch.Totals.{Logic}
use kognizance_tool.Witch.Logics.{WitchLogicType, Flags}
use kognizance_tool.Tool.Handlers.{Avoided}
use kognizance_tool.Tool.Sound.{Sound, tool_handler, tool_event_handler-Sound}
use kognizance_tool.Guest.Interface.{Considered, Report, event_of_report, done_event_processing}
use kognizance_tool.Guest.Reports.{done_event_processing-Keeps}

module _ {R F D S : Type 0} (host : Host) (fast : Bool) (tid : ℕ) (env : Random R F)
    (doubles : Floats D) (floats : Floats S) (flags : Flags) (avoided : Avoided) (agent : Agent)
    (type : WitchLogicType) (config : Config) (now : ℕ) where
  -- If the thread's watchpoints are valid and the logic's tree and pending samples consistent, then
  -- so they are when the processing of the guest's report returns, whether it is passed over or
  -- reaches the tool, for a report of this thread about a known device with addresses at least 8
  -- below 2^64.
  pub done_event_processing-Sound :
      (considered : Considered) (fresh : Event) (time : ℕ) (r : Report) (t : ThreadData R)
      (l : Logic D) (w : World) (d : Device)
      → Sound (t, l)
      → r.thread_id ≡ tid
      → r.data_addr + 8 < word_size
      → r.ip + 8 < word_size
      → lookup (tid, r.device_id) w.devices ≡ some d
      → Returned Sound (
          done_event_processing host tid
            (tool_handler host fast tid env doubles floats flags avoided agent type config now)
            considered
            fresh
            time
            r
            (t, l)
            w)
  unfolding event_of_report
  done_event_processing-Sound considered fresh time r t l w d sound thread data_room ip_room found =
      done_event_processing-Keeps host tid
        (tool_handler host fast tid env doubles floats flags avoided agent type config now) Sound
        fresh time r (t, l) sound w d found
        (λ id v same.
          tool_event_handler-Sound host fast tid env doubles floats flags avoided agent type config
            (event_of_report fresh id time r) t l sound (data_room, ip_room) d v
            (ap (λ k. lookup (k, r.device_id) v.devices) thread
              ∙ ap (λ m. lookup (tid, r.device_id) m) same
              ∙ found)
            d.file_id now)
        considered
