-- ===== src/Tool/Signal.antt =====
-- From a device's signal to the witch tool under the native agent: Device::dev_signal_handler of
-- kvmTest/src/platform/device/device.cpp with tool_eventHandler of
-- kvmTest/src/tools/witchTool/mytool.cpp.
use kognizance_tool.Prelude.{
  ℕ, ◌+◌, arith, ◌≡◌, refl, ap, ◌∙◌, Bool, true, false, Option, some, List, ◌==◌, if◌then◌else◌,
}
use kognizance_tool.Prelude.Int.{ℤ}
use kognizance_tool.Prelude.Map.{lookup, pair_key}
use kognizance_tool.Event.{Event}
use kognizance_tool.AgentApi.{Agent}
use kognizance_tool.Ring.{Ring}
use kognizance_tool.Platform.World.{DeviceKind, Device, Host, World, Outcome, done, exited, M}
use kognizance_tool.Platform.Attributes.{Build, zeroed, register_this_device}
use kognizance_tool.Platform.Sessions.{generate_event_key}
use kognizance_tool.Platform.Ensures.{Returned, Returned-bind, Ensures-pure}
use kognizance_tool.Watch.Slots.{ThreadData}
use kognizance_tool.Watch.Victim.{Random}
use kognizance_tool.Watch.Arm.{Config}
use kognizance_tool.Witch.Tree.{Floats}
use kognizance_tool.Witch.Totals.{Logic}
use kognizance_tool.Witch.Logics.{WitchLogicType, Flags}
use kognizance_tool.Perf.Buffer.{
  ReadOutcome, parsed, faulted, starved, num_mmap_pages, perf_mmap_read, handle_perf_event,
}
use kognizance_tool.Native.{Unwound, agent_retrieve_backtrace, process_event}
use kognizance_tool.Native.Signal.{completed_event, after_read, dev_signal_handler}
use kognizance_tool.Tool.Handlers.{Avoided}
use kognizance_tool.Tool.Sound.{Sound, HasRoom, tool_handler, tool_event_handler-Sound}

-- The handler returned with a sound state.
abbrev pub LeftSound :
    {R D : Type 0} → ReadOutcome (ℤ × Option Ring × (ThreadData R × Logic D)) → Type 0
LeftSound (parsed (head, ring, s)) = Sound s
LeftSound faulted = ⊥
LeftSound starved = ⊥

abbrev named : Event → Event
named e = if e.sample_index == 0 then e else record e { event_id = e.sample_index }

handle_perf_event-parsed :
    (type pgsz fd : ℕ) (head head' : ℤ) (ring ring' : Option Ring) (fresh e : Event) (w : World)
    → perf_mmap_read
        (record { sample_type = type; read_format = 0; reg_mask = 0 })
        num_mmap_pages
        pgsz
        head
        ring
        (record fresh { event_id = w.next_event; device_file_id = fd })
      ≡ parsed (head', ring', e)
    → handle_perf_event type pgsz fd head ring fresh w
      ≡ done (parsed (head', ring', named e)) (record w { next_event = w.next_event + 1 })
unfolding handle_perf_event generate_event_key
handle_perf_event-parsed type pgsz fd head head' ring ring' fresh e w read =
    rw (read, handle_perf_event) refl

completed-HasRoom :
    (kind : DeviceKind) (start_of : ℕ → Option ℕ) (us : List Unwound) (e : Event)
    → HasRoom e
    → HasRoom (completed_event kind start_of us (named e))
unfolding completed_event agent_retrieve_backtrace process_event
completed-HasRoom kind start_of us e room = ground (arith, room)

completed-key :
    (kind : DeviceKind) (start_of : ℕ → Option ℕ) (us : List Unwound) (e : Event)
    → ((completed_event kind start_of us (named e)).h_t_id ≡ e.h_t_id)
      × ((completed_event kind start_of us (named e)).device_file_id ≡ e.device_file_id)
unfolding completed_event agent_retrieve_backtrace process_event
completed-key kind start_of us e = ground arith

then_done :
    {A B : Type 0} (P : B → Type 0) (o : Outcome A) (k : A → M B) (a : A) (v : World)
    → o ≡ done a v
    → Returned P (k a v)
    → Returned P (elim o [ done b u ↦ k b u | exited u ↦ exited u ])
then_done P o k a v ran h = rw ran h

module _ {R F D S : Type 0} (host : Host) (fast : Bool) (tid : ℕ) (env : Random R F)
    (doubles : Floats D) (floats : Floats S) (flags : Flags) (avoided : Avoided) (agent : Agent)
    (type : WitchLogicType) (config : Config) (now : ℕ) (start_of : ℕ → Option ℕ)
    (us : List Unwound) (build : Build) (pgsz : ℕ) where
  -- If the thread's watchpoints are valid and the logic's tree and pending samples consistent, and
  -- the new records in the device's ring parse to an event with addresses at least 8 below 2^64 whose
  -- thread and file are those of the device in the table, then the handler of the signal, when it
  -- returns, leaves them so.
  pub dev_signal_handler-Sound :
      (fresh e : Event) (d : Device) (head head' : ℤ) (ring ring' : Option Ring) (t : ThreadData R)
      (l : Logic D) (w : World)
      → Sound (t, l)
      → perf_mmap_read
          (record {
            sample_type = (register_this_device build w.is_agent_kvm d zeroed).sample_type;
            read_format = 0;
            reg_mask = 0;
          })
          num_mmap_pages
          pgsz
          head
          ring
          (record fresh { event_id = w.next_event; device_file_id = d.file_id })
        ≡ parsed (head', ring', e)
      → HasRoom e
      → lookup (e.h_t_id, e.device_file_id) w.devices ≡ some d
      → Returned LeftSound (
          dev_signal_handler
            (tool_handler host fast tid env doubles floats flags avoided agent type config now)
            start_of
            us
            build
            pgsz
            fresh
            d
            head
            ring
            (t, l)
            w)
  unfolding dev_signal_handler
  dev_signal_handler-Sound fresh e d head head' ring ring' t l w sound read room found =
      let ran =
        handle_perf_event-parsed (register_this_device build w.is_agent_kvm d zeroed).sample_type
          pgsz d.file_id head head' ring ring' fresh e w read in
      let handler =
        tool_handler host fast tid env doubles floats flags avoided agent type config now in
      let event = completed_event d.kind start_of us (named e) in
      let key = completed-key d.kind start_of us e in
      let v = record w { next_event = w.next_event + 1 } in
      then_done LeftSound _ (after_read handler start_of us d (t, l) w.request_will_be_notified)
        (parsed (head', ring', named e)) v ran
        (notified_or w.request_will_be_notified (
          tool_event_handler-Sound host fast tid env doubles floats flags avoided agent type config
            event t l sound (completed-HasRoom d.kind start_of us e room) d v
            (ap (λ k. lookup (k, event.device_file_id) w.devices) key.0
              ∙ ap (λ k. lookup (e.h_t_id, k) w.devices) key.1
              ∙ found)
            d.file_id now))
    where
      notified_or :
          (notified : Bool)
          → Returned Sound (
              tool_handler host fast tid env doubles floats flags avoided agent type config now d
                (completed_event d.kind start_of us (named e))
                (t, l)
                (record w { next_event = w.next_event + 1 }))
          → Returned LeftSound (
              after_read
                (tool_handler host fast tid env doubles floats flags avoided agent type config now)
                start_of
                us
                d
                (t, l)
                notified
                (parsed (head', ring', named e))
                (record w { next_event = w.next_event + 1 }))
      notified_or true h = sound
      notified_or false h =
          Returned-bind Sound LeftSound _ _ h
            λ s k. Ensures-pure LeftSound (parsed (head', ring', s)) k
