-- ===== src/Native/Signal.antt =====
-- Device::dev_signal_handler of kvmTest/src/platform/device/device.cpp under the native agent, which
-- is the one that has agent_retrieveBacktrace. What Event() leaves uninitialised is in `fresh`.
use kognizance_tool.Prelude.{ℕ, ◌≡◌, refl, Bool, true, false, Option, List, if◌then◌else◌, ◌==◌}
use kognizance_tool.Prelude.Int.{ℤ}
use kognizance_tool.Event.{Event}
use kognizance_tool.Ring.{Ring}
use kognizance_tool.Platform.World.{DeviceKind, ebs, pebs, bp, Device, M, ◌>>=◌, pure, get_world}
use kognizance_tool.Platform.Sessions.{generate_event_key}
use kognizance_tool.Platform.Agent.{is_bp}
use kognizance_tool.Platform.Attributes.{
  Build, zeroed, register_ebs, register_pebs, register_bp, register_this_device,
}
use kognizance_tool.Platform.Ensures.{Ensures, Ensures-pure, Ensures-bind, Ensures-then, Ensures-if}
use kognizance_tool.Perf.Words.{has_bit}
use kognizance_tool.Perf.Buffer.{
  ReadOutcome, parsed, faulted, starved, num_mmap_pages, handle_perf_event,
}
use kognizance_tool.Perf.Ends.{Ended, perf_mmap_read-Ended}
use kognizance_tool.Native.{Unwound, agent_retrieve_backtrace, process_event}

-- The event as the agent completes it.
unfoldable pub completed_event : DeviceKind → (ℕ → Option ℕ) → List Unwound → Event → Event
completed_event kind start_of us e =
    process_event (
      agent_retrieve_backtrace start_of us (if is_bp kind then record e { fix_skid = true } else e))

-- dev_signal_handler, with the read head and the ring that it leaves.
unfoldable pub dev_signal_handler :
    {S : Type 0}
    → (Device → Event → S → M S)
    → (ℕ → Option ℕ)
    → List Unwound
    → Build
    → ℕ
    → Event
    → Device
    → ℤ
    → Option Ring
    → S
    → M (ReadOutcome (ℤ × Option Ring × S))
dev_signal_handler handler start_of us build pgsz fresh d read_head ring s = do
  w ← get_world
  read ←
      handle_perf_event (register_this_device build w.is_agent_kvm d zeroed).sample_type pgsz
        d.file_id read_head ring fresh
  elim read [
    | faulted ↦ pure faulted
    | starved ↦ pure starved
    | parsed (head, ring', e) ↦
        if w.request_will_be_notified then pure (parsed (head, ring', s)) else (do
          s' ← handler d (completed_event d.kind start_of us e) s
          pure (parsed (head, ring', s')))
  ]

-- No kind asks for raw data or for the user's stack.
clear_bits :
    (build : Build) (kvm : Bool) (d : Device) (kind : DeviceKind)
    → d.kind ≡ kind
    → (has_bit (register_this_device build kvm d zeroed).sample_type 10 ≡ false)
      × (has_bit (register_this_device build kvm d zeroed).sample_type 13 ≡ false)
unfolding has_bit register_this_device register_ebs register_pebs register_bp
clear_bits build kvm d ebs e = rw (e, register_this_device) (refl, refl)
clear_bits build true d pebs e = rw (e, register_this_device) (refl, refl)
clear_bits build false d pebs e = rw (e, register_this_device) (refl, refl)
clear_bits build kvm d bp e = rw (e, register_this_device) (refl, refl)

-- What handle_perf_event makes of the parser's answer.
answered :
    (o : ReadOutcome (ℤ × Option Ring × Event))
    → Ended o
    → Ended (elim o as (λ x. ReadOutcome (ℤ × Option Ring × Event)) [
      | parsed (head, ring, event) ↦ parsed (
        head,
        ring,
        if event.sample_index == 0 then event else record event { event_id = event.sample_index },
      )
      | faulted ↦ faulted
      | starved ↦ starved
    ])
answered (parsed a) h = tt
answered faulted h = tt
answered starved h = h

handle_perf_event-Ended :
    (type pgsz fd : ℕ) (head : ℤ) (ring : Option Ring) (fresh : Event)
    → has_bit type 10 ≡ false
    → has_bit type 13 ≡ false
    → Ensures Ended (handle_perf_event type pgsz fd head ring fresh)
unfolding handle_perf_event generate_event_key
handle_perf_event-Ended type pgsz fd head ring fresh no_raw no_stack = record {
  at = λ w. answered _ (
      perf_mmap_read-Ended (record { sample_type = type; read_format = 0; reg_mask = 0 })
        num_mmap_pages pgsz head ring
        (record fresh { event_id = w.next_event; device_file_id = fd }) no_raw no_stack);
}

module _ {S : Type 0} (handler : Device → Event → S → M S) (start_of : ℕ → Option ℕ)
    (us : List Unwound) (d : Device) (s : S) where
  abbrev pub after_read :
      Bool → ReadOutcome (ℤ × Option Ring × Event) → M (ReadOutcome (ℤ × Option Ring × S))
  after_read notified o = elim o [
    | faulted ↦ pure faulted
    | starved ↦ pure starved
    | parsed (head, ring', e) ↦ if notified then pure (parsed (head, ring', s)) else (do
      s' ← handler d (completed_event d.kind start_of us e) s
      pure (parsed (head, ring', s')))
  ]

  after_read-Ended :
      (notified : Bool) (o : ReadOutcome (ℤ × Option Ring × Event))
      → Ended o
      → Ensures Ended (after_read notified o)
  after_read-Ended notified (parsed (head, ring', e)) h =
      Ensures-if Ended notified _ _ (Ensures-pure Ended _ tt) (
        Ensures-then Ended (handler d (completed_event d.kind start_of us e) s) _
          λ s'. Ensures-pure Ended (parsed (head, ring', s')) tt)
  after_read-Ended notified faulted h = Ensures-pure Ended faulted tt
  after_read-Ended notified starved h = absurd h

  -- Whatever bytes the ring of a device holds, and of whichever kind the device is, the handler of
  -- its signal does not get stuck in the loop over the records: whenever it returns, the loop came
  -- to its end, or a read left the buffer. The attributes of no kind ask for raw data
  -- or for the user's stack.
  pub dev_signal_handler-Ended :
      (build : Build) (pgsz : ℕ) (fresh : Event) (head : ℤ) (ring : Option Ring)
      → Ensures Ended (dev_signal_handler handler start_of us build pgsz fresh d head ring s)
  unfolding dev_signal_handler
  dev_signal_handler-Ended build pgsz fresh head ring = record {
    at = λ w.
        (Ensures-bind Ended Ended
            (handle_perf_event (register_this_device build w.is_agent_kvm d zeroed).sample_type pgsz
              d.file_id head ring fresh)
            (after_read w.request_will_be_notified)
            (handle_perf_event-Ended _ pgsz d.file_id head ring fresh
              (clear_bits build w.is_agent_kvm d d.kind refl).0
              (clear_bits build w.is_agent_kvm d d.kind refl).1)
            (after_read-Ended w.request_will_be_notified)).at
          w;
  }
