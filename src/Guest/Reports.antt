-- ===== src/Guest/Reports.antt =====
-- How a report of the guest reaches the tool, and when it does not:
-- kvm__doneEventProcessing_HyPerf of kvmTest/src/agent/kvmAgent/kvminterface.cpp with
-- done_processEvent and postAgentProcessing.
use kognizance_tool.Prelude.{
  ℕ, ◌≡◌, refl, ap, ◌∙◌, sym, subst, ◌⊎◌, inl, inr, Bool, true, false, none, some, ◌==◌,
  if◌then◌else◌, arith, Option-cases,
}
use kognizance_tool.Prelude.Map.{lookup, pair_key, nat_key}
use kognizance_tool.Event.{Event}
use kognizance_tool.Platform.World.{Device, Host, World, M, get_world}
use kognizance_tool.Platform.Devices.{get_device, resume_devices_by_session}
use kognizance_tool.Platform.Sessions.{
  get_session_key_from_thread_id, generate_event_key, add_new_event,
}
use kognizance_tool.Platform.Dispatch.{handle_event, post_agent_processing, done_process_event}
use kognizance_tool.Platform.Ensures.{
  Returned, Returned-bind, Ensures, Ensures-pure, Ensures-if, Ensures-then, Ensures-weaker,
}
use kognizance_tool.Guest.Interface.{
  Considered, is_considered, Report, event_of_report, skip_report, take_report,
  done_event_processing,
}

either :
    {A : Type 0} (P : A → Type 0) (b : Bool) (m k : M A) (v : World)
    → Returned P (m v)
    → Returned P (k v)
    → Returned P ((if b then m else k) v)
either P true m k v h g = h
either P false m k v h g = g

module _ (host : Host) (tid : ℕ) {S : Type 0} (handler : Device → Event → S → M S) where
  -- Without an event the tool's state stays.
  done_process_event-none :
      (fd session : ℕ) (s : S)
      → Ensures (λ s'. s' ≡ s) (done_process_event host tid handler none fd session s)
  unfolding done_process_event post_agent_processing handle_event
  done_process_event-none fd session s = Ensures-then _ (get_device tid fd) _ λ found.
      Ensures-then _ get_world _ λ w.
        Ensures-if _ w.request_will_be_notified _ _
          (Ensures-then _ (resume_devices_by_session host tid session) _ λ _. Ensures-pure _ s refl)
          (Ensures-pure _ s refl)

  skip_report-same :
      (r : Report) (s : S) → Ensures (λ s'. s' ≡ s) (skip_report host tid handler r s)
  unfolding skip_report
  skip_report-same r s =
      Ensures-then _ (get_session_key_from_thread_id r.thread_id) _
        λ session. done_process_event-none r.device_id session s

  -- A report whose instruction pointer is 0, or whose address is in a space that is not considered,
  -- leaves the tool's state as it was whenever the call returns, whatever the tool's handler does.
  pub done_event_processing-skipped :
      (considered : Considered) (fresh : Event) (time : ℕ) (r : Report) (s : S)
      → ((r.ip ≡ 0) ⊎ (is_considered considered r.address_type ≡ false))
      → Ensures (λ s'. s' ≡ s) (done_event_processing host tid handler considered fresh time r s)
  unfolding done_event_processing
  done_event_processing-skipped considered fresh time r s (inl zero_ip) =
      let t : (r.ip == 0) ≡ true = ground (arith, zero_ip) in
      rw (t, done_event_processing) (skip_report-same r s)
  done_event_processing-skipped considered fresh time r s (inr outside) =
      rw (outside, done_event_processing)
        (Ensures-if _ (r.ip == 0) _ _ (skip_report-same r s) (skip_report-same r s))

  module _ (P : S → Type 0) (fresh : Event) (time : ℕ) (r : Report) (s : S) (kept : P s) (w : World)
      (d : Device) (found : lookup (tid, r.device_id) w.devices ≡ some d)
      (handled : (id : ℕ) (v : World)
        → v.devices ≡ w.devices
        → Returned P (handler d (event_of_report fresh id time r) s v)) where
    -- From the device on.
    posted :
        (id session : ℕ) (v : World)
        → v.devices ≡ w.devices
        → Returned P (
            post_agent_processing host tid handler
              (some d)
              (some (event_of_report fresh id time r))
              session
              s
              v)
    unfolding post_agent_processing handle_event
    posted id session v same =
        either P v.request_will_be_notified _ _ v
          (Returned-bind P P (handler d (event_of_report fresh id time r) s v) _ (handled id v same)
            λ s' k.
              Ensures-then P (resume_devices_by_session host tid session) _
                λ _. Ensures-pure P s' k)
          kept

    completed :
        (id session : ℕ) (v : World)
        → v.devices ≡ w.devices
        → Returned P (
            done_process_event host tid handler
              (some (event_of_report fresh id time r))
              r.device_id
              session
              s
              v)
    unfolding done_process_event get_device
    completed id session v same =
        let known : lookup (tid, r.device_id) v.devices ≡ some d =
          ap (λ m. lookup (tid, r.device_id) m) same ∙ found in
        rw (known, done_process_event, get_device) (posted id session v same)

    taken : Returned P (take_report host tid handler fresh time r s w)
    unfolding take_report generate_event_key add_new_event get_session_key_from_thread_id
    taken = elim (Option-cases (lookup r.thread_id w.thread_sessions)) [
      | inl n ↦ rw (n, take_report, Returned) (completed _ _ _ refl)
      | inr (k, e) ↦ rw (e, take_report, Returned) (completed _ _ _ refl)
    ]

    pub done_event_processing-Keeps :
        (considered : Considered)
        → Returned P (done_event_processing host tid handler considered fresh time r s w)
    unfolding done_event_processing
    done_event_processing-Keeps considered =
        let skipped = (Ensures-weaker (λ s' e. subst P (sym e) kept) (skip_report-same r s)).at w in
        either P (r.ip == 0) _ _ w skipped
          (either P (is_considered considered r.address_type) _ _ w taken skipped)
