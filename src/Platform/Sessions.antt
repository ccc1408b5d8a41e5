-- ===== src/Platform/Sessions.antt =====
-- Session and event keys of kvmTest/includes/platform/platform.hpp, and the signal handler, the
-- allocation callbacks and getMaxDevices of kvmTest/src/platform/platform.cpp. The keys are counted
-- without the wrap-around of an int. The flags of the handler are those of the thread that gets the
-- signal; what a device does on a signal is an argument.
use kognizance_tool.Prelude.{
  ℕ, zero, suc, ◌+◌, ◌*◌, Bool, true, false, Option, none, some, if◌then◌else◌,
}
use kognizance_tool.Prelude.Map.{lookup, insert, erase, nat_key}
use kognizance_tool.Event.{Event, store}
use kognizance_tool.Platform.World.{DeviceKind, Device, Host, done, exited, M, ◌>>=◌, ◌>>◌, pure}
use kognizance_tool.Platform.Agent.{is_bp}
use kognizance_tool.Platform.Devices.{
  get_device, register_device, remove_device_by_session, pause_all_devices, resume_all_devices,
}

-- generate_session_key; `sessionKey` is a variable of each thread.
unfoldable pub generate_session_key : ℕ → M ℕ
generate_session_key tid w = pure w.next_session (record w {
  next_session = w.next_session + 1;
  session_keys = insert tid w.next_session w.session_keys;
  thread_sessions = insert tid w.next_session w.thread_sessions;
})

unfoldable pub destroy_session_key : ℕ → M Unit
destroy_session_key tid w = pure tt (record w { thread_sessions = insert tid 0 w.thread_sessions })

-- The subscript enters the key 0 for a thread with none.
unfoldable pub get_session_key_from_thread_id : ℕ → M ℕ
get_session_key_from_thread_id tid w = elim (lookup tid w.thread_sessions) [
  | some s ↦ pure s w
  | none ↦ pure 1 (record w { thread_sessions = insert tid 1 w.thread_sessions })
]

-- `sessionKey` is -1 in a thread that has generated none.
unfoldable pub get_session_key : ℕ → M ℕ
get_session_key tid w = elim (lookup tid w.session_keys) [ some s ↦ pure s w | none ↦ pure 0 w ]

unfoldable pub generate_event_key : M ℕ
generate_event_key w = pure w.next_event (record w { next_event = w.next_event + 1 })

unfoldable pub add_new_event : ℕ → Event → M Unit
add_new_event id e w = pure tt (record w { events = insert id e w.events })

unfoldable pub remove_event : ℕ → M Unit
remove_event id w = pure tt (record w { events = erase id w.events })

unfoldable pub get_event : ℕ → M (Option Event)
get_event id w = pure (lookup id w.events) w

-- `__sync_lock_test_and_set(&inSignalHandler, 1)`
unfoldable pub is_in_signal_handler : M Bool
is_in_signal_handler w = pure w.in_signal_handler (record w { in_signal_handler = true })

unfoldable pub exiting_signal_handler : M Unit
exiting_signal_handler w = pure tt (record w { in_signal_handler = false })

-- ENTERING_SIGNAL_UNSAFE, which the callbacks before an allocation run, and
-- EXITING_SIGNAL_UNSAFE, which those behind it run.
unfoldable pub entering_signal_unsafe : M Bool
entering_signal_unsafe w = pure w.signal_unsafe (record w { signal_unsafe = true })

unfoldable pub exiting_signal_unsafe : M Unit
exiting_signal_unsafe w = pure tt (record w { signal_unsafe = false })

-- MAX_POSSIBLE_DEVICES
abbrev pub max_possible_devices : ℕ
max_possible_devices = 128

-- The device that getMaxDevices makes in its round n, with the address of the dummy variables. The
-- fields that a subclass does not have are 0.
unfoldable pub probe : DeviceKind → ℕ → ℕ → Device
probe kind base n = record {
  kind = kind;
  file_id = 0;
  session_id = 0;
  mapped = false;
  is_disabled = false;
  length = if is_bp kind then 1 else 0;
  bp_type = if is_bp kind then 2 else 0;
  address = if is_bp kind then base + 4 * n else 0;
  access_type = store;
}

-- `if(!agent->requestWillBeNotified) …`
unfoldable pub unless_notified : M Unit → M Unit
unless_notified m w = if w.request_will_be_notified then pure tt w else m w

module _ (host : Host) where
  -- The loop over at most `left` more devices, with `count` registered so far.
  unfoldable pub probe_devices : ℕ → ℕ → (ℕ → Device) → ℕ → ℕ → M ℕ
  probe_devices tid s device zero count w = pure count w
  probe_devices tid s device (suc left) count w =
      elim (register_device host tid s (device count) w) [
        | exited v ↦ exited v
        | done r v ↦
            let rest = probe_devices tid s device left (suc count) v in
            if r.0 then rest else pure count v
      ]

  unfoldable pub get_max_devices : ℕ → DeviceKind → ℕ → M ℕ
  get_max_devices tid kind base = do
    s ← generate_session_key tid
    count ← probe_devices tid s (probe kind base) max_possible_devices 0
    remove_device_by_session host tid s
    pure count

  module _ (dev_signal_handler : Device → M Unit) where
    -- From the test for a signal within a signal on.
    unfoldable pub handle_signal : ℕ → ℕ → M Unit
    handle_signal tid fd = do
      nested ← is_in_signal_handler
      if nested then unless_notified (resume_all_devices host) else (do
        found ← get_device tid fd
        elim found [ none ↦ pure tt | some d ↦ dev_signal_handler d ]
        exiting_signal_handler
        unless_notified (resume_all_devices host))

    -- From the test for a signal within an allocation on.
    unfoldable pub guard_signal : ℕ → ℕ → M Unit
    guard_signal tid fd = do
      unsafe ← entering_signal_unsafe
      if unsafe
          then unless_notified (resume_all_devices host)
          else (do exiting_signal_unsafe; handle_signal tid fd)

    unfoldable pub generic_dev_signal_handler : ℕ → ℕ → M Unit
    generic_dev_signal_handler tid fd = do
      unless_notified (pause_all_devices host)
      guard_signal tid fd
