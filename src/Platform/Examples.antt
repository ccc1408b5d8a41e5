-- ===== src/Platform/Examples.antt =====
-- Runs of the platform layer at concrete states.
use kognizance_tool.Prelude.{ℕ, ◌≡◌, ◌≢◌, refl, inr, true, false, Option, none, some, List, [], ◌∷◌}
use kognizance_tool.Prelude.Map.{lookup, nat_key}
use kognizance_tool.Platform.World.{Kvm, Host, World, pure, option_key}
use kognizance_tool.Platform.Frame.{After, core}
use kognizance_tool.Platform.Agent.{take_slot, free_slots, bp_place, slot_index}
use kognizance_tool.Platform.Devices.{session_files, register_device, remove_device_by_session}
use kognizance_tool.Watch.Arm.{new_bp_device}
use kognizance_tool.Platform.Removed.{Leaves}
use kognizance_tool.Platform.Registered.{Registered, register_device-Registered}
use kognizance_tool.Platform.SessionRemoved.{GoneEach, remove_device_by_session-Gone}
use kognizance_tool.Platform.Sessions.{generic_dev_signal_handler}
use kognizance_tool.Platform.Signals.{signal-refused}
use kognizance_tool.Platform.Places.{take_slot-placed, free_slots-placed}

abbrev silent : Host
silent = record { file = λ t c. none; success = λ t c. true }

-- Two virtual CPUs: the slots of the first are all taken, the second has one free slot.
abbrev full_slots : List (Option ℕ)
full_slots = some 3 ∷ some 4 ∷ some 5 ∷ some 6 ∷ []

abbrev half_slots : List (Option ℕ)
half_slots = some 7 ∷ none ∷ some 8 ∷ some 9 ∷ []

abbrev two_cpus : Kvm
two_cpus = record {
  connected = true;
  device_vcpu = (3, some 0) ∷ (7, some 1) ∷ [];
  vcpu_slots = (some 0, full_slots) ∷ (some 1, half_slots) ∷ [];
}

abbrev nested : World
nested = record {
  is_agent_kvm = true;
  request_will_be_notified = false;
  kvm = two_cpus;
  devices = [];
  device_sessions = [];
  events = [];
  thread_sessions = [];
  session_keys = [];
  next_session = 1;
  next_event = 0;
  in_signal_handler = true;
  signal_unsafe = false;
  trace = [];
}

signal-refused_example :
    After (λ v. core v ≡ core nested) (generic_dev_signal_handler silent (λ d. pure tt) 1 3 nested)
signal-refused_example = signal-refused silent (λ d. pure tt) 1 3 nested (inr refl)

take_slot-placed_example :
    (b : ℕ) × ((bp_place 11 (take_slot 11 true (some 1) two_cpus).0).0 ≡ some (some 1, b))
unfolding take_slot lookup slot_index
take_slot-placed_example = take_slot-placed 11 1 two_cpus refl refl

free_slots-placed_example :
    ((bp_place 3 (free_slots 3 true two_cpus)).0 ≡ none)
    × ((ss' : List (Option ℕ)) × (lookup (some 0) (free_slots 3 true two_cpus).vcpu_slots
          ≡ some ss')
        × (slot_index (some 3) ss' ≡ none)
        × ((g : ℕ) → g ≢ 3 → slot_index (some g) ss' ≡ slot_index (some g) full_slots))
unfolding lookup
free_slots-placed_example = free_slots-placed 3 (some 0) two_cpus full_slots refl refl

-- Two devices, one of which is the session's.
abbrev two_devices : World
two_devices = record nested {
  devices = ((1, 3), new_bp_device 8 1 64) ∷ ((1, 4), new_bp_device 4 1 128) ∷ [];
  device_sessions = (2, 3) ∷ (5, 4) ∷ [];
}

remove_device_by_session-Gone_example :
    Leaves
      (λ a v.
        GoneEach 1 (session_files 2 two_devices.device_sessions) v
        × (session_files 2 v.device_sessions ≡ []))
      (remove_device_by_session silent 1 2 two_devices)
remove_device_by_session-Gone_example = remove_device_by_session-Gone silent 1 2 two_devices

register_device-Registered_example :
    Leaves
      (Registered 1 5 (new_bp_device 8 1 64))
      (register_device silent 1 5 (new_bp_device 8 1 64) nested)
register_device-Registered_example =
    register_device-Registered silent 1 5 (new_bp_device 8 1 64) nested
