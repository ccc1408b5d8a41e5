-- ===== src/Watch/Cases.antt =====
-- A generator, a configuration and a first state for runs of the watchpoint library.
use kognizance_tool.Prelude.{ℕ, ◌+◌, ◌-◌, ◌*◌, ◌%◌, true, false, [], leb}
use kognizance_tool.Platform.World.{World}
use kognizance_tool.Watch.Slots.{auto}
use kognizance_tool.Watch.Victim.{Random}
use kognizance_tool.Watch.Arm.{Config}

-- A generator that counts, and whole numbers for the doubles.
abbrev pub counting : Random ℕ ℕ
counting = record {
  lrand = λ r. (r * 7 + 3, r + 1);
  drand = λ r. (r % 2, r + 1);
  srand = λ n. n;
  of_ℕ = λ n. n;
  add = λ a b. a + b;
  div = λ a b. a - b;
  leb = leb;
}

abbrev pub config : Config
config = record { is_wp_modify_enabled = false; replacement_policy = auto; max_wp = 4 }

abbrev pub start : World
start = record {
  is_agent_kvm = false;
  request_will_be_notified = true;
  kvm = record { connected = false; device_vcpu = []; vcpu_slots = [] };
  devices = [];
  device_sessions = [];
  events = [];
  thread_sessions = [];
  session_keys = [];
  next_session = 1;
  next_event = 0;
  in_signal_handler = false;
  signal_unsafe = false;
  trace = [];
}
