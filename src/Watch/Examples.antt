-- ===== src/Watch/Examples.antt =====
-- Runs of the watchpoint library at concrete slots.
use kognizance_tool.Prelude.{
  Bool, ℕ, ◌≡◌, refl, inl, inr, true, false, none, some, List, [], ◌∷◌, map, arith,
}
use kognizance_tool.Prelude.Int.{pos}
use kognizance_tool.Platform.World.{pure}
use kognizance_tool.Platform.Ensures.{Ensures}
use kognizance_tool.Watch.Address.{validate_wp_data, addresses_overlap}
use kognizance_tool.Watch.Slots.{RegisterInfo, ThreadData, wp_rw, bump}
use kognizance_tool.Watch.Victim.{get_victim_auto}
use kognizance_tool.Watch.Reservoir.{get_victim_auto-slots}
use kognizance_tool.Watch.Arm.{is_breakpoint_length, arm_watch_point}
use kognizance_tool.Watch.Thread.{fresh_slot, wp_subscribe}
use kognizance_tool.Watch.Rearm.{Rearmed, arm_watch_point-Rearmed}
use kognizance_tool.Watch.Disjoint.{IsValid}
use kognizance_tool.Watch.Subscribe.{wp_subscribe-IsValid}
use kognizance_tool.Event.{Event, unknown, elem_unknown, unknown_space}
use kognizance_tool.Watch.Slots.{disable}
use kognizance_tool.Watch.Trigger.{on_watch_point}
use kognizance_tool.Watch.Trapped.{on_watch_point-IsValid}
use kognizance_tool.Watch.Address.{is_aligned}
use kognizance_tool.Watch.Slots.{is_overlapped}
use kognizance_tool.Watch.Victim.{first_inactive}
use kognizance_tool.Watch.Installed.{WatchedAt, wp_subscribe-granted}
use kognizance_tool.Watch.Accepted.{granting, Succeeds}
use kognizance_tool.Watch.Cases.{counting, config, start}

abbrev watching : ℕ → ℕ → RegisterInfo
watching va len = record {
  va = va;
  wp_length = len;
  start_time = pos 5;
  file_handle = some 9;
  thread_id = 1;
  is_active = true;
  mmap_buffer = true;
  sampled_event = none;
  sample_post_full = 1;
}

abbrev two_slots : List RegisterInfo
two_slots = watching 16 8 ∷ watching 32 4 ∷ []

abbrev thread : ThreadData ℕ
thread = record { sample_post_full = 1; rand_buffer = 1; slots = two_slots }

two_slots-IsValid : IsValid two_slots
two_slots-IsValid = (
  inr (ground arith, ground arith, refl),
  (inr (inr (inl (ground arith))), tt),
  (inr (ground arith, ground arith, refl), tt, tt),
)

abbrev trap_event : Event
trap_event = record {
  event_id = 3;
  device_file_id = 9;
  context_host = [];
  context_agent = [];
  t_id = 1;
  h_t_id = 1;
  p_id = 1;
  h_p_id = 1;
  ip_addr = 4096;
  data_addr = 16;
  cpu = 0;
  h_ip_addr = 4096;
  h_data_addr = 16;
  h_cpu = 0;
  value_at_event = [];
  inst = 0;
  event_time = 30;
  access_type = unknown;
  access_length = 8;
  float_type = elem_unknown;
  address_space = unknown_space;
  fix_skid = false;
  is_fixed = true;
  fixed_ip = 4096;
  sample_index = 0;
}

abbrev trapped : ThreadData ℕ
trapped = record thread {
  slots = record (watching 16 8) { sampled_event = some trap_event } ∷ watching 32 4 ∷ [];
}

trapped-IsValid : IsValid trapped.slots
trapped-IsValid = (
  inr (ground arith, ground arith, refl),
  (inr (inr (inl (ground arith))), tt),
  (inr (ground arith, ground arith, refl), tt, tt),
)

on_watch_point-IsValid_example :
    Ensures
      (λ r. IsValid r.0.slots)
      (on_watch_point
        (granting 9)
        false
        1
        (λ e. pure (true, e))
        (λ c s w l. (disable, l))
        config
        false
        9
        trap_event
        trapped
        tt)
on_watch_point-IsValid_example =
    on_watch_point-IsValid (granting 9) false 1 config (λ e. pure (true, e))
      (λ c s w l. (disable, l)) false 9 trap_event trapped tt trapped-IsValid

wp_subscribe-IsValid_example :
    Ensures
      (λ r. IsValid r.1.slots)
      (wp_subscribe (granting 9) false 1 counting config thread 64 8 wp_rw none 20)
wp_subscribe-IsValid_example =
    wp_subscribe-IsValid counting (granting 9) false 1 config thread 64 8 wp_rw none 20
      (ground arith) two_slots-IsValid

arm_watch_point-Rearmed_example :
    Ensures
      (λ r. Rearmed 64 8 (watching 16 8) r.1)
      (arm_watch_point (granting 9) false 1 config (watching 16 8) 8 wp_rw 64 none 20)
arm_watch_point-Rearmed_example =
    arm_watch_point-Rearmed (granting 9) false 1 config (watching 16 8) 8 wp_rw 64 none 20

get_victim_auto-slots_example : (get_victim_auto counting two_slots 1).slots ≡ map bump two_slots
get_victim_auto-slots_example = get_victim_auto-slots counting two_slots 1

abbrev half_full : ThreadData ℕ
half_full = record thread { slots = watching 16 8 ∷ fresh_slot 1 ∷ [] }

wp_subscribe-granted_example :
    Succeeds {A = Bool × ThreadData ℕ}
      (λ r. (r.0 ≡ true) × WatchedAt 9 64 8 1 r.1.slots)
      (wp_subscribe (granting 9) false 1 counting config half_full 64 8 wp_rw none 20 start)
unfolding fresh_slot is_breakpoint_length validate_wp_data is_aligned is_overlapped
    addresses_overlap first_inactive
wp_subscribe-granted_example =
    wp_subscribe-granted 9 64 8 counting false 1 config half_full wp_rw none 20 start 1 refl refl
      refl (refl, refl) refl refl
