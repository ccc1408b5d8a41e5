-- ===== src/Witch/Cases.antt =====
-- A small program's samples and traps, with whole numbers for the doubles.
use kognizance_tool.Prelude.{ℕ, ◌+◌, ◌-◌, ◌*◌, true, false, [], ◌∷◌, ltb, ◌==◌, inl, inr}
use kognizance_tool.Prelude.Int.{pos, pos_part}
use kognizance_tool.Prelude.Map.{lookup}
use kognizance_tool.Event.{Event, Frame, AccessType, elem_unknown, unknown_space}
use kognizance_tool.Watch.Trigger.{TriggerInfo}
use kognizance_tool.Witch.Tree.{Floats, Tables, path_key, no_metrics}
use kognizance_tool.Witch.Totals.{Counters, Logic}
use kognizance_tool.Witch.Laws.{IsTree}
use kognizance_tool.Witch.Writes.{RedFlags, DupFlags}
use kognizance_tool.Witch.Logics.{Flags}
use kognizance_tool.Witch.Rooted.{IsRooted}

-- Whole numbers in place of the doubles.
abbrev pub whole : Floats ℕ
whole = record {
  of_ℕ = λ n. n;
  of_ℤ = λ z. pos_part z;
  add = λ a b. a + b;
  sub = λ a b. a - b;
  mul = λ a b. a * b;
  div = λ a b. a;
  lt = ltb;
  eq = ◌==◌;
  to_ℤ = λ n. pos n;
  of_bytes = λ bs. 0;
  is_far_off = λ n. ltb 1 n;
}

abbrev main_frame : Frame
main_frame = record { binary_addr = 100; src_lineno = 1; method_name = []; source_file = [] }

abbrev leaf_frame : Frame
leaf_frame = record { binary_addr = 200; src_lineno = 7; method_name = []; source_file = [] }

abbrev pub event_of : ℕ → AccessType → ℕ → Event
event_of id access time = record {
  event_id = id;
  device_file_id = 9;
  context_host = [];
  context_agent = leaf_frame ∷ main_frame ∷ [];
  t_id = 1;
  h_t_id = 1;
  p_id = 1;
  h_p_id = 1;
  ip_addr = 4096;
  data_addr = 64;
  cpu = 0;
  h_ip_addr = 4096;
  h_data_addr = 64;
  h_cpu = 0;
  value_at_event = 1 ∷ 2 ∷ 3 ∷ 4 ∷ [];
  inst = 0;
  event_time = time;
  access_type = access;
  access_length = 4;
  float_type = elem_unknown;
  address_space = unknown_space;
  fix_skid = false;
  is_fixed = true;
  fixed_ip = 4096;
  sample_index = 0;
}

abbrev pub no_tables : Tables ℕ
no_tables = record { nodes = []; leaf_of_event = []; prop_attr = [] }

no_tables-IsTree : IsTree []
unfolding lookup
no_tables-IsTree k p (inl e) = absurd (cc)
no_tables-IsTree k p (inr (n, e)) = absurd (cc)

abbrev one_sampled : Tables ℕ
one_sampled = record {
  nodes = ((200, 7) ∷ [], record { frame = leaf_frame; metrics = no_metrics }) ∷ [];
  leaf_of_event = (5, (200, 7) ∷ []) ∷ [];
  prop_attr = ((200, 7) ∷ [], record { catchup_num = 1; cur_num = 3; avg_distance = 0 }) ∷ [];
}

abbrev pub no_counts : Counters
no_counts = record { used = 0; red = 0; approx_red = 0; dead = 0; watched = 0 }

abbrev pub logic : Logic ℕ
logic = record { tables = one_sampled; total = no_counts; per_thread = no_counts }

abbrev pub trap : TriggerInfo
trap = record { va = 64; watch_len = 4 }

abbrev pub red_flags : RedFlags
red_flags = record { inst = true; consider_approx = true; show_used = true }

abbrev pub dup_flags : DupFlags
dup_flags = record { on_load = false; on_overlap = true; consider_approx = true; show_used = false }

abbrev pub flags : Flags
flags = record { dead_inst = false; load_inst = false; red = red_flags; dup = dup_flags }

pub no_tables-IsRooted : IsRooted no_tables
unfolding lookup
no_tables-IsRooted = (no_tables-IsTree, λ i p h. absurd (cc))
