-- ===== src/Witch/Accounts.antt =====
-- What the callbacks of the logics, kvmTest/src/tools/witchTool/witchLogic/, do to the counters and to
-- the sampled event, in the words of the laws about them.
use kognizance_tool.Prelude.{ℕ, ◌≡◌, ◌⊎◌, Bool, true, false, ◌==◌, not, ◌&&◌, if◌then◌else◌, arith}
use kognizance_tool.Prelude.Int.{ℤ, pos, lez}
use kognizance_tool.Prelude.Map.{erase, nat_key}
use kognizance_tool.Event.{Event, AccessType, store}
use kognizance_tool.Watch.Address.{sub64}
use kognizance_tool.Watch.Trigger.{TriggerInfo}
use kognizance_tool.Watch.Slots.{TriggerAction, disable}
use kognizance_tool.Witch.Tree.{
  Floats, Metrics, PathTo, path_key, Tables, get_num_diff_samples_and_reset,
}
use kognizance_tool.Witch.Totals.{
  Counters, Logic, add_used, add_dead, add_watched, times64, change_metrics, overlap_of,
}
use kognizance_tool.Witch.Stores.{is_unknown, threshold}

-- The logic's two sets of counters changed alike.
abbrev pub Counted : {D : Type 0} → (Counters → Counters) → Logic D → Logic D → Type 0
Counted f l l' = (l'.total ≡ f l.total) × (l'.per_thread ≡ f l.per_thread)

-- One watched sample and what `f` counts, or nothing.
abbrev pub tally_if : Bool → (Counters → Counters) → Counters → Counters
tally_if counted f c = if counted then add_watched (f c) else c

-- A store leaves the sampled bytes dead, any other access uses them.
abbrev pub dead_store_tally : AccessType → ℤ → Counters → Counters
dead_store_tally store = add_dead
dead_store_tally _ = add_used

-- An access from the sample's own processor uses the sampled bytes.
abbrev pub false_sharing_tally : Bool → ℤ → Counters → Counters
false_sharing_tally true = add_used
false_sharing_tally false = add_dead

-- The event of the sample is forgotten, the others stay.
abbrev pub Forgets : {D : Type 0} → Event → Logic D → Logic D → Type 0
Forgets sample l l' = l'.tables.leaf_of_event ≡ erase sample.event_id l.tables.leaf_of_event

-- The bytes that a trap is worth.
abbrev pub credit : {D : Type 0} → Floats D → Event → Event → PathTo → Logic D → ℤ
credit double curr sample leaf l =
    times64
      (double.to_ℤ
        (get_num_diff_samples_and_reset double leaf (double.of_ℕ 1) threshold
          (sub64 curr.event_time sample.event_time) l.tables).0)
      sample.access_length

-- What a trap of DeadStore is to do: it is passed over, or forgets the event and counts.
abbrev pub DeadStoreJudged :
    {D : Type 0}
    → Floats D
    → Bool
    → Event
    → Event
    → TriggerInfo
    → PathTo
    → Logic D
    → TriggerAction × Logic D
    → Type 0
DeadStoreJudged double inst curr sample wpt leaf l r =
    let passed_over =
      not (is_unknown curr.access_type) && (inst && not (sample.fixed_ip == curr.fixed_ip)) in
    let counted =
      not (is_unknown curr.access_type) && not (lez (overlap_of curr sample wpt) (pos 0)) in
    ((passed_over ≡ true) × (r ≡ (disable, l)))
    ⊎ ((passed_over ≡ false)
        × Counted
            (tally_if counted
              (dead_store_tally curr.access_type (credit double curr sample leaf l)))
            l r.1
        × Forgets sample l r.1)

pub change_metrics-events :
    {D : Type 0} (p : PathTo) (f : Metrics → Metrics) (t : Tables D)
    → (change_metrics p f t).leaf_of_event ≡ t.leaf_of_event
unfolding change_metrics
change_metrics-events p f t = ground arith

pub reset-events :
    {D : Type 0} (double : Floats D) (p : PathTo) (prop : D) (threshold dist : ℕ) (t : Tables D)
    → (get_num_diff_samples_and_reset double p prop threshold dist t).1.leaf_of_event
      ≡ t.leaf_of_event
unfolding get_num_diff_samples_and_reset
reset-events double p prop threshold dist t = ground arith
