-- ===== src/Witch/Stores.antt =====
-- Witch_OnWP_Callback of DeadStore and FalseSharing,
-- kvmTest/src/tools/witchTool/witchLogic/deadStore.cpp and falsesharing.cpp. The printing is left
-- out. `inst` tells whether WITCHTOOL_DEADSTORE_INST is defined.
use kognizance_tool.Prelude.{ℕ, Bool, true, false, none, some, ◌==◌, not, ◌&&◌, if◌then◌else◌}
use kognizance_tool.Prelude.Int.{ℤ, pos, lez}
use kognizance_tool.Prelude.Map.{lookup, nat_key}
use kognizance_tool.Event.{Event, AccessType, store, unknown}
use kognizance_tool.Watch.Address.{sub64}
use kognizance_tool.Watch.Slots.{TriggerAction, disable}
use kognizance_tool.Watch.Trigger.{TriggerInfo}
use kognizance_tool.Witch.Tree.{
  Floats, Metrics, PathTo, sampled_context, add_frames_to_context_tree,
  get_num_diff_samples_and_reset, remove_event,
}
use kognizance_tool.Witch.Totals.{
  Logic, count, add_used, add_dead, add_watched, plus64, times64, change_metrics, overlap_of,
}

abbrev pub is_unknown : AccessType → Bool
is_unknown unknown = true
is_unknown _ = false

abbrev pub threshold : ℕ
threshold = 100003

-- removeEventContextMapEntry, and the answer WP_DISABLE.
unfoldable pub finish : {D : Type 0} → Event → Logic D → TriggerAction × Logic D
finish sample l = (disable, record l { tables = remove_event sample l.tables })

module _ {D S : Type 0} (double : Floats D) (float : Floats S) where
  -- INEFFICIENCY from the dead and the used bytes.
  unfoldable pub rate_dead : Metrics → Metrics
  rate_dead m = record m {
    inefficiency = float.to_ℤ (
        float.mul
          (float.div (float.of_ℤ m.dead_bytes) (float.of_ℤ (plus64 m.dead_bytes m.used_bytes)))
          (float.of_ℕ 100));
  }

  unfoldable pub record_used : PathTo → ℤ → Logic D → Logic D
  record_used leaf inc l =
      let counted = count (add_used inc) l in
      record counted {
        tables =
            change_metrics leaf (λ m. rate_dead (record m { used_bytes = plus64 m.used_bytes inc }))
              counted.tables;
      }

  -- The trap's frames go below the sample's leaf, and both leaves count.
  unfoldable pub record_dead : PathTo → Event → ℤ → Logic D → Logic D
  record_dead leaf curr inc l =
      let (watched, nodes) =
        add_frames_to_context_tree sampled_context curr.context_agent leaf false l.tables.nodes in
      let counted = count (add_dead inc) l in
      let grown = record l.tables { nodes = nodes } in
      let more = λ (m : Metrics). record m { dead_bytes = plus64 m.dead_bytes inc } in
      record counted {
        tables = change_metrics leaf (λ m. rate_dead (more m)) (change_metrics watched more grown);
      }

  -- From the sample's leaf on; `judge` tells whether the trap uses the value, leaves it dead or
  -- neither.
  unfoldable pub attribute :
      (PathTo → ℤ → Logic D → Logic D)
      → Event
      → Event
      → TriggerInfo
      → PathTo
      → Logic D
      → TriggerAction × Logic D
  attribute classify curr sample wpt leaf l =
      let (diff, tables) =
        get_num_diff_samples_and_reset double leaf (double.of_ℕ 1) threshold
          (sub64 curr.event_time sample.event_time) l.tables in
      let inc = times64 (double.to_ℤ diff) sample.access_length in
      let reset = record l { tables = tables } in
      if lez (overlap_of curr sample wpt) (pos 0)
      then finish sample reset
      else finish sample (count add_watched (classify leaf inc reset))

  unfoldable pub dead_store_classify : Event → PathTo → ℤ → Logic D → Logic D
  dead_store_classify curr leaf inc l = elim curr.access_type [
    | store ↦ record_dead leaf curr inc l
    | unknown ↦ l
    | _ ↦ record_used leaf inc l
  ]

  unfoldable pub false_sharing_classify : Event → Event → PathTo → ℤ → Logic D → Logic D
  false_sharing_classify curr sample leaf inc l =
      if curr.cpu == sample.cpu then record_used leaf inc l else record_dead leaf curr inc l

  unfoldable pub dead_store_on_wp :
      Bool → Event → Event → TriggerInfo → Logic D → TriggerAction × Logic D
  dead_store_on_wp inst curr sample wpt l =
      if is_unknown curr.access_type
      then finish sample l
      else if inst && not (sample.fixed_ip == curr.fixed_ip)
      then (disable, l)
      else elim (lookup sample.event_id l.tables.leaf_of_event) [
        | none ↦ finish sample l
        | some leaf ↦ attribute (dead_store_classify curr) curr sample wpt leaf l
      ]

  unfoldable pub false_sharing_on_wp :
      Event → Event → TriggerInfo → Logic D → TriggerAction × Logic D
  false_sharing_on_wp curr sample wpt l =
      if is_unknown curr.access_type
      then finish sample l
      else elim (lookup sample.event_id l.tables.leaf_of_event) [
        | none ↦ finish sample l
        | some leaf ↦ attribute (false_sharing_classify curr sample) curr sample wpt leaf l
      ]
