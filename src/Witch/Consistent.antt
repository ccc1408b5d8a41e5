-- ===== src/Witch/Consistent.antt =====
-- The steps of the logics' callbacks, kvmTest/src/tools/witchTool/witchLogic, on the tree and the
-- pending samples.
use kognizance_tool.Prelude.{
  ◌≡◌, inl, inr, Bool, true, false, ◌==◌, ◌||◌, if◌then◌else◌, Bool-cases,
}
use kognizance_tool.Prelude.Int.{ℤ, pos, lez}
use kognizance_tool.Prelude.Map.{nat_key}
use kognizance_tool.Event.{Event, AccessType, load, store, load_and_store, unknown}
use kognizance_tool.Watch.Address.{sub64, offset_in_first, offset_in_second}
use kognizance_tool.Watch.Trigger.{TriggerInfo}
use kognizance_tool.Witch.Tree.{
  Floats, Metrics, PathTo, ContextType, path_key, get_num_diff_samples_and_reset,
}
use kognizance_tool.Witch.Totals.{
  Counters, Logic, count, add_watched, bits64, change_metrics, overlap_of, plus64,
}
use kognizance_tool.Witch.Stores.{
  finish, threshold, record_used, record_dead, attribute, dead_store_classify,
  false_sharing_classify,
}
use kognizance_tool.Witch.Loads.{
  Verdict, redundant, approximately_redundant, not_redundant, is_far, record_used_load,
  load_spy_compare, rate_red, record_red, load_spy_classify, load_spy_attribute,
}
use kognizance_tool.Witch.Writes.{
  Rewrite, same_integer, same_float, other_integer, other_float, record_used_write, write_classify,
  write_attribute,
}
use kognizance_tool.Witch.Accounts.{credit}
use kognizance_tool.Witch.Rooted.{
  IsRooted, Fits, change_metrics-Fits, frames-Fits, reset-Fits, remove_event-IsRooted,
}

module _ {D S : Type 0} (double : Floats D) (float : Floats S) where
  -- What every callback's last steps keep.
  pub finish-IsRooted :
      (sample : Event) (l : Logic D) → IsRooted l.tables → IsRooted (finish sample l).1.tables
  unfolding finish
  finish-IsRooted sample l h = remove_event-IsRooted sample l.tables h

  pub dead_store_classify-Fits :
      (curr : Event) (a : AccessType) (leaf : PathTo) (inc : ℤ) (l : Logic D)
      → curr.access_type ≡ a
      → Fits leaf l.tables
      → Fits leaf (dead_store_classify double float curr leaf inc l).tables
  unfolding dead_store_classify record_used record_dead count
  dead_store_classify-Fits curr load leaf inc l e h =
      rw (e, dead_store_classify) (change_metrics-Fits leaf leaf _ l.tables h)
  dead_store_classify-Fits curr load_and_store leaf inc l e h =
      rw (e, dead_store_classify) (change_metrics-Fits leaf leaf _ l.tables h)
  dead_store_classify-Fits curr unknown leaf inc l e h = rw (e, dead_store_classify) h
  dead_store_classify-Fits curr store leaf inc l e h =
      rw (e, dead_store_classify)
        (change_metrics-Fits leaf leaf _ _
          (change_metrics-Fits leaf _ _ _ (frames-Fits _ _ leaf _ l.tables h)))

  pub false_sharing_classify-Fits :
      (curr sample : Event) (leaf : PathTo) (inc : ℤ) (l : Logic D)
      → Fits leaf l.tables
      → Fits leaf (false_sharing_classify double float curr sample leaf inc l).tables
  unfolding false_sharing_classify record_used record_dead count
  false_sharing_classify-Fits curr sample leaf inc l h =
      elim (Bool-cases (curr.cpu == sample.cpu)) [
        | inl t ↦ rw (t, false_sharing_classify) (change_metrics-Fits leaf leaf _ l.tables h)
        | inr f ↦
            rw (f, false_sharing_classify)
              (change_metrics-Fits leaf leaf _ _
                (change_metrics-Fits leaf _ _ _ (frames-Fits _ _ leaf _ l.tables h)))
      ]

  record_red-Fits :
      (c : ContextType) (tally : ℤ → Counters → Counters) (more : Metrics → Metrics) (leaf : PathTo)
      (curr : Event) (inc : ℤ) (l : Logic D)
      → Fits leaf l.tables
      → Fits leaf (record_red double float c tally more leaf curr inc l).tables
  unfolding record_red count
  record_red-Fits c tally more leaf curr inc l h =
      change_metrics-Fits leaf leaf _ _
        (change_metrics-Fits leaf _ _ _ (frames-Fits _ _ leaf _ l.tables h))

  load_spy_classify-Fits :
      (v : Verdict) (leaf : PathTo) (curr : Event) (inc : ℤ) (l : Logic D)
      → Fits leaf l.tables
      → Fits leaf (load_spy_classify double float v leaf curr inc l).tables
  unfolding load_spy_classify record_used_load count
  load_spy_classify-Fits redundant leaf curr inc l h = record_red-Fits _ _ _ leaf curr inc l h
  load_spy_classify-Fits approximately_redundant leaf curr inc l h =
      record_red-Fits _ _ _ leaf curr inc l h
  load_spy_classify-Fits not_redundant leaf curr inc l h =
      change_metrics-Fits leaf leaf _ l.tables h

  record_used_write-Fits :
      (show_used rates : Bool) (leaf : PathTo) (curr : Event) (inc : ℤ) (l : Logic D)
      → Fits leaf l.tables
      → Fits leaf (record_used_write double float show_used rates leaf curr inc l).tables
  unfolding record_used_write count
  record_used_write-Fits true rates leaf curr inc l h =
      let more = λ (m : Metrics). record m { used_bytes = plus64 m.used_bytes inc } in
      let rated = if rates then (λ m. rate_red double float (more m)) else more in
      frames-Fits _ _ leaf _ (change_metrics leaf rated l.tables)
        (change_metrics-Fits leaf leaf rated l.tables h)
  record_used_write-Fits false rates leaf curr inc l h = change_metrics-Fits leaf leaf _ l.tables h

  write_classify-Fits :
      (show_used : Bool) (v : Rewrite) (leaf : PathTo) (curr : Event) (inc : ℤ) (l : Logic D)
      → Fits leaf l.tables
      → Fits leaf (write_classify double float show_used v leaf curr inc l).tables
  unfolding write_classify
  write_classify-Fits show_used same_integer leaf curr inc l h =
      record_red-Fits _ _ _ leaf curr inc l h
  write_classify-Fits show_used same_float leaf curr inc l h =
      record_red-Fits _ _ _ leaf curr inc l h
  write_classify-Fits show_used other_integer leaf curr inc l h =
      record_used_write-Fits show_used true leaf curr inc l h
  write_classify-Fits show_used other_float leaf curr inc l h =
      record_used_write-Fits show_used false leaf curr inc l h

  -- The shape that the callbacks share: the table is reset, the bytes are classified, and the
  -- sample is forgotten.
  classified-IsRooted :
      (classify : Logic D → Logic D) (curr sample : Event) (leaf : PathTo) (l : Logic D)
      → ((k : Logic D) → Fits leaf k.tables → Fits leaf (classify k).tables)
      → Fits leaf l.tables
      → let tables =
          (get_num_diff_samples_and_reset double leaf
            (double.of_ℕ 1)
            threshold
            (sub64 curr.event_time sample.event_time)
            l.tables).1 in
        IsRooted (finish sample (record l { tables = tables })).1.tables
        × IsRooted
            (finish sample (count add_watched (classify (record l { tables = tables })))).1.tables
  unfolding count
  classified-IsRooted classify curr sample leaf l k h =
      let dist = sub64 curr.event_time sample.event_time in
      let tables =
        (get_num_diff_samples_and_reset double leaf (double.of_ℕ 1) threshold dist l.tables).1 in
      let reset = record l { tables = tables } in
      let fits = reset-Fits double leaf (double.of_ℕ 1) threshold dist l.tables h in
      (
        finish-IsRooted sample reset fits.0,
        finish-IsRooted sample (count add_watched (classify reset)) (k reset fits).0,
      )

  module _ (curr sample : Event) (wpt : TriggerInfo) (leaf : PathTo) (l : Logic D)
      (h : Fits leaf l.tables) where
    pub attribute-IsRooted :
        (classify : PathTo → ℤ → Logic D → Logic D)
        → ((inc : ℤ) (k : Logic D) → Fits leaf k.tables → Fits leaf (classify leaf inc k).tables)
        → IsRooted (attribute double float classify curr sample wpt leaf l).1.tables
    unfolding attribute
    attribute-IsRooted classify k =
        let r =
          classified-IsRooted (classify leaf (credit double curr sample leaf l)) curr sample leaf l
            (k _) h in
        elim (Bool-cases (lez (overlap_of curr sample wpt) (pos 0))) [
          | inl t ↦ rw (t, attribute) r.0
          | inr f ↦ rw (f, attribute) r.1
        ]

    pub load_spy_attribute-IsRooted :
        IsRooted (load_spy_attribute double float curr sample wpt leaf l).1.tables
    unfolding load_spy_attribute
    load_spy_attribute-IsRooted =
        let overlap = overlap_of curr sample wpt in
        let first = offset_in_first curr.data_addr sample.data_addr in
        let second = offset_in_second curr.data_addr sample.data_addr in
        let inc = credit double curr sample leaf l in
        let v = load_spy_compare double float curr sample overlap first second in
        let r =
          classified-IsRooted (load_spy_classify double float v leaf curr inc) curr sample leaf l
            (load_spy_classify-Fits v leaf curr inc) h in
        elim (Bool-cases (lez overlap (pos 0) || is_far second || is_far first)) [
          | inl t ↦ rw (t, load_spy_attribute) (finish-IsRooted sample l h.0)
          | inr f ↦ elim (Bool-cases (bits64 inc == 0)) [
            | inl z ↦ rw (f, z, load_spy_attribute) r.0
            | inr n ↦ rw (f, n, load_spy_attribute) r.1
          ]
        ]

    pub write_attribute-IsRooted :
        (show_used refused : Bool) (v : Rewrite)
        → IsRooted (write_attribute double float show_used refused v curr sample leaf l).1.tables
    unfolding write_attribute
    write_attribute-IsRooted show_used true v = finish-IsRooted sample l h.0
    write_attribute-IsRooted show_used false v =
        let inc = credit double curr sample leaf l in
        let r =
          classified-IsRooted (write_classify double float show_used v leaf curr inc) curr sample
            leaf l (write_classify-Fits show_used v leaf curr inc) h in
        elim (Bool-cases (bits64 inc == 0)) [
          | inl z ↦ rw (z, write_attribute) r.0
          | inr n ↦ rw (n, write_attribute) r.1
        ]
