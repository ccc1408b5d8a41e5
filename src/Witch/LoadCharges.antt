-- ===== src/Witch/LoadCharges.antt =====
-- What a trap does to the counters and to the sampled event of LoadSpy,
-- kvmTest/src/tools/witchTool/witchLogic/loadSpy.cpp.
use kognizance_tool.Prelude.{
  ◌≡◌, refl, ◌∙◌, ap, ◌⊎◌, inl, inr, true, false, some, ◌==◌, ◌||◌, ◌&&◌, Bool, not, Bool-cases,
}
use kognizance_tool.Prelude.Int.{ℤ, pos, lez}
use kognizance_tool.Prelude.Map.{lookup, erase, nat_key}
use kognizance_tool.Event.{Event}
use kognizance_tool.Watch.Address.{sub64, offset_in_first, offset_in_second}
use kognizance_tool.Watch.Trigger.{TriggerInfo}
use kognizance_tool.Watch.Slots.{TriggerAction, disable, retain}
use kognizance_tool.Witch.Tree.{Floats, PathTo, remove_event, get_num_diff_samples_and_reset}
use kognizance_tool.Witch.Totals.{
  Counters, Logic, count, add_used, add_red, add_approx_red, add_watched, overlap_of, bits64,
}
use kognizance_tool.Witch.Stores.{finish, threshold}
use kognizance_tool.Witch.Loads.{
  is_load, is_far, Verdict, redundant, approximately_redundant, not_redundant, record_used_load,
  record_red, load_spy_compare, load_spy_classify, load_spy_attribute, load_spy_on_wp,
}
use kognizance_tool.Witch.Accounts.{
  Counted, tally_if, Forgets, credit, change_metrics-events, reset-events,
}

-- Nothing was counted, or one watched sample with `inc` bytes: used, redundant or approximately
-- redundant.
abbrev pub LoadCharged : {D : Type 0} → ℤ → Logic D → Logic D → Type 0
LoadCharged inc l l' =
    Counted (λ c. c) l l'
    ⊎ (Counted (λ c. add_watched (add_used inc c)) l l'
        ⊎ (Counted (λ c. add_watched (add_red inc c)) l l'
            ⊎ Counted (λ c. add_watched (add_approx_red inc c)) l l'))

-- The counter that takes the bytes, by the outcome of the comparison.
abbrev pub verdict_tally : Verdict → ℤ → Counters → Counters
verdict_tally redundant = add_red
verdict_tally approximately_redundant = add_approx_red
verdict_tally not_redundant = add_used

-- What a load that is not passed over counts: nothing if the accesses do not overlap, one of them
-- starts too far in front of the other, or the bytes are 0.
abbrev pub load_tally :
    {D S : Type 0} → Floats D → Floats S → Event → Event → TriggerInfo → ℤ → Counters → Counters
load_tally double float curr sample wpt inc =
    let overlap = overlap_of curr sample wpt in
    let first = offset_in_first curr.data_addr sample.data_addr in
    let second = offset_in_second curr.data_addr sample.data_addr in
    tally_if (not (lez overlap (pos 0) || is_far second || is_far first) && not (bits64 inc == 0))
      (verdict_tally (load_spy_compare double float curr sample overlap first second) inc)

-- What a trap of LoadSpy is to do: it retains the watchpoint, is passed over, or counts.
abbrev pub LoadJudged :
    {D S : Type 0}
    → Floats D
    → Floats S
    → Bool
    → Event
    → Event
    → TriggerInfo
    → PathTo
    → Logic D
    → TriggerAction × Logic D
    → Type 0
LoadJudged double float inst curr sample wpt leaf l r =
    let other = inst && not (sample.fixed_ip == curr.fixed_ip) in
    ((is_load curr.access_type ≡ false) × (r ≡ (retain, l)))
    ⊎ ((is_load curr.access_type && other ≡ true) × (r ≡ (disable, l))
        ⊎ ((is_load curr.access_type && not other ≡ true)
            × Counted (load_tally double float curr sample wpt (credit double curr sample leaf l)) l
                r.1
            × Forgets sample l r.1))

module _ {D S : Type 0} (double : Floats D) (float : Floats S) where
  load_spy_classify-Counted :
      (v : Verdict) (leaf : PathTo) (curr : Event) (inc : ℤ) (l : Logic D)
      → Counted (verdict_tally v inc) l (load_spy_classify double float v leaf curr inc l)
        × ((load_spy_classify double float v leaf curr inc l).tables.leaf_of_event
            ≡ l.tables.leaf_of_event)
  unfolding load_spy_classify record_used_load record_red count
  load_spy_classify-Counted redundant leaf curr inc l =
      ((refl, refl), change_metrics-events leaf _ _ ∙ change_metrics-events _ _ _)
  load_spy_classify-Counted approximately_redundant leaf curr inc l =
      ((refl, refl), change_metrics-events leaf _ _ ∙ change_metrics-events _ _ _)
  load_spy_classify-Counted not_redundant leaf curr inc l =
      ((refl, refl), change_metrics-events leaf _ _)

  load_spy_attribute-Counted :
      (curr sample : Event) (wpt : TriggerInfo) (leaf : PathTo) (l : Logic D)
      → Counted
          (load_tally double float curr sample wpt (credit double curr sample leaf l))
          l
          (load_spy_attribute double float curr sample wpt leaf l).1
        × Forgets sample l (load_spy_attribute double float curr sample wpt leaf l).1
  unfolding load_spy_attribute finish remove_event count
  load_spy_attribute-Counted curr sample wpt leaf l =
      let overlap = overlap_of curr sample wpt in
      let first = offset_in_first curr.data_addr sample.data_addr in
      let second = offset_in_second curr.data_addr sample.data_addr in
      let inc = credit double curr sample leaf l in
      let tables =
        (get_num_diff_samples_and_reset double leaf (double.of_ℕ 1) threshold
          (sub64 curr.event_time sample.event_time) l.tables).1 in
      let events =
        reset-events double leaf (double.of_ℕ 1) threshold (sub64 curr.event_time sample.event_time)
          l.tables in
      let known =
        load_spy_classify-Counted (load_spy_compare double float curr sample overlap first second)
          leaf curr inc (record l { tables = tables }) in
      elim (Bool-cases (lez overlap (pos 0) || is_far second || is_far first)) [
        | inl t ↦ rw (t, load_spy_attribute) ((refl, refl), refl)
        | inr f ↦ elim (Bool-cases (bits64 inc == 0)) [
          | inl z ↦ rw (f, z, load_spy_attribute) ((refl, refl), ap (erase sample.event_id) events)
          | inr n ↦
              rw (f, n, load_spy_attribute)
                (
                  (ap add_watched known.0.0, ap add_watched known.0.1),
                  ap (erase sample.event_id) (known.1 ∙ events),
                )
        ]
      ]

  module _ (curr sample : Event) (wpt : TriggerInfo) (leaf : PathTo) (l : Logic D)
      (known : lookup sample.event_id l.tables.leaf_of_event ≡ some leaf) where
    -- For a sampled event with a leaf, a trap by another access than a load retains the watchpoint
    -- and changes nothing. A trap by a load at another instruction, with the same-instruction test
    -- compiled in, disables the watchpoint and changes nothing else, so the sampled event is not
    -- forgotten. Any other trap forgets the sampled event and no other, and counts, in both sets of
    -- counters, one watched sample with the sampled bytes, as used, redundant or approximately
    -- redundant by the comparison of the values, or nothing if the accesses do not overlap, one
    -- starts too far in front of the other, or the bytes are 0.
    pub load_spy_on_wp-LoadCharged :
        (inst : Bool)
        → LoadJudged double float inst curr sample wpt leaf l
            (load_spy_on_wp double float inst curr sample wpt l)
    unfolding load_spy_on_wp
    load_spy_on_wp-LoadCharged inst = elim (Bool-cases (is_load curr.access_type)) [
      | inr f ↦ rw (f, load_spy_on_wp) (inl (refl, refl))
      | inl t ↦ elim (Bool-cases (inst && not (sample.fixed_ip == curr.fixed_ip))) [
        | inl other ↦ rw (t, other, load_spy_on_wp) (inr (inl (refl, refl)))
        | inr same ↦
            let r = load_spy_attribute-Counted curr sample wpt leaf l in
            rw (t, same, known, load_spy_on_wp) (inr (inr (refl, r.0, r.1)))
      ]
    ]
