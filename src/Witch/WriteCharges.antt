-- ===== src/Witch/WriteCharges.antt =====
-- What a trap does to the counters and to the sampled event of RedSpy and DupSpy,
-- kvmTest/src/tools/witchTool/witchLogic/redSpy.cpp and dupSpy.cpp.
use kognizance_tool.Prelude.{
  ◌≡◌, refl, ◌∙◌, ap, ◌⊎◌, inl, inr, Bool, true, false, some, ◌==◌, ◌&&◌, not, Bool-cases,
}
use kognizance_tool.Prelude.Int.{ℤ}
use kognizance_tool.Prelude.Map.{lookup, erase, nat_key}
use kognizance_tool.Event.{Event}
use kognizance_tool.Watch.Address.{sub64}
use kognizance_tool.Watch.Trigger.{TriggerInfo}
use kognizance_tool.Watch.Slots.{TriggerAction}
use kognizance_tool.Witch.Tree.{Floats, PathTo, remove_event, get_num_diff_samples_and_reset}
use kognizance_tool.Witch.Totals.{Logic, count, add_watched, bits64}
use kognizance_tool.Witch.Stores.{finish, threshold}
use kognizance_tool.Witch.Loads.{record_red}
use kognizance_tool.Witch.Writes.{
  is_store, RedFlags, Rewrite, same_integer, same_float, other_integer, other_float,
  record_used_write, write_classify, write_attribute, red_spy_attribute, red_spy_on_wp,
}
use kognizance_tool.Witch.Accounts.{Forgets, credit, change_metrics-events, reset-events}
use kognizance_tool.Witch.LoadCharges.{LoadCharged}

-- The trap counts or is passed over, by a test; a passed trap leaves the logic as it was.
abbrev pub Judged :
    {D : Type 0}
    → Bool
    → Floats D
    → Event
    → Event
    → PathTo
    → Logic D
    → TriggerAction × Logic D
    → Type 0
Judged accepted double curr sample leaf l r =
    ((accepted ≡ true)
      × LoadCharged (credit double curr sample leaf l) l r.1
      × Forgets sample l r.1)
    ⊎ ((accepted ≡ false) × (r.1 ≡ l))

module _ {D S : Type 0} (double : Floats D) (float : Floats S) where
  write_classify-LoadCharged :
      (show_used : Bool) (v : Rewrite) (leaf : PathTo) (curr : Event) (inc : ℤ) (l : Logic D)
      → LoadCharged inc l
          (count add_watched (write_classify double float show_used v leaf curr inc l))
        × ((write_classify double float show_used v leaf curr inc l).tables.leaf_of_event
            ≡ l.tables.leaf_of_event)
  unfolding write_classify record_used_write record_red count
  write_classify-LoadCharged show_used same_integer leaf curr inc l =
      (inr (inr (inl (refl, refl))), change_metrics-events leaf _ _ ∙ change_metrics-events _ _ _)
  write_classify-LoadCharged show_used same_float leaf curr inc l =
      (inr (inr (inr (refl, refl))), change_metrics-events leaf _ _ ∙ change_metrics-events _ _ _)
  write_classify-LoadCharged show_used other_integer leaf curr inc l =
      (inr (inl (refl, refl)), change_metrics-events leaf _ _)
  write_classify-LoadCharged show_used other_float leaf curr inc l =
      (inr (inl (refl, refl)), change_metrics-events leaf _ _)

  write_attribute-LoadCharged :
      (show_used refused : Bool) (v : Rewrite) (curr sample : Event) (leaf : PathTo) (l : Logic D)
      → LoadCharged
          (credit double curr sample leaf l)
          l
          (write_attribute double float show_used refused v curr sample leaf l).1
        × Forgets sample l (write_attribute double float show_used refused v curr sample leaf l).1
  unfolding write_attribute finish remove_event count
  write_attribute-LoadCharged show_used true v curr sample leaf l = (inl (refl, refl), refl)
  write_attribute-LoadCharged show_used false v curr sample leaf l =
      let inc = credit double curr sample leaf l in
      let tables =
        (get_num_diff_samples_and_reset double leaf (double.of_ℕ 1) threshold
          (sub64 curr.event_time sample.event_time) l.tables).1 in
      let events =
        reset-events double leaf (double.of_ℕ 1) threshold (sub64 curr.event_time sample.event_time)
          l.tables in
      let known =
        write_classify-LoadCharged show_used v leaf curr inc (record l { tables = tables }) in
      elim (Bool-cases (bits64 inc == 0)) [
        | inl z ↦ rw (z, write_attribute) (inl (refl, refl), ap (erase sample.event_id) events)
        | inr n ↦ rw (n, write_attribute) (known.0, ap (erase sample.event_id) (known.1 ∙ events))
      ]

  module _ (curr sample : Event) (wpt : TriggerInfo) (leaf : PathTo) (l : Logic D)
      (known : lookup sample.event_id l.tables.leaf_of_event ≡ some leaf) where
    -- For a sampled event with a leaf, a trap of RedSpy by a store, at the sampled instruction if
    -- the flag asks for that, counts one watched sample with the sampled bytes, as used, redundant
    -- or approximately redundant, in both sets of counters, or nothing; it forgets the sampled
    -- event and no other. Any other trap changes nothing.
    pub red_spy_on_wp-Judged :
        (flags : RedFlags)
        → Judged
            (is_store curr.access_type
              && not (flags.inst && not (sample.fixed_ip == curr.fixed_ip)))
            double
            curr
            sample
            leaf
            l
            (red_spy_on_wp double float flags curr sample wpt l)
    unfolding red_spy_on_wp red_spy_attribute
    red_spy_on_wp-Judged flags = elim (Bool-cases (is_store curr.access_type)) [
      | inr f ↦ rw (f, red_spy_on_wp) (inr (refl, refl))
      | inl t ↦ elim (Bool-cases (flags.inst && not (sample.fixed_ip == curr.fixed_ip))) [
        | inl other ↦ rw (t, other, red_spy_on_wp) (inr (refl, refl))
        | inr same ↦
            let r = write_attribute-LoadCharged _ _ _ curr sample leaf l in
            rw (t, same, known, red_spy_on_wp) (inl (refl, r.0, r.1))
      ]
    ]
