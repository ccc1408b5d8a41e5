-- ===== src/Witch/Charges.antt =====
-- What a trap does to the counters and to the sampled event: the callbacks of
-- kvmTest/src/tools/witchTool/witchLogic/deadStore.cpp, falsesharing.cpp and loadSpy.cpp.
use kognizance_tool.Prelude.{
  ◌≡◌, refl, ◌∙◌, inl, inr, Bool, false, some, ◌==◌, not, ◌&&◌, Bool-cases, ap,
}
use kognizance_tool.Prelude.Int.{ℤ, pos, lez}
use kognizance_tool.Prelude.Map.{lookup, erase, nat_key}
use kognizance_tool.Event.{Event, AccessType, load, store, load_and_store, unknown}
use kognizance_tool.Watch.Address.{sub64}
use kognizance_tool.Watch.Trigger.{TriggerInfo}
use kognizance_tool.Witch.Tree.{
  Floats, PathTo, path_key, get_num_diff_samples_and_reset, remove_event,
}
use kognizance_tool.Witch.Totals.{
  Counters, Logic, count, add_used, add_dead, add_watched, overlap_of,
}
use kognizance_tool.Witch.Stores.{
  is_unknown, threshold, finish, record_used, record_dead, attribute, dead_store_classify,
  false_sharing_classify, dead_store_on_wp, false_sharing_on_wp,
}
use kognizance_tool.Witch.Accounts.{
  Counted, tally_if, dead_store_tally, false_sharing_tally, Forgets, credit, DeadStoreJudged,
  change_metrics-events, reset-events,
}

module _ {D S : Type 0} (double : Floats D) (float : Floats S) where
  record_used-Counted :
      (leaf : PathTo) (inc : ℤ) (l : Logic D)
      → Counted (add_used inc) l (record_used double float leaf inc l)
  unfolding record_used count
  record_used-Counted leaf inc l = (refl, refl)

  record_dead-Counted :
      (leaf : PathTo) (curr : Event) (inc : ℤ) (l : Logic D)
      → Counted (add_dead inc) l (record_dead double float leaf curr inc l)
  unfolding record_dead count
  record_dead-Counted leaf curr inc l = (refl, refl)

  record_used-events :
      (leaf : PathTo) (inc : ℤ) (l : Logic D)
      → (record_used double float leaf inc l).tables.leaf_of_event ≡ l.tables.leaf_of_event
  unfolding record_used count
  record_used-events leaf inc l = change_metrics-events leaf _ l.tables

  record_dead-events :
      (leaf : PathTo) (curr : Event) (inc : ℤ) (l : Logic D)
      → (record_dead double float leaf curr inc l).tables.leaf_of_event ≡ l.tables.leaf_of_event
  unfolding record_dead count
  record_dead-events leaf curr inc l = change_metrics-events leaf _ _ ∙ change_metrics-events _ _ _

  -- The bytes are counted by `tally`, and the sampled events stay.
  abbrev Classified : (ℤ → Counters → Counters) → ℤ → Logic D → Logic D → Type 0
  Classified tally inc l l' =
      Counted (tally inc) l l' × (l'.tables.leaf_of_event ≡ l.tables.leaf_of_event)

  dead_store_classify-Classified :
      (curr : Event) (a : AccessType) (leaf : PathTo) (inc : ℤ) (l : Logic D)
      → curr.access_type ≡ a
      → is_unknown a ≡ false
      → Classified (dead_store_tally a) inc l (dead_store_classify double float curr leaf inc l)
  unfolding dead_store_classify
  dead_store_classify-Classified curr load leaf inc l e h =
      rw (e, dead_store_classify) (record_used-Counted leaf inc l, record_used-events leaf inc l)
  dead_store_classify-Classified curr store leaf inc l e h =
      rw (e, dead_store_classify)
        (record_dead-Counted leaf curr inc l, record_dead-events leaf curr inc l)
  dead_store_classify-Classified curr load_and_store leaf inc l e h =
      rw (e, dead_store_classify) (record_used-Counted leaf inc l, record_used-events leaf inc l)
  dead_store_classify-Classified curr unknown leaf inc l e h = absurd (cc)

  false_sharing_classify-Classified :
      (curr sample : Event) (leaf : PathTo) (inc : ℤ) (l : Logic D)
      → Classified
          (false_sharing_tally (curr.cpu == sample.cpu))
          inc
          l
          (false_sharing_classify double float curr sample leaf inc l)
  unfolding false_sharing_classify
  false_sharing_classify-Classified curr sample leaf inc l =
      elim (Bool-cases (curr.cpu == sample.cpu)) [
        | inl t ↦ rw t (record_used-Counted leaf inc l, record_used-events leaf inc l)
        | inr f ↦ rw f (record_dead-Counted leaf curr inc l, record_dead-events leaf curr inc l)
      ]

  module _ (tally : ℤ → Counters → Counters) (classify : PathTo → ℤ → Logic D → Logic D)
      (curr sample : Event) (wpt : TriggerInfo) (leaf : PathTo) (l : Logic D)
      (h : (inc : ℤ) (k : Logic D) → Classified tally inc k (classify leaf inc k)) where
    attribute-Counted :
        Counted
          (tally_if
            (not (lez (overlap_of curr sample wpt) (pos 0)))
            (tally (credit double curr sample leaf l)))
          l
          (attribute double float classify curr sample wpt leaf l).1
        × Forgets sample l (attribute double float classify curr sample wpt leaf l).1
    unfolding attribute finish count remove_event
    attribute-Counted =
        let (diff, tables) =
          get_num_diff_samples_and_reset double leaf (double.of_ℕ 1) threshold
            (sub64 curr.event_time sample.event_time) l.tables in
        let events =
          reset-events double leaf (double.of_ℕ 1) threshold
            (sub64 curr.event_time sample.event_time) l.tables in
        let known = h (credit double curr sample leaf l) (record l { tables = tables }) in
        elim (Bool-cases (lez (overlap_of curr sample wpt) (pos 0))) [
          | inl t ↦ rw t ((refl, refl), ap (erase sample.event_id) events)
          | inr f ↦ rw f (
            (ap add_watched known.0.0, ap add_watched known.0.1),
            ap (erase sample.event_id) (known.1 ∙ events),
          )
        ]

  module _ (curr sample : Event) (wpt : TriggerInfo) (leaf : PathTo) (l : Logic D)
      (known : lookup sample.event_id l.tables.leaf_of_event ≡ some leaf) where
    -- For a sampled event with a leaf, a trap on a dead-store watchpoint is passed over exactly
    -- when its access is of a known kind, the same-instruction test is compiled in and the
    -- instruction is another one; then the watchpoint is disabled and nothing else changes, so the
    -- sampled event is not forgotten. Any other trap forgets the sampled event and no other, and
    -- counts, in both sets of counters, one watched sample with the sampled bytes, dead for a
    -- store and used for a load or a load and store, or nothing if the access is of an unknown
    -- kind or does not overlap the sampled one.
    pub dead_store_on_wp-Charged :
        (inst : Bool)
        → DeadStoreJudged double inst curr sample wpt leaf l
            (dead_store_on_wp double float inst curr sample wpt l)
    unfolding dead_store_on_wp finish remove_event
    dead_store_on_wp-Charged inst = elim (Bool-cases (is_unknown curr.access_type)) [
      | inl t ↦ rw t (inr (refl, (refl, refl), refl))
      | inr f ↦ elim (Bool-cases (inst && not (sample.fixed_ip == curr.fixed_ip))) [
        | inl other ↦ rw (f, other, dead_store_on_wp) (inl (refl, refl))
        | inr same ↦
            let r =
              attribute-Counted (dead_store_tally curr.access_type)
                (dead_store_classify double float curr) curr sample wpt leaf l
                (λ inc k. dead_store_classify-Classified curr curr.access_type leaf inc k refl f) in
            rw (f, same, known, dead_store_on_wp) (inr (refl, r.0, r.1))
      ]
    ]

    -- For a sampled event with a leaf, a trap on a false-sharing watchpoint counts, in both sets of
    -- counters, one watched sample with the sampled bytes, used if the trap is on the processor of
    -- the sample and dead if it is on another, or nothing if the access is of an unknown kind or
    -- does not overlap the sampled one; it forgets the sampled event and no other.
    pub false_sharing_on_wp-Charged :
        Counted
          (tally_if
            (not (is_unknown curr.access_type) && not (lez (overlap_of curr sample wpt) (pos 0)))
            (false_sharing_tally (curr.cpu == sample.cpu) (credit double curr sample leaf l)))
          l
          (false_sharing_on_wp double float curr sample wpt l).1
        × Forgets sample l (false_sharing_on_wp double float curr sample wpt l).1
    unfolding false_sharing_on_wp finish remove_event
    false_sharing_on_wp-Charged = elim (Bool-cases (is_unknown curr.access_type)) [
      | inl t ↦ rw t ((refl, refl), refl)
      | inr f ↦
          let r =
            attribute-Counted (false_sharing_tally (curr.cpu == sample.cpu))
              (false_sharing_classify double float curr sample) curr sample wpt leaf l
              (λ inc k. false_sharing_classify-Classified curr sample leaf inc k) in
          rw (f, known, false_sharing_on_wp) r
    ]
