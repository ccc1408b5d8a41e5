-- ===== src/Witch/Reachable.antt =====
-- The samples and traps of a session on the tree and the pending samples: the callbacks of
-- kvmTest/src/tools/witchTool/witchLogic and of
-- kvmTest/includes/tools/witchTool/witchLogic/WitchLogic.hpp.
use kognizance_tool.Prelude.{
  ◌≡◌, refl, subst, inl, inr, Bool, true, none, some, List, [], ◌∷◌, ◌==◌, not, ◌&&◌, if◌then◌else◌,
  Bool-cases, Option-cases,
}
use kognizance_tool.Prelude.Map.{lookup, lookup-insert, nat_key}
use kognizance_tool.Event.{Event}
use kognizance_tool.Watch.Slots.{TriggerAction}
use kognizance_tool.Watch.Trigger.{TriggerInfo}
use kognizance_tool.Witch.Tree.{
  Floats, PathTo, Tables, path_key, same_path, reverse_onto, add_frames_to_context_tree, on_sample,
  sampled_context,
}
use kognizance_tool.Witch.Totals.{Logic}
use kognizance_tool.Witch.Stores.{
  finish, is_unknown, dead_store_classify, false_sharing_classify, dead_store_on_wp,
  false_sharing_on_wp,
}
use kognizance_tool.Witch.Loads.{is_load, load_spy_on_wp}
use kognizance_tool.Witch.Writes.{
  RedFlags, DupFlags, is_store, red_spy_attribute, red_spy_on_wp, dup_spy_attribute, dup_spy_on_wp,
}
use kognizance_tool.Witch.Laws.{HasNode, add_frames-IsTree}
use kognizance_tool.Witch.Logics.{
  WitchLogicType, deadspy, redspy, loadspy, dupspy, falseshare, Flags, Move, sampled, trapped,
  witch_on_wp, move, run,
}
use kognizance_tool.Witch.Rooted.{IsRooted, Fits, add_frames_to_context_tree-Grows}
use kognizance_tool.Witch.Consistent.{
  finish-IsRooted, dead_store_classify-Fits, false_sharing_classify-Fits, attribute-IsRooted,
  load_spy_attribute-IsRooted, write_attribute-IsRooted,
}

module _ {D : Type 0} (double : Floats D) where
  pub on_sample-IsRooted :
      (e : Event) (t : Tables D) → IsRooted t → IsRooted (on_sample double e t).1
  unfolding on_sample add_frames_to_context_tree
  on_sample-IsRooted e t (tree, pending) =
      let grown = add_frames_to_context_tree sampled_context e.context_agent [] true t.nodes in
      let leaf = grown.0 in
      let nodes = grown.1 in
      let built =
        add_frames-IsTree sampled_context (reverse_onto e.context_agent []) [] t.nodes tree
          (inl refl) in
      let keeps =
        (add_frames_to_context_tree-Grows sampled_context e.context_agent [] true t.nodes
          (inl refl)).1 in
      elim (Bool-cases (same_path leaf [])) [
        | inl t ↦ rw (t, on_sample) (built.0, λ i p h. keeps p (pending i p h))
        | inr f ↦
            rw (f, on_sample)
              (
                built.0,
                λ i p h. elim (Bool-cases (e.event_id == i)) [
                  | inl same ↦
                      let here : some leaf ≡ some p =
                        rw (lookup-insert e.event_id i leaf t.leaf_of_event, same) at h in
                      let it : leaf ≡ p = cc in subst (λ q. HasNode q nodes) it built.1
                  | inr other ↦ keeps p (
                      pending i p
                        (rw (lookup-insert e.event_id i leaf t.leaf_of_event, other) at h))
                ],
              )
      ]

module _ {D S : Type 0} (double : Floats D) (float : Floats S) (curr sample : Event)
    (wpt : TriggerInfo) (l : Logic D) (h : IsRooted l.tables) where
  pending-Fits :
      (leaf : PathTo)
      → lookup sample.event_id l.tables.leaf_of_event ≡ some leaf
      → Fits leaf l.tables
  pending-Fits leaf e = (h, h.1 sample.event_id leaf e)

  -- The callbacks look the sample's leaf up.
  found-IsRooted :
      (attribute : PathTo → TriggerAction × Logic D)
      → ((leaf : PathTo) → Fits leaf l.tables → IsRooted (attribute leaf).1.tables)
      → IsRooted
          (elim (lookup sample.event_id l.tables.leaf_of_event) as (λ x. TriggerAction × Logic D) [
            | none ↦ finish sample l
            | some leaf ↦ attribute leaf
          ]).1.tables
  found-IsRooted attribute k = elim (Option-cases (lookup sample.event_id l.tables.leaf_of_event)) [
    | inl e ↦ rw e (finish-IsRooted double float sample l h)
    | inr (leaf, e) ↦ rw e (k leaf (pending-Fits leaf e))
  ]

  dead_store_on_wp-IsRooted :
      (inst : Bool) → IsRooted (dead_store_on_wp double float inst curr sample wpt l).1.tables
  unfolding dead_store_on_wp
  dead_store_on_wp-IsRooted inst = elim (Bool-cases (is_unknown curr.access_type)) [
    | inl t ↦ rw (t, dead_store_on_wp) (finish-IsRooted double float sample l h)
    | inr f ↦ elim (Bool-cases (inst && not (sample.fixed_ip == curr.fixed_ip))) [
      | inl t ↦ rw (f, t, dead_store_on_wp) h
      | inr same ↦
          rw (f, same, dead_store_on_wp)
            (found-IsRooted _ λ leaf fits.
              attribute-IsRooted double float curr sample wpt leaf l fits
                (dead_store_classify double float curr)
                λ inc k. dead_store_classify-Fits double float curr _ leaf inc k refl)
    ]
  ]

  false_sharing_on_wp-IsRooted :
      IsRooted (false_sharing_on_wp double float curr sample wpt l).1.tables
  unfolding false_sharing_on_wp
  false_sharing_on_wp-IsRooted = elim (Bool-cases (is_unknown curr.access_type)) [
    | inl t ↦ rw (t, false_sharing_on_wp) (finish-IsRooted double float sample l h)
    | inr f ↦
        rw (f, false_sharing_on_wp)
          (found-IsRooted _ λ leaf fits.
            attribute-IsRooted double float curr sample wpt leaf l fits
              (false_sharing_classify double float curr sample)
              λ inc k. false_sharing_classify-Fits double float curr sample leaf inc k)
  ]

  load_spy_on_wp-IsRooted :
      (inst : Bool) → IsRooted (load_spy_on_wp double float inst curr sample wpt l).1.tables
  unfolding load_spy_on_wp
  load_spy_on_wp-IsRooted inst = elim (Bool-cases (is_load curr.access_type)) [
    | inr f ↦ rw (f, load_spy_on_wp) h
    | inl t ↦ elim (Bool-cases (inst && not (sample.fixed_ip == curr.fixed_ip))) [
      | inl other ↦ rw (t, other, load_spy_on_wp) h
      | inr same ↦
          rw (t, same, load_spy_on_wp)
            (found-IsRooted _
              λ leaf fits. load_spy_attribute-IsRooted double float curr sample wpt leaf l fits)
    ]
  ]

  red_spy_on_wp-IsRooted :
      (flags : RedFlags) → IsRooted (red_spy_on_wp double float flags curr sample wpt l).1.tables
  unfolding red_spy_on_wp red_spy_attribute
  red_spy_on_wp-IsRooted flags = elim (Bool-cases (is_store curr.access_type)) [
    | inr f ↦ rw (f, red_spy_on_wp) h
    | inl t ↦ elim (Bool-cases (flags.inst && not (sample.fixed_ip == curr.fixed_ip))) [
      | inl other ↦ rw (t, other, red_spy_on_wp) h
      | inr same ↦
          rw (t, same, red_spy_on_wp)
            (found-IsRooted _
              λ leaf fits. write_attribute-IsRooted double float curr sample wpt leaf l fits _ _ _)
    ]
  ]

  dup_spy_on_wp-IsRooted :
      (flags : DupFlags) → IsRooted (dup_spy_on_wp double float flags curr sample wpt l).1.tables
  unfolding dup_spy_on_wp dup_spy_attribute
  dup_spy_on_wp-IsRooted flags =
      let wanted = if flags.on_load then is_load curr.access_type else is_store curr.access_type in
      elim (Bool-cases wanted) [
        | inr f ↦ rw (f, dup_spy_on_wp) h
        | inl t ↦
            rw (t, dup_spy_on_wp)
              (found-IsRooted _ λ leaf fits.
                write_attribute-IsRooted double float curr sample wpt leaf l fits _ _ _)
      ]

module _ {D S : Type 0} (double : Floats D) (float : Floats S) (flags : Flags) where
  pub witch_on_wp-IsRooted :
      (type : WitchLogicType) (curr sample : Event) (wpt : TriggerInfo) (l : Logic D)
      → IsRooted l.tables
      → IsRooted (witch_on_wp double float flags type curr sample wpt l).1.tables
  unfolding witch_on_wp
  witch_on_wp-IsRooted deadspy curr sample wpt l h =
      dead_store_on_wp-IsRooted double float curr sample wpt l h flags.dead_inst
  witch_on_wp-IsRooted redspy curr sample wpt l h =
      red_spy_on_wp-IsRooted double float curr sample wpt l h flags.red
  witch_on_wp-IsRooted loadspy curr sample wpt l h =
      load_spy_on_wp-IsRooted double float curr sample wpt l h flags.load_inst
  witch_on_wp-IsRooted dupspy curr sample wpt l h =
      dup_spy_on_wp-IsRooted double float curr sample wpt l h flags.dup
  witch_on_wp-IsRooted falseshare curr sample wpt l h =
      false_sharing_on_wp-IsRooted double float curr sample wpt l h

  move-IsRooted :
      (type : WitchLogicType) (m : Move) (l : Logic D)
      → IsRooted l.tables
      → IsRooted (move double float flags type m l).tables
  move-IsRooted type (sampled e) l h = on_sample-IsRooted double e l.tables h
  move-IsRooted type (trapped curr sample wpt) l h = witch_on_wp-IsRooted type curr sample wpt l h

  -- If every node's parent is a node or the root, and the leaf of every pending sample is in the
  -- tree, then both hold after any sequence of samples and traps, under each of the five logics.
  pub run-IsRooted :
      (type : WitchLogicType) (ms : List Move) (l : Logic D)
      → IsRooted l.tables
      → IsRooted (run double float flags type ms l).tables
  run-IsRooted type [] l h = h
  run-IsRooted type (m ∷ ms) l h =
      run-IsRooted type ms (move double float flags type m l) (move-IsRooted type m l h)
