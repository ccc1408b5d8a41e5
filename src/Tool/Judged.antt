-- ===== src/Tool/Judged.antt =====
-- What OnWatchPoint, kvmTest/src/tools/witchTool/watchpoint-lib/src/watchpoint.cpp, makes of the
-- state of the logic.
use kognizance_tool.Prelude.{
  ℕ, Bool, true, false, none, some, ◌==◌, if◌then◌else◌, Option-cases, inl, inr,
}
use kognizance_tool.Event.{Event}
use kognizance_tool.Platform.World.{Host, M, pure}
use kognizance_tool.Platform.Ensures.{
  Ensures, Ensures-pure, Ensures-exit, Ensures-if, Ensures-bind, Ensures-then, Ensures-option,
}
use kognizance_tool.Watch.Slots.{TriggerAction, disable, RegisterInfo, ThreadData}
use kognizance_tool.Watch.Arm.{Config}
use kognizance_tool.Watch.Trigger.{TriggerInfo, find_location, judge, slot_at, act, on_watch_point}

module _ (host : Host) (fast : Bool) (tid : ℕ) (config : Config) {L : Type 0}
    (fix_ip : Event → M (Bool × Event))
    (callback : Event → Event → TriggerInfo → L → TriggerAction × L) (Q : L → Type 0)
    (kept : (curr sample : Event) (wpt : TriggerInfo) (l : L)
      → Q l
      → Q (callback curr sample wpt l).1) where
  answered :
      (fixed : Bool) (e : Event) (w : RegisterInfo) (l : L)
      → Q l
      → Q
          (if fixed
            then (elim w.sampled_event as (λ x. TriggerAction × L) [
              | none ↦ (disable, l)
              | some s ↦ callback e s (record { va = w.va; watch_len = w.wp_length }) l
            ])
            else (disable, l)).1
  answered false e w l h = h
  answered true e w l h = elim (Option-cases w.sampled_event) [
    | inl n ↦ rw n h
    | inr (s, f) ↦ rw f (kept e s (record { va = w.va; watch_len = w.wp_length }) l h)
  ]

  judge-Keeps :
      (e : Event) (w : RegisterInfo) (l : L)
      → Q l
      → Ensures (λ r. Q r.1) (judge host fast tid fix_ip callback e w l)
  unfolding judge
  judge-Keeps e w l h = Ensures-if _ (e.h_ip_addr == 0) _ _ (Ensures-pure _ _ h) (
      Ensures-then _ (if e.is_fixed then pure (true, e) else fix_ip e) _
        λ (fixed, e'). Ensures-pure _ _ (answered fixed e' w l h))

  -- A property of the logic that its callback keeps is kept by a trap.
  pub on_watch_point-Keeps :
      {R : Type 0} (dup : Bool) (fd : ℕ) (e : Event) (t : ThreadData R) (l : L)
      → Q l
      → Ensures (λ r. Q r.1) (on_watch_point host fast tid fix_ip callback config dup fd e t l)
  unfolding on_watch_point
  on_watch_point-Keeps dup fd e t l h =
      Ensures-option _ (find_location dup fd e t.slots) _ _ (Ensures-exit _) λ i.
        Ensures-then _ (slot_at host fast tid fix_ip callback i t.slots) _ λ w.
          Ensures-bind (λ r. Q r.1) _ (judge host fast tid fix_ip callback e w l) _
            (judge-Keeps e w l h)
            λ (a, l') k.
              Ensures-then _ (act host fast tid config a i t) _ λ t'. Ensures-pure _ (t', l') k
