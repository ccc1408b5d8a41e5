-- ===== src/Watch/Trapped.antt =====
-- What a trap makes of the watchpoints: OnWatchPoint of
-- kvmTest/src/tools/witchTool/watchpoint-lib/src/watchpoint.cpp.
use kognizance_tool.Prelude.{
  ℕ, zero, suc, ◌≡◌, refl, inl, inr, Bool, true, some, List, [], ◌∷◌, arith, Bool-cases,
  Option-cases, if◌then◌else◌,
}
use kognizance_tool.Event.{Event}
use kognizance_tool.Platform.World.{Host, M, pure, ◌>>=◌}
use kognizance_tool.Platform.Ensures.{
  Ensures, Ensures-exit, Ensures-pure, Ensures-bind, Ensures-then, Ensures-if, Ensures-option_eq,
}
use kognizance_tool.Watch.Slots.{
  RegisterInfo, ThreadData, TriggerAction, disable, already_disabled, disable_all, retain,
}
use kognizance_tool.Watch.Arm.{Config, disable_watchpoint_wrapper}
use kognizance_tool.Watch.Thread.{update_slot}
use kognizance_tool.Watch.Trigger.{
  TriggerInfo, matches, find_location, reset_count, disable_each, resurrect, act_on_slot, act,
  judge, slot_at, on_watch_point,
}
use kognizance_tool.Watch.Rearm.{Kept, either_case, disable_watchpoint_wrapper-Kept}
use kognizance_tool.Watch.Disjoint.{IsValid, KeptAll, KeptAll-IsValid}
use kognizance_tool.Watch.Subscribe.{KeptAll-refl}

-- The slot at an index is active.
abbrev ActiveAt : ℕ → List RegisterInfo → Type 0
ActiveAt i [] = ⊥
ActiveAt zero (w ∷ ws) = w.is_active ≡ true
ActiveAt (suc i) (w ∷ ws) = ActiveAt i ws

matches-active :
    (dup : Bool) (fd : ℕ) (e : Event) (w : RegisterInfo)
    → matches dup fd e w ≡ true
    → w.is_active ≡ true
unfolding matches
matches-active dup fd e w h = elim (Bool-cases w.is_active) [
  | inl t ↦ t
  | inr f ↦ absurd (ground (arith))
]

find_location-ActiveAt :
    (dup : Bool) (fd : ℕ) (e : Event) (ws : List RegisterInfo) (i : ℕ)
    → find_location dup fd e ws ≡ some i
    → ActiveAt i ws
unfolding find_location
find_location-ActiveAt dup fd e [] i h = absurd (cc)
find_location-ActiveAt dup fd e (w ∷ ws) zero h = elim (Bool-cases (matches dup fd e w)) [
  | inl t ↦ matches-active dup fd e w t
  | inr f ↦ elim (Option-cases (find_location dup fd e ws)) [
    | inl n ↦ absurd (ground (arith, f, n))
    | inr (j, q) ↦ absurd (ground (arith, f, q))
  ]
]
find_location-ActiveAt dup fd e (w ∷ ws) (suc i) h = elim (Bool-cases (matches dup fd e w)) [
  | inl t ↦ absurd (ground (arith, t))
  | inr f ↦ elim (Option-cases (find_location dup fd e ws)) [
    | inl n ↦ absurd (ground (arith, f, n))
    | inr (j, q) ↦ find_location-ActiveAt dup fd e ws i (ground (arith, f, q))
  ]
]

Kept-refl : (w : RegisterInfo) → Kept w w
Kept-refl w = inr (refl, refl, refl, refl)

reset_count-Kept : (w v : RegisterInfo) → Kept w v → Kept w (reset_count v)
unfolding reset_count
reset_count-Kept w v k = k

update_slot-KeptAll :
    {B : Type 0} (i : ℕ) (f : RegisterInfo → M (B × RegisterInfo)) (ws : List RegisterInfo)
    → ((w : RegisterInfo) → w.is_active ≡ true → Ensures (λ r. Kept w r.1) (f w))
    → ActiveAt i ws
    → Ensures (λ r. KeptAll ws r.1) (update_slot i f ws)
unfolding update_slot
update_slot-KeptAll i f [] h a = Ensures-exit _
update_slot-KeptAll zero f (w ∷ ws) h a =
    Ensures-bind (λ r. Kept w r.1) _ (f w) _ (h w a)
      λ (b, w') k. Ensures-pure _ (b, w' ∷ ws) (k, KeptAll-refl ws)
update_slot-KeptAll (suc i) f (w ∷ ws) h a =
    Ensures-bind (λ r. KeptAll ws r.1) _ (update_slot i f ws) _ (update_slot-KeptAll i f ws h a)
      λ (b, ws') k. Ensures-pure _ (b, w ∷ ws') (Kept-refl w, k)

module _ (host : Host) (fast : Bool) (tid : ℕ) (config : Config) where
  disabled-Kept :
      (w : RegisterInfo)
      → Ensures
          (Kept w)
          (if w.is_active then disable_watchpoint_wrapper host fast tid config w else pure w)
  disabled-Kept w =
      Ensures-if _ w.is_active _ _ (disable_watchpoint_wrapper-Kept host fast tid config w)
        (Ensures-pure _ w (Kept-refl w))

  disable_each-KeptAll :
      (ws : List RegisterInfo) → Ensures (KeptAll ws) (disable_each host fast tid config ws)
  unfolding disable_each
  disable_each-KeptAll [] = Ensures-pure _ [] tt
  disable_each-KeptAll (w ∷ ws) =
      Ensures-bind (Kept w) _
        (if w.is_active then disable_watchpoint_wrapper host fast tid config w else pure w) _
        (disabled-Kept w)
        λ w' k.
          Ensures-bind (KeptAll ws) _ (disable_each host fast tid config ws) _
            (disable_each-KeptAll ws)
            λ ws' ks. Ensures-pure _ (reset_count w' ∷ ws') (reset_count-Kept w w' k, ks)

  act_on_slot-Kept :
      (a : TriggerAction) (w : RegisterInfo)
      → w.is_active ≡ true
      → Ensures (Kept w) (act_on_slot host fast tid config a w)
  unfolding act_on_slot resurrect
  act_on_slot-Kept disable w h =
      Ensures-bind (Kept w) _
        (if w.is_active then disable_watchpoint_wrapper host fast tid config w else pure w) _
        (disabled-Kept w) λ w' k. Ensures-pure _ (reset_count w') (reset_count-Kept w w' k)
  act_on_slot-Kept already_disabled w h =
      Ensures-if _ w.is_active _ _ (Ensures-exit _)
        (Ensures-pure _ _ (reset_count-Kept w w (Kept-refl w)))
  act_on_slot-Kept retain w h =
      either_case w.is_active _ _ (λ _. Ensures-pure _ w (Kept-refl w)) (λ off. absurd (cc))
  act_on_slot-Kept disable_all w h = Ensures-pure _ w (Kept-refl w)

  one_slot-KeptAll :
      (a : TriggerAction) (i : ℕ) (ws : List RegisterInfo)
      → ActiveAt i ws
      → Ensures (KeptAll ws) (
          update_slot i (λ w. act_on_slot host fast tid config a w >>= λ w'. pure (tt {0}, w')) ws
          >>= λ r. pure r.1)
  one_slot-KeptAll a i ws active =
      Ensures-bind (λ r. KeptAll ws r.1) _
        (update_slot i (λ w. act_on_slot host fast tid config a w >>= λ w'. pure (tt {0}, w')) ws) _
        (update_slot-KeptAll i _ ws
          (λ w h.
            Ensures-bind (Kept w) _ (act_on_slot host fast tid config a w) _
              (act_on_slot-Kept a w h) λ w' k. Ensures-pure _ (tt {0}, w') k)
          active)
        λ r k. Ensures-pure _ r.1 k

  module _ {R : Type 0} (t : ThreadData R) where
    act-KeptAll :
        (a : TriggerAction) (i : ℕ)
        → ActiveAt i t.slots
        → Ensures (λ t'. KeptAll t.slots t'.slots) (act host fast tid config a i t)
    unfolding act
    act-KeptAll disable_all i h =
        Ensures-bind (KeptAll t.slots) _ (disable_each host fast tid config t.slots) _
          (disable_each-KeptAll t.slots) λ ws k. Ensures-pure _ _ k
    act-KeptAll disable i h =
        Ensures-bind (KeptAll t.slots) _ _ _ (one_slot-KeptAll disable i t.slots h)
          λ ws k. Ensures-pure _ _ k
    act-KeptAll already_disabled i h =
        Ensures-bind (KeptAll t.slots) _ _ _ (one_slot-KeptAll already_disabled i t.slots h)
          λ ws k. Ensures-pure _ _ k
    act-KeptAll retain i h =
        Ensures-bind (KeptAll t.slots) _ _ _ (one_slot-KeptAll retain i t.slots h)
          λ ws k. Ensures-pure _ _ k

  module _ {L : Type 0} (fix_ip : Event → M (Bool × Event))
      (callback : Event → Event → TriggerInfo → L → TriggerAction × L) where
    -- If the thread's watchpoints are valid before a trap, then they are valid whenever
    -- OnWatchPoint returns, whatever the logic answers.
    pub on_watch_point-IsValid :
        {R : Type 0} (dup : Bool) (fd : ℕ) (e : Event) (t : ThreadData R) (l : L)
        → IsValid t.slots
        → Ensures
            (λ r. IsValid r.0.slots)
            (on_watch_point host fast tid fix_ip callback config dup fd e t l)
    unfolding on_watch_point
    on_watch_point-IsValid dup fd e t l valid =
        Ensures-option_eq _ (find_location dup fd e t.slots) _ _ (Ensures-exit _) λ i found.
          Ensures-then _ (slot_at host fast tid fix_ip callback i t.slots) _ λ w.
            Ensures-then _ (judge host fast tid fix_ip callback e w l) _ λ (a, l').
              Ensures-bind (λ t'. KeptAll t.slots t'.slots) _ (act host fast tid config a i t) _
                (act-KeptAll t a i (find_location-ActiveAt dup fd e t.slots i found))
                λ t' k. Ensures-pure _ (t', l') (KeptAll-IsValid t.slots t'.slots k valid)
