-- ===== src/Watch/Subscribe.antt =====
-- What keeps the invariant of a thread's watchpoints: WP_Subscribe and WP_ThreadInit of
-- kvmTest/src/tools/witchTool/watchpoint-lib/src/watchpoint.cpp.
use kognizance_tool.Prelude.{
  ℕ, zero, suc, ◌+◌, ◌<◌, ◌≡◌, refl, inl, inr, not, ◌&&◌, Bool, true, false, Option, List, [], ◌∷◌,
  map, Option-cases, replicate, if◌then◌else◌,
}
use kognizance_tool.Event.{Event}
use kognizance_tool.Platform.World.{Host, M, ◌>>=◌, pure}
use kognizance_tool.Platform.Ensures.{
  Ensures, Ensures-exit, Ensures-pure, Ensures-bind, Ensures-if, Ensures-option,
}
use kognizance_tool.Watch.Address.{word_size, validate_wp_data}
use kognizance_tool.Watch.Slots.{
  Access, RegisterInfo, ThreadData, Victim, Policy, auto, oldest, newest, empty_slot, slot_empty,
  slot_non_empty, none_available, is_overlapped, bump,
}
use kognizance_tool.Watch.Victim.{Random, bump_active, get_victim, replace_full, first_inactive}
use kognizance_tool.Watch.Reservoir.{get_victim_auto-slots}
use kognizance_tool.Watch.Arm.{Config, arm_watch_point}
use kognizance_tool.Watch.Thread.{
  is_inst, update_slot, install, fresh_slot, wp_subscribe, wp_thread_init,
}
use kognizance_tool.Watch.Rearm.{Kept, Rearmed, either_case, arm_watch_point-Rearmed}
use kognizance_tool.Watch.Disjoint.{
  IsValid, ApartFrom, KeptAll, StepIn, KeptAll-IsValid, KeptAll-FreeFrom, StepIn-IsValid,
  is_overlapped-FreeFrom,
}

victim_case :
    {A : Type 0} {Q : A → Type 0} {m k : M A} (v : Victim)
    → Ensures Q m
    → Ensures Q k
    → Ensures Q (elim v [ none_available ↦ k | _ ↦ m ])
victim_case slot_empty h g = h
victim_case slot_non_empty h g = h
victim_case none_available h g = g

-- An operation on one slot changes that slot only.
update_slot-StepIn :
    {B : Type 0} (P : RegisterInfo → RegisterInfo → Type 0) (i : ℕ)
    (f : RegisterInfo → M (B × RegisterInfo)) (ws : List RegisterInfo)
    → ((w : RegisterInfo) → Ensures (λ r. P w r.1) (f w))
    → Ensures (λ r. StepIn P ws r.1) (update_slot i f ws)
unfolding update_slot
update_slot-StepIn P i f [] h = Ensures-exit _
update_slot-StepIn P zero f (w ∷ ws) h =
    Ensures-bind (λ r. P w r.1) _ (f w) _ (h w)
      λ (b, w') p. Ensures-pure _ (b, w' ∷ ws) (inl (p, refl))
update_slot-StepIn P (suc i) f (w ∷ ws) h =
    Ensures-bind (λ r. StepIn P ws r.1) _ (update_slot i f ws) _ (update_slot-StepIn P i f ws h)
      λ (b, ws') p. Ensures-pure _ (b, w ∷ ws') (inr (refl, p))

pub KeptAll-refl : (ws : List RegisterInfo) → KeptAll ws ws
KeptAll-refl [] = tt
KeptAll-refl (w ∷ ws) = (inr (refl, refl, refl, refl), KeptAll-refl ws)

bump-KeptAll : (ws : List RegisterInfo) → KeptAll ws (map bump ws)
unfolding bump
bump-KeptAll [] = tt
bump-KeptAll (w ∷ ws) = (inr (refl, refl, refl, refl), bump-KeptAll ws)

Kept-if : (b : Bool) (w v : RegisterInfo) → Kept w v → Kept w (if b then v else w)
Kept-if true w v k = k
Kept-if false w v k = inr (refl, refl, refl, refl)

bump_active-KeptAll : (ws : List RegisterInfo) → KeptAll ws (map bump_active ws)
unfolding bump
bump_active-KeptAll [] = tt
bump_active-KeptAll (w ∷ ws) =
    (Kept-if w.is_active w (bump w) (inr (refl, refl, refl, refl)), bump_active-KeptAll ws)

module _ {R F : Type 0} (env : Random R F) where
  replace_full-KeptAll :
      (p : Policy) (ws : List RegisterInfo) (r : R) → KeptAll ws (replace_full env p ws r).slots
  unfolding replace_full
  replace_full-KeptAll auto ws r = rw (get_victim_auto-slots env ws r) (bump-KeptAll ws)
  replace_full-KeptAll newest ws r = KeptAll-refl ws
  replace_full-KeptAll oldest ws r = KeptAll-refl ws
  replace_full-KeptAll empty_slot ws r = KeptAll-refl ws

  -- Choosing a victim leaves every slot inactive or with the activity, range and device that it
  -- had.
  get_victim-KeptAll :
      (p : Policy) (ws : List RegisterInfo) (r : R) → KeptAll ws (get_victim env p ws r).slots
  unfolding get_victim
  get_victim-KeptAll p ws r = elim (Option-cases (first_inactive ws)) [
    | inl e ↦ rw (e, get_victim) (replace_full-KeptAll p ws r)
    | inr (i, e) ↦ rw (e, get_victim) (bump_active-KeptAll ws)
  ]

  fresh_slots-ApartFrom :
      (w : RegisterInfo) (tid n : ℕ) → ApartFrom w (replicate n (fresh_slot tid))
  unfolding fresh_slot
  fresh_slots-ApartFrom w tid zero = tt
  fresh_slots-ApartFrom w tid (suc n) = (inr (inl refl), fresh_slots-ApartFrom w tid n)

  fresh_slots-IsValid : (tid n : ℕ) → IsValid (replicate n (fresh_slot tid))
  fresh_slots-IsValid tid zero = tt
  fresh_slots-IsValid tid (suc n) = (
    unfold fresh_slot in (inl refl),
    fresh_slots-ApartFrom (fresh_slot tid) tid n,
    fresh_slots-IsValid tid n,
  )

  -- A thread starts with watchpoints that are valid.
  pub wp_thread_init-IsValid :
      (config : Config) (tid time : ℕ) → IsValid (wp_thread_init env config tid time).slots
  unfolding wp_thread_init
  wp_thread_init-IsValid config tid time = fresh_slots-IsValid tid config.max_wp

  module _ (host : Host) (fast : Bool) (tid : ℕ) (config : Config) (t : ThreadData R) (va len : ℕ)
      (access : Access) (sample : Option Event) (now : ℕ) (inside : va + len < word_size)
      (valid : IsValid t.slots) where
    installed-IsValid :
        (ws : List RegisterInfo) (r : R) (i : ℕ)
        → KeptAll t.slots ws
        → is_overlapped va len t.slots ≡ false
        → Ensures {A = Bool × ThreadData R}
            (λ q. IsValid q.1.slots)
            (update_slot i (λ w. arm_watch_point host fast tid config w len access va sample now) ws
              >>= λ (armed, ws'). pure (armed, record t { slots = ws'; rand_buffer = r }))
    installed-IsValid ws r i kept free =
        Ensures-bind _ _
          (update_slot i (λ w. arm_watch_point host fast tid config w len access va sample now) ws)
          _
          (update_slot-StepIn (Rearmed va len) i _ ws
            λ w. arm_watch_point-Rearmed host fast tid config w len access va sample now)
          λ (armed, ws') step.
            Ensures-pure _ (armed, record t { slots = ws'; rand_buffer = r })
              (StepIn-IsValid va len ws ws' inside step
                (λ k.
                  KeptAll-FreeFrom va len t.slots ws kept
                    (is_overlapped-FreeFrom va len t.slots inside k valid free))
                (KeptAll-IsValid t.slots ws kept valid))

    install-IsValid :
        is_overlapped va len t.slots ≡ false
        → Ensures
            (λ r. IsValid r.1.slots)
            (install host fast tid env config t va len access sample now)
    unfolding install
    install-IsValid free =
        let c = get_victim env config.replacement_policy t.slots t.rand_buffer in
        let kept = get_victim-KeptAll config.replacement_policy t.slots t.rand_buffer in
        victim_case c.victim
          (Ensures-option _ c.location _ _ (Ensures-exit _)
            λ i. installed-IsValid c.slots c.rand i kept free)
          (Ensures-pure _ _ (KeptAll-IsValid t.slots c.slots kept valid))

    -- For a range that ends below 2^64, and valid watchpoints before, whenever WP_Subscribe
    -- returns the thread's watchpoints are valid, whether it was refused, failed or succeeded.
    pub wp_subscribe-IsValid :
        Ensures
          (λ r. IsValid r.1.slots)
          (wp_subscribe host fast tid env config t va len access sample now)
    unfolding wp_subscribe
    wp_subscribe-IsValid =
        Ensures-if _ (not (is_inst access) && not (validate_wp_data va len)) _ _
          (Ensures-pure _ _ valid)
          (either_case (is_overlapped va len t.slots) _ _ (λ _. Ensures-pure _ _ valid)
            install-IsValid)
