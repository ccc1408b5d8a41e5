-- ===== src/Watch/Rearm.antt =====
-- What setting or clearing a watchpoint makes of its slot:
-- kvmTest/src/tools/witchTool/watchpoint-lib/src/watchpoint.cpp.
use kognizance_tool.Prelude.{
  ℕ, ◌≡◌, refl, ◌∙◌, ◌&&◌, ◌⊎◌, inl, inr, Bool, true, false, Option, arith, Bool-cases,
  if◌then◌else◌,
}
use kognizance_tool.Event.{Event}
use kognizance_tool.Platform.World.{Host, M, pure}
use kognizance_tool.Platform.Sessions.{get_session_key}
use kognizance_tool.Platform.Devices.{
  register_device, update_bp_address, get_device, store_device, end_device,
}
use kognizance_tool.Platform.Ensures.{
  Ensures, Ensures-pure, Ensures-exit, Ensures-if, Ensures-bind, Ensures-then, Ensures-option,
  Ensures-option_eq, Ensures-weaker,
}
use kognizance_tool.Watch.Slots.{Access, RegisterInfo}
use kognizance_tool.Watch.Bounds.{IsLength}
use kognizance_tool.Watch.Arm.{
  Config, new_bp_device, has_file, is_breakpoint_length, mark_armed, disable_watchpoint, dis_arm,
  enable_watchpoint, disable_watchpoint_wrapper, modify_watch_point, open_watch_point,
  create_watch_point, arm_watch_point,
}

-- The slot is active at most where it was, and watches what it watched.
abbrev pub Kept : RegisterInfo → RegisterInfo → Type 0
Kept w w' =
    (w'.is_active ≡ false)
    ⊎ ((w'.is_active ≡ w.is_active)
        × (w'.va ≡ w.va)
        × (w'.wp_length ≡ w.wp_length)
        × (w'.file_handle ≡ w.file_handle))

-- The slot is inactive, watches the new range under a device, or is as it was.
abbrev pub Rearmed : ℕ → ℕ → RegisterInfo → RegisterInfo → Type 0
Rearmed va len w w' =
    Kept w w' ⊎ ((w'.va ≡ va) × (w'.wp_length ≡ len) × IsLength len × (has_file w' ≡ true))

IsLength-of_accepted : (n : ℕ) → is_breakpoint_length n ≡ true → IsLength n
unfolding is_breakpoint_length
IsLength-of_accepted n h = ground arith

either_value :
    {A : Type 0} (P : A → Type 0) (b : Bool) (x y : A) → P x → P y → P (if b then x else y)
either_value P true x y h k = h
either_value P false x y h k = k

pub either_case :
    {A : Type 0} {Q : A → Type 0} (b : Bool) (m k : M A)
    → (b ≡ true → Ensures Q m)
    → (b ≡ false → Ensures Q k)
    → Ensures Q (if b then m else k)
either_case true m k h g = h refl
either_case false m k h g = g refl

-- A slot rearmed from an inactive one is inactive or watches the new range.
Rearmed-inactive :
    (va len : ℕ) (old w w' : RegisterInfo)
    → old.is_active ≡ false
    → Rearmed va len old w'
    → Rearmed va len w w'
Rearmed-inactive va len old w w' off (inl (inl e)) = inl (inl e)
Rearmed-inactive va len old w w' off (inl (inr (e, _, _, _))) = inl (inl (e ∙ off))
Rearmed-inactive va len old w w' off (inr r) = inr r

module _ (host : Host) (fast : Bool) (tid : ℕ) where
  dis_arm-inactive :
      (w : RegisterInfo) → Ensures (λ w'. w'.is_active ≡ false) (dis_arm host fast tid w)
  unfolding dis_arm
  dis_arm-inactive w =
      Ensures-option _ w.file_handle _ _ (Ensures-exit _)
        λ fd. Ensures-then _ _ _ λ _. Ensures-pure _ _ refl

  disable_watchpoint-Kept_file :
      (w : RegisterInfo)
      → Ensures
          (λ w'. Kept w w' × (w'.file_handle ≡ w.file_handle))
          (disable_watchpoint host fast tid w)
  unfolding disable_watchpoint
  disable_watchpoint-Kept_file w = Ensures-option _ w.file_handle _ _ (Ensures-exit _) λ fd.
      Ensures-then _ (get_device w.thread_id fd) _ λ found.
        Ensures-option _ found _ _ (Ensures-pure _ w (inr (refl, refl, refl, refl), refl)) λ d.
          Ensures-then _ (end_device host d) _ λ ended.
            Ensures-then _ (store_device (w.thread_id, fd) ended) _
              λ _. Ensures-pure _ (record w { is_active = false }) (inl refl, refl)

  pub disable_watchpoint_wrapper-Kept :
      (config : Config) (w : RegisterInfo)
      → Ensures (Kept w) (disable_watchpoint_wrapper host fast tid config w)
  unfolding disable_watchpoint_wrapper
  disable_watchpoint_wrapper-Kept config w =
      Ensures-if _ config.is_wp_modify_enabled _ _
        (Ensures-weaker (λ w' h. h.0) (disable_watchpoint-Kept_file w))
        (Ensures-weaker (λ w' e. inl e) (dis_arm-inactive w))

  module _ (w : RegisterInfo) (len : ℕ) (bp_type va : ℕ) (sample : Option Event) (now : ℕ)
      (accepted : IsLength len) where
    mark_armed-Rearmed :
        (w' : RegisterInfo)
        → has_file w' ≡ true
        → Rearmed va len w (mark_armed va len sample now w')
    unfolding mark_armed
    mark_armed-Rearmed w' h = inr (refl, refl, accepted, h)

    modify_watch_point-Rearmed :
        Ensures (Rearmed va len w) (modify_watch_point host fast tid w len bp_type va sample now)
    unfolding modify_watch_point
    modify_watch_point-Rearmed = Ensures-option_eq _ w.file_handle _ _ (Ensures-exit _) λ fd e.
        Ensures-bind _ _ (disable_watchpoint host fast tid w) _ (disable_watchpoint-Kept_file w)
          λ w' (kept, same). Ensures-then _ (get_device w.thread_id fd) _ λ found.
            Ensures-option _ found _ _ (Ensures-pure _ w' (inl kept)) λ d.
              Ensures-then _ (update_bp_address host fast d len bp_type va) _ λ (updated, dev).
                Ensures-then _ (store_device (w.thread_id, fd) dev) _ λ _.
                  Ensures-if _ updated _ _
                    (Ensures-then _
                      (if w'.is_active
                        then pure tt
                        else enable_watchpoint host fast tid w.thread_id fd)
                      _
                      λ _.
                        Ensures-pure _ (mark_armed va len sample now w')
                          (mark_armed-Rearmed w' (rw (same, e) refl)))
                    (Ensures-pure _ w' (inl kept))

    open_watch_point-Rearmed :
        w.is_active ≡ false
        → Ensures (Rearmed va len w) (open_watch_point host fast tid w len bp_type va sample now)
    unfolding open_watch_point
    open_watch_point-Rearmed h = Ensures-then _ (get_session_key tid) _ λ session.
        Ensures-then _ (register_device host tid session (new_bp_device len bp_type va)) _
          λ (registered, dev). Ensures-pure _ _ (
            either_value (Rearmed va len w) registered _ _ (mark_armed-Rearmed _ refl)
              (inl (inl h)))

  create_watch_point-Rearmed :
      (w : RegisterInfo) (len : ℕ) (access : Access) (va : ℕ) (modify : Bool)
      (sample : Option Event) (now : ℕ)
      → (modify ≡ false → w.is_active ≡ false)
      → Ensures
          (Rearmed va len w)
          (create_watch_point host fast tid w len access va modify sample now)
  unfolding create_watch_point
  create_watch_point-Rearmed w len access va modify sample now h =
      elim (Bool-cases (is_breakpoint_length len)) [
        | inl ok ↦ rw ok (
            either_case modify _ _
              (λ _. modify_watch_point-Rearmed w len _ va sample now (IsLength-of_accepted len ok))
              λ off.
                open_watch_point-Rearmed w len _ va sample now (IsLength-of_accepted len ok)
                  (h off))
        | inr bad ↦ rw bad (Ensures-exit _)
      ]

  -- Whenever ArmWatchPoint returns, the slot is inactive, as it was, or watches the new range, of
  -- an admissible length, under a device.
  pub arm_watch_point-Rearmed :
      (config : Config) (w : RegisterInfo) (len : ℕ) (access : Access) (va : ℕ)
      (sample : Option Event) (now : ℕ)
      → Ensures
          (λ r. Rearmed va len w r.1)
          (arm_watch_point host fast tid config w len access va sample now)
  unfolding arm_watch_point
  arm_watch_point-Rearmed config w len access va sample now =
      Ensures-if _ (config.is_wp_modify_enabled && has_file w) _ _
        (Ensures-bind (Rearmed va len w) _
          (create_watch_point host fast tid w len access va true sample now) _
          (create_watch_point-Rearmed w len access va true sample now (λ e. absurd (cc)))
          λ w' r. Ensures-pure _ (true, w') r)
        (Ensures-bind (λ old. old.is_active ≡ false) _
          (if w.is_active then dis_arm host fast tid w else pure w) _
          (either_case w.is_active _ _ (λ _. dis_arm-inactive w) (λ off. Ensures-pure _ w off))
          λ old off.
            Ensures-bind (Rearmed va len old) _
              (create_watch_point host fast tid old len access va false sample now) _
              (create_watch_point-Rearmed old len access va false sample now (λ _. off))
              λ w' r. Ensures-pure _ (has_file w', w') (Rearmed-inactive va len old w w' off r))
