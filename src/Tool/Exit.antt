-- ===== src/Tool/Exit.antt =====
-- What the end of a session leaves: tool_sessionExit of kvmTest/src/tools/witchTool/mytool.cpp.
use kognizance_tool.Prelude.{
  ℕ, ◌≡◌, refl, ◌∙◌, sym, subst, Bool, true, false, Option, none, some, List, [], ◌∷◌,
  if◌then◌else◌, Bool-cases, Option-cases, inl, inr,
}
use mathlib.Core.Bool.{true≢false}
use kognizance_tool.Prelude.Map.{lookup, nat_key}
use kognizance_tool.Platform.Frame.{After, Keeps}
use kognizance_tool.Platform.World.{Host, World, M, ◌>>=◌, ◌>>◌, pure}
use kognizance_tool.Platform.Sessions.{get_session_key}
use kognizance_tool.Platform.Devices.{remove_device, remove_device_by_session}
use kognizance_tool.Platform.Removed.{
  Leaves, Gone, Leaves-bind, Leaves-both, Leaves-any, Shrinks, Keeps-Shrinks, Shrinks-pure,
  Shrinks-exit, Shrinks-bind, remove_device-Shrinks, remove_device-Gone,
}
use kognizance_tool.Platform.SessionRemoved.{remove_device_by_session-Shrinks}
use kognizance_tool.Watch.Slots.{RegisterInfo, ThreadData}
use kognizance_tool.Watch.Victim.{Random}
use kognizance_tool.Watch.Arm.{has_file, dis_arm}
use kognizance_tool.Watch.Thread.{dis_arm_all, wp_thread_terminate}
use kognizance_tool.Watch.Disjoint.{Fits, IsValid}
use kognizance_tool.Tool.Handlers.{tool_session_exit}

-- Neither active nor with a device.
abbrev pub Released : RegisterInfo → Type 0
Released w = (w.is_active ≡ false) × (w.file_handle ≡ none)

abbrev pub AllReleased : List RegisterInfo → Type 0
AllReleased [] = Unit
AllReleased (w ∷ ws) = Released w × AllReleased ws

-- The slot's device is not in the table.
abbrev pub GoneFor : ℕ → Option ℕ → World → Type 0
GoneFor tid none w = Unit
GoneFor tid (some fd) w = Gone (tid, fd) w

abbrev pub AllGone : ℕ → List RegisterInfo → World → Type 0
AllGone tid [] v = Unit
AllGone tid (w ∷ ws) v = GoneFor tid w.file_handle v × AllGone tid ws v

Leaves-GoneFor :
    {A : Type 0} (P : A → World → Type 0) (tid : ℕ) (o : Option ℕ) (w : World) (m : M A)
    → Shrinks m
    → GoneFor tid o w
    → Leaves P (m w)
    → Leaves (λ a v. GoneFor tid o v × P a v) (m w)
Leaves-GoneFor P tid none w m s g h = Leaves-both _ P (m w) (Leaves-any (m w)) h
Leaves-GoneFor P tid (some fd) w m s g h = Leaves-both _ P (m w) (s.at w (tid, fd) g) h

AllGone-kept :
    {A : Type 0} (tid : ℕ) (ws : List RegisterInfo) (w : World) (m : M A)
    → Shrinks m
    → AllGone tid ws w
    → Leaves (λ a v. AllGone tid ws v) (m w)
AllGone-kept tid [] w m s g = Leaves-any (m w)
AllGone-kept tid (x ∷ xs) w m s (g, gs) =
    Leaves-GoneFor _ tid x.file_handle w m s g (AllGone-kept tid xs w m s gs)

has_file-none : (w : RegisterInfo) → w.file_handle ≡ none → has_file w ≡ false
has_file-none w n = rw n refl

-- A slot without a device is not active.
idle : (w : RegisterInfo) → Fits w → w.file_handle ≡ none → w.is_active ≡ false
idle w (inl off) n = off
idle w (inr (len, inside, file)) n = absurd (true≢false (sym file ∙ has_file-none w n))

Keeps-get_session_key : (tid : ℕ) → Keeps (get_session_key tid)
unfolding get_session_key
Keeps-get_session_key tid = record {
  at = λ w. elim (Option-cases (lookup tid w.session_keys)) [
    | inl n ↦ rw (n, get_session_key, After) refl
    | inr (k, e) ↦ rw (e, get_session_key, After) refl
  ];
}

module _ (host : Host) (fast : Bool) (tid : ℕ) where
  dis_arm-Shrinks : (w : RegisterInfo) → Shrinks (dis_arm host fast tid w)
  unfolding dis_arm
  dis_arm-Shrinks w = elim (Option-cases w.file_handle) [
    | inl n ↦ rw (n, dis_arm) Shrinks-exit
    | inr (fd, e) ↦
        rw (e, dis_arm)
          (Shrinks-bind _ _ (remove_device-Shrinks host tid fd true) λ _. Shrinks-pure _)
  ]

  -- A round of the loop of WP_ThreadTerminate.
  abbrev release : RegisterInfo → M RegisterInfo
  release w = if has_file w then dis_arm host fast tid w else pure w

  release-Shrinks : (w : RegisterInfo) → Shrinks (release w)
  release-Shrinks w = elim (Bool-cases (has_file w)) [
    | inl t ↦ rw t (dis_arm-Shrinks w)
    | inr f ↦ rw f (Shrinks-pure w)
  ]

  release-Released :
      (w : RegisterInfo) (x : World)
      → Fits w
      → Leaves (λ a v. Released a × GoneFor tid w.file_handle v) (release w x)
  unfolding dis_arm
  release-Released w x fits = elim (Option-cases w.file_handle) [
    | inl n ↦ rw (has_file-none w n) ((idle w fits n, n), subst (λ o. GoneFor tid o x) (sym n) tt)
    | inr (fd, e) ↦
        rw (e, dis_arm)
          (Leaves-bind _ (λ a v. Released a × Gone (tid, fd) v) _ (remove_device host tid fd true x)
            (remove_device-Gone host tid fd true x) λ _ v g. ((refl, refl), g))
  ]

  dis_arm_all-Shrinks : (ws : List RegisterInfo) → Shrinks (dis_arm_all host fast tid ws)
  unfolding dis_arm_all
  dis_arm_all-Shrinks [] = Shrinks-pure []
  dis_arm_all-Shrinks (w ∷ ws) =
      Shrinks-bind _ _ (release-Shrinks w)
        λ w'. Shrinks-bind _ _ (dis_arm_all-Shrinks ws) λ ws'. Shrinks-pure (w' ∷ ws')

  dis_arm_all-AllReleased :
      (ws : List RegisterInfo) (x : World)
      → IsValid ws
      → Leaves (λ vs v. AllReleased vs × AllGone tid ws v) (dis_arm_all host fast tid ws x)
  unfolding dis_arm_all
  dis_arm_all-AllReleased [] x h = (tt, tt)
  dis_arm_all-AllReleased (w ∷ ws) x (fits, apart, valid) =
      Leaves-bind _ (λ vs v. AllReleased vs × AllGone tid (w ∷ ws) v) _ (release w x)
        (release-Released w x fits)
        λ w' v (free, gone).
          Leaves-bind _ (λ vs v. AllReleased vs × AllGone tid (w ∷ ws) v) _
            (dis_arm_all host fast tid ws v)
            (Leaves-GoneFor _ tid w.file_handle v (dis_arm_all host fast tid ws)
              (dis_arm_all-Shrinks ws) gone (dis_arm_all-AllReleased ws v valid))
            λ ws' v' (g, (rest, gs)). ((free, rest), (g, gs))

  -- What tool_sessionExit does behind WP_ThreadTerminate.
  abbrev leave_session : List RegisterInfo → M (List RegisterInfo)
  leave_session slots = do
    session ← get_session_key tid
    remove_device_by_session host tid session
    pure slots

  leave_session-Shrinks : (slots : List RegisterInfo) → Shrinks (leave_session slots)
  leave_session-Shrinks slots =
      Shrinks-bind _ _ (Keeps-Shrinks (Keeps-get_session_key tid)) λ session.
        Shrinks-bind _ _ (remove_device_by_session-Shrinks host tid session) λ _. Shrinks-pure slots

  leave_session-same :
      (P : List RegisterInfo → Type 0) (slots : List RegisterInfo) (x : World)
      → P slots
      → Leaves (λ vs v. P vs) (leave_session slots x)
  leave_session-same P slots x h =
      Leaves-bind _ (λ vs v. P vs) _ (get_session_key tid x) (Leaves-any _)
        λ session v _.
          Leaves-bind _ (λ vs v. P vs) _ (remove_device_by_session host tid session v)
            (Leaves-any _) λ _ v' _. h

  -- If a thread's watchpoints are valid, then when the end of its session returns, no slot is active
  -- or has a device, and no device that a slot had is in the table under the thread.
  pub tool_session_exit-Released :
      {R F : Type 0} (env : Random R F) (t : ThreadData R) (x : World)
      → IsValid t.slots
      → Leaves
          (λ vs v. AllReleased vs × AllGone tid t.slots v)
          (tool_session_exit host fast tid env t x)
  unfolding tool_session_exit wp_thread_terminate
  tool_session_exit-Released env t x valid =
      Leaves-bind _ (λ vs v. AllReleased vs × AllGone tid t.slots v) _
        (dis_arm_all host fast tid t.slots x) (dis_arm_all-AllReleased t.slots x valid)
        λ slots v (free, gone).
          Leaves-both (λ vs v. AllReleased vs) (λ vs v. AllGone tid t.slots v)
            (leave_session slots v) (leave_session-same AllReleased slots v free)
            (AllGone-kept tid t.slots v (leave_session slots) (leave_session-Shrinks slots) gone)
