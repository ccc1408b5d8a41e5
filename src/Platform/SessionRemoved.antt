-- ===== src/Platform/SessionRemoved.antt =====
-- The removal of a session's devices, kvmTest/includes/platform/platform.hpp.
use kognizance_tool.Prelude.{
  ℕ, ◌≡◌, refl, ap, ◌∙◌, sym, false, List, [], ◌∷◌, ◌==◌, Bool-cases, inl, inr,
}
use kognizance_tool.Prelude.Map.{lookup, pair_key}
use kognizance_tool.Platform.World.{Host, World}
use kognizance_tool.Platform.Devices.{
  remove_device, remove_devices, remove_device_by_session, session_files, erase_session,
}
use kognizance_tool.Platform.Removed.{
  Leaves, Gone, Leaves-bind, Leaves-both, Shrinks, Shrinks-pure, Shrinks-bind,
  remove_device-Shrinks, remove_device-Gone,
}

-- None of the files has a device.
abbrev pub GoneEach : ℕ → List ℕ → World → Type 0
GoneEach tid [] v = Unit
GoneEach tid (fd ∷ fds) v = Gone (tid, fd) v × GoneEach tid fds v

module _ (host : Host) (tid : ℕ) where
  remove_devices-Shrinks : (fds : List ℕ) → Shrinks (remove_devices host tid fds)
  unfolding remove_devices
  remove_devices-Shrinks [] = Shrinks-pure tt
  remove_devices-Shrinks (fd ∷ fds) =
      Shrinks-bind _ _ (remove_device-Shrinks host tid fd false) λ _. remove_devices-Shrinks fds

  pub remove_device_by_session-Shrinks : (s : ℕ) → Shrinks (remove_device_by_session host tid s)
  unfolding remove_device_by_session
  remove_device_by_session-Shrinks s = record {
    at = λ w.
        (Shrinks-bind (remove_devices host tid (session_files s w.device_sessions)) _
            (remove_devices-Shrinks (session_files s w.device_sessions))
            λ _. record { at = λ v k g. g }).at
          w;
  }

  remove_devices-GoneEach :
      (fds : List ℕ) (w : World)
      → Leaves (λ a v. GoneEach tid fds v) (remove_devices host tid fds w)
  unfolding remove_devices
  remove_devices-GoneEach [] w = tt
  remove_devices-GoneEach (fd ∷ fds) w =
      Leaves-bind _ (λ a v. GoneEach tid (fd ∷ fds) v) _ (remove_device host tid fd false w)
        (remove_device-Gone host tid fd false w)
        λ _ v g.
          Leaves-both (λ a v. Gone (tid, fd) v) (λ a v. GoneEach tid fds v)
            (remove_devices host tid fds v) ((remove_devices-Shrinks fds).at v (tid, fd) g)
            (remove_devices-GoneEach fds v)

  session_files-erase_session :
      (s : ℕ) (m : List (ℕ × ℕ)) → session_files s (erase_session s m) ≡ []
  unfolding session_files erase_session
  session_files-erase_session s [] = refl
  session_files-erase_session s ((t, g) ∷ m) = elim (Bool-cases (t == s)) [
    | inl e ↦ rw (e, erase_session) (session_files-erase_session s m)
    | inr e ↦ rw (e, erase_session) (rw (e, session_files) (session_files-erase_session s m))
  ]

  GoneEach-same :
      (fds : List ℕ) (v w : World) → v.devices ≡ w.devices → GoneEach tid fds v → GoneEach tid fds w
  GoneEach-same [] v w e g = tt
  GoneEach-same (fd ∷ fds) v w e (g, gs) =
      (ap (λ m. lookup (tid, fd) m) (sym e) ∙ g, GoneEach-same fds v w e gs)

  -- When the removal of a session's devices returns, none of the files that the session had has a
  -- device under the thread, and the table of sessions has no file of the session.
  pub remove_device_by_session-Gone :
      (s : ℕ) (w : World)
      → Leaves
          (λ a v.
            GoneEach tid (session_files s w.device_sessions) v
            × (session_files s v.device_sessions ≡ []))
          (remove_device_by_session host tid s w)
  unfolding remove_device_by_session
  remove_device_by_session-Gone s w =
      let fds = session_files s w.device_sessions in
      Leaves-bind (λ a v. GoneEach tid fds v)
        (λ a v. GoneEach tid fds v × (session_files s v.device_sessions ≡ [])) _
        (remove_devices host tid fds w) (remove_devices-GoneEach fds w)
        λ _ v g. (GoneEach-same fds v _ refl g, session_files-erase_session s v.device_sessions)
