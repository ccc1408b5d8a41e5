-- ===== src/Platform/Registered.antt =====
-- What Device::registerDevice of kvmTest/src/platform/device/device.cpp leaves in the tables of
-- kvmTest/includes/platform/platform.hpp.
use kognizance_tool.Prelude.{
  ℕ, ◌≡◌, refl, ap, ◌∙◌, ◌⊎◌, inl, inr, Bool, true, false, Option, some, ◌&&◌, Bool-cases,
  Option-cases, if◌then◌else◌,
}
use kognizance_tool.Prelude.Map.{lookup, lookup-insert_self, pair_key}
use kognizance_tool.Platform.World.{
  Device, Host, World, Outcome, done, exited, ◌>>=◌, ◌>>◌, pure, Call, get_vcpu, get_world,
  put_world, call, call_file, check, perf_event_open, mmap_buffer, close_file, set_async,
  set_signal, set_owner, set_action,
}
use kognizance_tool.Platform.Agent.{is_bp, take_slot, agent_update_bp, agent_register}
use kognizance_tool.Platform.Devices.{
  store_device, add_new_device, add_new_device_to_session, enter_device, register_device,
}
use kognizance_tool.Platform.Frame.{After, core, Keeps, Keeps-pure, Keeps-bind, Keeps-at_place}
use kognizance_tool.Platform.Removed.{Leaves, Leaves-bind, Leaves-any}

-- The device that a registration asks for, up to its file and its mapping.
abbrev pub IsOf : ℕ → Device → Device → Type 0
IsOf session d dev =
    (dev.kind ≡ d.kind)
    × (dev.length ≡ d.length)
    × (dev.bp_type ≡ d.bp_type)
    × (dev.address ≡ d.address)
    × (dev.session_id ≡ session)

-- The registration failed, or the device is in the table under the thread and its file.
abbrev pub Registered : ℕ → ℕ → Device → Bool × Device → World → Type 0
Registered tid session d r v =
    (r.0 ≡ false) ⊎ ((lookup (tid, r.1.file_id) v.devices ≡ some r.1) × IsOf session d r.1)

After-Found :
    {A : Type 0} (o : Outcome A) (w : World) (k : ℕ × ℕ) (x : Option Device)
    → After (λ v. core v ≡ core w) o
    → lookup k w.devices ≡ x
    → Leaves (λ a v. lookup k v.devices ≡ x) o
After-Found (done a v) w k x h e = ap (λ u. lookup k u.devices) h ∙ e
After-Found (exited v) w k x h e = tt

module _ (host : Host) where
  Keeps-agent_update_bp : (fd len type addr : ℕ) → Keeps (agent_update_bp host fd len type addr)
  unfolding agent_update_bp
  Keeps-agent_update_bp fd len type addr = Keeps-at_place host fd _

  Keeps-call_file : (c : Call) → Keeps (call_file host c)
  unfolding call_file
  Keeps-call_file c = record { at = λ w. refl }

  -- From the answer of the hypervisor on.
  Keeps-placed :
      (dev : Device) (v : Option ℕ)
      → Keeps (do
        u ← get_world
        let taken = take_slot dev.file_id (is_bp dev.kind) v u.kvm
        put_world (record u { kvm = taken.0 })
        if taken.1
            then (do agent_update_bp host dev.file_id dev.length dev.bp_type dev.address; pure tt)
            else pure tt)
  Keeps-placed dev v = record {
    at = λ w. elim (Bool-cases (take_slot dev.file_id (is_bp dev.kind) v w.kvm).1) [
      | inl t ↦ rw t (
          (Keeps-bind (agent_update_bp host dev.file_id dev.length dev.bp_type dev.address)
              (λ b. pure tt) (Keeps-agent_update_bp dev.file_id dev.length dev.bp_type dev.address)
              (λ b. Keeps-pure tt)).at
            (record w { kvm = (take_slot dev.file_id (is_bp dev.kind) v w.kvm).0 }))
      | inr f ↦ rw f refl
    ];
  }

  Keeps-agent_register : (dev : Device) → Keeps (agent_register host dev)
  unfolding agent_register
  Keeps-agent_register dev = record {
    at = λ w. elim (Bool-cases (w.is_agent_kvm && w.kvm.connected)) [
      | inl t ↦
          rw (t, agent_register)
            ((Keeps-bind _ _ (Keeps-call_file get_vcpu) λ v. Keeps-placed dev v).at w)
      | inr f ↦ rw (f, agent_register) refl
    ];
  }

  module _ (tid session : ℕ) (d : Device) where
    -- The device is in the table from its entry on.
    registering :
        (dev : Device) (v : World)
        → IsOf session d dev
        → lookup (tid, dev.file_id) v.devices ≡ some dev
        → Leaves (Registered tid session d) ((agent_register host dev >>= λ u. pure (true, dev)) v)
    registering dev v same found =
        Leaves-bind (λ a u. lookup (tid, dev.file_id) u.devices ≡ some dev) _ _ _
          (After-Found (agent_register host dev v) v (tid, dev.file_id) (some dev)
            ((Keeps-agent_register dev).at v) found)
          λ a u e. inr (e, same)

    owning :
        (dev : Device) (owned : Bool) (v : World)
        → IsOf session d dev
        → Leaves (Registered tid session d) (
            (if owned
                then (do
                  add_new_device tid dev.file_id dev
                  add_new_device_to_session dev.file_id session
                  agent_register host dev
                  pure (true, dev))
                else pure (false, dev))
              v)
    unfolding add_new_device add_new_device_to_session store_device
    owning dev false v same = inl refl
    owning dev true v same =
        registering dev _ same (lookup-insert_self (tid, dev.file_id) dev v.devices)

    entered :
        (dev : Device) (v : World)
        → IsOf session d dev
        → Leaves (Registered tid session d) (enter_device host tid session dev v)
    unfolding enter_device
    entered dev v same =
        Leaves-bind (λ a u. Unit {0}) _ _ _ (Leaves-any (check host (set_signal dev.file_id) v))
          λ a u h.
            Leaves-bind (λ b x. Unit {0}) _ _ _ (Leaves-any (call host (set_owner dev.file_id) u))
              λ owned x k. owning dev owned x same

    acting :
        (dev : Device) (b : Bool) (v : World)
        → IsOf session d dev
        → Leaves
            (Registered tid session d)
            ((if b then enter_device host tid session dev else pure (false, dev)) v)
    acting dev false v same = inl refl
    acting dev true v same = entered dev v same

    mapping :
        (fd : ℕ) (mapped : Bool) (v : World)
        → Leaves (Registered tid session d) (
            (if mapped
                then (do
                  check host (set_async fd)
                  acts ← call host set_action
                  if acts
                      then enter_device host tid session
                          (record d { session_id = session; file_id = fd; mapped = mapped })
                      else pure
                          (false, record d { session_id = session; file_id = fd; mapped = mapped }))
                else (do
                  check host (close_file fd)
                  pure (false, record d { session_id = session; file_id = fd; mapped = mapped })))
              v)
    mapping fd false v =
        Leaves-bind (λ a u. Unit {0}) _ _ _ (Leaves-any (check host (close_file fd) v))
          λ a u h. inl refl
    mapping fd true v =
        Leaves-bind (λ a u. Unit {0}) _ _ _ (Leaves-any (check host (set_async fd) v))
          λ a u h.
            Leaves-bind (λ b x. Unit {0}) _ _ _ (Leaves-any (call host set_action u))
              λ acts x k.
                acting (record d { session_id = session; file_id = fd; mapped = true }) acts x
                  (refl, refl, refl, refl, refl)

    -- Whenever the registration of a device returns, it failed, or the device is in the table under
    -- the thread and its file, in the session and with the kind, length, type and address it was
    -- made with.
    pub register_device-Registered :
        (w : World) → Leaves (Registered tid session d) (register_device host tid session d w)
    unfolding register_device
    register_device-Registered w =
        Leaves-bind (λ o u. Unit {0}) _ _ _
          (Leaves-any (
            call_file host
              (perf_event_open d.kind d.length d.bp_type (if w.is_agent_kvm then 0 else d.address))
              w))
          λ o u h. elim (Option-cases o) [
            | inl n ↦ rw n (inl refl)
            | inr (fd, e) ↦ rw e (
                Leaves-bind (λ m x. Unit {0}) _ _ _ (Leaves-any (call host (mmap_buffer fd) u))
                  λ mapped x k. mapping fd mapped x)
          ]
