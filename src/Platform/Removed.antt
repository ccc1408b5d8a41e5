-- ===== src/Platform/Removed.antt =====
-- What the removal of devices leaves in the table of kvmTest/includes/platform/platform.hpp.
use kognizance_tool.Prelude.{
  ℕ, ◌≡◌, refl, ap, ◌∙◌, Bool, true, false, none, Bool-cases, Option-cases, inl, inr,
}
use kognizance_tool.Prelude.Map.{lookup, erase, lookup-erase, pair_key}
use kognizance_tool.Platform.World.{
  Device, Host, World, Call, Outcome, done, exited, M, ◌>>=◌, ◌>>◌, pure, get_world, put_world,
  check, munmap_buffer, close_file, exit,
}
use kognizance_tool.Platform.Frame.{
  After, core, Keeps, Keeps-pure, Keeps-bind, Keeps-if, Keeps-call, Keeps-disable_device,
}
use kognizance_tool.Platform.Agent.{agent_unregister}
use kognizance_tool.Platform.Devices.{get_device, end_device, unregister_device, remove_device}

-- What holds of the value and the world that an operation returns with.
abbrev pub Leaves : {A : Type 0} → (A → World → Type 0) → Outcome A → Type 0
Leaves P (done a v) = P a v
Leaves P (exited v) = Unit

-- No device has the key.
abbrev pub Gone : ℕ × ℕ → World → Type 0
Gone k w = lookup k w.devices ≡ none

-- A key without a device stays one.
abbrev pub Fewer : {A : Type 0} → World → Outcome A → Type 0
Fewer w o = (k : ℕ × ℕ) → Gone k w → Leaves (λ a v. Gone k v) o

pub record Shrinks {A : Type 0} (m : M A) : Type 0 where
  pub at : (w : World) → Fewer w (m w)

module _ {A B : Type 0} (P : A → World → Type 0) (Q : B → World → Type 0) (f : A → M B) where
  pub Leaves-bind :
      (o : Outcome A)
      → Leaves P o
      → ((a : A) (v : World) → P a v → Leaves Q (f a v))
      → Leaves Q (elim o [ done a v ↦ f a v | exited v ↦ exited v ])
  Leaves-bind (done a v) h k = k a v h
  Leaves-bind (exited v) h k = tt

pub Leaves-any : {A : Type 0} (o : Outcome A) → Leaves (λ a v. Unit {0}) o
Leaves-any (done a v) = tt
Leaves-any (exited v) = tt

pub Leaves-both :
    {A : Type 0} (P Q : A → World → Type 0) (o : Outcome A)
    → Leaves P o
    → Leaves Q o
    → Leaves (λ a v. P a v × Q a v) o
Leaves-both P Q (done a v) h k = (h, k)
Leaves-both P Q (exited v) h k = tt

pub Shrinks-pure : {A : Type 0} (a : A) → Shrinks (pure a)
Shrinks-pure a = record { at = λ w k h. h }

pub Shrinks-exit : {A : Type 0} → Shrinks (exit {A = A})
Shrinks-exit = record { at = λ w k h. tt }

pub Shrinks-bind :
    {A B : Type 0} (m : M A) (f : A → M B)
    → Shrinks m
    → ((a : A) → Shrinks (f a))
    → Shrinks (m >>= f)
Shrinks-bind m f h k = record {
  at = λ w key g.
      Leaves-bind (λ a v. Gone key v) (λ b v. Gone key v) f (m w) (h.at w key g)
        (λ a v. (k a).at v key);
}

After-Fewer : {A : Type 0} (o : Outcome A) (w : World) → After (λ v. core v ≡ core w) o → Fewer w o
After-Fewer (done a v) w h k g = ap (λ x. lookup k x.devices) h ∙ g
After-Fewer (exited v) w h k g = tt

pub Keeps-Shrinks : {A : Type 0} {m : M A} → Keeps m → Shrinks m
Keeps-Shrinks {m} h = record { at = λ w. After-Fewer (m w) w (h.at w) }

erase-Gone : (j k : ℕ × ℕ) (w : World) → Gone k w → lookup k (erase j w.devices) ≡ none
erase-Gone j k w h = elim (Bool-cases (pair_key.same j k)) [
  | inl t ↦ rw (lookup-erase j k w.devices, t) refl
  | inr f ↦ rw (lookup-erase j k w.devices, f) h
]

erase-Gone_self : (k : ℕ × ℕ) (w : World) → lookup k (erase k w.devices) ≡ none
erase-Gone_self k w = lookup-erase k k w.devices ∙ rw ((pair_key.same_iff k k).1 refl) refl

module _ (host : Host) where
  Keeps-agent_unregister : (d : Device) → Keeps (agent_unregister d)
  unfolding agent_unregister
  Keeps-agent_unregister d = record {
    at = λ w. elim (Bool-cases w.is_agent_kvm) [
      | inl t ↦ rw (t, agent_unregister) refl
      | inr f ↦ rw (f, agent_unregister) refl
    ];
  }

  Keeps-check : (c : Call) → Keeps (check host c)
  unfolding check
  Keeps-check c =
      Keeps-bind _ _ (Keeps-call host c)
        λ ok. Keeps-if ok _ _ (Keeps-pure tt) (record { at = λ w. refl })

  Keeps-end_device : (d : Device) → Keeps (end_device host d)
  unfolding end_device
  Keeps-end_device d =
      Keeps-bind _ _ (Keeps-disable_device host (record d { is_disabled = true })) λ _. Keeps-pure _

  Keeps-unregister_device : (d : Device) → Keeps (unregister_device host d)
  unfolding unregister_device
  Keeps-unregister_device d = Keeps-bind _ _ (Keeps-check (munmap_buffer d.file_id)) λ _.
      Keeps-bind _ _ (Keeps-check (close_file d.file_id))
        λ _. Keeps-agent_unregister (record d { mapped = false; is_disabled = false })

  -- The steps of remove_device behind the table of sessions.
  abbrev ended_and_erased : ℕ × ℕ → Device → M Unit
  ended_and_erased key d = do
    ended ← end_device host d
    unregister_device host ended
    v ← get_world
    put_world (record v { devices = erase key v.devices })

  ended_and_erased-Shrinks : (key : ℕ × ℕ) (d : Device) → Shrinks (ended_and_erased key d)
  ended_and_erased-Shrinks key d = Shrinks-bind _ _ (Keeps-Shrinks (Keeps-end_device d)) λ ended.
      Shrinks-bind _ _ (Keeps-Shrinks (Keeps-unregister_device ended))
        λ _. record { at = λ v k g. erase-Gone key k v g }

  ended_and_erased-Gone :
      (key : ℕ × ℕ) (d : Device) (w : World) → Leaves (λ a v. Gone key v) (ended_and_erased key d w)
  ended_and_erased-Gone key d w =
      Leaves-bind _ (λ a v. Gone key v) _ (end_device host d w) (Leaves-any _)
        λ ended v _.
          Leaves-bind _ (λ a v. Gone key v) _ (unregister_device host ended v) (Leaves-any _)
            λ _ v' _. erase-Gone_self key v'

  module _ (tid : ℕ) where
    pub remove_device-Shrinks : (fd : ℕ) (b : Bool) → Shrinks (remove_device host tid fd b)
    unfolding remove_device get_device
    remove_device-Shrinks fd b = record {
      at = λ w k g. elim (Option-cases (lookup (tid, fd) w.devices)) [
        | inl n ↦ rw (n, remove_device, get_device, Leaves) g
        | inr (d, e) ↦ elim (Bool-cases b) [
          | inl t ↦
              rw (e, t, remove_device, get_device, Leaves)
                ((ended_and_erased-Shrinks (tid, fd) d).at _ k g)
          | inr f ↦
              rw (e, f, remove_device, get_device, Leaves)
                ((ended_and_erased-Shrinks (tid, fd) d).at _ k g)
        ]
      ];
    }

    pub remove_device-Gone :
        (fd : ℕ) (b : Bool) (w : World)
        → Leaves (λ a v. Gone (tid, fd) v) (remove_device host tid fd b w)
    unfolding remove_device get_device
    remove_device-Gone fd b w = elim (Option-cases (lookup (tid, fd) w.devices)) [
      | inl n ↦ rw (n, remove_device, get_device, Leaves) n
      | inr (d, e) ↦ rw (e, remove_device, get_device, Leaves) (ended_and_erased-Gone (tid, fd) d _)
    ]
