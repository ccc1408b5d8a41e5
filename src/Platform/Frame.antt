-- ===== src/Platform/Frame.antt =====
-- What the device operations leave alone.
use kognizance_tool.Prelude.{
  ℕ, ◌≡◌, refl, ◌∙◌, Bool, true, false, Option, List, [], ◌∷◌, arith, if◌then◌else◌,
}
use kognizance_tool.Platform.World.{
  Device, Call, Host, World, Outcome, done, exited, M, ◌>>=◌, pure, call,
}
use kognizance_tool.Platform.Agent.{at_place, pause_device, resume_device}
use kognizance_tool.Platform.Devices.{
  disable_device, enable_device, pause_each, pause_all_devices, resume_each, resume_all_devices,
}

-- Whether it returns or ends the process, the operation leaves a world of which P holds.
abbrev pub After : {A : Type 0} → (World → Type 0) → Outcome A → Type 0
After P (done a w) = P w
After P (exited w) = P w

-- The world without the tables of the KVM agent and the trace of calls.
abbrev pub core : World → World
core w = record w {
  kvm = record { connected = false; device_vcpu = []; vcpu_slots = [] };
  trace = [];
}

-- The operation changes the KVM agent's tables and the trace at most.
pub record Keeps {A : Type 0} (m : M A) : Type 0 where
  pub at : (w : World) → After (λ v. core v ≡ core w) (m w)

pub Keeps-pure : {A : Type 0} (a : A) → Keeps (pure a)
Keeps-pure a = record { at = λ w. refl }

pub After-trans :
    {A : Type 0} (o : Outcome A) (x c : World)
    → core x ≡ c
    → After (λ v. core v ≡ core x) o
    → After (λ v. core v ≡ c) o
After-trans (done a v) x c e h = h ∙ e
After-trans (exited v) x c e h = h ∙ e

bind-After :
    {A B : Type 0} (o : Outcome A) (f : A → M B) (w : World)
    → After (λ v. core v ≡ core w) o
    → ((a : A) → Keeps (f a))
    → After (λ v. core v ≡ core w) (elim o [ done a v ↦ f a v | exited v ↦ exited v ])
bind-After (done a v) f w h k = After-trans (f a v) v (core w) h ((k a).at v)
bind-After (exited v) f w h k = h

pub Keeps-bind :
    {A B : Type 0} (m : M A) (f : A → M B) → Keeps m → ((a : A) → Keeps (f a)) → Keeps (m >>= f)
Keeps-bind m f h k = record { at = λ w. bind-After (m w) f w (h.at w) k }

pub Keeps-if : {A : Type 0} (b : Bool) (m k : M A) → Keeps m → Keeps k → Keeps (if b then m else k)
Keeps-if true m k h g = h
Keeps-if false m k h g = g

pub ruleset keeps_rules = (Keeps-pure, Keeps-bind, Keeps-if)

module _ (host : Host) where
  pub Keeps-call : (c : Call) → Keeps (call host c)
  unfolding call
  Keeps-call c = record { at = λ w. refl }

  pub Keeps-at_place : (fd : ℕ) (request : Option ℕ → ℕ → Call) → Keeps (at_place host fd request)
  unfolding at_place call
  Keeps-at_place fd request = record { at = λ w. ground arith }

  Keeps-pause : (d : Device) → Keeps (pause_device host d)
  unfolding pause_device
  Keeps-pause d = Keeps-at_place d.file_id _

  Keeps-resume : (d : Device) → Keeps (resume_device host d)
  unfolding resume_device
  Keeps-resume d = Keeps-at_place d.file_id _

  pub Keeps-disable_device : (d : Device) → Keeps (disable_device host d)
  unfolding disable_device
  Keeps-disable_device d = search (keeps_rules, Keeps-pause, Keeps-call)

  Keeps-enable_device : (d : Device) → Keeps (enable_device host d)
  unfolding enable_device
  Keeps-enable_device d = search (keeps_rules, Keeps-resume, Keeps-call)

  Keeps-pause_each : (ds : List ((ℕ × ℕ) × Device)) → Keeps (pause_each host ds)
  unfolding pause_each
  Keeps-pause_each [] = Keeps-pure tt
  Keeps-pause_each ((key, d) ∷ ds) =
      Keeps-bind _ _ (Keeps-disable_device d) (λ _. Keeps-pause_each ds)

  Keeps-resume_each : (ds : List ((ℕ × ℕ) × Device)) → Keeps (resume_each host ds)
  unfolding resume_each
  Keeps-resume_each [] = Keeps-pure tt
  Keeps-resume_each ((key, d) ∷ ds) =
      Keeps-bind _ _ (Keeps-if d.is_disabled _ _ (Keeps-pure tt) (Keeps-enable_device d))
        (λ _. Keeps-resume_each ds)

  -- Pausing or resuming all devices changes no table of the platform, no flag and no key.
  pub Keeps-pause_all_devices : Keeps (pause_all_devices host)
  unfolding pause_all_devices
  Keeps-pause_all_devices = record { at = λ w. (Keeps-pause_each w.devices).at w }

  pub Keeps-resume_all_devices : Keeps (resume_all_devices host)
  unfolding resume_all_devices
  Keeps-resume_all_devices = record { at = λ w. (Keeps-resume_each w.devices).at w }
