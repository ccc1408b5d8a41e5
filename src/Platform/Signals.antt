-- ===== src/Platform/Signals.antt =====
-- When the signal handler of kvmTest/src/platform/platform.cpp runs a device's handler, and what it
-- leaves behind.
use kognizance_tool.Prelude.{
  ℕ, ◌≡◌, refl, ap, sym, ◌∙◌, ◌⊎◌, inl, inr, Bool, true, false, Bool-cases, if◌then◌else◌,
}
use kognizance_tool.Platform.World.{Device, Host, World, Outcome, done, exited, M, pure}
use kognizance_tool.Platform.Devices.{resume_all_devices}
use kognizance_tool.Platform.Sessions.{
  unless_notified, is_in_signal_handler, entering_signal_unsafe, exiting_signal_unsafe,
  handle_signal, guard_signal, generic_dev_signal_handler,
}
use kognizance_tool.Platform.Frame.{
  After, After-trans, core, Keeps, Keeps-pause_all_devices, Keeps-resume_all_devices,
}

unless-After :
    (notified : Bool) (m : M Unit) (w : World)
    → Keeps m
    → After (λ v. core v ≡ core w) (if notified then pure tt w else m w)
unless-After true m w h = refl
unless-After false m w h = h.at w

Keeps-unless_notified : (m : M Unit) → Keeps m → Keeps (unless_notified m)
unfolding unless_notified
Keeps-unless_notified m h = record { at = λ w. unless-After w.request_will_be_notified m w h }

-- A flag that is set already stays what it is.
set_unsafe : (w : World) → w.signal_unsafe ≡ true → record w { signal_unsafe = true } ≡ w
set_unsafe w e = λ i. record w { signal_unsafe = sym e i }

set_nested :
    (w : World)
    → w.signal_unsafe ≡ false
    → w.in_signal_handler ≡ true
    → record w { signal_unsafe = false; in_signal_handler = true } ≡ w
set_nested w e f = λ i. record w { signal_unsafe = sym e i; in_signal_handler = sym f i }

abbrev pub IsBusy : World → Type 0
IsBusy w = (w.signal_unsafe ≡ true) ⊎ (w.in_signal_handler ≡ true)

IsBusy-of_core : (v w : World) → core v ≡ core w → IsBusy w → IsBusy v
IsBusy-of_core v w e (inl h) = inl (ap (λ (x : World). x.signal_unsafe) e ∙ h)
IsBusy-of_core v w e (inr h) = inr (ap (λ (x : World). x.in_signal_handler) e ∙ h)

module _ (host : Host) (handler : Device → M Unit) where
  resumed :
      (v c : World)
      → core v ≡ c
      → After (λ x. core x ≡ c) (unless_notified (resume_all_devices host) v)
  resumed v c e =
      After-trans _ v c e ((Keeps-unless_notified _ (Keeps-resume_all_devices host)).at v)

  guard_signal-refused :
      (tid fd : ℕ) (w c : World)
      → core w ≡ c
      → IsBusy w
      → After (λ v. core v ≡ c) (guard_signal host handler tid fd w)
  unfolding guard_signal handle_signal entering_signal_unsafe exiting_signal_unsafe
      is_in_signal_handler
  guard_signal-refused tid fd w c q h = elim (Bool-cases w.signal_unsafe) [
    | inl e ↦ rw e (resumed _ c (ap core (set_unsafe w e) ∙ q))
    | inr e ↦ elim h [
      | inl u ↦ absurd (cc)
      | inr n ↦ rw (e, n) (resumed _ c (ap core (set_nested w e n) ∙ q))
    ]
  ]

  After-pause :
      (tid fd : ℕ) (w : World) (o : Outcome Unit)
      → IsBusy w
      → After (λ v. core v ≡ core w) o
      → After
          (λ v. core v ≡ core w)
          (elim o [ done a v ↦ guard_signal host handler tid fd v | exited v ↦ exited v ])
  After-pause tid fd w (done a v) b h =
      guard_signal-refused tid fd v (core w) h (IsBusy-of_core v w h b)
  After-pause tid fd w (exited v) b h = h

  -- A signal that comes within an allocation, or while another signal is handled, runs no device's
  -- handler: it leaves the platform's tables, keys and flags as they were.
  pub signal-refused :
      (tid fd : ℕ) (w : World)
      → IsBusy w
      → After (λ v. core v ≡ core w) (generic_dev_signal_handler host handler tid fd w)
  unfolding generic_dev_signal_handler
  signal-refused tid fd w b =
      After-pause tid fd w _ b ((Keeps-unless_notified _ (Keeps-pause_all_devices host)).at w)
