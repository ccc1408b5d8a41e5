-- ===== src/Native/Backtraces.antt =====
-- What agent_retrieveBacktrace, kvmTest/src/agent/nativeAgent/myagent.cpp, collects.
use kognizance_tool.Prelude.{
  ℕ, ◌≡◌, refl, ap, ◌∙◌, sym, Bool, true, false, Option, none, some, List, [], ◌∷◌, ◌++◌, ◌==◌,
  if◌then◌else◌, Bool-cases, Option-cases, inl, inr, arith,
}
use mathlib.Core.List.{append-nil, append_assoc}
use kognizance_tool.Event.{Event, Frame}
use kognizance_tool.Native.{
  Unwound, Backtrace, contains, is_parent, frame_at, unwind_step, unwind, agent_retrieve_backtrace,
}
use kognizance_tool.Native.Symbols.{contains-here}

-- The steps from the signal's frame on.
abbrev pub from_signal : List Unwound → List Unwound
from_signal [] = []
from_signal (u ∷ us) = let rest = from_signal us in if u.is_signal_frame then u ∷ us else rest

module _ (start_of : ℕ → Option ℕ) (h_ip_addr : ℕ) where
  abbrev pub frame_of : Unwound → Frame
  frame_of u = frame_at (if u.is_signal_frame then h_ip_addr else u.ip)

  -- The first frame of each function with a known start; `seen` are the starts met before.
  abbrev pub first_calls : List ℕ → List Unwound → List Frame
  first_calls seen [] = []
  first_calls seen (u ∷ us) = elim (start_of u.ip) [
    | none ↦ first_calls seen us
    | some start ↦ elim (contains start seen) [
      | true ↦ first_calls seen us
      | false ↦ frame_of u ∷ first_calls (start ∷ seen) us
    ]
  ]

  abbrev outside : Option ℕ → List ℕ → List Frame → Backtrace
  outside parent seen frames = record {
    in_signal_frame = false;
    parent = parent;
    map_for_recursion = seen;
    frames = frames;
  }

  -- The function of the parent has been met.
  abbrev Covered : Option ℕ → List ℕ → Type 0
  Covered none seen = Unit
  Covered (some p) seen = (s : ℕ) × (start_of p ≡ some s) × (contains s seen ≡ true)

  Covered-is_parent :
      (parent : Option ℕ) (seen : List ℕ) (ip s : ℕ)
      → Covered parent seen
      → start_of ip ≡ some s
      → contains s seen ≡ false
      → is_parent parent ip ≡ false
  Covered-is_parent none seen ip s c e f = refl
  Covered-is_parent (some p) seen ip s (r, started, met) e f = elim (Bool-cases (p == ip)) [
    | inr d ↦ d
    | inl t ↦ let same : p ≡ ip = ground (arith, t) in absurd (cc)
  ]

  unwind-outside :
      (us : List Unwound) (parent : Option ℕ) (seen : List ℕ) (frames : List Frame)
      → Covered parent seen
      → (unwind start_of h_ip_addr us (outside parent seen frames)).frames
        ≡ frames ++ first_calls seen us
  unfolding unwind unwind_step
  unwind-outside [] parent seen frames c = sym (append-nil frames)
  unwind-outside (u ∷ us) parent seen frames c = elim (Option-cases (start_of u.ip)) [
    | inl n ↦ rw (n, unwind, unwind_step, first_calls) (unwind-outside us parent seen frames c)
    | inr (s, e) ↦ elim (Bool-cases (contains s seen)) [
      | inl t ↦ elim (Bool-cases (is_parent parent u.ip)) [
        | inl p ↦
            rw (e, t, p, unwind, unwind_step, first_calls) (unwind-outside us parent seen frames c)
        | inr p ↦
            rw (e, t, p, unwind, unwind_step, first_calls) (unwind-outside us parent seen frames c)
      ]
      | inr f ↦
          let other = Covered-is_parent parent seen u.ip s c e f in
          rw (e, f, other, unwind, unwind_step, first_calls)
            (unwind-outside us (some u.ip) (s ∷ seen) (frames ++ (frame_of u ∷ []))
                (s, e, contains-here s seen)
              ∙ append_assoc frames (frame_of u ∷ []) (first_calls (s ∷ seen) us))
    ]
  ]

  abbrev inside : Backtrace
  inside = record { in_signal_frame = true; parent = none; map_for_recursion = []; frames = [] }

  -- A frame before the signal's is not taken.
  unwind_step-inside :
      (ip : ℕ)
      → unwind_step start_of h_ip_addr (record { ip = ip; is_signal_frame = false }) inside ≡ inside
  unfolding unwind_step
  unwind_step-inside ip = elim (Option-cases (start_of ip)) [
    | inl n ↦ rw (n, unwind_step) refl
    | inr (s, e) ↦ rw (e, unwind_step) refl
  ]

  unwind-first :
      (ip : ℕ) (is_signal : Bool) (us : List Unwound)
      → (unwind start_of h_ip_addr us inside).frames ≡ first_calls [] (from_signal us)
      → (unwind start_of h_ip_addr
          (record { ip = ip; is_signal_frame = is_signal } ∷ us)
          inside).frames
        ≡ first_calls [] (from_signal (record { ip = ip; is_signal_frame = is_signal } ∷ us))
  unfolding unwind unwind_step
  unwind-first ip true us h =
      unwind-outside (record { ip = ip; is_signal_frame = true } ∷ us) none [] [] tt
  unwind-first ip false us h =
      ap (λ b. (unwind start_of h_ip_addr us b).frames) (unwind_step-inside ip) ∙ h

  unwind-inside :
      (us : List Unwound)
      → (unwind start_of h_ip_addr us inside).frames ≡ first_calls [] (from_signal us)
  unfolding unwind
  unwind-inside [] = refl
  unwind-inside (u ∷ us) = unwind-first u.ip u.is_signal_frame us (unwind-inside us)

-- The backtrace appends to the host's context, from the signal's frame on, the first frame of each
-- function whose start is known, the signal's with the event's instruction pointer: calls of a
-- function that was met are left out, and the test of the parent never decides.
pub agent_retrieve_backtrace-calls :
    (start_of : ℕ → Option ℕ) (us : List Unwound) (e : Event)
    → (agent_retrieve_backtrace start_of us e).context_host
      ≡ e.context_host ++ first_calls start_of e.h_ip_addr [] (from_signal us)
unfolding agent_retrieve_backtrace
agent_retrieve_backtrace-calls start_of us e =
    ap (λ frames. e.context_host ++ frames) (unwind-inside start_of e.h_ip_addr us)
