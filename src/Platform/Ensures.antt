-- ===== src/Platform/Ensures.antt =====
-- Results of operations that may end the process.
use kognizance_tool.Prelude.{◌≡◌, refl, Bool, true, false, Option, none, some, if◌then◌else◌}
use kognizance_tool.Platform.World.{World, Outcome, done, exited, M, ◌>>=◌, pure, exit}

-- An operation that returns gives a value with the property.
abbrev pub Returned : {A : Type 0} → (A → Type 0) → Outcome A → Type 0
Returned Q (done a w) = Q a
Returned Q (exited w) = Unit

-- Whenever the operation returns, its value has the property.
pub record Ensures {A : Type 0} (Q : A → Type 0) (m : M A) : Type 0 where
  pub at : (w : World) → Returned Q (m w)

module _ {A : Type 0} (Q : A → Type 0) where
  pub Ensures-pure : (a : A) → Q a → Ensures Q (pure a)
  Ensures-pure a h = record { at = λ w. h }

  pub Ensures-exit : Ensures Q exit
  Ensures-exit = record { at = λ w. tt }

  pub Ensures-if :
      (b : Bool) (m k : M A) → Ensures Q m → Ensures Q k → Ensures Q (if b then m else k)
  Ensures-if true m k h g = h
  Ensures-if false m k h g = g

any_outcome : {A : Type 0} (o : Outcome A) → Returned (λ a. Unit {0}) o
any_outcome (done a w) = tt
any_outcome (exited w) = tt

Ensures-any : {A : Type 0} (m : M A) → Ensures (λ a. Unit {0}) m
Ensures-any m = record { at = λ w. any_outcome (m w) }

module _ {A B : Type 0} (P : A → Type 0) (Q : B → Type 0) where
  pub Returned-bind :
      (o : Outcome A) (f : A → M B)
      → Returned P o
      → ((a : A) → P a → Ensures Q (f a))
      → Returned Q (elim o [ done a v ↦ f a v | exited v ↦ exited v ])
  Returned-bind (done a v) f h k = (k a h).at v
  Returned-bind (exited v) f h k = tt

  pub Ensures-bind :
      (m : M A) (f : A → M B)
      → Ensures P m
      → ((a : A) → P a → Ensures Q (f a))
      → Ensures Q (m >>= f)
  Ensures-bind m f h k = record { at = λ w. Returned-bind (m w) f (h.at w) k }

-- A step whose value does not matter.
pub Ensures-then :
    {A B : Type 0} (Q : B → Type 0) (m : M A) (f : A → M B)
    → ((a : A) → Ensures Q (f a))
    → Ensures Q (m >>= f)
Ensures-then Q m f k = Ensures-bind (λ a. Unit {0}) Q m f (Ensures-any m) (λ a h. k a)

pub Ensures-option :
    {A B : Type 0} (Q : B → Type 0) (o : Option A) (m : M B) (f : A → M B)
    → Ensures Q m
    → ((a : A) → Ensures Q (f a))
    → Ensures Q (elim o [ none ↦ m | some a ↦ f a ])
Ensures-option Q none m f h k = h
Ensures-option Q (some a) m f h k = k a

module _ {A : Type 0} {P Q : A → Type 0} (weaker : (a : A) → P a → Q a) where
  Returned-weaker : (o : Outcome A) → Returned P o → Returned Q o
  Returned-weaker (done a w) h = weaker a h
  Returned-weaker (exited w) h = tt

  pub Ensures-weaker : {m : M A} → Ensures P m → Ensures Q m
  Ensures-weaker {m} h = record { at = λ w. Returned-weaker (m w) (h.at w) }

-- The same, with the value at hand in the case of one.
pub Ensures-option_eq :
    {A B : Type 0} (Q : B → Type 0) (o : Option A) (m : M B) (f : A → M B)
    → Ensures Q m
    → ((a : A) → o ≡ some a → Ensures Q (f a))
    → Ensures Q (elim o [ none ↦ m | some a ↦ f a ])
Ensures-option_eq Q none m f h k = h
Ensures-option_eq Q (some a) m f h k = k a refl

module _ {A : Type 0} (P Q : A → Type 0) where
  Returned-both : (o : Outcome A) → Returned P o → Returned Q o → Returned (λ a. P a × Q a) o
  Returned-both (done a w) h k = (h, k)
  Returned-both (exited w) h k = tt

  pub Ensures-both : (m : M A) → Ensures P m → Ensures Q m → Ensures (λ a. P a × Q a) m
  Ensures-both m h k = record { at = λ w. Returned-both (m w) (h.at w) (k.at w) }
