-- ===== src/Perf/Forward.antt =====
-- The parser of kvmTest/src/platform/device/perf_parser.cpp moves forward.
use kognizance_tool.Prelude.{
  ℕ, zero, suc, ◌+◌, ◌≤◌, ◌≡◌, ap, inl, inr, Bool, true, false, none, some, List, [], ◌∷◌, length,
  leb, arith, Bool-cases, Option-cases, if◌then◌else◌,
}
use kognizance_tool.Prelude.Int.{ℤ, pos, negsuc}
use kognizance_tool.Event.{Event}
use kognizance_tool.Perf.Words.{
  Cursor, Step, ◌then◌, when, word, skip, read, store_word, pass, copy, copy_signed, passes, repeat,
}

pub record Forward (f : Step) : Type 0 where
  pub run : (c d : Cursor) → f c ≡ some d → c.at ≤ d.at

pub none-is-not-some : {P : Type 0} (d : Cursor) → none ≡ some d → P
none-is-not-some d e = absurd (cc)

pub same-Forward : Forward some
same-Forward = record { run = λ c d e. let e' : c ≡ d = cc in omega (arith, ap (λ k. k.at) e') }

infixl 30 ◌▹◌
pub ◌▹◌ : {f g : Step} → Forward f → Forward g → Forward (f then g)
◌▹◌ {f} {g} first second = record {
  run = λ c d e. elim (Option-cases (f c)) [
    | inl n ↦ none-is-not-some d (rw (n, ◌then◌) at e)
    | inr (m, s) ↦
        let e' : g m ≡ some d = rw (s, ◌then◌) at e in
        omega (arith, first.run c m s, second.run m d e')
  ];
}

pub when-Forward : (b : Bool) {f : Step} → Forward f → Forward (when b f)
when-Forward true h = h
when-Forward false h = same-Forward

pub skip-Forward : (n : ℕ) → Forward (skip n)
unfolding skip
skip-Forward n = record {
  run = λ c d e. let e' : record c { at = c.at + n } ≡ d = cc in omega (arith, ap (λ k. k.at) e');
}

module _ (bytes : List ℕ) where
  pub read-Forward : (n : ℕ) (k : ℕ → Step) → ((v : ℕ) → Forward (k v)) → Forward (read bytes n k)
  unfolding read
  read-Forward n k h = record {
    run = λ c d e. elim (Option-cases (word bytes n c.at)) [
      | inl m ↦ none-is-not-some d (rw (m, read) at e)
      | inr (v, s) ↦
          let e' : k v (record c { at = c.at + n }) ≡ some d = rw (s, read) at e in
          omega (arith, (h v).run (record c { at = c.at + n }) d e')
    ];
  }

  pub pass-Forward : (n : ℕ) → Forward (pass bytes n)
  unfolding pass
  pass-Forward n = read-Forward n (λ v c. some c) λ v. same-Forward

  pub store-Forward : (n : ℕ) (set : ℕ → Event → Event) → Forward (store_word bytes n set)
  unfolding store_word
  store-Forward n set =
      read-Forward n (λ v c. some (record c { event = set v c.event }))
        λ v. record {
          run = λ c d e.
              let e' : record c { event = set v c.event } ≡ d = cc in
              omega (arith, ap (λ k. k.at) e');
        }

  copy-Forward : (n : ℕ) → Forward (copy bytes n)
  unfolding copy
  copy-Forward n = record {
    run = λ c d e. elim (Bool-cases (leb (c.at + n) (length bytes))) [
      | inl t ↦ (skip-Forward n).run c d (rw (t, copy) at e)
      | inr f ↦ none-is-not-some d (rw (f, copy) at e)
    ];
  }

  pub copy_signed-Forward : (z : ℤ) → Forward (copy_signed bytes z)
  unfolding copy_signed
  copy_signed-Forward (pos n) = record { run = (copy-Forward n).run }
  copy_signed-Forward (negsuc n) = record { run = λ c d e. none-is-not-some d e }

pub repeat-Forward : (n : ℕ) (f : Step) → Forward f → Forward (repeat n f)
unfolding repeat
repeat-Forward zero f h = record { run = same-Forward.run }
repeat-Forward (suc n) f h = record { run = (h ▹ repeat-Forward n f h).run }

pub passes-Forward : (bytes ns : List ℕ) → Forward (passes bytes ns)
unfolding passes
passes-Forward bytes [] = record { run = same-Forward.run }
passes-Forward bytes (n ∷ ns) = record {
  run = (pass-Forward bytes n ▹ passes-Forward bytes ns).run;
}
