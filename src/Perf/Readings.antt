-- ===== src/Perf/Readings.antt =====
-- Chains of steps of the parser, kvmTest/src/platform/device/perf_parser.cpp, on encoded fields.
use kognizance_tool.Prelude.{
  ℕ, ◌+◌, ◌%◌, ◌^◌, ◌<◌, ◌≡◌, refl, ap, ◌∙◌, sym, subst, Bool, true, false, some, List, [], ◌++◌,
  length, ltb, arith, if◌then◌else◌,
}
use mathlib.Core.List.{append-nil}
use native.Mathlib.Nat.{mod-eq_of_lt}
use kognizance_tool.Prelude.Int.{pos, pos_part, signed32, signed64}
use kognizance_tool.Event.{Event}
use kognizance_tool.Perf.Words.{
  Step, ◌then◌, when, has_bit, skip, shift, read, store_word, pass, repeat,
}
use kognizance_tool.Perf.Sample.{print_regs, read_raw, read_regs}
use kognizance_tool.Perf.Encode.{le, given, joined, SampleValues, encode_times}
use kognizance_tool.Perf.Steps.{
  cursor, Reads, then-Reads, nothing-Reads, read-Reads, pass-Reads, along, store_word-Reads,
  skip-Reads, when-Reads, repeat-Reads,
}

-- A step with what it reads, for chains of steps.
pub record Reading (bytes : List ℕ) (f : Step) (xs : List ℕ) (g : Event → Event) : Type 0 where
  pub run : Reads bytes f xs g

infixl 30 ◌▹◌
pub ◌▹◌ :
    {bytes xs ys : List ℕ} {f g : Step} {k l : Event → Event}
    → Reading bytes f xs k
    → Reading bytes g ys l
    → Reading bytes (f then g) (xs ++ ys) (λ e. l (k e))
◌▹◌ {bytes} {xs} {ys} {f} {g} {k} {l} a b = record {
  run = then-Reads bytes f g xs ys k l a.run b.run;
}

small32 : (n : ℕ) → n < 2 ^ 31 → signed32 (n % 256 ^ 4) ≡ pos n
small32 n h =
    let e : n % 256 ^ 4 ≡ n = mod-eq_of_lt (omega arith) in
    let t : ltb n (2 ^ 31) ≡ true = ground arith in ap signed32 e ∙ rw t refl

pub small64 : (n : ℕ) → n < 2 ^ 63 → signed64 (n % 256 ^ 8) ≡ pos n
small64 n h =
    let e : n % 256 ^ 8 ≡ n = mod-eq_of_lt (omega arith) in
    let t : ltb n (2 ^ 63) ≡ true = ground arith in ap signed64 e ∙ rw t refl

module _ (bytes : List ℕ) where
  pub pass8-Reading : (v : ℕ) → Reading bytes (pass bytes 8) (le 8 v) (λ e. e)
  pass8-Reading v = record { run = pass-Reads bytes 8 v (omega arith) }

  pub when-Reading :
      (b : Bool) (f : Step) (xs : List ℕ)
      → Reading bytes f xs (λ e. e)
      → Reading bytes (when b f) (given b xs) (λ e. e)
  when-Reading b f xs h = record { run = when-Reads bytes b f xs h.run }

  -- `g true` is kept if the field is there, and `g false` changes nothing.
  pub keeps :
      (b : Bool) (f : Step) (xs : List ℕ) (g : Bool → Event → Event)
      → ((e : Event) → g false e ≡ e)
      → Reading bytes f xs (g true)
      → Reading bytes (when b f) (given b xs) (g b)
  keeps true f xs g same h = h
  keeps false f xs g same h = record {
    run = λ e o rest at.
        nothing-Reads bytes e o rest at ∙ ap (λ k. some (cursor k (o + 0))) (sym (same e));
  }

  -- A field that is not there, behind others.
  pub without :
      {f : Step} {xs : List ℕ} {g : Event → Event} (b : Bool) (k : Step)
      → b ≡ false
      → Reading bytes f xs g
      → Reading bytes (f then when b k) xs g
  without {f} {xs} {g} b k e h = record {
    run = rw e (
        along bytes (f then some) (xs ++ []) xs g
          (then-Reads bytes f some xs [] g (λ e. e) h.run (nothing-Reads bytes)) (append-nil xs));
  }

  pub store_word-Reading :
      (n v : ℕ) (set : ℕ → Event → Event)
      → 0 < n
      → Reading bytes (store_word bytes n set) (le n v) (set (v % 256 ^ n))
  store_word-Reading n v set h = record { run = store_word-Reads bytes n v set h }

  pub times-Reading :
      (format : ℕ) (s : SampleValues)
      → Reading bytes
          (when (has_bit format 0) (pass bytes 8) then when (has_bit format 1) (pass bytes 8))
          (encode_times format s)
          (λ e. e)
  times-Reading format s =
      when-Reading (has_bit format 0) _ _ (pass8-Reading s.enabled)
      ▹ when-Reading (has_bit format 1) _ _ (pass8-Reading s.running)

  pub repeat-Reading :
      {A : Type 0} (f : Step) (enc : A → List ℕ) (xs : List A)
      → ((x : A) → Reading bytes f (enc x) (λ e. e))
      → Reading bytes (repeat (length xs) f) (joined enc xs) (λ e. e)
  repeat-Reading f enc xs each = record { run = repeat-Reads bytes f enc xs λ x. (each x).run }

  -- A count of 64 bits, and that many entries.
  pub counted-Reading :
      {A : Type 0} (f : Step) (enc : A → List ℕ) (xs : List A)
      → length xs < 2 ^ 63
      → ((x : A) → Reading bytes f (enc x) (λ e. e))
      → Reading bytes
          (read bytes 8 λ n. repeat (pos_part (signed64 n)) f)
          (le 8 (length xs) ++ joined enc xs)
          (λ e. e)
  counted-Reading f enc xs h each = record {
    run = read-Reads bytes 8 (length xs) _ _ _ (omega arith) (
        subst (λ m. Reads bytes (repeat (pos_part m) f) (joined enc xs) (λ e. e))
          (sym (small64 (length xs) h)) (repeat-Reading f enc xs each).run);
  }

  pub read_raw-Reading :
      (s : SampleValues)
      → length s.raw < 2 ^ 31
      → Reading bytes (read_raw bytes) (le 4 (length s.raw) ++ s.raw) (λ e. e)
  unfolding read_raw shift
  read_raw-Reading s h = record {
    run = read-Reads bytes 4 (length s.raw) _ _ _ (omega arith) (
        subst (λ m. Reads bytes (shift m) s.raw (λ e. e)) (sym (small32 (length s.raw) h))
          (skip-Reads bytes s.raw));
  }

  pub read_regs-Reading :
      (mask abi : ℕ) (values : List ℕ)
      → length values ≡ print_regs mask 64
      → Reading bytes (read_regs bytes mask) (le 8 abi ++ values) (λ e. e)
  unfolding read_regs
  read_regs-Reading mask abi values e = pass8-Reading abi ▹ record {
    run = subst (λ n. Reads bytes (skip n) values (λ e. e)) e (skip-Reads bytes values);
  }
