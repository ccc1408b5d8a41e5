-- ===== src/Perf/StackReads.antt =====
-- The stack of a sample, PERF_SAMPLE_STACK_USER in kvmTest/src/platform/device/perf_parser.cpp, on
-- an encoded sample.
use kognizance_tool.Prelude.{
  ℕ, zero, suc, ◌+◌, ◌-◌, ◌*◌, ◌^◌, ◌≤◌, ◌<◌, ◌≡◌, refl, ◌∙◌, sym, subst, true, some, List, [],
  ◌++◌, length, ltb, arith, Bool-cases, inl, inr, ◌==◌, not,
}
use mathlib.Core.List.{append-nil}
use kognizance_tool.Prelude.Int.{pos, ltz, signed64}
use kognizance_tool.Perf.Words.{Cursor, Step, ◌then◌, read, copy_signed}
use kognizance_tool.Perf.Sample.{stack_loop, stack_rounds, read_stack_user}
use kognizance_tool.Perf.Encode.{le, SampleValues, encode_stack}
use kognizance_tool.Perf.Steps.{
  cursor, Reads, nothing-Reads, then-Reads, read-Reads, along, copy-Reads,
}
use kognizance_tool.Perf.Readings.{Reading, small64}

-- The counter comes to the end within an int.
stack_loop-ends :
    (fuel k n : ℕ) (c : Cursor)
    → n ≤ 2 ^ 31 - 4
    → n + 4 ≤ k + 4 * fuel
    → k < n + 4
    → stack_loop fuel k (pos n) c ≡ some c
unfolding stack_loop
stack_loop-ends zero k n c small enough before = absurd (omega arith)
stack_loop-ends (suc fuel) k n c small enough before = elim (Bool-cases (ltz (pos k) (pos n))) [
  | inr f ↦ rw (f, stack_loop) refl
  | inl t ↦
      let room : ltb (k + 4) (2 ^ 31) ≡ true = ground (arith, t) in
      rw (t, room, stack_loop)
        (stack_loop-ends fuel (k + 4) n c small (omega arith) (ground (arith, t)))
]

module _ (bytes : List ℕ) where
  abbrev used_size : Step
  used_size = read bytes 8 (λ dyn_size. stack_loop stack_rounds 0 (signed64 dyn_size))

  used_size-Reads : (n : ℕ) → n ≤ 2 ^ 31 - 4 → Reads bytes used_size (le 8 n) (λ e. e)
  used_size-Reads n small =
      let ends : Reads bytes (stack_loop stack_rounds 0 (pos n)) [] (λ e. e) = λ e o rest at.
        stack_loop-ends stack_rounds 0 n (cursor e o) small (omega arith) (omega arith)
        ∙ nothing-Reads bytes e o rest at in
      along bytes used_size (le 8 n ++ []) (le 8 n) (λ e. e)
        (read-Reads bytes 8 n _ [] _ (omega arith) (
          subst (λ m. Reads bytes (stack_loop stack_rounds 0 m) [] (λ e. e))
            (sym (small64 n (omega (arith, small)))) ends))
        (append-nil (le 8 n))

  pub read_stack_user-Reading :
      (s : SampleValues)
      → length s.stack < 2 ^ 63
      → 0 < length s.stack
      → s.dyn_size ≤ 2 ^ 31 - 4
      → Reading bytes (read_stack_user bytes) (encode_stack s) (λ e. e)
  unfolding read_stack_user copy_signed
  read_stack_user-Reading s h filled counted = record {
    run =
        let used : not (length s.stack == 0) ≡ true = ground arith in
        rw used (
          read-Reads bytes 8 (length s.stack) _ _ _ (omega arith) (
            subst
              (λ m.
                Reads bytes (copy_signed bytes m then used_size) (s.stack ++ le 8 s.dyn_size)
                  (λ e. e))
              (sym (small64 (length s.stack) h))
              (then-Reads bytes (copy_signed bytes (pos (length s.stack))) used_size s.stack _ _ _
                (copy-Reads bytes s.stack filled) (used_size-Reads s.dyn_size counted))));
  }
