-- ===== src/Decoder/Search.antt =====
-- Laws of the search for the previous instruction, kvmTest/src/agent/nativeAgent/decoder.cpp.
use kognizance_tool.Prelude.{
  ℕ, zero, suc, ◌+◌, ◌-◌, ◌≤◌, ◌<◌, ◌≡◌, ◌↔◌, refl, inl, inr, true, false, Option, none, some, List,
  ◌==◌, ◌&&◌, leb, arith, Bool-cases, Option-cases,
}
use kognizance_tool.Decoder.{Xed, sweep, get_previous_instruction, is_excluded}

-- The address after one round of the search.
abbrev pub next : {I : Type 0} → Xed I → ℕ → ℕ
next xed p = p + (elim (xed.decode p) [ none ↦ 1 | some i ↦ xed.get_length i ])

-- The addresses that a linear sweep from p visits.
pub data Swept {I : Type 0} (xed : Xed I) : ℕ → ℕ → Type 0 where
  here : {p : ℕ} → Swept xed p p
  later : {p q : ℕ} → Swept xed (next xed p) q → Swept xed p q

-- An instruction that the sweep visits and that ends at `ins`.
abbrev pub Before : {I : Type 0} → Xed I → ℕ → ℕ → ℕ → Type 0
Before {I} xed p ins r =
    Swept xed p r × ((i : I) × (xed.decode r ≡ some i) × (r + xed.get_length i ≡ ins))

module _ {I : Type 0} (xed : Xed I) (grows : (i : I) → 1 ≤ xed.get_length i) where
  pub next_grows : (p : ℕ) → p < next xed p
  next_grows p = elim (Option-cases (xed.decode p)) [
    | inl e ↦ rw e (omega arith)
    | inr (i, e) ↦ rw e (omega (arith, grows i))
  ]

  -- Enough rounds: the search ends.
  sweep_enough :
      (fuel p ins : ℕ)
      → suc ins < p + fuel
      → 1 ≤ fuel
      → (r : Option ℕ) × (sweep xed fuel p ins ≡ some r)
  unfolding sweep
  sweep_enough zero p ins h k = absurd (omega arith)
  sweep_enough (suc fuel) p ins h k =
      let up = next_grows p in
      elim (Bool-cases (leb p ins)) [
        | inr f ↦ (none, rw (f, sweep) refl)
        | inl t ↦
            let (r, e) = sweep_enough fuel (next xed p) ins (omega arith) (ground arith) in
            elim (Bool-cases
              ((elim (xed.decode p) [ none ↦ false | some i ↦ true ]) && next xed p == ins)) [
                | inl last ↦ (some p, rw (t, last, sweep) refl)
                | inr more ↦ (r, rw (t, more, sweep) e)
              ]
      ]

  sweep_found : (fuel p ins r : ℕ) → sweep xed fuel p ins ≡ some (some r) → Before xed p ins r
  unfolding sweep
  sweep_found zero p ins r h = absurd (cc)
  sweep_found (suc fuel) p ins r h = elim (Option-cases (xed.decode p)) [
    | inl e ↦ let (s, b) = sweep_found fuel (p + 1) ins r (ground (arith, e)) in (later (rw e s), b)
    | inr (i, e) ↦ elim (Bool-cases (p + xed.get_length i == ins)) [
      | inl t ↦
          let same : p ≡ r = ground (arith, e) in (rw same here, (i, rw (← same) e, ground arith))
      | inr f ↦
          let (s, b) = sweep_found fuel (p + xed.get_length i) ins r (ground (arith, e)) in
          (later (rw e s), b)
    ]
  ]

  Swept-le : {p q : ℕ} → Swept xed p q → p ≤ q
  Swept-le here = omega arith
  Swept-le (later {p = p} s) = omega (arith, next_grows p, Swept-le s)

  sweep_finds :
      (fuel p ins r : ℕ)
      → suc ins < p + fuel
      → Before xed p ins r
      → sweep xed fuel p ins ≡ some (some r)
  unfolding sweep
  sweep_finds zero p ins r h (s, (i, e, len)) = absurd (omega (arith, Swept-le s, grows i))
  sweep_finds (suc fuel) p ins r h (here, (i, e, len)) = ground (arith, e, grows i)
  sweep_finds (suc fuel) p ins r h (later s, (i, e, len)) =
      let rest =
        sweep_finds fuel (next xed p) ins r (omega (arith, next_grows p)) (s, (i, e, len)) in
      let below = Swept-le s in let positive = grows i in let up = next_grows p in ground arith

  sweep_fuel : (start ins : ℕ) → suc ins < start + suc (suc (ins - start))
  sweep_fuel start ins = omega arith

  -- If instructions are at least one byte long, the search for the previous instruction ends.
  pub get_previous_instruction-total :
      (start : Option ℕ) (ins : ℕ) (excludes : List ℕ)
      → (r : Option ℕ) × (get_previous_instruction xed start ins excludes ≡ some r)
  unfolding get_previous_instruction
  get_previous_instruction-total none ins excludes = (none, refl)
  get_previous_instruction-total (some start) ins excludes =
      elim (Bool-cases (is_excluded xed start ins excludes)) [
        | inl t ↦ (none, rw (t, get_previous_instruction) refl)
        | inr f ↦
            let (r, e) =
              sweep_enough (suc (suc (ins - start))) start ins (sweep_fuel start ins)
                (omega arith) in
            (r, rw (f, get_previous_instruction) e)
      ]

  -- If instructions are at least one byte long and no watched address is in the way, the search
  -- finds an address exactly if a linear sweep from the function's start visits it and the
  -- instruction there ends at `ins`.
  pub get_previous_instruction_iff :
      (start ins r : ℕ) (excludes : List ℕ)
      → is_excluded xed start ins excludes ≡ false
      → (get_previous_instruction xed (some start) ins excludes ≡ some (some r))
        ↔ Before xed start ins r
  unfolding get_previous_instruction
  get_previous_instruction_iff start ins r excludes f = (
    (λ h. sweep_found (suc (suc (ins - start))) start ins r (ground (arith, f))),
    λ b.
        rw (f, get_previous_instruction)
          (sweep_finds (suc (suc (ins - start))) start ins r (sweep_fuel start ins) b),
  )
