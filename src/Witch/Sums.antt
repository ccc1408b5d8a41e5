-- ===== src/Witch/Sums.antt =====
-- What calculateForAllContext of kvmTest/includes/tools/witchTool/witchLogic/WitchLogic.hpp sums up.
use kognizance_tool.Prelude.{
  ℕ, ◌+◌, ◌-◌, ◌%◌, ◌^◌, ◌<◌, ◌≡◌, refl, ap, sym, ◌∙◌, inl, inr, true, false, Option, some, ltb,
  ◌⊎◌, if◌then◌else◌, Bool-cases, arith,
}
use native.Mathlib.Nat.{mod-lt, mod-eq_of_lt}
use kognizance_tool.Prelude.Int.{ℤ, pos, negsuc, signed64}
use kognizance_tool.Witch.Tree.{Node}
use kognizance_tool.Witch.Totals.{bits64, plus64}
use kognizance_tool.Witch.Report.{
  Branch, Branches, branch, leaf, more, MetricVal, zero_val, plus_val, repeats_parent, add_bytes,
  bytes_of, calculate_for_all_context, calculate_children,
}

bits64-signed64 : (w : ℕ) → w < 2 ^ 64 → bits64 (signed64 w) ≡ w
bits64-signed64 w h = elim (Bool-cases (ltb w (2 ^ 63))) [
  | inl t ↦ rw t (mod-eq_of_lt h)
  | inr f ↦
      let e : (2 ^ 64 - w - 1) % 2 ^ 64 ≡ 2 ^ 64 - w - 1 = mod-eq_of_lt (omega arith) in
      rw f (omega (arith, e, h))
]

bits64-lt : (z : ℤ) → bits64 z < 2 ^ 64
bits64-lt (pos n) = mod-lt n {m = 2 ^ 64} (omega arith)
bits64-lt (negsuc n) = omega arith

bits64-plus64 : (a b : ℤ) → bits64 (plus64 a b) ≡ (bits64 a + bits64 b) % 2 ^ 64
bits64-plus64 a b =
    bits64-signed64 ((bits64 a + bits64 b) % 2 ^ 64)
      (mod-lt (bits64 a + bits64 b) {m = 2 ^ 64} (omega arith))

-- The number of bytes, of either kind, in a node and below it, as the walk reaches it.
abbrev mutual
  pub total : (Node → ℕ) → Option ℕ → Branch → ℕ
  total f parent (branch n cs) =
      if repeats_parent parent n then 0 else f n + total_children f n.frame.binary_addr cs

  pub total_children : (Node → ℕ) → ℕ → Branches → ℕ
  total_children f addr leaf = 0
  total_children f addr (more c cs) = total f (some addr) c + total_children f addr cs

frame-add_bytes : (v : MetricVal) (n : Node) → (add_bytes v n).frame ≡ n.frame
unfolding add_bytes
frame-add_bytes v n = refl

module _ (get : MetricVal → ℤ) where
  abbrev pub bytes : Node → ℕ
  bytes n = bits64 (get (bytes_of n))

  -- Each node that the walk reaches has the bytes of all that it reaches from there, and the others
  -- stay.
  abbrev mutual
    pub IsTotalled : Option ℕ → Branch → Branch → Type 0
    IsTotalled parent (branch n cs) (branch n' cs') =
        ((repeats_parent parent n ≡ true) × (branch n' cs' ≡ branch n cs))
        ⊎ ((repeats_parent parent n ≡ false)
            × (n'.frame ≡ n.frame)
            × (bytes n' ≡ total bytes parent (branch n cs) % 2 ^ 64)
            × AllTotalled n.frame.binary_addr cs cs')

    pub AllTotalled : ℕ → Branches → Branches → Type 0
    AllTotalled addr leaf leaf = Unit
    AllTotalled addr leaf (more c cs) = ⊥
    AllTotalled addr (more c cs) leaf = ⊥
    AllTotalled addr (more c cs) (more c' cs') =
        IsTotalled (some addr) c c' × AllTotalled addr cs cs'

module _ (get : MetricVal → ℤ)
    (get_plus : (v w : MetricVal) → get (plus_val v w) ≡ plus64 (get v) (get w))
    (get_zero : get zero_val ≡ pos 0) where
  added :
      (v : MetricVal) (n : Node)
      → (bytes get) (add_bytes v n) ≡ ((bytes get) n + bits64 (get v)) % 2 ^ 64
  unfolding add_bytes
  added v n = ap bits64 (get_plus (bytes_of n) v) ∙ bits64-plus64 (get (bytes_of n)) (get v)

  -- The node itself, from its children.
  node-total :
      (n : Node) (cs : Branches) (v : MetricVal)
      → bits64 (get v)
        ≡ (bits64 (get zero_val) + total_children (bytes get) n.frame.binary_addr cs) % 2 ^ 64
      → (bytes get) (add_bytes v n)
        ≡ ((bytes get) n + total_children (bytes get) n.frame.binary_addr cs) % 2 ^ 64
  node-total n cs v h = omega (arith, added v n, h, ap bits64 get_zero)

  mutual
    unfolding calculate_for_all_context

    calculate-total :
        (parent : Option ℕ) (b : Branch)
        → bits64 (get (calculate_for_all_context parent b).0) ≡ total (bytes get) parent b % 2 ^ 64
    calculate-total parent (branch n cs) = elim (Bool-cases (repeats_parent parent n)) [
      | inl t ↦ rw t (ap bits64 get_zero)
      | inr f ↦ rw f (
          node-total n cs (calculate_children n.frame.binary_addr zero_val cs).0
            (children-total n.frame.binary_addr zero_val cs))
    ]

    children-total :
        (addr : ℕ) (v : MetricVal) (cs : Branches)
        → bits64 (get (calculate_children addr v cs).0)
          ≡ (bits64 (get v) + total_children (bytes get) addr cs) % 2 ^ 64
    children-total addr v leaf = omega (arith, bits64-lt (get v))
    children-total addr v (more c cs) =
        let w = (calculate_for_all_context (some addr) c).0 in
        omega (
          arith,
          children-total addr (plus_val v w) cs,
          ap bits64 (get_plus v w) ∙ bits64-plus64 (get v) (get w),
          calculate-total (some addr) c,
        )

  reached :
      (parent : Option ℕ) (n : Node) (cs : Branches)
      → repeats_parent parent n ≡ false
      → total (bytes get) parent (branch n cs)
        ≡ (bytes get) n + total_children (bytes get) n.frame.binary_addr cs
  reached parent n cs f = rw f refl

  mutual
    unfolding calculate_for_all_context

    calculate-IsTotalled :
        (parent : Option ℕ) (b : Branch)
        → IsTotalled get parent b (calculate_for_all_context parent b).1
    calculate-IsTotalled parent (branch n cs) = elim (Bool-cases (repeats_parent parent n)) [
      | inl t ↦ rw t (inl (t, refl))
      | inr f ↦
          let below = calculate_children n.frame.binary_addr zero_val cs in
          let here =
            node-total n cs below.0 (children-total n.frame.binary_addr zero_val cs)
            ∙ ap (λ k. k % 2 ^ 64) (sym (reached parent n cs f)) in
          rw f (
            inr (
              f,
              frame-add_bytes below.0 n,
              here,
              children-AllTotalled n.frame.binary_addr zero_val cs,
            ))
    ]

    children-AllTotalled :
        (addr : ℕ) (v : MetricVal) (cs : Branches)
        → AllTotalled get addr cs (calculate_children addr v cs).1
    children-AllTotalled addr v leaf = tt
    children-AllTotalled addr v (more c cs) =
        (calculate-IsTotalled (some addr) c, children-AllTotalled addr _ cs)

-- After the walk, the redundant and the used bytes of each node that it reaches are the sums, at the
-- wrap-around, of those of all the nodes that it reaches from there, itself among them; a node with
-- the address of its parent, and what is below it, stays as it was and is not counted.
pub calculate_for_all_context-IsTotalled :
    (parent : Option ℕ) (b : Branch)
    → IsTotalled (λ v. v.i) parent b (calculate_for_all_context parent b).1
      × IsTotalled (λ v. v.r) parent b (calculate_for_all_context parent b).1
calculate_for_all_context-IsTotalled parent b = (
  calculate-IsTotalled (λ v. v.i) (λ v w. refl) refl parent b,
  calculate-IsTotalled (λ v. v.r) (λ v w. refl) refl parent b,
)
