-- ===== src/Native/Symbols.antt =====
-- Laws of the search for a function's start, kvmTest/src/agent/nativeAgent/symbol.cpp.
use kognizance_tool.Prelude.{
  ℕ, ◌^◌, ◌≤◌, ◌<◌, ◌≡◌, refl, ap, true, some, List, [], ◌∷◌, ◌==◌, ltb, leb, ◌⊎◌, inl, inr,
  Bool-cases, arith,
}
use kognizance_tool.Prelude.Int.{signed_key}
use kognizance_tool.Native.{contains, symbol_below, get_start_address}

abbrev pub AllAbove : ℕ → List ℕ → Type 0
AllAbove n [] = Unit
AllAbove n (s ∷ ss) = (signed_key n < signed_key s) × AllAbove n ss

-- The keys of the map of symbols, as numbers of the type long.
abbrev pub IsAscending : List ℕ → Type 0
IsAscending [] = Unit
IsAscending (s ∷ ss) = AllAbove s ss × IsAscending ss

-- The greatest of the symbols that is at most the address.
abbrev pub IsFloor : ℕ → ℕ → List ℕ → Type 0
IsFloor m addr ss =
    (contains m ss ≡ true)
    × (signed_key m ≤ signed_key addr)
    × ((s : ℕ)
        → contains s ss ≡ true
        → signed_key s ≤ signed_key addr
        → signed_key s ≤ signed_key m)

contains-split :
    (n m : ℕ) (ms : List ℕ) → contains n (m ∷ ms) ≡ true → (n ≡ m) ⊎ (contains n ms ≡ true)
contains-split n m ms h = elim (Bool-cases (n == m)) [
  | inl t ↦ inl (ground (arith, t))
  | inr f ↦ inr (rw f at h)
]

pub contains-here : (n : ℕ) (ms : List ℕ) → contains n (n ∷ ms) ≡ true
contains-here n ms = elim (Bool-cases (n == n)) [ inl t ↦ rw t refl | inr f ↦ ground (arith, f) ]

contains-later : (n m : ℕ) (ms : List ℕ) → contains n ms ≡ true → contains n (m ∷ ms) ≡ true
contains-later n m ms h = elim (Bool-cases (n == m)) [ inl t ↦ rw t refl | inr f ↦ rw f h ]

AllAbove-contains :
    (n s : ℕ) (ss : List ℕ) → AllAbove n ss → contains s ss ≡ true → signed_key n < signed_key s
AllAbove-contains n s [] h k = absurd (cc)
AllAbove-contains n s (m ∷ ms) (h, hs) k = elim (contains-split s m ms k) [
  | inl e ↦ omega (arith, ap signed_key e, h)
  | inr c ↦ AllAbove-contains n s ms hs c
]

-- A symbol below the address is not the greatest one if another one follows.
IsFloor-later :
    (m last s addr : ℕ) (ss : List ℕ)
    → signed_key last < signed_key s
    → signed_key s ≤ signed_key addr
    → IsFloor m addr (s ∷ ss)
    → IsFloor m addr (last ∷ s ∷ ss)
IsFloor-later m last s addr ss h k (has, le, greatest) = (
  contains-later m last (s ∷ ss) has,
  le,
  λ q c le'.
      let above : signed_key s ≤ signed_key m = greatest s (contains-here s ss) k in
      elim (contains-split q last (s ∷ ss) c) [
        | inl e ↦ omega (arith, ap signed_key e, h, above)
        | inr c' ↦ greatest q c' le'
      ],
)

-- Nor does a symbol behind the address count.
IsFloor-last :
    (last s addr : ℕ) (ss : List ℕ)
    → signed_key last < signed_key addr
    → signed_key addr < signed_key s
    → AllAbove s ss
    → IsFloor last addr (last ∷ s ∷ ss)
IsFloor-last last s addr ss h k above = (
  contains-here last (s ∷ ss),
  omega (arith, h),
  λ q c le. elim (contains-split q last (s ∷ ss) c) [
    | inl e ↦ omega (arith, ap signed_key e)
    | inr c' ↦ elim (contains-split q s ss c') [
      | inl e ↦ omega (arith, ap signed_key e, k, le)
      | inr d ↦ omega (arith, AllAbove-contains s q ss above d, k, le)
    ]
  ],
)

symbol_below-IsFloor :
    (last addr u : ℕ) (ss : List ℕ)
    → signed_key last < signed_key addr
    → AllAbove last ss
    → IsAscending ss
    → contains u ss ≡ true
    → signed_key addr ≤ signed_key u
    → (m : ℕ) × (symbol_below last addr ss ≡ some m) × IsFloor m addr (last ∷ ss)
unfolding symbol_below
symbol_below-IsFloor last addr u [] below above asc has le = absurd (cc)
symbol_below-IsFloor last addr u (s ∷ ss) below (h, hs) (k, asc) has le =
    elim (Bool-cases (ltb (signed_key s) (signed_key addr))) [
      | inl t ↦
          let small : signed_key s < signed_key addr = ground (arith, t) in
          let has' : contains u ss ≡ true = elim (contains-split u s ss has) [
            | inl e ↦ absurd (omega (arith, ap signed_key e, small, le))
            | inr c ↦ c
          ] in
          let (m, e, floor) = symbol_below-IsFloor s addr u ss small k asc has' le in
          (m, rw (t, symbol_below) e, IsFloor-later m last s addr ss h (omega (arith, small)) floor)
      | inr f ↦ elim (Bool-cases (signed_key s == signed_key addr)) [
        | inl e ↦
            let same : signed_key s ≡ signed_key addr = ground (arith, e) in
            (
              s,
              rw (f, e, symbol_below) refl,
              (
                contains-later s last (s ∷ ss) (contains-here s ss),
                omega (arith, same),
                λ q c le'. omega (arith, same, le'),
              ),
            )
        | inr e ↦
            let large : signed_key addr < signed_key s = ground (arith, f, e) in
            (last, rw (f, e, symbol_below) refl, IsFloor-last last s addr ss below large k)
      ]
    ]

-- A value of 64 bits has a key of its own.
signed_key-one : (a b : ℕ) → a < 2 ^ 64 → b < 2 ^ 64 → signed_key a ≡ signed_key b → a ≡ b
unfolding signed_key
signed_key-one a b wide_a wide_b e = omega (arith, wide_a, wide_b, e)

-- If the symbols ascend as numbers of the type long, and the address lies between two of them or at
-- one, all of 64 bits, then its function starts at the greatest symbol that is not behind it.
pub get_start_address-IsFloor :
    (s u addr : ℕ) (ss : List ℕ)
    → IsAscending (s ∷ ss)
    → signed_key s ≤ signed_key addr
    → s < 2 ^ 64
    → addr < 2 ^ 64
    → contains u (s ∷ ss) ≡ true
    → signed_key addr ≤ signed_key u
    → (m : ℕ) × (get_start_address (s ∷ ss) addr ≡ some m) × IsFloor m addr (s ∷ ss)
unfolding get_start_address
get_start_address-IsFloor s u addr ss (above, asc) le wide_s wide has ge =
    elim (Bool-cases (leb (signed_key addr) (signed_key s))) [
      | inl t ↦
          let same : addr ≡ s = signed_key-one addr s wide wide_s (ground (arith, t, le)) in
          (
            s,
            rw (t, get_start_address) (ap some same),
            (contains-here s ss, le, λ q c le'. omega (arith, ap signed_key same, le')),
          )
      | inr f ↦
          let small : signed_key s < signed_key addr = ground (arith, f) in
          let has' : contains u ss ≡ true = elim (contains-split u s ss has) [
            | inl e ↦ absurd (omega (arith, ap signed_key e, small, ge))
            | inr c ↦ c
          ] in
          let (m, e, floor) = symbol_below-IsFloor s addr u ss small above asc has' ge in
          (m, rw (f, get_start_address) e, floor)
    ]
