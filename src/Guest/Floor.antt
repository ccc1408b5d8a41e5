-- ===== src/Guest/Floor.antt =====
-- Laws of the KVM agent's search for a function's start, kvmTest/src/agent/kvmAgent/symbol.cpp.
use kognizance_tool.Prelude.{
  ℕ, ◌≤◌, ◌<◌, ◌≡◌, ◌⊎◌, inl, inr, refl, ap, false, some, none, List, [], ◌∷◌, ◌==◌, ltb, leb,
  if◌then◌else◌, Bool-cases, arith,
}
use kognizance_tool.Prelude.Int.{signed_key}
use kognizance_tool.Guest.Symbols.{
  Symbol, insert_symbol, load_symbols, within_section, entry_below, symbol_start,
}

abbrev pub key_of : Symbol → ℕ
key_of s = signed_key s.start

abbrev pub AllFrom : ℕ → List Symbol → Type 0
AllFrom n [] = Unit
AllFrom n (s ∷ ss) = (n ≤ key_of s) × AllFrom n ss

-- In the order of their starts as signed numbers.
abbrev pub IsSorted : List Symbol → Type 0
IsSorted [] = Unit
IsSorted (s ∷ ss) = AllFrom (key_of s) ss × IsSorted ss

abbrev pub Has : Symbol → List Symbol → Type 0
Has x [] = ⊥
Has x (s ∷ ss) = (x ≡ s) ⊎ Has x ss

-- The greatest of the symbols that is at most the address.
abbrev pub IsFloorOf : Symbol → ℕ → List Symbol → Type 0
IsFloorOf e addr ss =
    Has e ss
    × (key_of e ≤ signed_key addr)
    × ((x : Symbol) → Has x ss → key_of x ≤ signed_key addr → key_of x ≤ key_of e)

AllFrom-le : (m n : ℕ) (ss : List Symbol) → m ≤ n → AllFrom n ss → AllFrom m ss
AllFrom-le m n [] h a = tt
AllFrom-le m n (s ∷ ss) h (a, rest) = (omega (arith, h, a), AllFrom-le m n ss h rest)

AllFrom-insert_symbol :
    (n : ℕ) (x : Symbol) (ss : List Symbol)
    → n ≤ key_of x
    → AllFrom n ss
    → AllFrom n (insert_symbol x ss)
unfolding insert_symbol
AllFrom-insert_symbol n x [] h a = (h, tt)
AllFrom-insert_symbol n x (s ∷ ss) h (a, rest) = elim (Bool-cases (ltb (key_of x) (key_of s))) [
  | inl t ↦ rw (t, insert_symbol) (h, (a, rest))
  | inr f ↦ rw (f, insert_symbol) (a, AllFrom-insert_symbol n x ss h rest)
]

insert_symbol-IsSorted :
    (x : Symbol) (ss : List Symbol) → IsSorted ss → IsSorted (insert_symbol x ss)
unfolding insert_symbol
insert_symbol-IsSorted x [] h = (tt, tt)
insert_symbol-IsSorted x (s ∷ ss) (a, sorted) = elim (Bool-cases (ltb (key_of x) (key_of s))) [
  | inl t ↦
      let below : key_of x ≤ key_of s = ground (arith, t) in
      rw (t, insert_symbol) ((below, AllFrom-le _ _ ss below a), (a, sorted))
  | inr f ↦
      let above : key_of s ≤ key_of x = ground (arith, f) in
      rw (f, insert_symbol)
        (AllFrom-insert_symbol (key_of s) x ss above a, insert_symbol-IsSorted x ss sorted)
]

pub load_symbols-IsSorted :
    (xs table : List Symbol) → IsSorted table → IsSorted (load_symbols xs table)
unfolding load_symbols
load_symbols-IsSorted [] table h = h
load_symbols-IsSorted (x ∷ xs) table h =
    load_symbols-IsSorted xs (insert_symbol x table) (insert_symbol-IsSorted x table h)

pub AllFrom-Has : (n : ℕ) (x : Symbol) (ss : List Symbol) → AllFrom n ss → Has x ss → n ≤ key_of x
AllFrom-Has n x [] a h = absurd h
AllFrom-Has n x (s ∷ ss) (a, rest) (inl e) = rw e a
AllFrom-Has n x (s ∷ ss) (a, rest) (inr h) = AllFrom-Has n x ss rest h

-- An entry below the address is not the greatest one if another follows.
IsFloorOf-later :
    (e last s : Symbol) (addr : ℕ) (ss : List Symbol)
    → key_of last ≤ key_of s
    → key_of s ≤ signed_key addr
    → IsFloorOf e addr (s ∷ ss)
    → IsFloorOf e addr (last ∷ s ∷ ss)
IsFloorOf-later e last s addr ss h k (has, le, greatest) = (inr has, le, go)
  where
    go : (x : Symbol) → Has x (last ∷ s ∷ ss) → key_of x ≤ signed_key addr → key_of x ≤ key_of e
    go x (inl same) le' = omega (arith, ap key_of same, h, greatest s (inl refl) k)
    go x (inr later) le' = greatest x later le'

-- Nor does an entry behind the address count.
IsFloorOf-last :
    (last s : Symbol) (addr : ℕ) (ss : List Symbol)
    → key_of last < signed_key addr
    → signed_key addr < key_of s
    → AllFrom (key_of s) ss
    → IsFloorOf last addr (last ∷ s ∷ ss)
IsFloorOf-last last s addr ss h k above = (inl refl, omega (arith, h), go)
  where
    go : (x : Symbol) → Has x (last ∷ s ∷ ss) → key_of x ≤ signed_key addr → key_of x ≤ key_of last
    go x (inl same) le = omega (arith, ap key_of same)
    go x (inr (inl same)) le = absurd (omega (arith, ap key_of same, k, le))
    go x (inr (inr later)) le =
        absurd (omega (arith, AllFrom-Has (key_of s) x ss above later, k, le))

entry_below-IsFloorOf :
    (addr : ℕ) (last u : Symbol) (ss : List Symbol)
    → key_of last < signed_key addr
    → IsSorted (last ∷ ss)
    → Has u ss
    → signed_key addr ≤ key_of u
    → (e : Symbol) × (entry_below addr last ss ≡ some e) × IsFloorOf e addr (last ∷ ss)
unfolding entry_below
entry_below-IsFloorOf addr last u [] below sorted has le = absurd has
entry_below-IsFloorOf addr last u (s ∷ ss) below ((h, hs), (k, sorted)) has le =
    elim (Bool-cases (ltb (key_of s) (signed_key addr))) [
      | inl t ↦
          let small : key_of s < signed_key addr = ground (arith, t) in
          let (e, found, floor) =
            entry_below-IsFloorOf addr s u ss small (k, sorted) (behind small has) le in
          (
            e,
            rw (t, entry_below) found,
            IsFloorOf-later e last s addr ss h (omega (arith, small)) floor,
          )
      | inr f ↦ elim (Bool-cases (key_of s == signed_key addr)) [
        | inl t ↦
            let same : key_of s ≡ signed_key addr = ground (arith, t) in
            (
              s,
              rw (f, t, entry_below) refl,
              (inr (inl refl), omega (arith, same), λ x has' le'. omega (arith, same, le')),
            )
        | inr t ↦
            let large : signed_key addr < key_of s = ground (arith, f, t) in
            (last, rw (f, t, entry_below) refl, IsFloorOf-last last s addr ss below large k)
      ]
    ]
  where
    behind : key_of s < signed_key addr → Has u (s ∷ ss) → Has u ss
    behind small (inl same) = absurd (omega (arith, ap key_of same, small, le))
    behind small (inr later) = later

-- In a sorted table, for an address behind the first symbol's start and not behind all, the answer
-- is the greatest symbol that is not behind the address if the address is at most its section's end,
-- and -1 if not.
pub symbol_start-IsFloorOf :
    (s u : Symbol) (addr : ℕ) (ss : List Symbol)
    → IsSorted (s ∷ ss)
    → key_of s < signed_key addr
    → Has u ss
    → signed_key addr ≤ key_of u
    → (e : Symbol) × IsFloorOf e addr (s ∷ ss)
      × (symbol_start (s ∷ ss) addr
          ≡ (if leb (signed_key addr) (signed_key e.section_end) then some e.start else none))
unfolding symbol_start within_section
symbol_start-IsFloorOf s u addr ss sorted above has le =
    let f : leb (signed_key addr) (key_of s) ≡ false = ground (arith, above) in
    let (e, found, floor) = entry_below-IsFloorOf addr s u ss above sorted has le in
    (e, floor, rw (f, found, symbol_start) refl)
