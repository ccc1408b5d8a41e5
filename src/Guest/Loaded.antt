-- ===== src/Guest/Loaded.antt =====
-- The KVM agent's search for a function's start in a table loaded from a file,
-- kvmTest/src/agent/kvmAgent/symbol.cpp.
use kognizance_tool.Prelude.{
  ℕ, ◌≤◌, ◌<◌, ◌≡◌, ◌⊎◌, inl, inr, ap, some, none, List, [], ◌∷◌, ltb, leb, if◌then◌else◌,
  Bool-cases, arith,
}
use kognizance_tool.Prelude.Int.{signed_key}
use kognizance_tool.Guest.Symbols.{Symbol, insert_symbol, load_symbols, symbol_start}
use kognizance_tool.Guest.Floor.{
  key_of, IsSorted, Has, IsFloorOf, AllFrom-Has, load_symbols-IsSorted, symbol_start-IsFloorOf,
}

-- Nothing but the new symbol comes in.
insert_symbol-from : (y x : Symbol) (ss : List Symbol) → Has y (insert_symbol x ss) → Has y (x ∷ ss)
unfolding insert_symbol
insert_symbol-from y x [] h = h
insert_symbol-from y x (s ∷ ss) h = elim (Bool-cases (ltb (key_of x) (key_of s))) [
  | inl t ↦ rw (t, insert_symbol) at h
  | inr f ↦
      let after : Has y (s ∷ insert_symbol x ss) = rw (f, insert_symbol) at h in
      elim after [
        | inl e ↦ inr (inl e)
        | inr k ↦ elim (insert_symbol-from y x ss k) [ inl e ↦ inl e | inr m ↦ inr (inr m) ]
      ]
]

-- The new symbol comes in, and none is lost.
insert_symbol-to : (y x : Symbol) (ss : List Symbol) → Has y (x ∷ ss) → Has y (insert_symbol x ss)
unfolding insert_symbol
insert_symbol-to y x [] h = h
insert_symbol-to y x (s ∷ ss) h = elim (Bool-cases (ltb (key_of x) (key_of s))) [
  | inl t ↦ rw (t, insert_symbol) h
  | inr f ↦
      rw (f, insert_symbol)
        (elim h [
          | inl e ↦ inr (insert_symbol-to y x ss (inl e))
          | inr (inl e) ↦ inl e
          | inr (inr k) ↦ inr (insert_symbol-to y x ss (inr k))
        ])
]

load_symbols-from :
    (y : Symbol) (xs table : List Symbol) → Has y (load_symbols xs table) → Has y xs ⊎ Has y table
unfolding load_symbols
load_symbols-from y [] table h = inr h
load_symbols-from y (x ∷ xs) table h = elim (load_symbols-from y xs (insert_symbol x table) h) [
  | inl k ↦ inl (inr k)
  | inr k ↦ elim (insert_symbol-from y x table k) [ inl e ↦ inl (inl e) | inr m ↦ inr m ]
]

load_symbols-to :
    (y : Symbol) (xs table : List Symbol) → Has y xs ⊎ Has y table → Has y (load_symbols xs table)
unfolding load_symbols
load_symbols-to y [] table (inl h) = absurd h
load_symbols-to y [] table (inr h) = h
load_symbols-to y (x ∷ xs) table (inl (inl e)) =
    load_symbols-to y xs (insert_symbol x table) (inr (insert_symbol-to y x table (inl e)))
load_symbols-to y (x ∷ xs) table (inl (inr h)) =
    load_symbols-to y xs (insert_symbol x table) (inl h)
load_symbols-to y (x ∷ xs) table (inr h) =
    load_symbols-to y xs (insert_symbol x table) (inr (insert_symbol-to y x table (inr h)))

only-from : (y : Symbol) (xs : List Symbol) → Has y (load_symbols xs []) → Has y xs
only-from y xs h = elim (load_symbols-from y xs [] h) [ inl k ↦ k | inr k ↦ absurd k ]

-- A sorted table that has a symbol before the address starts with one.
first-below :
    (s t : Symbol) (addr : ℕ) (ts : List Symbol)
    → IsSorted (t ∷ ts)
    → Has s (t ∷ ts)
    → key_of s < signed_key addr
    → key_of t < signed_key addr
first-below s t addr ts sorted (inl e) below = omega (arith, ap key_of e, below)
first-below s t addr ts (all, sorted) (inr h) below =
    omega (arith, AllFrom-Has (key_of t) s ts all h, below)

-- In any table that holds just the symbols of the file.
in_table :
    (s u : Symbol) (addr : ℕ) (xs table : List Symbol)
    → IsSorted table
    → ((y : Symbol) → Has y xs → Has y table)
    → ((y : Symbol) → Has y table → Has y xs)
    → Has s xs
    → key_of s < signed_key addr
    → Has u xs
    → signed_key addr ≤ key_of u
    → (e : Symbol) × IsFloorOf e addr xs
      × (symbol_start table addr
          ≡ (if leb (signed_key addr) (signed_key e.section_end) then some e.start else none))
in_table s u addr xs [] sorted to from has_s below has_u above = absurd (to s has_s)
in_table s u addr xs (t ∷ ts) sorted to from has_s below has_u above =
    let first : key_of t < signed_key addr = first-below s t addr ts sorted (to s has_s) below in
    elim (to u has_u) [
      | inl e ↦ absurd (omega (arith, ap key_of e, first, above))
      | inr later ↦
          let (e, (has, le, greatest), answer) =
            symbol_start-IsFloorOf t u addr ts sorted first later above in
          (e, (from e has, le, λ x h k. greatest x (to x h) k), answer)
    ]

-- For a file of symbols in any order, of which one starts before the address and one does not, the
-- table that is loaded from it answers with the start of a symbol of the file than which no other
-- is greater without being behind the address, if the address is at most the end of that symbol's
-- section, and with -1 if not.
pub symbol_start-load_symbols :
    (s u : Symbol) (addr : ℕ) (xs : List Symbol)
    → Has s xs
    → key_of s < signed_key addr
    → Has u xs
    → signed_key addr ≤ key_of u
    → (e : Symbol) × IsFloorOf e addr xs
      × (symbol_start (load_symbols xs []) addr
          ≡ (if leb (signed_key addr) (signed_key e.section_end) then some e.start else none))
symbol_start-load_symbols s u addr xs has_s below has_u above =
    in_table s u addr xs (load_symbols xs []) (load_symbols-IsSorted xs [] tt)
      (λ y h. load_symbols-to y xs [] (inl h)) (λ y h. only-from y xs h) has_s below has_u above
