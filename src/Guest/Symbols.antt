-- ===== src/Guest/Symbols.antt =====
-- The KVM agent's symbols, kvmTest/src/agent/kvmAgent/symbol.cpp. The symbols and their sections,
-- which libbfd reads, are arguments. The two multimaps have the same keys, entered in the same order,
-- and are one list. Addresses are compared as signed numbers.
use kognizance_tool.Prelude.{ℕ, Option, none, some, List, [], ◌∷◌, ◌==◌, ltb, leb, if◌then◌else◌}
use kognizance_tool.Prelude.Int.{signed_key}

-- A symbol: its start, the end of its section, and its name.
pub record Symbol : Type 0 where
  pub start : ℕ
  pub section_end : ℕ
  pub name : List ℕ

-- `insert`, behind the entries of the same key.
unfoldable pub insert_symbol : Symbol → List Symbol → List Symbol
insert_symbol x [] = x ∷ []
insert_symbol x (s ∷ ss) =
    if ltb (signed_key x.start) (signed_key s.start) then x ∷ s ∷ ss else s ∷ insert_symbol x ss

-- The loop of Load over the symbols of the file.
unfoldable pub load_symbols : List Symbol → List Symbol → List Symbol
load_symbols [] table = table
load_symbols (x ∷ xs) table = load_symbols xs (insert_symbol x table)

-- The start of the entry, if the address is within its section.
unfoldable pub within_section : ℕ → Symbol → Option ℕ
within_section addr s =
    if leb (signed_key addr) (signed_key s.section_end) then some s.start else none

-- From the second entry on, with the entry before.
unfoldable pub entry_below : ℕ → Symbol → List Symbol → Option Symbol
entry_below addr last [] = none
entry_below addr last (s ∷ ss) =
    let rest = entry_below addr s ss in
    if ltb (signed_key s.start) (signed_key addr)
    then rest
    else if signed_key s.start == signed_key addr
    then some s
    else some last

-- getStartAddress; `none` is -1.
unfoldable pub symbol_start : List Symbol → ℕ → Option ℕ
symbol_start [] addr = some addr
symbol_start (s ∷ ss) addr =
    if leb (signed_key addr) (signed_key s.start)
    then some addr
    else elim (entry_below addr s ss) [ none ↦ none | some e ↦ within_section addr e ]

-- The name at `lower_bound`, empty at the end; of an empty table the end is read.
unfoldable pub lower_name : ℕ → List Symbol → List ℕ
lower_name addr [] = []
lower_name addr (s ∷ ss) =
    let rest = lower_name addr ss in
    if ltb (signed_key s.start) (signed_key addr) then rest else s.name

-- getFunctionName; `none` reads behind an empty table.
unfoldable pub get_function_name : List Symbol → ℕ → Option (List ℕ)
get_function_name [] addr = none
get_function_name (s ∷ ss) addr = some (lower_name addr (s ∷ ss))
