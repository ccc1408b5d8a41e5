-- ===== src/Python/Walks.antt =====
-- The walk over an interpreter's frames ends and stays within the bytecode:
-- kvmTest/src/agent/pythonAgent/pyBytecodeIterator.cpp and pyagent_stack_unwind.cpp.
use kognizance_tool.Prelude.{
  ℕ, zero, suc, ◌+◌, ◌-◌, ◌≤◌, ◌<◌, ◌≡◌, refl, ◌⊎◌, inl, inr, true, Option, none, some, List, [],
  ◌∷◌, ◌==◌, ◌||◌, leb, length, get_elem?, arith, Bool-cases, ap, ◌∙◌,
}
use Prim.Native.Nat.{min}
use kognizance_tool.Event.{Event}
use kognizance_tool.Python.Bytecode.{
  Iterator, has_arg, extended_arg, two_bytes, is_done, advance_extended, advance_argument, advance,
  before, new_iterator,
}
use kognizance_tool.Python.Stack.{
  PyFrame, place_of, word64, entered, find_opcode, note_opcode, Sampled, walk_frame,
  walk_and_record, get_stack_trace,
}

get_elem?-inside : (xs : List ℕ) (i : ℕ) → i < length xs → (b : ℕ) × (get_elem? xs i ≡ some b)
get_elem?-inside [] i h = absurd (omega (arith, h))
get_elem?-inside (x ∷ xs) zero h = (x, refl)
get_elem?-inside (x ∷ xs) (suc i) h = get_elem?-inside xs i (omega (arith, h))

-- The iterator stands at an instruction, at the end, or at an error.
abbrev pub IsPlaced : List ℕ → Iterator → Type 0
IsPlaced code it =
    (it.cur_index ≤ length code)
    × ((it.error ≡ true)
        ⊎ ((it.cur_index ≡ length code)
            ⊎ ((it.cur_index < it.next_index) × (it.next_index ≤ length code))))

-- What an advance from an index gives.
abbrev Advanced : List ℕ → ℕ → Option Iterator → Type 0
Advanced code from o = (it : Iterator) × (o ≡ some it) × (it.cur_index ≡ from) × IsPlaced code it

module _ (code : List ℕ) where
  advance_extended-Advanced :
      (it : Iterator)
      → it.cur_index < it.next_index
      → it.next_index ≤ length code
      → Advanced code it.cur_index (advance_extended code it)
  unfolding advance_extended
  advance_extended-Advanced it h k = elim (Bool-cases (leb (length code) (it.next_index + 2))) [
    | inl t ↦ rw (t, advance_extended) (_, refl, refl, (omega (arith, h, k), inl refl))
    | inr f ↦
        let room : it.next_index + 2 < length code = ground (arith, f) in
        let (op, o) = get_elem?-inside code it.next_index (omega (arith, room)) in
        let (low, l) = get_elem?-inside code (it.next_index + 1) (omega (arith, room)) in
        let (high, m) = get_elem?-inside code (it.next_index + 2) room in
        elim (Bool-cases (has_arg op)) [
          | inl t ↦
              rw (f, o, advance_extended, t, l, m)
                (
                  _,
                  refl,
                  refl,
                  (omega (arith, h, k), inr (inr (omega (arith, h), omega (arith, room)))),
                )
          | inr t ↦ rw (f, o, advance_extended, t) (_, refl, refl, (omega (arith, h, k), inl refl))
        ]
  ]

  advance_argument-Advanced :
      (it : Iterator)
      → it.cur_index < it.next_index
      → it.next_index ≤ length code
      → Advanced code it.cur_index (advance_argument code it)
  unfolding advance_argument
  advance_argument-Advanced it h k = elim (Bool-cases (leb (length code) (it.next_index + 1))) [
    | inl t ↦ rw (t, advance_argument) (_, refl, refl, (omega (arith, h, k), inl refl))
    | inr f ↦
        let room : it.next_index + 1 < length code = ground (arith, f) in
        let (low, l) = get_elem?-inside code it.next_index (omega (arith, room)) in
        let (high, m) = get_elem?-inside code (it.next_index + 1) room in
        elim (Bool-cases (it.opcode == extended_arg)) [
          | inl t ↦
              rw (f, l, m, advance_argument, t)
                (advance_extended-Advanced
                  (record it { oparg = two_bytes low high; next_index = it.next_index + 2 })
                  (omega (arith, h)) (omega (arith, room)))
          | inr t ↦
              rw (f, l, m, advance_argument, t)
                (
                  _,
                  refl,
                  refl,
                  (omega (arith, h, k), inr (inr (omega (arith, h), omega (arith, room)))),
                )
        ]
  ]

  advance-Advanced :
      (it : Iterator) → it.next_index ≤ length code → Advanced code it.next_index (advance code it)
  unfolding advance
  advance-Advanced it h = elim (Bool-cases (it.next_index == length code)) [
    | inl t ↦ rw (t, advance) (_, refl, refl, (h, inr (inl (ground (arith, t)))))
    | inr f ↦
        let room : it.next_index < length code = ground (arith, f, h) in
        let (op, o) = get_elem?-inside code it.next_index room in
        elim (Bool-cases (has_arg op)) [
          | inl t ↦
              rw (f, o, advance, t)
                (advance_argument-Advanced
                  (record it {
                    cur_index = it.next_index;
                    opcode = op;
                    next_index = it.next_index + 1;
                  })
                  (omega arith) (omega (arith, room)))
          | inr t ↦
              rw (f, o, advance, t)
                (_, refl, refl, (h, inr (inr (omega arith, omega (arith, room)))))
        ]
  ]

-- Enough rounds for the loop: every one but the last goes on in the bytecode.
find_opcode-ends :
    (code : List ℕ) (fuel addr : ℕ) (it : Iterator) (prev : Option ℕ)
    → IsPlaced code it
    → length code < it.cur_index + fuel
    → (r : Iterator × Option ℕ) × (find_opcode code fuel addr it prev ≡ some r)
unfolding find_opcode
find_opcode-ends code zero addr it prev (h, p) k = absurd (omega (arith, h, k))
find_opcode-ends code (suc fuel) addr it prev (h, inl bad) k = elim (Bool-cases (is_done code it)) [
  | inl t ↦ rw (t, find_opcode) (_, refl)
  | inr f ↦ rw (f, bad, find_opcode) (_, refl)
]
find_opcode-ends code (suc fuel) addr it prev (h, inr (inl end)) k =
    let t : is_done code it ≡ true = ground (arith, end) in rw (t, find_opcode) (_, refl)
find_opcode-ends code (suc fuel) addr it prev (h, inr (inr (up, room))) k =
    elim (Bool-cases (is_done code it || it.error || addr == it.cur_index)) [
      | inl t ↦ rw (t, find_opcode) (_, refl)
      | inr f ↦
          let (it', e, same, placed) = advance-Advanced code it room in
          let (r, found) =
            find_opcode-ends code fuel addr it' (some it.opcode) placed
              (omega (arith, same, up, k)) in
          (r, rw (f, e, find_opcode) found)
    ]

walk_frame-ends : (f : PyFrame) (e : Event) → (s : Sampled) × (walk_frame f e ≡ some s)
unfolding walk_frame new_iterator
walk_frame-ends f e =
    let (it, first, same, placed) = advance-Advanced f.code (before f.code 0) (omega arith) in
    let (r, found) =
      find_opcode-ends f.code (suc (length f.code)) (word64 (place_of f).addr) it none placed
        (omega (arith, same)) in
    (
      note_opcode (record e { context_agent = entered f e.context_agent }) r.0 r.1,
      rw (first, found, walk_frame) refl,
    )

walk_and_record-depth :
    (fs : List PyFrame) (max_depth depth : ℕ) (s : Sampled)
    → (s' : Sampled) × (walk_and_record fs max_depth depth s
        ≡ some (s', depth + min (length fs) (max_depth - 1 - depth)))
unfolding walk_and_record
walk_and_record-depth [] max_depth depth s = (s, ap (λ n. some (s, n)) (ground arith))
walk_and_record-depth (f ∷ fs) max_depth depth s = elim (Bool-cases (leb (depth + 2) max_depth)) [
  | inl t ↦
      let (s1, e1) = walk_frame-ends f s.0 in
      let (s2, e2) = walk_and_record-depth fs max_depth (depth + 1) s1 in
      (s2, rw (t, e1, walk_and_record) (e2 ∙ ap (λ n. some (s2, n)) (ground (arith, t))))
  | inr g ↦ (s, rw (g, walk_and_record) (ap (λ n. some (s, n)) (ground (arith, g))))
]

-- Whatever the frames and their bytecode are, the walk of a thread's stack ends and never reads
-- outside of the bytecode; the depth it returns is the number of frames, but at most max_depth less
-- one.
pub get_stack_trace-depth :
    (fs : List PyFrame) (s : Sampled) (max_depth : ℕ)
    → (s' : Sampled) × (get_stack_trace (some fs) s max_depth
        ≡ some (s', min (length fs) (max_depth - 1)))
unfolding get_stack_trace
get_stack_trace-depth [] s max_depth = (s, ap (λ n. some (s, n)) (ground arith))
get_stack_trace-depth (f ∷ fs) s max_depth =
    let (s', e) = walk_and_record-depth (f ∷ fs) max_depth 0 s in
    (s', e ∙ ap (λ n. some (s', n)) (ground arith))
