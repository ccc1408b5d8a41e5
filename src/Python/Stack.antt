-- ===== src/Python/Stack.antt =====
-- The walk over an interpreter's frames, kvmTest/src/agent/pythonAgent/pyagent_stack_unwind.cpp. The
-- frames of the interpreter are arguments. Reads outside of the bytecode are `none`.
use kognizance_tool.Prelude.{
  ℕ, zero, suc, ◌+◌, ◌-◌, ◌%◌, ◌^◌, Bool, true, false, Option, none, some, List, [], ◌∷◌, ◌++◌,
  ◌==◌, ◌||◌, ltb, leb, length, if◌then◌else◌,
}
use kognizance_tool.Prelude.Int.{ℤ, pos, negsuc, ltz, ◌+ℤ◌}
use kognizance_tool.Event.{AccessType, load, store, Frame, same_frame, Event}
use kognizance_tool.Python.Bytecode.{Iterator, is_done, advance, new_iterator, ◌>>=◌}

-- A PyFrameObject with the parts of its code object that the walk reads.
pub record PyFrame : Type 0 where
  pub lnotab : Option (List ℕ)
  pub lineno : ℕ
  pub lasti : ℤ
  pub code : List ℕ
  pub name : List ℕ
  pub filename : List ℕ

-- A `char`, which is signed, of a byte.
abbrev pub signed_char : ℕ → ℤ
signed_char b = if ltb b 128 then pos b else negsuc (255 - b)

-- A uint64_t of an int.
abbrev pub word64 : ℤ → ℕ
word64 (pos n) = n
word64 (negsuc n) = 2 ^ 64 - 1 - n

-- `addr` and `line`.
pub record Place : Type 0 where
  pub addr : ℤ
  pub line : ℕ

-- The loop over the table of line numbers; behind an odd last byte comes the final NUL.
unfoldable pub scan_lines : ℤ → List ℕ → Place → Place
scan_lines lasti [] p = p
scan_lines lasti (a ∷ []) p = record p { addr = p.addr +ℤ signed_char a }
scan_lines lasti (a ∷ b ∷ rest) p =
    let addr = p.addr +ℤ signed_char a in
    let line = (p.line + word64 (signed_char b)) % 2 ^ 64 in
    let onwards = scan_lines lasti rest (record { addr = addr; line = line }) in
    if ltz lasti addr then record p { addr = addr } else onwards

-- Where the frame stands, with and without a table.
unfoldable pub place_of : PyFrame → Place
place_of f = elim f.lnotab [
  | none ↦ record { addr = pos 0; line = 0 }
  | some table ↦ scan_lines f.lasti table (record { addr = pos 0; line = f.lineno })
]

abbrev pub last : {A : Type 0} → List A → Option A
last [] = none
last (x ∷ []) = some x
last (x ∷ y ∷ ys) = last (y ∷ ys)

abbrev pub context_frame : PyFrame → Frame
context_frame f = record {
  binary_addr = word64 (place_of f).addr;
  src_lineno = (place_of f).line % 2 ^ 32;
  method_name = f.name;
  source_file = f.filename;
}

-- The frame is entered unless it is the same as the last one.
unfoldable pub push_frame : List Frame → Frame → List Frame
push_frame fs f = elim (last fs) [
  | none ↦ fs ++ (f ∷ [])
  | some g ↦ if same_frame g f then fs else fs ++ (f ∷ [])
]

-- The loop over the bytecode, up to the address: the iterator and the opcode before it.
unfoldable pub find_opcode : List ℕ → ℕ → ℕ → Iterator → Option ℕ → Option (Iterator × Option ℕ)
find_opcode code zero addr it prev = none
find_opcode code (suc fuel) addr it prev =
    let next = advance code it >>= λ it'. find_opcode code fuel addr it' (some it.opcode) in
    if is_done code it || it.error || addr == it.cur_index then some (it, prev) else next

abbrev pub has : ℕ → List ℕ → Bool
has n [] = false
has n (m ∷ ms) = n == m || has n ms

-- STORE_SUBSCR, STORE_NAME, STORE_ATTR, STORE_GLOBAL, STORE_FAST, STORE_ANNOTATION, STORE_DEREF
abbrev pub stores : List ℕ
stores = 60 ∷ 90 ∷ 95 ∷ 97 ∷ 125 ∷ 127 ∷ 137 ∷ []

-- LOAD_BUILD_CLASS, LOAD_CONST, LOAD_NAME, LOAD_ATTR, LOAD_GLOBAL, LOAD_FAST, LOAD_CLOSURE,
-- LOAD_DEREF, LOAD_CLASSDEREF
abbrev pub loads : List ℕ
loads = 71 ∷ 100 ∷ 101 ∷ 106 ∷ 116 ∷ 124 ∷ 135 ∷ 136 ∷ 148 ∷ []

unfoldable pub access_after : Option ℕ → AccessType → AccessType
access_after none old = old
access_after (some op) old = if has op stores then store else if has op loads then load else old

-- The event, with its `opcode`; `none` is -1.
abbrev pub Sampled : Type 0
Sampled = Event × Option ℕ

-- What the search in the bytecode writes to the event.
unfoldable pub note_opcode : Event → Iterator → Option ℕ → Sampled
note_opcode e it prev =
    let accessed = record e { access_type = access_after prev e.access_type } in
    if e.fix_skid
    then (record accessed { fixed_ip = it.cur_index; is_fixed = true }, prev)
    else (accessed, some it.opcode)

-- The event's frames after the frame; without a table it is passed over.
unfoldable pub entered : PyFrame → List Frame → List Frame
entered f frames = elim f.lnotab [
  | none ↦ frames
  | some table ↦ push_frame frames (context_frame f)
]

-- One round of the walk.
unfoldable pub walk_frame : PyFrame → Event → Option Sampled
walk_frame f e = do
  it ← new_iterator f.code
  found ← find_opcode f.code (suc (length f.code)) (word64 (place_of f).addr) it none
  some (note_opcode (record e { context_agent = entered f e.context_agent }) found.0 found.1)

-- pyagent_walk_and_record_python_stack_only, with the depth it returns.
unfoldable pub walk_and_record : List PyFrame → ℕ → ℕ → Sampled → Option (Sampled × ℕ)
walk_and_record [] max_depth depth s = some (s, depth)
walk_and_record (f ∷ fs) max_depth depth s =
    let rest = walk_frame f s.0 >>= λ s'. walk_and_record fs max_depth (depth + 1) s' in
    if leb (depth + 2) max_depth then rest else some (s, depth)

-- get_stack_trace, with pyagent_walk_and_record_stack. `none` for `current` is NULL; a thread
-- without frames has the empty list.
unfoldable pub get_stack_trace : Option (List PyFrame) → Sampled → ℕ → Option (Sampled × ℕ)
get_stack_trace none s max_depth = some (s, 0)
get_stack_trace (some []) s max_depth = some (s, 0)
get_stack_trace (some (f ∷ fs)) s max_depth = walk_and_record (f ∷ fs) max_depth 0 s
