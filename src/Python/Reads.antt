-- ===== src/Python/Reads.antt =====
-- The iterator of kvmTest/src/agent/pythonAgent/pyBytecodeIterator.cpp reads back the instructions
-- of three and six bytes that Python had before 3.6, and of one byte.
use kognizance_tool.Prelude.{
  ℕ, zero, suc, ◌+◌, ◌≤◌, ◌<◌, ◌≡◌, refl, ap, ◌∙◌, true, false, Option, none, some, List, [], ◌∷◌,
  ◌++◌, ◌==◌, ==-false, leb, length, length-append, get_elem?, arith,
}
use kognizance_tool.Python.Bytecode.{
  Iterator, has_arg, extended_arg, advance_extended, advance_argument, advance, before,
  new_iterator, ◌>>=◌,
}
use kognizance_tool.Python.Encode.{
  Instruction, plain, argument, extended, encode, encode_all, size_of, IsFormed, AllFormed,
  opcode_of, oparg_of, iterator_at, first, last_opcode,
}
use kognizance_tool.Python.Stack.{find_opcode}

get_elem?-append : (xs ys : List ℕ) (k : ℕ) → get_elem? (xs ++ ys) (length xs + k) ≡ get_elem? ys k
get_elem?-append [] ys k = let e : 0 + k ≡ k = omega arith in ap (λ n. get_elem? ys n) e
get_elem?-append (x ∷ xs) ys k =
    let e : suc (length xs) + k ≡ suc (length xs + k) = omega arith in
    ap (λ n. get_elem? (x ∷ xs ++ ys) n) e ∙ get_elem?-append xs ys k

-- The bytes are those of the code from an index to its end.
abbrev pub Behind : List ℕ → ℕ → List ℕ → Type 0
Behind code n bytes =
    (length code ≡ n + length bytes)
    × ((i k : ℕ) → i ≡ n + k → get_elem? code i ≡ get_elem? bytes k)

Behind-append :
    (code : List ℕ) (n : ℕ) (xs ys : List ℕ)
    → Behind code n (xs ++ ys)
    → Behind code (n + length xs) ys
Behind-append code n xs ys (size, reads) = (
  omega (arith, size, length-append xs ys),
  λ i k e. reads i (length xs + k) (omega (arith, e)) ∙ get_elem?-append xs ys k,
)

same_next :
    {op arg at m n : ℕ}
    → m ≡ n
    → Path
        (Option Iterator)
        (some (record { opcode = op; oparg = arg; cur_index = at; next_index = m; error = false }))
        (some (record { opcode = op; oparg = arg; cur_index = at; next_index = n; error = false }))
same_next {op} {arg} {at} e =
    ap
      (λ n.
        some (record { opcode = op; oparg = arg; cur_index = at; next_index = n; error = false }))
      e

-- An advance to the place of an encoded instruction reads it.
advance-encode :
    (code ys : List ℕ) (i : Instruction) (it : Iterator)
    → IsFormed i
    → Behind code it.next_index (encode i ++ ys)
    → it.error ≡ false
    → advance code it ≡ some (iterator_at it.next_index i it.oparg)
unfolding advance advance_argument advance_extended
advance-encode code ys (plain op) it formed (size, reads) clean =
    let f : (it.next_index == length code) ≡ false = ground (arith, size) in
    let u : has_arg op ≡ false = ground (arith, formed) in
    rw (f, reads it.next_index 0 (omega arith), advance, u) (rw clean refl)
advance-encode code ys (argument op low high) it (formed, ne) (size, reads) clean =
    let f : (it.next_index == length code) ≡ false = ground (arith, size) in
    let t : has_arg op ≡ true = ground (arith, formed) in
    let room : leb (length code) (it.next_index + 1 + 1) ≡ false = ground (arith, size) in
    let short : (op == extended_arg) ≡ false = ==-false op extended_arg ne in
    rw
      (
        f,
        reads it.next_index 0 (omega arith),
        advance,
        t,
        room,
        reads (it.next_index + 1) 1 (omega arith),
        reads (it.next_index + 1 + 1) 2 (omega arith),
        advance_argument,
        short,
      )
      (rw clean (same_next (omega arith)))
advance-encode code ys (extended op low high a b) it formed (size, reads) clean =
    let f : (it.next_index == length code) ≡ false = ground (arith, size) in
    let t : has_arg op ≡ true = ground (arith, formed) in
    let room : leb (length code) (it.next_index + 1 + 1) ≡ false = ground (arith, size) in
    let room' : leb (length code) (it.next_index + 1 + 2 + 2) ≡ false = ground (arith, size) in
    rw
      (
        f,
        reads it.next_index 0 (omega arith),
        advance,
        room,
        reads (it.next_index + 1) 1 (omega arith),
        reads (it.next_index + 1 + 1) 2 (omega arith),
        advance_argument,
        advance_extended,
        room',
        reads (it.next_index + 1 + 2) 3 (omega arith),
        t,
        reads (it.next_index + 1 + 2 + 1) 4 (omega arith),
        reads (it.next_index + 1 + 2 + 2) 5 (omega arith),
      )
      (rw clean (same_next (omega arith)))

advance-first :
    (code ys : List ℕ) (is : List Instruction) (j : Instruction) (it : Iterator)
    → AllFormed is
    → IsFormed j
    → Behind code it.next_index (encode_all is (encode j ++ ys))
    → it.error ≡ false
    → advance code it ≡ some (iterator_at it.next_index (first is j) it.oparg)
advance-first code ys [] j it all formed behind clean =
    advance-encode code ys j it formed behind clean
advance-first code ys (i ∷ is) j it (formed, all) formed_j behind clean =
    advance-encode code (encode_all is (encode j ++ ys)) i it formed behind clean

encode-positive : (i : Instruction) → 1 ≤ length (encode i)
encode-positive (plain op) = omega arith
encode-positive (argument op low high) = omega arith
encode-positive (extended op low high a b) = omega arith

length-encode_all :
    (is : List Instruction) (bytes : List ℕ)
    → length (encode_all is bytes) ≡ size_of is + length bytes
length-encode_all [] bytes = omega arith
length-encode_all (i ∷ is) bytes =
    omega (arith, length-append (encode i) (encode_all is bytes), length-encode_all is bytes)

size_of-length : (is : List Instruction) → length is ≤ size_of is
size_of-length [] = omega arith
size_of-length (i ∷ is) = omega (arith, encode-positive i, size_of-length is)

find_opcode-reaches :
    (code ys : List ℕ) (fuel : ℕ) (is : List Instruction) (j : Instruction) (n old addr : ℕ)
    (prev : Option ℕ)
    → AllFormed is
    → IsFormed j
    → Behind code n (encode_all is (encode j ++ ys))
    → addr ≡ n + size_of is
    → length is < fuel
    → (arg : ℕ) × (find_opcode code fuel addr (iterator_at n (first is j) old) prev
        ≡ some (iterator_at addr j arg, last_opcode is prev))
unfolding find_opcode
find_opcode-reaches code ys zero is j n old addr prev all formed behind e h =
    absurd (omega (arith, h))
find_opcode-reaches code ys (suc fuel) [] j n old addr prev all formed (size, reads) e h =
    let f : (n == length code) ≡ false =
      ground (arith, size, length-append (encode j) ys, encode-positive j) in
    let t : (addr == n) ≡ true = ground (arith, e) in
    let same : n ≡ addr = omega (arith, e) in
    (old, rw (f, t, find_opcode) (ap (λ k. some (iterator_at k j old, prev)) same))
find_opcode-reaches code ys (suc fuel) (i ∷ is) j n old addr prev (formed_i, all) formed behind e
      h =
    let bytes = encode_all is (encode j ++ ys) in
    let f : (n == length code) ≡ false =
      ground (arith, behind.0, length-append (encode i) bytes, encode-positive i) in
    let g : (addr == n) ≡ false = ground (arith, e, encode-positive i) in
    let behind' = Behind-append code n (encode i) bytes behind in
    let step = advance-first code ys is j (iterator_at n i old) all formed behind' refl in
    let (arg, rest) =
      find_opcode-reaches code ys fuel is j (n + length (encode i)) (oparg_of i old) addr
        (some (opcode_of i)) all formed behind' (omega (arith, e)) (omega (arith, h)) in
    (arg, rw (f, g, find_opcode, step) rest)

-- In code made of instructions, each with its form's opcode, the walk's search for the address of an
-- instruction ends at that instruction, with the opcode of the one before it.
pub find_opcode-encode :
    (is : List Instruction) (j : Instruction) (ys : List ℕ)
    → AllFormed is
    → IsFormed j
    → (arg : ℕ) × ((new_iterator (encode_all is (encode j ++ ys)) >>= λ it.
          find_opcode
            (encode_all is (encode j ++ ys))
            (suc (length (encode_all is (encode j ++ ys))))
            (size_of is)
            it
            none)
        ≡ some (iterator_at (size_of is) j arg, last_opcode is none))
unfolding new_iterator
find_opcode-encode is j ys all formed =
    let code = encode_all is (encode j ++ ys) in
    let behind : Behind code 0 code =
      (omega arith, λ i k e. ap (λ m. get_elem? code m) (omega (arith, e))) in
    let step = advance-first code ys is j (before code 0) all formed behind refl in
    let (arg, e) =
      find_opcode-reaches code ys (suc (length code)) is j 0 0 (size_of is) none all formed behind
        (omega arith) (omega (arith, length-encode_all is (encode j ++ ys), size_of-length is)) in
    (arg, rw (step, new_iterator) e)
