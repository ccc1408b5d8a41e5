-- ===== src/Perf/Steps.antt =====
-- What the steps of the parser read from bytes that stand at the offset,
-- kvmTest/src/platform/device/perf_parser.cpp.
use kognizance_tool.Prelude.{
  ℕ, ◌+◌, ◌-◌, ◌%◌, ◌^◌, ◌≤◌, ◌<◌, ◌≡◌, refl, ap, ◌∙◌, sym, subst, if◌then◌else◌, Bool, true, false,
  some, List, [], ◌∷◌, ◌++◌, length, take, drop, length-drop, length-append, leb, arith,
}
use mathlib.Core.List.{append-nil, append_assoc}
use kognizance_tool.Event.{Event}
use kognizance_tool.Ring.{of_le}
use kognizance_tool.Perf.Words.{
  Cursor, Step, ◌then◌, when, word, skip, read, store_word, pass, copy, passes, repeat,
}
use kognizance_tool.Perf.Encode.{le, given, joined, encode_fields}
use kognizance_tool.Perf.Reads.{drop-add, drop-append, take-append, length-le, of_le-le}

abbrev pub cursor : Event → ℕ → Cursor
cursor e o = record { event = e; at = o }

-- At `xs`, a step takes the event to its image under `g` and the offset behind them.
abbrev pub Reads : List ℕ → Step → List ℕ → (Event → Event) → Type 0
Reads bytes f xs g =
    (e : Event) (o : ℕ) (rest : List ℕ)
    → drop o bytes ≡ xs ++ rest
    → f (cursor e o) ≡ some (cursor (g e) (o + length xs))

-- No field is empty.
abbrev pub IsWide : List ℕ → Type 0
IsWide [] = Unit
IsWide (n ∷ ns) = (0 < n) × IsWide ns

module _ (bytes : List ℕ) where
  pub behind :
      (o : ℕ) (xs rest : List ℕ) → drop o bytes ≡ xs ++ rest → drop (o + length xs) bytes ≡ rest
  behind o xs rest h =
      drop-add o (length xs) bytes ∙ ap (λ ys. drop (length xs) ys) h ∙ drop-append xs rest

  -- Bytes at the offset are within the buffer.
  pub within :
      (o : ℕ) (xs rest : List ℕ)
      → drop o bytes ≡ xs ++ rest
      → 0 < length xs
      → o + length xs ≤ length bytes
  within o xs rest h some_bytes =
      let e : length bytes - o ≡ length xs + length rest =
        sym (length-drop o bytes) ∙ ap length h ∙ length-append xs rest in
      omega (arith, e, some_bytes)

  word-at :
      (o : ℕ) (xs rest : List ℕ)
      → drop o bytes ≡ xs ++ rest
      → 0 < length xs
      → word bytes (length xs) o ≡ some (of_le xs)
  unfolding word
  word-at o xs rest h some_bytes =
      let inside : leb (o + length xs) (length bytes) ≡ true =
        ground (arith, within o xs rest h some_bytes) in
      rw inside (
        ap (λ ys. some (of_le (take (length xs) ys))) h
        ∙ ap (λ ys. some (of_le ys)) (take-append xs rest))

  pub word-le :
      (n v o : ℕ) (rest : List ℕ)
      → 0 < n
      → drop o bytes ≡ le n v ++ rest
      → word bytes n o ≡ some (v % 256 ^ n)
  word-le n v o rest h at =
      let e = length-le n v in
      let found = word-at o (le n v) rest at (omega (arith, e, h)) in
      ap (λ k. word bytes k o) (sym e) ∙ found ∙ ap some (of_le-le n v)

  pub then-Reads :
      (f g : Step) (xs ys : List ℕ) (k l : Event → Event)
      → Reads bytes f xs k
      → Reads bytes g ys l
      → Reads bytes (f then g) (xs ++ ys) (λ e. l (k e))
  then-Reads f g xs ys k l first second e o rest h =
      let h' : drop o bytes ≡ xs ++ (ys ++ rest) = h ∙ append_assoc xs ys rest in
      let a = first e o (ys ++ rest) h' in
      let b = second (k e) (o + length xs) rest (behind o xs (ys ++ rest) h') in
      let n : o + length xs + length ys ≡ o + length (xs ++ ys) =
        omega (arith, length-append xs ys) in
      rw (a, ◌then◌) (b ∙ ap (λ m. some (cursor (l (k e)) m)) n)

  pub nothing-Reads : Reads bytes some [] (λ e. e)
  nothing-Reads e o rest h = let n : o ≡ o + 0 = omega arith in ap (λ m. some (cursor e m)) n

  pub read-Reads :
      (n v : ℕ) (k : ℕ → Step) (ys : List ℕ) (g : Event → Event)
      → 0 < n
      → Reads bytes (k (v % 256 ^ n)) ys g
      → Reads bytes (read bytes n k) (le n v ++ ys) g
  unfolding read
  read-Reads n v k ys g h next e o rest at =
      let at' : drop o bytes ≡ le n v ++ (ys ++ rest) = at ∙ append_assoc (le n v) ys rest in
      let len = length-le n v in
      let past : o + length (le n v) ≡ o + n = omega (arith, len) in
      let b =
        next e (o + n) rest
          (ap (λ m. drop m bytes) (sym past) ∙ behind o (le n v) (ys ++ rest) at') in
      let m : o + n + length ys ≡ o + length (le n v ++ ys) =
        omega (arith, length-append (le n v) ys, len) in
      rw (word-le n v o (ys ++ rest) h at', read) (b ∙ ap (λ j. some (cursor (g e) j)) m)

  pub pass-Reads : (n v : ℕ) → 0 < n → Reads bytes (pass bytes n) (le n v) (λ e. e)
  unfolding pass
  pass-Reads n v h e o rest at =
      read-Reads n v (λ v c. some c) [] (λ e. e) h nothing-Reads e o rest
        (at ∙ ap (λ xs. xs ++ rest) (sym (append-nil (le n v))))
      ∙ ap (λ xs. some (cursor e (o + length xs))) (append-nil (le n v))

  -- A step that reads `xs` on every event reads `ys`, which equal them.
  pub along :
      (f : Step) (xs ys : List ℕ) (g : Event → Event)
      → Reads bytes f xs g
      → xs ≡ ys
      → Reads bytes f ys g
  along f xs ys g h e = subst (λ zs. Reads bytes f zs g) e h

  pub store_word-Reads :
      (n v : ℕ) (set : ℕ → Event → Event)
      → 0 < n
      → Reads bytes (store_word bytes n set) (le n v) (set (v % 256 ^ n))
  unfolding store_word read
  store_word-Reads n v set h e o rest at =
      let len = length-le n v in
      let m : o + n ≡ o + length (le n v) = omega (arith, len) in
      rw (word-le n v o rest h at, store_word, read)
        (ap (λ j. some (cursor (set (v % 256 ^ n) e) j)) m)

  pub copy-Reads : (xs : List ℕ) → 0 < length xs → Reads bytes (copy bytes (length xs)) xs (λ e. e)
  unfolding copy skip
  copy-Reads xs h e o rest at =
      let inside : leb (o + length xs) (length bytes) ≡ true =
        ground (arith, within o xs rest at h) in
      rw (inside, copy) refl

  pub skip-Reads : (xs : List ℕ) → Reads bytes (skip (length xs)) xs (λ e. e)
  unfolding skip
  skip-Reads xs e o rest at = refl

  pub when-Reads :
      (b : Bool) (f : Step) (xs : List ℕ)
      → Reads bytes f xs (λ e. e)
      → Reads bytes (when b f) (given b xs) (λ e. e)
  when-Reads true f xs h = h
  when-Reads false f xs h = nothing-Reads

  -- A field that is kept if it is there.
  when-Keeps :
      (b : Bool) (f : Step) (xs : List ℕ) (g : Event → Event)
      → Reads bytes f xs g
      → Reads bytes (when b f) (given b xs) (λ e. if b then g e else e)
  when-Keeps true f xs g h = h
  when-Keeps false f xs g h = nothing-Reads

  pub repeat-Reads :
      {A : Type 0} (f : Step) (enc : A → List ℕ) (xs : List A)
      → ((x : A) → Reads bytes f (enc x) (λ e. e))
      → Reads bytes (repeat (length xs) f) (joined enc xs) (λ e. e)
  unfolding repeat
  repeat-Reads f enc [] h = nothing-Reads
  repeat-Reads f enc (x ∷ xs) h =
      then-Reads f (repeat (length xs) f) (enc x) (joined enc xs) (λ e. e) (λ e. e) (h x)
        (repeat-Reads f enc xs h)

  pub passes-Reads :
      (ns vs : List ℕ) → IsWide ns → Reads bytes (passes bytes ns) (encode_fields ns vs) (λ e. e)
  unfolding passes
  passes-Reads [] vs h = nothing-Reads
  passes-Reads (n ∷ ns) [] (h, hs) =
      then-Reads (pass bytes n) (passes bytes ns) (le n 0) (encode_fields ns []) (λ e. e) (λ e. e)
        (pass-Reads n 0 h) (passes-Reads ns [] hs)
  passes-Reads (n ∷ ns) (v ∷ vs) (h, hs) =
      then-Reads (pass bytes n) (passes bytes ns) (le n v) (encode_fields ns vs) (λ e. e) (λ e. e)
        (pass-Reads n v h) (passes-Reads ns vs hs)
