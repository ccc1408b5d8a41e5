-- ===== src/Ring/Reads.antt =====
-- Laws of the reads of the ring buffer,
-- kvmTest/src/tools/witchTool/watchpoint-lib/src/watchpoint_mmap.cpp.
use kognizance_tool.Prelude.{
  ℕ, zero, suc, ◌+◌, ◌-◌, ◌%◌, ◌≤◌, ◌<◌, ◌≡◌, refl, ap, ◌∙◌, sym, inl, inr, true, false, some, List,
  [], ◌∷◌, ◌++◌, ltb, if◌then◌else◌, take, drop, get_or, length, arith, Bool-cases,
}
use native.Mathlib.Nat.{mod-lt, mod-eq_of_lt, mod-add-mod, mod-eq-sub-mod}
use kognizance_tool.Watch.Address.{word_size, add64}
use kognizance_tool.Ring.{
  Ring, tail_of, avail_of, first_part, bytes_at, read_mmap_buffer, consume_all_ring_buffer_data,
  wp_collect_trigger_info,
}

get_or-drop : (n k : ℕ) (xs : List ℕ) → get_or (drop n xs) k 0 ≡ get_or xs (n + k) 0
get_or-drop zero k xs = let e : k ≡ 0 + k = omega arith in ap (λ n. get_or xs n 0) e
get_or-drop (suc n) k [] = refl
get_or-drop (suc n) k (x ∷ xs) =
    let e : suc (n + k) ≡ suc n + k = omega arith in
    get_or-drop n k xs ∙ ap (λ m. get_or (x ∷ xs) m 0) e

get_or-take_append :
    (m k : ℕ) (xs ys : List ℕ)
    → m ≤ length xs
    → get_or (take m xs ++ ys) k 0 ≡ (if ltb k m then get_or xs k 0 else get_or ys (k - m) 0)
get_or-take_append zero k xs ys h = ground arith
get_or-take_append (suc m) k [] ys h = absurd (omega arith)
get_or-take_append (suc m) zero (x ∷ xs) ys h = ground arith
get_or-take_append (suc m) (suc k) (x ∷ xs) ys h =
    ground (arith, get_or-take_append m k xs ys (omega arith))

get_or-take : (n k : ℕ) (xs : List ℕ) → k < n → get_or (take n xs) k 0 ≡ get_or xs k 0
get_or-take zero k xs h = absurd (omega arith)
get_or-take (suc n) k [] h = refl
get_or-take (suc n) zero (x ∷ xs) h = refl
get_or-take (suc n) (suc k) (x ∷ xs) h = get_or-take n k xs (omega arith)

length-drop_le : (n : ℕ) (xs : List ℕ) → length (drop n xs) ≡ length xs - n
length-drop_le zero xs = omega arith
length-drop_le (suc n) [] = omega arith
length-drop_le (suc n) (x ∷ xs) = omega (arith, length-drop_le n xs)

wrapped : (t k n : ℕ) → t < n → k < n → (t + k) % n ≡ (if ltb (t + k) n then t + k else t + k - n)
wrapped t k n h g = elim (Bool-cases (ltb (t + k) n)) [
  | inl e ↦ rw e (mod-eq_of_lt (ground arith))
  | inr e ↦ rw e (mod-eq-sub-mod (ground arith) ∙ mod-eq_of_lt (ground arith))
]

module _ (r : Ring) (pgsz sz : ℕ) (page : length r.payload ≡ pgsz) (fits : sz ≤ pgsz) where
  -- Each byte of a read is that of the payload at the masked position.
  bytes_at-get :
      (k : ℕ)
      → k < sz
      → get_or (bytes_at r sz pgsz) k 0 ≡ get_or r.payload ((r.data_tail + k) % pgsz) 0
  unfolding bytes_at
  bytes_at-get k h =
      let t : ℕ = tail_of r pgsz in
      let small : t < pgsz = mod-lt r.data_tail (omega arith) in
      let place = sym (mod-add-mod r.data_tail pgsz k) ∙ wrapped t k pgsz small (omega arith) in
      let m : ℕ = first_part r sz pgsz in
      let source = λ (j : ℕ). get_or r.payload j 0 in
      let split =
        get_or-take_append m k (drop t r.payload) (if ltb m sz then take (sz - m) r.payload else [])
          (ground (arith, length-drop_le t r.payload)) in
      elim (Bool-cases (ltb k m)) [
        | inl e ↦
            let inside : ltb (t + k) pgsz ≡ true = ground arith in
            let rest : (if ltb k m
                  then get_or (drop t r.payload) k 0
                  else get_or (if ltb m sz then take (sz - m) r.payload else []) (k - m) 0)
                ≡ get_or r.payload (t + k) 0 =
              rw e (get_or-drop t k r.payload) in
            split ∙ rest ∙ ap source (sym (rw inside at place))
        | inr e ↦
            let outside : ltb (t + k) pgsz ≡ false = ground arith in
            let more : ltb m sz ≡ true = ground arith in
            let here : k - m ≡ t + k - pgsz = ground arith in
            let rest : (if ltb k m
                  then get_or (drop t r.payload) k 0
                  else get_or (if ltb m sz then take (sz - m) r.payload else []) (k - m) 0)
                ≡ get_or r.payload (k - m) 0 =
              rw (e, more) (get_or-take (sz - m) (k - m) r.payload (ground arith)) in
            split ∙ rest ∙ ap source (here ∙ sym (rw outside at place))
      ]

-- For a payload of one page and a request of at most a page that the buffer can serve, a read
-- succeeds, hands out the payload's bytes in order around its end, and moves the tail past them.
pub read_mmap_buffer-get :
    (r : Ring) (pgsz sz k : ℕ)
    → length r.payload ≡ pgsz
    → sz ≤ pgsz
    → sz ≤ avail_of r
    → k < sz
    → (bs : List ℕ) × (read_mmap_buffer r sz pgsz
        ≡ (some bs, record r { data_tail = (r.data_tail + sz) % word_size }))
      × (get_or bs k 0 ≡ get_or r.payload ((r.data_tail + k) % pgsz) 0)
unfolding read_mmap_buffer
read_mmap_buffer-get r pgsz sz k page fits served h =
    let enough : ltb (avail_of r) sz ≡ false = ground arith in
    (bytes_at r sz pgsz, rw (enough, read_mmap_buffer) refl, bytes_at-get r pgsz sz page fits k h)

-- For 64-bit counters and at least 16 available bytes, collecting a trigger drains the buffer,
-- whatever the record's type; the head and the payload stay.
pub wp_collect_trigger_info-drained :
    (r : Ring) (va pgsz : ℕ)
    → r.data_head < word_size
    → r.data_tail < word_size
    → 16 ≤ avail_of r
    → (wp_collect_trigger_info r va pgsz).1 ≡ record r { data_tail = r.data_head }
unfolding wp_collect_trigger_info read_mmap_buffer consume_all_ring_buffer_data
wp_collect_trigger_info-drained r va pgsz h k enough =
    let r1 : Ring = record r { data_tail = add64 r.data_tail 8 } in
    let first : ltb (avail_of r) 8 ≡ false = ground arith in
    let second : ltb (avail_of r1) 8 ≡ false = ground arith in ground (arith, first, second)
