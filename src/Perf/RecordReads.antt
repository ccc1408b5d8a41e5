-- ===== src/Perf/RecordReads.antt =====
-- One round of the parser, kvmTest/src/platform/device/perf_parser.cpp, on an encoded record.
use kognizance_tool.Prelude.{
  ℕ, ◌+◌, ◌^◌, ◌<◌, ◌≡◌, refl, ap, ◌∙◌, sym, subst, Bool, true, some, List, [], ◌∷◌, ◌++◌, length,
  length-append, drop, ltb, ◌&&◌, arith, if◌then◌else◌,
}
use mathlib.Core.List.{append-nil, append_assoc}
use native.Mathlib.Nat.{mod-eq_of_lt}
use kognizance_tool.Prelude.Int.{pos, sub_ℕ}
use kognizance_tool.Perf.Words.{◌then◌, word, copy_signed, passes}
use kognizance_tool.Perf.Sample.{Format}
use kognizance_tool.Perf.Records.{
  RecordType, mmap_record, lost_record, comm_record, exit_record, throttle_record, fork_record,
  sample_record, mmap2_record, aux_record, itrace_start_record, lost_samples_record, switch_record,
  switch_cpu_wide_record, unknown_record, record_type, copy_name, parse_body, parse_record,
}
use kognizance_tool.Perf.Encode.{
  le, given, encode_fields, layout, PerfRecord, sample_of, plain, body_of, type_of, misc_of, encode,
  IsReadable, IsRecord, kept_of,
}
use kognizance_tool.Perf.Reads.{length-le}
use kognizance_tool.Perf.Steps.{
  cursor, Reads, IsWide, behind, word-le, then-Reads, along, copy-Reads, passes-Reads,
}
use kognizance_tool.Perf.SampleReads.{sample-Reads}

abbrev total : List ℕ → ℕ
total [] = 0
total (n ∷ ns) = n + total ns

length-encode_fields : (ns vs : List ℕ) → length (encode_fields ns vs) ≡ total ns
length-encode_fields [] vs = refl
length-encode_fields (n ∷ ns) [] =
    omega (
      arith,
      length-append (le n 0) (encode_fields ns []),
      length-le n 0,
      length-encode_fields ns [],
    )
length-encode_fields (n ∷ ns) (v ∷ vs) =
    omega (
      arith,
      length-append (le n v) (encode_fields ns vs),
      length-le n v,
      length-encode_fields ns vs,
    )

abbrev all_wide : List ℕ → Bool
all_wide [] = true
all_wide (n ∷ ns) = ltb 0 n && all_wide ns

wide : (ns : List ℕ) → all_wide ns ≡ true → IsWide ns
wide [] h = tt
wide (n ∷ ns) h = (ground (arith, h), wide ns (ground (arith, h)))

module _ (bytes : List ℕ) (f : Format) (start : ℕ) where
  unnamed-Reads :
      (ns vs : List ℕ)
      → IsWide ns
      → Reads bytes (passes bytes ns) (encode_fields ns vs ++ []) (λ e. e)
  unnamed-Reads ns vs wide =
      along bytes (passes bytes ns) (encode_fields ns vs) (encode_fields ns vs ++ []) (λ e. e)
        (passes-Reads bytes ns vs wide) (sym (append-nil (encode_fields ns vs)))

  -- The name takes what the size leaves.
  named-Reads :
      (ns vs name : List ℕ) (size : ℕ)
      → word bytes 2 (start + 6) ≡ some size
      → size ≡ 8 + length (encode_fields ns vs ++ name)
      → IsWide ns
      → 0 < length name
      → Reads bytes
          (passes bytes ns then copy_name bytes start (8 + total ns))
          (encode_fields ns vs ++ name)
          (λ e. e)
  unfolding copy_name copy_signed
  named-Reads ns vs name size found sized wide filled =
      let left : sub_ℕ size (8 + total ns) ≡ pos (length name) =
        let sizes = length-append (encode_fields ns vs) name in
        let fixed = length-encode_fields ns vs in ground (arith, sizes, fixed, sized) in
      let copied : Reads bytes (copy_name bytes start (8 + total ns)) name (λ e. e) =
        rw (found, left, copy_name) (copy-Reads bytes name filled) in
      then-Reads bytes (passes bytes ns) (copy_name bytes start (8 + total ns))
        (encode_fields ns vs) name (λ e. e) (λ e. e) (passes-Reads bytes ns vs wide) copied

  plain-Reads :
      (t : RecordType) (vs name : List ℕ) (size : ℕ)
      → word bytes 2 (start + 6) ≡ some size
      → size ≡ 8 + length (encode_fields (layout t).0 vs ++ given (layout t).1 name)
      → IsReadable t name
      → Reads bytes
          (parse_body bytes f start t)
          (encode_fields (layout t).0 vs ++ given (layout t).1 name)
          (λ e. e)
  unfolding parse_body
  plain-Reads lost_record vs name size found sized h =
      unnamed-Reads (layout lost_record).0 vs (wide (layout lost_record).0 refl)
  plain-Reads exit_record vs name size found sized h =
      unnamed-Reads (layout exit_record).0 vs (wide (layout exit_record).0 refl)
  plain-Reads fork_record vs name size found sized h =
      unnamed-Reads (layout fork_record).0 vs (wide (layout fork_record).0 refl)
  plain-Reads throttle_record vs name size found sized h =
      unnamed-Reads (layout throttle_record).0 vs (wide (layout throttle_record).0 refl)
  plain-Reads aux_record vs name size found sized h = absurd h
  plain-Reads itrace_start_record vs name size found sized h =
      unnamed-Reads (layout itrace_start_record).0 vs (wide (layout itrace_start_record).0 refl)
  plain-Reads lost_samples_record vs name size found sized h = absurd h
  plain-Reads switch_record vs name size found sized h = absurd h
  plain-Reads switch_cpu_wide_record vs name size found sized h = absurd h
  plain-Reads comm_record vs name size found sized h =
      named-Reads (layout comm_record).0 vs name size found sized (wide (layout comm_record).0 refl)
        h
  plain-Reads mmap_record vs name size found sized h =
      named-Reads (layout mmap_record).0 vs name size found sized (wide (layout mmap_record).0 refl)
        h
  plain-Reads mmap2_record vs name size found sized h =
      named-Reads (layout mmap2_record).0 vs name size found sized
        (wide (layout mmap2_record).0 refl) h
  plain-Reads unknown_record vs name size found sized h = absurd h
  plain-Reads sample_record vs name size found sized h = absurd h

module _ (bytes : List ℕ) (f : Format) where
  body-Reads :
      (r : PerfRecord) (start : ℕ)
      → word bytes 2 (start + 6) ≡ some (8 + length (body_of f r))
      → IsRecord f r
      → Reads bytes (parse_body bytes f start (record_type (type_of r))) (body_of f r) (kept_of f r)
  unfolding parse_body record_type
  body-Reads (sample_of misc s) start found (size, h) = (sample-Reads bytes f s h).run
  body-Reads (plain type misc values name) start found (size, small, h) =
      plain-Reads bytes f start (record_type type) values name _ found refl h

  type-IsSmall : (r : PerfRecord) → IsRecord f r → type_of r < 2 ^ 32
  type-IsSmall (sample_of misc s) h = omega arith
  type-IsSmall (plain type misc values name) (size, small, named) = small

  size-IsSmall : (r : PerfRecord) → IsRecord f r → 8 + length (body_of f r) < 2 ^ 16
  size-IsSmall (sample_of misc s) h = h.0
  size-IsSmall (plain type misc values name) h = h.0

  past :
      (n o : ℕ) (xs rest : List ℕ)
      → length xs ≡ n
      → drop o bytes ≡ xs ++ rest
      → drop (o + n) bytes ≡ rest
  past n o xs rest e at = subst (λ m. drop (o + m) bytes ≡ rest) e (behind bytes o xs rest at)

  pub length-encode : (r : PerfRecord) → length (encode f r) ≡ 8 + length (body_of f r)
  length-encode r =
      let type = le 4 (type_of r) in
      let misc = le 2 (misc_of r) in
      let size = le 2 (8 + length (body_of f r)) in
      omega (
        arith,
        length-append (type ++ misc ++ size) (body_of f r),
        length-append (type ++ misc) size,
        length-append type misc,
        length-le 4 (type_of r),
        length-le 2 (misc_of r),
        length-le 2 (8 + length (body_of f r)),
      )

  pub record-Reads :
      (r : PerfRecord)
      → IsRecord f r
      → Reads bytes (parse_record bytes f) (encode f r) (kept_of f r)
  unfolding parse_record
  record-Reads r h e o rest at =
      let body = body_of f r in
      let size = 8 + length body in
      let type = le 4 (type_of r) in
      let misc = le 2 (misc_of r) in
      let at4 : drop o bytes ≡ type ++ (misc ++ (le 2 size ++ (body ++ rest))) =
        at
        ∙ append_assoc (type ++ misc ++ le 2 size) body rest
        ∙ append_assoc (type ++ misc) (le 2 size) (body ++ rest)
        ∙ append_assoc type misc (le 2 size ++ (body ++ rest)) in
      let at6 : drop (o + 6) bytes ≡ le 2 size ++ (body ++ rest) =
        let e : o + 4 + 2 ≡ o + 6 = omega arith in
        subst (λ m. drop m bytes ≡ le 2 size ++ (body ++ rest)) e
          (past 2 (o + 4) misc _ (length-le 2 (misc_of r))
            (past 4 o type _ (length-le 4 (type_of r)) at4)) in
      let at8 : drop (o + 8) bytes ≡ body ++ rest =
        let e : o + 6 + 2 ≡ o + 8 = omega arith in
        subst (λ m. drop m bytes ≡ body ++ rest) e
          (past 2 (o + 6) (le 2 size) _ (length-le 2 size) at6) in
      let found : word bytes 4 o ≡ some (type_of r) =
        word-le bytes 4 (type_of r) o _ (omega arith) at4
        ∙ ap some (mod-eq_of_lt (omega (arith, type-IsSmall r h))) in
      let sized : word bytes 2 (o + 6) ≡ some size =
        word-le bytes 2 size (o + 6) _ (omega arith) at6
        ∙ ap some (mod-eq_of_lt (omega (arith, size-IsSmall r h))) in
      let n : o + 8 + length body ≡ o + length (encode f r) = omega (arith, length-encode r) in
      rw (found, parse_record)
        (body-Reads r o sized h e (o + 8) rest at8 ∙ ap (λ m. some (cursor (kept_of f r e) m)) n)
