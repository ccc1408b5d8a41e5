-- ===== src/Perf/Ends.antt =====
-- The loop of perf_mmap_read, kvmTest/src/platform/device/perf_parser.cpp, ends.
use kognizance_tool.Prelude.{
  ℕ, zero, suc, ◌+◌, ◌*◌, ◌≤◌, ◌≡◌, inl, inr, false, Option, none, some, List, ltb, ◌==◌, arith,
  Bool-cases, Option-cases,
}
use native.Mathlib.Nat.{div-add-mod, mod-lt}
use kognizance_tool.Prelude.Int.{ℤ, pos_part, sub_ℕ}
use kognizance_tool.Event.{Event}
use kognizance_tool.Ring.{Ring}
use kognizance_tool.Perf.Words.{Cursor, when, has_bit, word}
use kognizance_tool.Perf.Sample.{
  Format, handle_struct_read_format, read_tid, read_cpu, read_callchain, read_raw,
  read_branch_stack, read_regs, read_stack_user, parse_sample,
}
use kognizance_tool.Perf.Records.{
  RecordType, mmap_record, lost_record, comm_record, exit_record, throttle_record, fork_record,
  sample_record, mmap2_record, aux_record, itrace_start_record, lost_samples_record, switch_record,
  switch_cpu_wide_record, unknown_record, record_type, copy_name, parse_body, parse_record,
}
use kognizance_tool.Perf.Buffer.{
  ReadOutcome, parsed, faulted, starved, read_records, fuel_for, wrap_of, new_bytes, rotated,
  perf_mmap_read,
}
use kognizance_tool.Perf.Forward.{
  Forward, none-is-not-some, same-Forward, ◌▹◌, when-Forward, skip-Forward, read-Forward,
  pass-Forward, store-Forward, copy_signed-Forward, repeat-Forward, passes-Forward,
}

-- The loop came to its end, or a read left the buffer.
abbrev pub Ended : {A : Type 0} → ReadOutcome A → Type 0
Ended (parsed a) = Unit
Ended faulted = Unit
Ended starved = ⊥

module _ (bytes : List ℕ) where
  counters-Forward : (format : ℕ) → Forward (handle_struct_read_format bytes format)
  unfolding handle_struct_read_format
  counters-Forward format =
      let bit = λ (i : ℕ). when-Forward (has_bit format i) (pass-Forward bytes 8) in
      elim (Bool-cases (has_bit format 3)) [
        | inl t ↦
            rw (t, handle_struct_read_format)
              (read-Forward bytes 8 _
                λ nr. bit 0 ▹ bit 1 ▹ repeat-Forward _ _ (pass-Forward bytes 8 ▹ bit 2))
        | inr f ↦ rw (f, handle_struct_read_format) (pass-Forward bytes 8 ▹ (bit 0 ▹ bit 1) ▹ bit 2)
      ]

  regs-Forward : (mask : ℕ) → Forward (read_regs bytes mask)
  unfolding read_regs
  regs-Forward mask = pass-Forward bytes 8 ▹ skip-Forward _

  -- RAW has an int for its size, which may take the offset back, and the loop over the user's stack
  -- an int for its counter.
  sample-Forward :
      (f : Format)
      → has_bit f.sample_type 10 ≡ false
      → has_bit f.sample_type 13 ≡ false
      → Forward (parse_sample bytes f)
  unfolding parse_sample read_tid read_cpu read_callchain read_branch_stack
  sample-Forward f no_raw no_stack =
      let type = f.sample_type in
      let pass8 = λ (i : ℕ). when-Forward (has_bit type i) (pass-Forward bytes 8) in
      let raw : Forward (when (has_bit type 10) (read_raw bytes)) = rw no_raw same-Forward in
      let stack : Forward (when (has_bit type 13) (read_stack_user bytes)) =
        rw no_stack same-Forward in
      when-Forward (has_bit type 0) (store-Forward bytes 8 _)
      ▹ when-Forward (has_bit type 1) (store-Forward bytes 4 _ ▹ store-Forward bytes 4 _)
      ▹ when-Forward (has_bit type 2) (store-Forward bytes 8 _)
      ▹ when-Forward (has_bit type 3) (store-Forward bytes 8 _)
      ▹ pass8 6
      ▹ pass8 9
      ▹ when-Forward (has_bit type 7) (store-Forward bytes 4 _ ▹ pass-Forward bytes 4)
      ▹ pass8 8
      ▹ when-Forward (has_bit type 4) (counters-Forward f.read_format)
      ▹ when-Forward (has_bit type 5)
          (read-Forward bytes 8 _ λ nr. repeat-Forward _ _ (pass-Forward bytes 8))
      ▹ raw
      ▹ when-Forward (has_bit type 11) (
          read-Forward bytes 8 _ λ bnr.
            repeat-Forward _ _ (pass-Forward bytes 8 ▹ pass-Forward bytes 8 ▹ pass-Forward bytes 8))
      ▹ when-Forward (has_bit type 12) (regs-Forward f.reg_mask)
      ▹ when-Forward (has_bit type 18) (regs-Forward f.reg_mask)
      ▹ stack
      ▹ pass8 14
      ▹ pass8 15
      ▹ pass8 16
      ▹ pass8 17

  name-Forward : (start fixed : ℕ) → Forward (copy_name bytes start fixed)
  unfolding copy_name
  name-Forward start fixed = record {
    run = λ c d e. elim (Option-cases (word bytes 2 (start + 6))) [
      | inl n ↦ none-is-not-some d (rw (n, copy_name) at e)
      | inr (size, s) ↦
          (copy_signed-Forward bytes (sub_ℕ size fixed)).run c d (rw (s, copy_name) at e)
    ];
  }

  module _ (f : Format) (no_raw : has_bit f.sample_type 10 ≡ false)
      (no_stack : has_bit f.sample_type 13 ≡ false) where
    body-Forward : (start : ℕ) (t : RecordType) → Forward (parse_body bytes f start t)
    unfolding parse_body
    body-Forward start lost_record = passes-Forward bytes _
    body-Forward start exit_record = passes-Forward bytes _
    body-Forward start fork_record = passes-Forward bytes _
    body-Forward start throttle_record = passes-Forward bytes _
    body-Forward start aux_record = passes-Forward bytes _
    body-Forward start itrace_start_record = passes-Forward bytes _
    body-Forward start lost_samples_record = passes-Forward bytes _
    body-Forward start switch_record = passes-Forward bytes _
    body-Forward start switch_cpu_wide_record = passes-Forward bytes _
    body-Forward start comm_record = passes-Forward bytes _ ▹ name-Forward start _
    body-Forward start mmap_record = passes-Forward bytes _ ▹ name-Forward start _
    body-Forward start mmap2_record = passes-Forward bytes _ ▹ name-Forward start _
    body-Forward start sample_record = sample-Forward f no_raw no_stack
    body-Forward start unknown_record = same-Forward

    -- A record takes its header at least.
    record-advances : (c d : Cursor) → parse_record bytes f c ≡ some d → c.at + 8 ≤ d.at
    unfolding parse_record
    record-advances c d e = elim (Option-cases (word bytes 4 c.at)) [
      | inl n ↦ none-is-not-some d (rw (n, parse_record) at e)
      | inr (type, s) ↦
          (body-Forward c.at (record_type type)).run (record c { at = c.at + 8 }) d
            (rw (s, parse_record) at e)
    ]

    read_records-Ended :
        (fuel size : ℕ) (c : Cursor)
        → size ≤ c.at + 8 * fuel
        → Ended (read_records bytes f fuel size c)
    unfolding read_records
    read_records-Ended zero size c enough =
        let t : ltb c.at size ≡ false = ground arith in rw (t, read_records) tt
    read_records-Ended (suc fuel) size c enough = elim (Bool-cases (ltb c.at size)) [
      | inr t ↦ rw (t, read_records) tt
      | inl t ↦ elim (Option-cases (parse_record bytes f c)) [
        | inl n ↦ rw (t, n, read_records) tt
        | inr (d, s) ↦
            rw (t, s, read_records)
              (read_records-Ended fuel size d (omega (arith, record-advances c d s, enough)))
      ]
    ]

-- What the caller gets when the loop ends.
returned-Ended :
    (head : ℤ) (r : Ring) (o : ReadOutcome Event)
    → Ended o
    → Ended (elim o as (λ x. ReadOutcome (ℤ × Option Ring × Event)) [
      | parsed e ↦ parsed (head, some r, e)
      | faulted ↦ faulted
      | starved ↦ starved
    ])
returned-Ended head r (parsed e) h = tt
returned-Ended head r faulted h = tt
returned-Ended head r starved h = h

-- For a type without PERF_SAMPLE_RAW, whose signed size can take the offset back, and without
-- PERF_SAMPLE_STACK_USER, whose loop has an int for its counter, the loop of perf_mmap_read ends,
-- whatever bytes the ring holds: the fuel is enough.
pub perf_mmap_read-Ended :
    (f : Format) (pages pgsz : ℕ) (prev_head : ℤ) (ring : Option Ring) (e : Event)
    → has_bit f.sample_type 10 ≡ false
    → has_bit f.sample_type 13 ≡ false
    → Ended (perf_mmap_read f pages pgsz prev_head ring e)
unfolding perf_mmap_read
perf_mmap_read-Ended f pages pgsz prev_head none e no_raw no_stack =
    elim (Bool-cases (pages == 0)) [
      | inl t ↦ rw (t, perf_mmap_read) tt
      | inr t ↦ rw (t, perf_mmap_read) tt
    ]
perf_mmap_read-Ended f pages pgsz prev_head (some r) e no_raw no_stack =
    elim (Bool-cases (pages == 0)) [
      | inl t ↦ rw (t, perf_mmap_read) tt
      | inr t ↦ elim (Option-cases (wrap_of prev_head (pages * pgsz))) [
        | inl n ↦ rw (t, n, perf_mmap_read) tt
        | inr (wrap, s) ↦
            let size = pos_part (new_bytes r prev_head) in
            rw (t, s, perf_mmap_read)
              (returned-Ended _ _ _ (
                read_records-Ended (rotated wrap r.payload) f no_raw no_stack (fuel_for size) size
                  (record { event = e; at = 0 })
                  (omega (arith, div-add-mod size 8, mod-lt size {m = 8} (omega arith)))))
      ]
    ]
