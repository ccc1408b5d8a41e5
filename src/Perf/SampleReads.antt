-- ===== src/Perf/SampleReads.antt =====
-- The parser of samples, kvmTest/src/platform/device/perf_parser.cpp, on an encoded sample.
use kognizance_tool.Prelude.{
  ℕ, ◌%◌, ◌^◌, ◌<◌, refl, sym, subst, Bool, List, ◌++◌, length, arith, Bool-cases, inl, inr,
  if◌then◌else◌,
}
use mathlib.Core.List.{append-nil}
use kognizance_tool.Prelude.Int.{ℤ, pos_part}
use kognizance_tool.Event.{Event}
use kognizance_tool.Perf.Words.{Step, ◌then◌, when, has_bit, pass, repeat}
use kognizance_tool.Perf.Sample.{
  Format, handle_struct_read_format, read_tid, read_cpu, read_callchain, read_branch_stack,
  read_regs, parse_sample,
}
use kognizance_tool.Perf.Encode.{
  le, joined, SampleValues, IsSample, encode_times, encode_counter, encode_branch, encode_read,
  encode_sample, kept,
}
use kognizance_tool.Perf.Steps.{Reads, read-Reads, pass-Reads, along}
use kognizance_tool.Perf.StackReads.{read_stack_user-Reading}
use kognizance_tool.Perf.Readings.{
  Reading, ◌▹◌, small64, pass8-Reading, when-Reading, keeps, without, store_word-Reading,
  times-Reading, repeat-Reading, counted-Reading, read_raw-Reading, read_regs-Reading,
}

module _ (bytes : List ℕ) where
  counter-Reading :
      (format : ℕ) (c : ℕ × ℕ)
      → Reading bytes
          (pass bytes 8 then when (has_bit format 2) (pass bytes 8))
          (encode_counter format c)
          (λ e. e)
  counter-Reading format (value, id) =
      pass8-Reading bytes value ▹ when-Reading bytes (has_bit format 2) _ _ (pass8-Reading bytes id)

  branch-Reading :
      (b : ℕ × ℕ × ℕ)
      → Reading bytes (pass bytes 8 then pass bytes 8 then pass bytes 8) (encode_branch b) (λ e. e)
  branch-Reading (from, to, flags) =
      pass8-Reading bytes from ▹ pass8-Reading bytes to ▹ pass8-Reading bytes flags

  handle_struct_read_format-Reading :
      (format : ℕ) (s : SampleValues)
      → length s.group < 2 ^ 63
      → Reading bytes (handle_struct_read_format bytes format) (encode_read format s) (λ e. e)
  unfolding handle_struct_read_format
  handle_struct_read_format-Reading format s h =
      let entries : ℤ → Step = λ m.
        when (has_bit format 0) (pass bytes 8)
        then when (has_bit format 1) (pass bytes 8)
        then repeat (pos_part m) (pass bytes 8 then when (has_bit format 2) (pass bytes 8)) in
      elim (Bool-cases (has_bit format 3)) [
        | inl t ↦
            rw (t, handle_struct_read_format)
              (record {
                run = read-Reads bytes 8 (length s.group) _ _ _ (omega arith) (
                    subst
                      (λ m.
                        Reads bytes (entries m)
                          (encode_times format s ++ joined (encode_counter format) s.group)
                          (λ e. e))
                      (sym (small64 (length s.group) h))
                      (times-Reading bytes format s
                        ▹ repeat-Reading bytes _ (encode_counter format) s.group
                            (counter-Reading format)).run);
              })
        | inr f ↦
            rw (f, handle_struct_read_format)
              (pass8-Reading bytes s.counter.0
                ▹ times-Reading bytes format s
                ▹ when-Reading bytes (has_bit format 2) _ _ (pass8-Reading bytes s.counter.1))
      ]

  read_tid-Reading :
      (s : SampleValues)
      → Reading bytes
          (read_tid bytes)
          (le 4 s.pid ++ le 4 s.tid)
          (λ e. record e { h_p_id = s.pid % 2 ^ 32; h_t_id = s.tid % 2 ^ 32 })
  unfolding read_tid
  read_tid-Reading s =
      store_word-Reading bytes 4 s.pid _ (omega arith)
      ▹ store_word-Reading bytes 4 s.tid _ (omega arith)

  read_cpu-Reading :
      (s : SampleValues)
      → Reading bytes
          (read_cpu bytes)
          (le 4 s.cpu ++ le 4 s.reserved)
          (λ e. record e { h_cpu = s.cpu % 2 ^ 32 })
  unfolding read_cpu
  read_cpu-Reading s =
      store_word-Reading bytes 4 s.cpu _ (omega arith)
      ▹ record { run = pass-Reads bytes 4 s.reserved (omega arith) }

  -- Where the kernel puts the fields and where the parser reads them is the same without bytes an
  -- identifier and registers at an interrupt.
  pub sample-Reads :
      (f : Format) (s : SampleValues)
      → IsSample f s
      → Reading bytes (parse_sample bytes f) (encode_sample f s) (kept f s)
  unfolding parse_sample read_callchain read_branch_stack
  sample-Reads f s
        (group, callchain, raw_size, branches, user, stack_size, filled, counted, no_id, no_intr) =
      let type = f.sample_type in
      let ip = λ (b : Bool) (e : Event). record e {
        h_ip_addr = if b then s.ip % 2 ^ 64 else e.h_ip_addr;
      } in
      let ids = λ (b : Bool) (e : Event). record e {
        h_p_id = if b then s.pid % 2 ^ 32 else e.h_p_id;
        h_t_id = if b then s.tid % 2 ^ 32 else e.h_t_id;
      } in
      let time = λ (b : Bool) (e : Event). record e {
        event_time = if b then s.time % 2 ^ 64 else e.event_time;
      } in
      let addr = λ (b : Bool) (e : Event). record e {
        h_data_addr = if b then s.addr % 2 ^ 64 else e.h_data_addr;
      } in
      let on_cpu =
        λ (b : Bool) (e : Event). record e { h_cpu = if b then s.cpu % 2 ^ 32 else e.h_cpu } in
      let head =
        keeps bytes (has_bit type 0) _ _ ip (λ e. refl)
          (store_word-Reading bytes 8 s.ip (λ v e. record e { h_ip_addr = v }) (omega arith))
        ▹ keeps bytes (has_bit type 1) _ _ ids (λ e. refl) (read_tid-Reading s)
        ▹ keeps bytes (has_bit type 2) _ _ time (λ e. refl)
            (store_word-Reading bytes 8 s.time (λ v e. record e { event_time = v }) (omega arith))
        ▹ keeps bytes (has_bit type 3) _ _ addr (λ e. refl)
            (store_word-Reading bytes 8 s.addr (λ v e. record e { h_data_addr = v }) (omega arith))
        ▹ when-Reading bytes (has_bit type 6) _ _ (pass8-Reading bytes s.id)
        ▹ when-Reading bytes (has_bit type 9) _ _ (pass8-Reading bytes s.stream_id)
        ▹ keeps bytes (has_bit type 7) _ _ on_cpu (λ e. refl) (read_cpu-Reading s)
        ▹ when-Reading bytes (has_bit type 8) _ _ (pass8-Reading bytes s.period)
        ▹ when-Reading bytes (has_bit type 4) _ _
            (handle_struct_read_format-Reading f.read_format s group)
        ▹ when-Reading bytes (has_bit type 5) _ _ (
            counted-Reading bytes (pass bytes 8) (le 8) s.callchain callchain (pass8-Reading bytes))
        ▹ when-Reading bytes (has_bit type 10) _ _ (read_raw-Reading bytes s raw_size)
        ▹ when-Reading bytes (has_bit type 11) _ _
            (counted-Reading bytes _ encode_branch s.branches branches branch-Reading)
        ▹ when-Reading bytes (has_bit type 12) _ _
            (read_regs-Reading bytes f.reg_mask s.user_abi s.user_regs user) in
      let middle =
        without bytes (has_bit type 18) (read_regs bytes f.reg_mask) no_intr head
        ▹ when-Reading bytes (has_bit type 13) _ _
            (read_stack_user-Reading bytes s stack_size filled counted)
        ▹ when-Reading bytes (has_bit type 14) _ _ (pass8-Reading bytes s.weight)
        ▹ when-Reading bytes (has_bit type 15) _ _ (pass8-Reading bytes s.data_src) in
      let all =
        without bytes (has_bit type 16) (pass bytes 8) no_id middle
        ▹ when-Reading bytes (has_bit type 17) _ _ (pass8-Reading bytes s.transaction) in
      record {
        run =
            along bytes (parse_sample bytes f) _ (encode_sample f s) (kept f s) all.run
              (rw (no_id, no_intr, encode_sample) (sym (append-nil _)));
      }
