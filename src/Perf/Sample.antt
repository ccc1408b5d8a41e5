-- ===== src/Perf/Sample.antt =====
-- The case PERF_RECORD_SAMPLE of perf_mmap_read, handle_struct_read_format and print_regs,
-- kvmTest/src/platform/device/perf_parser.cpp. The bits are those of linux/perf_event.h.
use kognizance_tool.Prelude.{
  ℕ, zero, suc, ◌+◌, ◌^◌, List, true, false, none, some, ltb, if◌then◌else◌,
}
use kognizance_tool.Prelude.Int.{ℤ, pos, ltz, pos_part, signed32, signed64}
use kognizance_tool.Perf.Words.{
  Step, ◌then◌, when, has_bit, skip, shift, read, store_word, pass, copy_signed, repeat,
}

-- The layout that the attributes of the event ask for.
pub record Format : Type 0 where
  pub sample_type : ℕ
  pub read_format : ℕ
  pub reg_mask : ℕ

-- print_regs reads nothing when quiet: 8 bytes for each of the 64 bits that is set.
unfoldable pub print_regs : ℕ → ℕ → ℕ
print_regs mask zero = 0
print_regs mask (suc i) = (if has_bit mask i then 8 else 0) + print_regs mask i

-- `for(k=0;k<dyn_size;k+=4)` of PERF_SAMPLE_STACK_USER, which prints nothing when quiet: k is an int,
-- and adding to it beyond 2^31 - 1 is a fault. The first argument is fuel.
unfoldable pub stack_loop : ℕ → ℕ → ℤ → Step
stack_loop zero k dyn_size c = none
stack_loop (suc fuel) k dyn_size c = elim (ltz (pos k) dyn_size) [
  | false ↦ some c
  | true ↦ elim (ltb (k + 4) (2 ^ 31)) [ false ↦ none | true ↦ stack_loop fuel (k + 4) dyn_size c ]
]

-- More rounds than an int has multiples of four.
abbrev pub stack_rounds : ℕ
stack_rounds = 2 ^ 29 + 1

module _ (bytes : List ℕ) where
  -- handle_struct_read_format: the bits are TOTAL_TIME_ENABLED, TOTAL_TIME_RUNNING, ID and GROUP. A
  -- negative count has no rounds.
  unfoldable pub handle_struct_read_format : ℕ → Step
  handle_struct_read_format format =
      let times =
        when (has_bit format 0) (pass bytes 8) then when (has_bit format 1) (pass bytes 8) in
      if has_bit format 3
      then read bytes 8 (λ nr.
        times
        then repeat (pos_part (signed64 nr))
            (pass bytes 8 then when (has_bit format 2) (pass bytes 8)))
      else (pass bytes 8 then times then when (has_bit format 2) (pass bytes 8))

  -- PERF_SAMPLE_TID: both numbers are read before the offset moves.
  unfoldable pub read_tid : Step
  read_tid =
      store_word bytes 4 (λ v e. record e { h_p_id = v })
      then store_word bytes 4 (λ v e. record e { h_t_id = v })

  unfoldable pub read_cpu : Step
  read_cpu = store_word bytes 4 (λ v e. record e { h_cpu = v }) then pass bytes 4

  unfoldable pub read_callchain : Step
  read_callchain = read bytes 8 λ nr. repeat (pos_part (signed64 nr)) (pass bytes 8)

  -- PERF_SAMPLE_RAW: the length is an int.
  unfoldable pub read_raw : Step
  read_raw = read bytes 4 λ size. shift (signed32 size)

  unfoldable pub read_branch_stack : Step
  read_branch_stack =
      read bytes 8
        λ bnr. repeat (pos_part (signed64 bnr)) (pass bytes 8 then pass bytes 8 then pass bytes 8)

  unfoldable pub read_regs : ℕ → Step
  read_regs mask = pass bytes 8 then skip (print_regs mask 64)

  unfoldable pub read_stack_user : Step
  read_stack_user = read bytes 8 λ size.
      copy_signed bytes (signed64 size)
      then read bytes 8 (λ dyn_size. stack_loop stack_rounds 0 (signed64 dyn_size))

  unfoldable pub parse_sample : Format → Step
  parse_sample f =
      let type = f.sample_type in
      when (has_bit type 0) (store_word bytes 8 λ v e. record e { h_ip_addr = v })
      then when (has_bit type 1) read_tid
      then when (has_bit type 2) (store_word bytes 8 λ v e. record e { event_time = v })
      then when (has_bit type 3) (store_word bytes 8 λ v e. record e { h_data_addr = v })
      then when (has_bit type 6) (pass bytes 8)
      then when (has_bit type 9) (pass bytes 8)
      then when (has_bit type 7) read_cpu
      then when (has_bit type 8) (pass bytes 8)
      then when (has_bit type 4) (handle_struct_read_format f.read_format)
      then when (has_bit type 5) read_callchain
      then when (has_bit type 10) read_raw
      then when (has_bit type 11) read_branch_stack
      then when (has_bit type 12) (read_regs f.reg_mask)
      then when (has_bit type 18) (read_regs f.reg_mask)
      then when (has_bit type 13) read_stack_user
      then when (has_bit type 14) (pass bytes 8)
      then when (has_bit type 15) (pass bytes 8)
      then when (has_bit type 16) (pass bytes 8)
      then when (has_bit type 17) (pass bytes 8)
