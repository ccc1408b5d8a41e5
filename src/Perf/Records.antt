-- ===== src/Perf/Records.antt =====
-- One round of the loop of perf_mmap_read, kvmTest/src/platform/device/perf_parser.cpp: a record's
-- header and its body. The numbers of the types are those of linux/perf_event.h.
use kognizance_tool.Prelude.{ℕ, ◌+◌, none, some, List, [], ◌∷◌, ◌==◌, if◌then◌else◌}
use kognizance_tool.Prelude.Int.{sub_ℕ}
use kognizance_tool.Perf.Words.{Step, ◌then◌, word, copy_signed, passes}
use kognizance_tool.Perf.Sample.{Format, parse_sample}

pub data RecordType : Type 0 where
  mmap_record lost_record comm_record exit_record throttle_record fork_record sample_record
        mmap2_record aux_record itrace_start_record lost_samples_record switch_record
        switch_cpu_wide_record unknown_record :
      RecordType

-- THROTTLE and UNTHROTTLE have one case, and PERF_RECORD_READ, 8, falls to the default.
unfoldable pub record_type : ℕ → RecordType
record_type n =
    if n == 1
    then mmap_record
    else if n == 2
    then lost_record
    else if n == 3
    then comm_record
    else if n == 4
    then exit_record
    else if n == 5
    then throttle_record
    else if n == 6
    then throttle_record
    else if n == 7
    then fork_record
    else if n == 9
    then sample_record
    else if n == 10
    then mmap2_record
    else if n == 11
    then aux_record
    else if n == 12
    then itrace_start_record
    else if n == 13
    then lost_samples_record
    else if n == 14
    then switch_record
    else if n == 15
    then switch_cpu_wide_record
    else unknown_record

module _ (bytes : List ℕ) where
  -- The name behind the first `fixed` bytes of a record of `event->size` bytes.
  unfoldable pub copy_name : ℕ → ℕ → Step
  copy_name start fixed c = elim (word bytes 2 (start + 6)) [
    | none ↦ none
    | some size ↦ copy_signed bytes (sub_ℕ size fixed) c
  ]

  -- The switch over the type, for the record at `start`.
  unfoldable pub parse_body : Format → ℕ → RecordType → Step
  parse_body f start lost_record = passes bytes (8 ∷ 8 ∷ [])
  parse_body f start comm_record = passes bytes (4 ∷ 4 ∷ []) then copy_name start 16
  parse_body f start fork_record = passes bytes (4 ∷ 4 ∷ 4 ∷ 4 ∷ 8 ∷ [])
  parse_body f start mmap_record = passes bytes (4 ∷ 4 ∷ 8 ∷ 8 ∷ 8 ∷ []) then copy_name start 40
  parse_body f start mmap2_record =
      passes bytes (4 ∷ 4 ∷ 8 ∷ 8 ∷ 8 ∷ 4 ∷ 4 ∷ 8 ∷ 8 ∷ 4 ∷ 4 ∷ []) then copy_name start 72
  parse_body f start exit_record = passes bytes (4 ∷ 4 ∷ 4 ∷ 4 ∷ 8 ∷ [])
  parse_body f start throttle_record = passes bytes (8 ∷ 8 ∷ 8 ∷ [])
  parse_body f start sample_record = parse_sample bytes f
  parse_body f start aux_record = passes bytes (8 ∷ 8 ∷ 8 ∷ 8 ∷ [])
  parse_body f start itrace_start_record = passes bytes (4 ∷ 4 ∷ [])
  parse_body f start lost_samples_record = passes bytes (8 ∷ 8 ∷ [])
  parse_body f start switch_record = passes bytes (8 ∷ [])
  parse_body f start switch_cpu_wide_record = passes bytes (4 ∷ 4 ∷ 8 ∷ [])
  parse_body f start unknown_record = some

  unfoldable pub parse_record : Format → Step
  parse_record f c = elim (word bytes 4 c.at) [
    | none ↦ none
    | some type ↦ parse_body f c.at (record_type type) (record c { at = c.at + 8 })
  ]
