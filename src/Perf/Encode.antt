-- ===== src/Perf/Encode.antt =====
-- The layout of perf records as the kernel documents it for linux/perf_event.h, for events whose
-- sample_id_all is 0, as those of the devices are: no record has a trailing sample_id. Which records
-- the parser of kvmTest/src/platform/device/perf_parser.cpp reads in that layout, and the values
-- that it is to keep of them. Numbers are least significant byte first.
use kognizance_tool.Prelude.{
  ℕ, zero, suc, ◌+◌, ◌-◌, ◌≤◌, ◌/◌, ◌%◌, ◌^◌, ◌≡◌, ◌<◌, Bool, true, false, List, [], ◌∷◌, ◌++◌,
  length, ◌==◌, not, if◌then◌else◌,
}
use kognizance_tool.Event.{Event}
use kognizance_tool.Perf.Words.{has_bit}
use kognizance_tool.Perf.Sample.{Format, print_regs}
use kognizance_tool.Perf.Records.{
  RecordType, mmap_record, lost_record, comm_record, exit_record, throttle_record, fork_record,
  sample_record, mmap2_record, aux_record, itrace_start_record, lost_samples_record, switch_record,
  switch_cpu_wide_record, unknown_record, record_type,
}

-- The n low bytes of a number.
unfoldable pub le : ℕ → ℕ → List ℕ
le zero v = []
le (suc n) v = v % 256 ∷ le n (v / 256)

abbrev pub given : Bool → List ℕ → List ℕ
given true xs = xs
given false xs = []

abbrev pub joined : {A : Type 0} → (A → List ℕ) → List A → List ℕ
joined enc [] = []
joined enc (x ∷ xs) = enc x ++ joined enc xs

-- A counter with its id.
abbrev pub Counter : Type 0
Counter = ℕ × ℕ

pub record SampleValues : Type 0 where
  pub ip : ℕ
  pub pid : ℕ
  pub tid : ℕ
  pub time : ℕ
  pub addr : ℕ
  pub id : ℕ
  pub stream_id : ℕ
  pub cpu : ℕ
  pub reserved : ℕ
  pub period : ℕ
  pub enabled : ℕ
  pub running : ℕ
  pub counter : Counter
  pub group : List Counter
  pub callchain : List ℕ
  pub raw : List ℕ
  pub branches : List (ℕ × ℕ × ℕ)
  pub user_abi : ℕ
  pub user_regs : List ℕ
  pub intr_abi : ℕ
  pub intr_regs : List ℕ
  pub stack : List ℕ
  pub dyn_size : ℕ
  pub weight : ℕ
  pub data_src : ℕ
  pub identifier : ℕ
  pub transaction : ℕ

-- The counts fit their fields, the registers are those of the mask, the stack is not empty, and an
-- int can count to its used size by fours. The
-- parser reads an identifier and the registers at an interrupt at other places than the kernel puts
-- them, so the type asks for neither.
abbrev pub IsSample : Format → SampleValues → Type 0
IsSample f s =
    (length s.group < 2 ^ 63)
    × (length s.callchain < 2 ^ 63)
    × (length s.raw < 2 ^ 31)
    × (length s.branches < 2 ^ 63)
    × (length s.user_regs ≡ print_regs f.reg_mask 64)
    × (length s.stack < 2 ^ 63)
    × (0 < length s.stack)
    × (s.dyn_size ≤ 2 ^ 31 - 4)
    × (has_bit f.sample_type 16 ≡ false)
    × (has_bit f.sample_type 18 ≡ false)

abbrev pub encode_times : ℕ → SampleValues → List ℕ
encode_times format s =
    given (has_bit format 0) (le 8 s.enabled) ++ given (has_bit format 1) (le 8 s.running)

abbrev pub encode_counter : ℕ → Counter → List ℕ
encode_counter format (value, id) = le 8 value ++ given (has_bit format 2) (le 8 id)

abbrev pub encode_branch : ℕ × ℕ × ℕ → List ℕ
encode_branch (from, to, flags) = le 8 from ++ le 8 to ++ le 8 flags

-- One counter, or a group of them.
abbrev pub encode_read : ℕ → SampleValues → List ℕ
encode_read format s =
    if has_bit format 3
    then le 8 (length s.group) ++ (encode_times format s ++ joined (encode_counter format) s.group)
    else le 8 s.counter.0 ++ encode_times format s ++ given (has_bit format 2) (le 8 s.counter.1)

-- The used size stands only behind a stack.
abbrev pub encode_stack : SampleValues → List ℕ
encode_stack s =
    le 8 (length s.stack) ++ (s.stack ++ given (not (length s.stack == 0)) (le 8 s.dyn_size))

abbrev pub encode_sample : Format → SampleValues → List ℕ
encode_sample f s =
    let type = f.sample_type in
    given (has_bit type 16) (le 8 s.identifier)
    ++ given (has_bit type 0) (le 8 s.ip)
    ++ given (has_bit type 1) (le 4 s.pid ++ le 4 s.tid)
    ++ given (has_bit type 2) (le 8 s.time)
    ++ given (has_bit type 3) (le 8 s.addr)
    ++ given (has_bit type 6) (le 8 s.id)
    ++ given (has_bit type 9) (le 8 s.stream_id)
    ++ given (has_bit type 7) (le 4 s.cpu ++ le 4 s.reserved)
    ++ given (has_bit type 8) (le 8 s.period)
    ++ given (has_bit type 4) (encode_read f.read_format s)
    ++ given (has_bit type 5) (le 8 (length s.callchain) ++ joined (le 8) s.callchain)
    ++ given (has_bit type 10) (le 4 (length s.raw) ++ s.raw)
    ++ given (has_bit type 11) (le 8 (length s.branches) ++ joined encode_branch s.branches)
    ++ given (has_bit type 12) (le 8 s.user_abi ++ s.user_regs)
    ++ given (has_bit type 13) (encode_stack s)
    ++ given (has_bit type 14) (le 8 s.weight)
    ++ given (has_bit type 15) (le 8 s.data_src)
    ++ given (has_bit type 17) (le 8 s.transaction)
    ++ given (has_bit type 18) (le 8 s.intr_abi ++ s.intr_regs)

-- What a sample leaves in the event: the fields that its type has.
abbrev pub kept : Format → SampleValues → Event → Event
kept f s e =
    let type = f.sample_type in
    record e {
      h_ip_addr = if has_bit type 0 then s.ip % 2 ^ 64 else e.h_ip_addr;
      h_p_id = if has_bit type 1 then s.pid % 2 ^ 32 else e.h_p_id;
      h_t_id = if has_bit type 1 then s.tid % 2 ^ 32 else e.h_t_id;
      event_time = if has_bit type 2 then s.time % 2 ^ 64 else e.event_time;
      h_data_addr = if has_bit type 3 then s.addr % 2 ^ 64 else e.h_data_addr;
      h_cpu = if has_bit type 7 then s.cpu % 2 ^ 32 else e.h_cpu;
    }

-- The widths of the fixed fields of the other records, and whether a name follows them.
abbrev pub layout : RecordType → List ℕ × Bool
layout lost_record = (8 ∷ 8 ∷ [], false)
layout comm_record = (4 ∷ 4 ∷ [], true)
layout fork_record = (4 ∷ 4 ∷ 4 ∷ 4 ∷ 8 ∷ [], false)
layout exit_record = (4 ∷ 4 ∷ 4 ∷ 4 ∷ 8 ∷ [], false)
layout mmap_record = (4 ∷ 4 ∷ 8 ∷ 8 ∷ 8 ∷ [], true)
layout mmap2_record = (4 ∷ 4 ∷ 8 ∷ 8 ∷ 8 ∷ 4 ∷ 4 ∷ 8 ∷ 8 ∷ 4 ∷ 4 ∷ [], true)
layout throttle_record = (8 ∷ 8 ∷ 8 ∷ [], false)
layout aux_record = (8 ∷ 8 ∷ 8 ∷ [], false)
layout itrace_start_record = (4 ∷ 4 ∷ [], false)
layout lost_samples_record = (8 ∷ [], false)
layout switch_record = ([], false)
layout switch_cpu_wide_record = (4 ∷ 4 ∷ [], false)
layout _ = ([], false)

-- The fields at their widths; missing values are 0.
abbrev pub encode_fields : List ℕ → List ℕ → List ℕ
encode_fields [] vs = []
encode_fields (n ∷ ns) [] = le n 0 ++ encode_fields ns []
encode_fields (n ∷ ns) (v ∷ vs) = le n v ++ encode_fields ns vs

pub data PerfRecord : Type 0 where
  sample_of : ℕ → SampleValues → PerfRecord
  plain : ℕ → ℕ → List ℕ → List ℕ → PerfRecord

abbrev pub body_of : Format → PerfRecord → List ℕ
body_of f (sample_of misc s) = encode_sample f s
body_of f (plain type misc values name) =
    let shape = layout (record_type type) in encode_fields shape.0 values ++ given shape.1 name

abbrev pub type_of : PerfRecord → ℕ
type_of (sample_of misc s) = 9
type_of (plain type misc values name) = type

abbrev pub misc_of : PerfRecord → ℕ
misc_of (sample_of misc s) = misc
misc_of (plain type misc values name) = misc

-- The header and the body; the size is that of both.
abbrev pub encode : Format → PerfRecord → List ℕ
encode f r = le 4 (type_of r) ++ le 2 (misc_of r) ++ le 2 (8 + length (body_of f r)) ++ body_of f r

-- What a record leaves in the event.
abbrev pub kept_of : Format → PerfRecord → Event → Event
kept_of f (sample_of misc s) e = kept f s e
kept_of f (plain type misc values name) e = e

-- The plain records that the parser reads in the kernel's layout, whose names are not empty. Of AUX,
-- LOST_SAMPLES and the two of SWITCH it reads eight bytes more than the kernel writes, and of an
-- unknown type nothing.
abbrev pub IsReadable : RecordType → List ℕ → Type 0
IsReadable sample_record name = ⊥
IsReadable unknown_record name = ⊥
IsReadable aux_record name = ⊥
IsReadable lost_samples_record name = ⊥
IsReadable switch_record name = ⊥
IsReadable switch_cpu_wide_record name = ⊥
IsReadable comm_record name = 0 < length name
IsReadable mmap_record name = 0 < length name
IsReadable mmap2_record name = 0 < length name
IsReadable _ name = Unit

-- The record's size and type fit their fields, and its parts are those of its type.
abbrev pub IsRecord : Format → PerfRecord → Type 0
IsRecord f (sample_of misc s) = (8 + length (encode_sample f s) < 2 ^ 16) × IsSample f s
IsRecord f (plain type misc values name) =
    (8 + length (body_of f (plain type misc values name)) < 2 ^ 16)
    × (type < 2 ^ 32)
    × IsReadable (record_type type) name

abbrev pub AreRecords : Format → List PerfRecord → Type 0
AreRecords f [] = Unit
AreRecords f (r ∷ rs) = IsRecord f r × AreRecords f rs

abbrev pub kept_of_all : Format → List PerfRecord → Event → Event
kept_of_all f [] e = e
kept_of_all f (r ∷ rs) e = kept_of_all f rs (kept_of f r e)
