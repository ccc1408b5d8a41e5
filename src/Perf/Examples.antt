-- ===== src/Perf/Examples.antt =====
-- The parser on a ring with a sample and a lost record, around the ring's end.
use kognizance_tool.Prelude.{refl, false, some, List, [], ◌∷◌, ◌++◌, take, drop}
use kognizance_tool.Prelude.Int.{pos}
use kognizance_tool.Event.{Event, unknown, elem_unknown, unknown_space}
use kognizance_tool.Ring.{Ring}
use kognizance_tool.Perf.Words.{has_bit}
use kognizance_tool.Perf.Sample.{Format}
use kognizance_tool.Perf.Buffer.{perf_mmap_read}
use kognizance_tool.Perf.Encode.{joined, SampleValues, PerfRecord, sample_of, plain, encode}
use kognizance_tool.Perf.Ends.{Ended, perf_mmap_read-Ended}

-- IP, TID and ADDR.
abbrev format : Format
format = record { sample_type = 11; read_format = 0; reg_mask = 0 }

abbrev values : SampleValues
values = record {
  ip = 4198400;
  pid = 70;
  tid = 71;
  time = 0;
  addr = 1048576;
  id = 0;
  stream_id = 0;
  cpu = 0;
  reserved = 0;
  period = 0;
  enabled = 0;
  running = 0;
  counter = (0, 0);
  group = [];
  callchain = [];
  raw = [];
  branches = [];
  user_abi = 0;
  user_regs = [];
  intr_abi = 0;
  intr_regs = [];
  stack = 0 ∷ [];
  dyn_size = 0;
  weight = 0;
  data_src = 0;
  identifier = 0;
  transaction = 0;
}

-- A sample of 32 bytes, and 24 bytes that tell of 5 lost records.
abbrev records : List PerfRecord
records = sample_of 2 values ∷ plain 2 0 (1 ∷ 5 ∷ []) [] ∷ []

abbrev ring : Ring
ring = record {
  data_head = 64;
  data_tail = 8;
  payload = drop 48 (joined (encode format) records) ++ take 48 (joined (encode format) records);
}

abbrev event : Event
event = record {
  event_id = 1;
  device_file_id = 3;
  context_host = [];
  context_agent = [];
  t_id = 0;
  h_t_id = 0;
  p_id = 0;
  h_p_id = 0;
  ip_addr = 0;
  data_addr = 0;
  cpu = 0;
  h_ip_addr = 0;
  h_data_addr = 0;
  h_cpu = 0;
  value_at_event = [];
  inst = 0;
  event_time = 0;
  access_type = unknown;
  access_length = 0;
  float_type = elem_unknown;
  address_space = unknown_space;
  fix_skid = false;
  is_fixed = false;
  fixed_ip = 0;
  sample_index = 0;
}

perf_mmap_read-Ended_example : Ended (perf_mmap_read format 1 56 (pos 8) (some ring) event)
unfolding has_bit
perf_mmap_read-Ended_example = perf_mmap_read-Ended format 1 56 (pos 8) (some ring) event refl refl
