-- ===== src/Tool/SignalExamples.antt =====
-- A signal of the witch tool's device whose ring holds one sample.
use kognizance_tool.Prelude.{ℕ, ◌≡◌, refl, false, none, some, List, [], ◌++◌, arith}
use kognizance_tool.Prelude.Int.{pos}
use kognizance_tool.Event.{Event, store}
use kognizance_tool.Ring.{Ring, of_le}
use kognizance_tool.Perf.Words.{has_bit, word, read, store_word, pass, repeat, skip, shift}
use kognizance_tool.Perf.Sample.{parse_sample, read_tid, read_callchain, read_cpu}
use kognizance_tool.Perf.Records.{parse_record, parse_body, record_type}
use kognizance_tool.Perf.Encode.{le}
use kognizance_tool.Perf.Buffer.{
  parsed, num_mmap_pages, perf_mmap_read, wrap_of, read_records, rotated,
}
use kognizance_tool.Platform.Attributes.{
  Build, all_loads, zeroed, register_this_device, register_pebs,
}
use kognizance_tool.Platform.Ensures.{Returned}
use kognizance_tool.Watch.Subscribe.{wp_thread_init-IsValid}
use kognizance_tool.Watch.Accepted.{granting}
use kognizance_tool.Watch.Cases.{counting, config}
use kognizance_tool.Witch.Logics.{redspy}
use kognizance_tool.Witch.Cases.{whole, flags, event_of, no_tables-IsRooted}
use kognizance_tool.Native.Signal.{dev_signal_handler}
use kognizance_tool.Tool.Handlers.{new_pebs_device}
use kognizance_tool.Tool.Cases.{avoided, agent, sampler, sampling, thread, logic, sampler_found}
use kognizance_tool.Tool.Sound.{tool_handler}
use kognizance_tool.Tool.Signal.{LeftSound, dev_signal_handler-Sound}

-- One sample with the fields of PEBS_SAMPLE_TYPE: its header, IP, TID, ADDR, ID, CPU, and a call
-- chain without entries.
abbrev sample_bytes : List ℕ
sample_bytes =
    le 4 9
    ++ (le 2 0
        ++ (le 2 56
            ++ (le 8 18446744071579611000
                ++ (le 4 7
                    ++ (le 4 1 ++ (le 8 64 ++ (le 8 3 ++ (le 4 2 ++ (le 4 0 ++ le 8 0)))))))))

abbrev sample_ring : Ring
sample_ring = record { data_head = 56; data_tail = 0; payload = sample_bytes }

abbrev parsed_sample : Event
parsed_sample = record (event_of 5 store 10) {
  event_id = sampling.next_event;
  device_file_id = 9;
  h_ip_addr = 18446744071579611000;
  h_p_id = 7;
  h_t_id = 1;
  h_data_addr = 64;
  h_cpu = 2;
}

abbrev build : Build
build = record { attr_size = 112; pebs_sampling_period = none; sampled_loads = all_loads }

sample_read :
    perf_mmap_read
      (record {
        sample_type = (register_this_device build sampling.is_agent_kvm sampler zeroed).sample_type;
        read_format = 0;
        reg_mask = 0;
      })
      num_mmap_pages
      7
      (pos 0)
      (some sample_ring)
      (record (event_of 5 store 10) { event_id = sampling.next_event; device_file_id = 9 })
    ≡ parsed (pos 56, some (record sample_ring { data_tail = 56 }), parsed_sample)
unfolding perf_mmap_read wrap_of read_records parse_record word rotated le parse_body record_type
    of_le parse_sample has_bit register_this_device new_pebs_device register_pebs store_word read
    read_tid read_callchain read_cpu pass repeat skip shift
sample_read = refl

dev_signal_handler-Sound_example : Returned LeftSound (
    dev_signal_handler
      (tool_handler (granting 9) false 1 counting whole whole flags avoided agent redspy config 20)
      (λ ip. none)
      []
      build
      7
      (event_of 5 store 10)
      sampler
      (pos 0)
      (some sample_ring)
      (thread, logic)
      sampling)
dev_signal_handler-Sound_example =
    dev_signal_handler-Sound (granting 9) false 1 counting whole whole flags avoided agent redspy
      config 20 (λ ip. none) [] build 7 (event_of 5 store 10) parsed_sample sampler (pos 0) (pos 56)
      (some sample_ring) (some (record sample_ring { data_tail = 56 })) thread logic sampling
      (wp_thread_init-IsValid counting config 1 7, no_tables-IsRooted) sample_read
      (omega arith, omega arith) sampler_found
