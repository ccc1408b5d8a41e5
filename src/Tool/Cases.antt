-- ===== src/Tool/Cases.antt =====
-- A session of the witch tool under RedSpy: its agent, device, platform, thread and logic.
use kognizance_tool.Prelude.{ℕ, ◌≡◌, refl, true, false, some, [], ◌∷◌}
use kognizance_tool.Prelude.Map.{lookup, pair_key}
use kognizance_tool.Event.{Event, store}
use kognizance_tool.AgentApi.{Agent}
use kognizance_tool.Platform.World.{Device, World}
use kognizance_tool.Watch.Slots.{ThreadData}
use kognizance_tool.Watch.Thread.{wp_thread_init}
use kognizance_tool.Watch.Cases.{counting, config, start}
use kognizance_tool.Witch.Totals.{Logic}
use kognizance_tool.Witch.Cases.{event_of, no_tables, no_counts}
use kognizance_tool.Tool.Handlers.{Avoided, new_pebs_device}

abbrev pub avoided : Avoided
avoided = record { push = true; callq = true; lock = true }

-- An agent for which every instruction stores four bytes, and every byte is 7.
abbrev pub agent : Agent
agent = record {
  mem_access = λ wants ip old.
      some (record { length = 4; kind = store; float_type = old.float_type; address = some 64 });
  previous_instruction = λ ip excludes. ip;
  value_at = λ a n. some (7 ∷ 7 ∷ 7 ∷ 7 ∷ []);
}

abbrev pub sampler : Device
sampler = record (new_pebs_device store) { file_id = 9; session_id = 1; mapped = true }

abbrev pub sampling : World
sampling = record start { devices = ((1, 9), sampler) ∷ [] }

abbrev pub thread : ThreadData ℕ
thread = wp_thread_init counting config 1 7

abbrev pub logic : Logic ℕ
logic = record { tables = no_tables; total = no_counts; per_thread = no_counts }

-- A store of the kernel.
abbrev pub sample : Event
sample = record (event_of 5 store 10) { h_ip_addr = 18446744071579611000; is_fixed = false }

pub sampler_found : lookup (1, 9) sampling.devices ≡ some sampler
unfolding lookup new_pebs_device
sampler_found = refl
