-- ===== src/Guest/Examples.antt =====
-- The theorems on the KVM agent at small tables, frames and reports.
use kognizance_tool.Prelude.{
  ℕ, ◌+◌, ◌-◌, ◌<◌, ◌≤◌, ◌≡◌, ◌≢◌, inl, inr, refl, true, false, Option, none, some, List, [], ◌∷◌,
  map, take, drop, ◌==◌, leb, if◌then◌else◌, arith,
}
use kognizance_tool.Prelude.Int.{pos}
use kognizance_tool.Event.{store, kernel_heap, user_space}
use kognizance_tool.Decoder.{other_category, type_other, get_previous_instruction}
use kognizance_tool.Registers.{Registers}
use kognizance_tool.Platform.World.{exited}
use kognizance_tool.Platform.Ensures.{Returned, Ensures}
use kognizance_tool.Watch.Subscribe.{wp_thread_init-IsValid}
use kognizance_tool.Watch.Accepted.{granting}
use kognizance_tool.Watch.Cases.{counting, config}
use kognizance_tool.Witch.Logics.{redspy}
use kognizance_tool.Witch.Cases.{whole, flags, event_of, no_tables-IsRooted}
use kognizance_tool.Tool.Cases.{avoided, agent, sampler, sampling, thread, logic, sampler_found}
use kognizance_tool.Tool.Sound.{Sound, tool_handler}
use kognizance_tool.Guest.Memory.{Guest, get_value_at_address, host_copy}
use kognizance_tool.Guest.Reading.{ByteXed, in_buffer, at_start, guest_previous_instruction}
use kognizance_tool.Guest.Search.{guest_previous_instruction-native}
use kognizance_tool.Prelude.Int.{signed_key}
use kognizance_tool.Guest.Symbols.{Symbol, load_symbols, symbol_start}
use kognizance_tool.Guest.Floor.{key_of, IsSorted, IsFloorOf, symbol_start-IsFloorOf}
use kognizance_tool.Guest.Loaded.{symbol_start-load_symbols}
use kognizance_tool.Guest.Interface.{
  VmFrame, frame_of_vm, recorded, Considered, is_considered, Report, done_event_processing,
}
use kognizance_tool.Guest.Frames.{from_repeat, recorded-from_repeat}
use kognizance_tool.Guest.Reports.{done_event_processing-skipped}
use kognizance_tool.Guest.Sound.{done_event_processing-Sound}

abbrev no_registers : Registers
no_registers = record {
  reg_rax = 0;
  reg_rcx = 0;
  reg_rdx = 0;
  reg_rbx = 0;
  reg_rsp = 0;
  reg_rbp = 0;
  reg_rsi = 0;
  reg_rdi = 0;
  reg_r8 = 0;
  reg_r9 = 0;
  reg_r10 = 0;
  reg_r11 = 0;
  reg_r12 = 0;
  reg_r13 = 0;
  reg_r14 = 0;
  reg_r15 = 0;
  reg_rflags = 0;
  reg_rip = 0;
  cs_gs_fs = 0;
}

-- A guest whose code is three instructions, each of the length that its first byte says.
abbrev guest : Guest
guest = record {
  connected = true;
  physical_memory = λ addr len. (pos 0, 2 ∷ 0 ∷ 3 ∷ 0 ∷ 0 ∷ 1 ∷ []);
  registers = no_registers;
}

abbrev first_byte : List ℕ → Option ℕ
first_byte [] = none
first_byte (b ∷ bytes) = if b == 0 then none else some (b - 1)

-- Instructions are known by their lengths less one.
abbrev lengths : ByteXed ℕ
lengths = record {
  decode_bytes = first_byte;
  agen_by = λ callback i. some 64;
  queries = record {
    decode = λ a. none;
    get_length = λ i. i + 1;
    number_of_memory_operands = λ i. 1;
    mem_read = λ i. false;
    mem_written = λ i. true;
    memory_operand_length = λ i. 4;
    category = λ i. other_category;
    operands = λ i. [];
    element_type_at = λ i n. type_other;
    agen = λ i. some 64;
  };
}

lengths_grow : (i : ℕ) → 1 ≤ i + 1
lengths_grow i = omega arith

abbrev buffer : List ℕ
buffer =
    2 ∷ 0 ∷ 3 ∷ 0 ∷ 0 ∷ 1 ∷ 0 ∷ 0 ∷ 0 ∷ 0 ∷ 0 ∷ 0 ∷ 0 ∷ 0 ∷ 0 ∷ 0 ∷ 0 ∷ 0 ∷ 0 ∷ 0 ∷ 0 ∷ 0 ∷ 0 ∷ 0
    ∷ 0 ∷ 0 ∷ 0 ∷ 0 ∷ 0 ∷ 0 ∷ 0 ∷ 0 ∷ 0 ∷ 0 ∷ 0 ∷ 0 ∷ 0 ∷ 0 ∷ 0 ∷ 0 ∷ 0 ∷ []

copied : host_copy guest 4096 5 ≡ some buffer
unfolding host_copy get_value_at_address
copied = refl

differ : ◌≢◌ {A = ℕ} 4096 4101
differ e = absurd (omega (arith, e))

guest_previous_instruction-native_example :
    guest_previous_instruction lengths guest (some 4096) 4101
    ≡ at_start 4096 (get_previous_instruction (in_buffer lengths guest buffer) (some 0) 5 [])
guest_previous_instruction-native_example =
    guest_previous_instruction-native lengths guest lengths_grow 4096 4101 5 buffer differ
      (omega arith) refl copied

abbrev symbol : ℕ → Symbol
symbol start = record { start = start; section_end = 8192; name = [] }

in_order : IsSorted (symbol 4096 ∷ symbol 4160 ∷ symbol 4352 ∷ [])
unfolding signed_key
in_order = ((omega arith, (omega arith, tt)), ((omega arith, tt), (tt, tt)))

below : key_of (symbol 4096) < signed_key 4170
unfolding signed_key
below = omega arith

above : signed_key 4170 ≤ key_of (symbol 4352)
unfolding signed_key
above = omega arith

symbol_start-IsFloorOf_example :
    (e : Symbol) × IsFloorOf e 4170 (symbol 4096 ∷ symbol 4160 ∷ symbol 4352 ∷ [])
    × (symbol_start (symbol 4096 ∷ symbol 4160 ∷ symbol 4352 ∷ []) 4170
        ≡ (if leb (signed_key 4170) (signed_key e.section_end) then some e.start else none))
symbol_start-IsFloorOf_example =
    symbol_start-IsFloorOf (symbol 4096) (symbol 4352) 4170 (symbol 4160 ∷ symbol 4352 ∷ [])
      in_order below (inr (inl refl)) above

-- A file whose symbols are in no order.
abbrev file : List Symbol
file = symbol 4352 ∷ symbol 4096 ∷ symbol 4160 ∷ []

symbol_start-load_symbols_example :
    (e : Symbol) × IsFloorOf e 4170 file
    × (symbol_start (load_symbols file []) 4170
        ≡ (if leb (signed_key 4170) (signed_key e.section_end) then some e.start else none))
symbol_start-load_symbols_example =
    symbol_start-load_symbols (symbol 4096) (symbol 4352) 4170 file (inr (inl refl)) below
      (inl refl) above

abbrev vm_frame : ℕ → VmFrame
vm_frame addr = record { binary_addr = addr; method_name = []; src_lineno = 0 }

-- The frames of the signal, and a call from the handler's frame on.
abbrev frames : List VmFrame
frames =
    vm_frame 1 ∷ vm_frame 2 ∷ vm_frame 3 ∷ vm_frame 4 ∷ vm_frame 5 ∷ vm_frame 5 ∷ vm_frame 6 ∷ []

recorded-from_repeat_example :
    recorded frames 7 ≡ map frame_of_vm (from_repeat 0 (drop 3 (take 7 frames)))
recorded-from_repeat_example = recorded-from_repeat frames 7

abbrev report : Report
report = record {
  frames = frames;
  count = 7;
  ip = 4200;
  device_id = 9;
  thread_id = 1;
  data_addr = 64;
  address_type = kernel_heap;
  cpu = 0;
}

abbrev heap_only : Considered
heap_only = record { heap = true; stack = false }

done_event_processing-skipped_example :
    Ensures
      (λ (s' : ℕ). s' ≡ 5)
      (done_event_processing
        (granting 9)
        1
        (λ d e s w. exited w)
        heap_only
        (event_of 5 store 10)
        3
        (record report { address_type = user_space })
        5)
unfolding is_considered
done_event_processing-skipped_example =
    done_event_processing-skipped (granting 9) 1 (λ d e s w. exited w) heap_only
      (event_of 5 store 10) 3 (record report { address_type = user_space }) 5 (inr refl)

done_event_processing-Sound_example : Returned Sound (
    done_event_processing
      (granting 9)
      1
      (tool_handler (granting 9) false 1 counting whole whole flags avoided agent redspy config 20)
      heap_only
      (event_of 5 store 10)
      3
      report
      (thread, logic)
      sampling)
done_event_processing-Sound_example =
    done_event_processing-Sound (granting 9) false 1 counting whole whole flags avoided agent redspy
      config 20 heap_only (event_of 5 store 10) 3 report thread logic sampling sampler
      (wp_thread_init-IsValid counting config 1 7, no_tables-IsRooted) refl (omega arith)
      (omega arith) sampler_found
