-- ===== src/Tool/Fix.antt =====
-- MyTool::fixIP of kvmTest/src/tools/witchTool/mytool.cpp and GetPatchedIP of
-- kvmTest/src/tools/witchTool/watchpoint-lib/src/watchpoint.cpp. An event that could not be fixed is
-- dropped by every caller, so what a failing decoder leaves in it is left out.
use kognizance_tool.Prelude.{
  ℕ, ◌-◌, ◌^◌, ◌%◌, Bool, true, false, Option, none, some, List, [], ◌∷◌, ◌==◌, not, get_or,
  if◌then◌else◌,
}
use kognizance_tool.Event.{Event, Frame}
use kognizance_tool.Decoder.{Access}
use kognizance_tool.AgentApi.{Agent}
use kognizance_tool.Platform.World.{DeviceKind, ebs, pebs, bp, Device, M, ◌>>=◌, pure, exit}
use kognizance_tool.Platform.Devices.{get_device}
use kognizance_tool.Watch.Address.{is_pc_sane}
use kognizance_tool.Watch.Slots.{RegisterInfo}
use kognizance_tool.Witch.Stores.{is_unknown}

-- The exclude list: the addresses of the active watchpoints.
unfoldable pub active_addresses : List RegisterInfo → List ℕ
active_addresses [] = []
active_addresses (w ∷ ws) =
    let rest = active_addresses ws in if w.is_active then w.va ∷ rest else rest

abbrev pub get_patched_ip : Agent → List RegisterInfo → ℕ → ℕ
get_patched_ip agent slots context_ip =
    agent.previous_instruction context_ip (active_addresses slots)

-- HW_BREAKPOINT_X
abbrev pub hw_breakpoint_x : ℕ
hw_breakpoint_x = 4

-- The program counter that an event of a device gets. The cast of another device to BPDevice is
-- null and its type is read, which ends the process here.
unfoldable pub patched_ip : Agent → List RegisterInfo → Device → ℕ → M ℕ
patched_ip agent slots d context_ip = elim d.kind [
  | pebs ↦ pure context_ip
  | bp ↦
      pure
        (if d.bp_type == hw_breakpoint_x then context_ip else get_patched_ip agent slots context_ip)
  | ebs ↦ exit
]

-- The decoder's answer, stored in the event.
abbrev pub with_access : Access → Event → Event
with_access a e = record e {
  access_length = a.length;
  access_type = a.kind;
  float_type = a.float_type;
}

-- What fixIP passes by pointer; the address starts as -1.
abbrev pub known_access : Event → Access
known_access e = record {
  length = e.access_length;
  kind = e.access_type;
  float_type = e.float_type;
  address = none;
}

-- The data address of an event of a breakpoint, as two fields.
abbrev pub with_data_addr : Option ℕ → Event → Event
with_data_addr none e = record e { h_data_addr = 2 ^ 64 - 1; data_addr = 2 ^ 64 - 1 }
with_data_addr (some a) e = record e { h_data_addr = a; data_addr = a }

-- The access's length, types and address; `none` is the return of false. A breakpoint's event whose
-- access type is known gets the address -1.
unfoldable pub resolve_access : Agent → DeviceKind → Event → Option Event
resolve_access agent bp e =
    if is_unknown e.access_type
    then (elim (agent.mem_access true e.h_ip_addr (known_access e)) [
      | none ↦ none
      | some a ↦ some (with_data_addr a.address (with_access a e))
    ])
    else some (with_data_addr none e)
resolve_access agent _ e =
    if is_unknown e.access_type
    then (elim (agent.mem_access false e.h_ip_addr (known_access e)) [
      | none ↦ none
      | some a ↦ some (with_access a e)
    ])
    else some e

-- The front frame takes the fixed program counter.
abbrev pub with_front : ℕ → List Frame → List Frame
with_front ip [] = []
with_front ip (f ∷ fs) = record f { binary_addr = ip } ∷ fs

-- The value at the data address and the low byte of the instruction. The front frame changes in the
-- agent's context; the native agent's host context, which holds the same frames, is not read again.
unfoldable pub read_values : Agent → Event → Option Event
read_values agent e = elim (agent.value_at e.data_addr e.access_length) [
  | none ↦ none
  | some value ↦ elim (agent.value_at e.fixed_ip 4) [
    | none ↦ none
    | some code ↦ some (record e {
      value_at_event = value;
      inst = get_or code 0 0 % 256;
      context_agent = with_front e.h_ip_addr e.context_agent;
    })
  ]
]

-- The steps of fixIP behind the patched program counter.
unfoldable pub fix_at : Agent → Device → ℕ → Event → Option Event
fix_at agent d ip e =
    if not (is_pc_sane e.h_ip_addr ip)
    then none
    else elim (resolve_access agent d.kind (record e { fixed_ip = ip; h_ip_addr = ip })) [
      | none ↦ none
      | some resolved ↦ read_values agent resolved
    ]

abbrev pub fixed_or : Event → Option Event → Bool × Event
fixed_or e none = (false, e)
fixed_or e (some fixed) = (true, fixed)

-- From the device that the event names on.
unfoldable pub fix_from : Agent → List RegisterInfo → Event → Option Device → M (Bool × Event)
fix_from agent slots e none = pure (false, e)
fix_from agent slots e (some d) = do
  ip ← patched_ip agent slots d e.h_ip_addr
  pure (fixed_or e (fix_at agent d ip e))

-- fixIP: whether it returns true, and the event.
unfoldable pub fix_ip : Agent → List RegisterInfo → Event → M (Bool × Event)
fix_ip agent slots e = do found ← get_device e.h_t_id e.device_file_id; fix_from agent slots e found
