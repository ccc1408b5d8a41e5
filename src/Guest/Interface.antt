-- ===== src/Guest/Interface.antt =====
-- The calls of the hypervisor and of the guest's driver: kvmTest/src/agent/kvmAgent/kvminterface.cpp
-- and processEvent of myagent.cpp. What Event() leaves uninitialised is in the argument `fresh`, and
-- clock() is an argument. Printing is left out.
use kognizance_tool.Prelude.{
  ℕ, ◌+◌, Bool, true, false, none, some, List, [], ◌∷◌, ◌==◌, take, drop, ◌||◌, ◌&&◌, if◌then◌else◌,
}
use kognizance_tool.Event.{
  Event, Frame, AddressSpace, kernel_heap, kernel_task_stack, kernel_irq_stack, kernel_nmi_stack,
  kernel_exception_stack, user_space, unknown_space,
}
use kognizance_tool.Platform.World.{
  Device, event_state, Host, M, ◌>>=◌, ◌>>◌, pure, get_world, put_world, call,
}
use kognizance_tool.Platform.Devices.{
  pause_all_devices, resume_all_devices, pause_devices_by_session, resume_devices_by_session,
}
use kognizance_tool.Platform.Sessions.{
  get_session_key, get_session_key_from_thread_id, generate_event_key, add_new_event,
}
use kognizance_tool.Platform.Dispatch.{done_process_event}

-- VMContextFrame
pub record VmFrame : Type 0 where
  pub binary_addr : ℕ
  pub method_name : List ℕ
  pub src_lineno : ℕ

abbrev pub frame_of_vm : VmFrame → Frame
frame_of_vm f = record {
  binary_addr = f.binary_addr;
  src_lineno = f.src_lineno;
  method_name = f.method_name;
  source_file = [];
}

-- The variables of the loop over the frames.
pub record Recording : Type 0 where
  pub prev_binary_addr : ℕ
  pub start_recording : Bool
  pub freq : ℕ

unfoldable pub note_frame : Recording → VmFrame → Recording
note_frame r f =
    let freq = if r.prev_binary_addr == f.binary_addr then r.freq + 1 else r.freq in
    record {
      prev_binary_addr = f.binary_addr;
      start_recording = (r.prev_binary_addr == f.binary_addr && freq == 2) || r.start_recording;
      freq = freq;
    }

unfoldable pub record_frames : Recording → List VmFrame → List Frame
record_frames r [] = []
record_frames r (f ∷ fs) =
    let r' = note_frame r f in
    let rest = record_frames r' fs in if r'.start_recording then frame_of_vm f ∷ rest else rest

-- The frames that the loop takes, from the fourth on.
abbrev pub recorded : List VmFrame → ℕ → List Frame
recorded frames count =
    record_frames (record { prev_binary_addr = 0; start_recording = false; freq = 1 })
      (drop 3 (take count frames))

-- CONSIDER_KERNEL_HEAP and CONSIDER_KERNEL_STACK
pub record Considered : Type 0 where
  pub heap : Bool
  pub stack : Bool

unfoldable pub is_considered : Considered → AddressSpace → Bool
is_considered c kernel_heap = c.heap
is_considered c kernel_task_stack = c.stack
is_considered c kernel_irq_stack = c.stack
is_considered c kernel_nmi_stack = c.stack
is_considered c kernel_exception_stack = c.stack
is_considered c user_space = false
is_considered c unknown_space = false

-- The arguments of kvm__doneEventProcessing_HyPerf; `frames` are the `count` context frames.
pub record Report : Type 0 where
  pub frames : List VmFrame
  pub count : ℕ
  pub ip : ℕ
  pub device_id : ℕ
  pub thread_id : ℕ
  pub data_addr : ℕ
  pub address_type : AddressSpace
  pub cpu : ℕ

-- The event that is made of a report.
unfoldable pub event_of_report : Event → ℕ → ℕ → Report → Event
event_of_report fresh id time r = record fresh {
  device_file_id = r.device_id;
  event_id = id;
  event_time = time;
  sample_index = id;
  h_t_id = r.thread_id;
  h_data_addr = r.data_addr;
  data_addr = r.data_addr;
  h_ip_addr = r.ip;
  ip_addr = r.ip;
  address_space = r.address_type;
  cpu = r.cpu;
  is_fixed = false;
  context_agent = recorded r.frames r.count;
}

module _ (host : Host) (tid : ℕ) where
  unfoldable pub register_hyperf : M Unit
  register_hyperf = do
    w ← get_world
    put_world (record w { kvm = record w.kvm { connected = true } })

  unfoldable pub enable_all_ebs_device : M Unit
  enable_all_ebs_device = resume_all_devices host

  unfoldable pub disable_all_ebs_device : M Unit
  disable_all_ebs_device = pause_all_devices host

  unfoldable pub disable_ebs_devices_this_session : ℕ → M Unit
  disable_ebs_devices_this_session thread_id = do
    session ← get_session_key_from_thread_id thread_id
    pause_devices_by_session host tid session

  unfoldable pub enable_ebs_devices_this_session : M Unit
  enable_ebs_devices_this_session = do
    session ← get_session_key tid
    resume_devices_by_session host tid session

  unfoldable pub event_will_be_handled_by_os : Bool → M Unit
  event_will_be_handled_by_os val = do
    w ← get_world
    put_world (record w { request_will_be_notified = val })

  -- processEvent: the hypervisor is asked for the state at the event.
  unfoldable pub guest_process_event : Event → M Unit
  guest_process_event e = do
    w ← get_world
    if w.kvm.connected
        then (do call host (event_state e.sample_index e.h_t_id); pure tt)
        else pure tt

  module _ {S : Type 0} (handler : Device → Event → S → M S) where
    -- A report that is passed over: the devices are resumed.
    unfoldable pub skip_report : Report → S → M S
    skip_report r s = do
      session ← get_session_key_from_thread_id r.thread_id
      done_process_event host tid handler none r.device_id session s

    unfoldable pub take_report : Event → ℕ → Report → S → M S
    take_report fresh time r s = do
      id ← generate_event_key
      let e = event_of_report fresh id time r
      add_new_event id e
      session ← get_session_key_from_thread_id r.thread_id
      done_process_event host tid handler (some e) r.device_id session s

    -- kvm__doneEventProcessing_HyPerf
    unfoldable pub done_event_processing : Considered → Event → ℕ → Report → S → M S
    done_event_processing considered fresh time r s =
        if r.ip == 0
        then skip_report r s
        else if is_considered considered r.address_type
        then take_report fresh time r s
        else skip_report r s
