-- ===== src/Samples.antt =====
-- The sample tools: mytool.cpp of samplePEBSBPTool, samplePEBSTool, sampleEBSTool and sampleTool in
-- kvmTest/src/tools. Printing is left out; the last three do nothing else on an event.
use kognizance_tool.Prelude.{
  ℕ, zero, suc, ◌+◌, Bool, false, Option, none, some, ◌==◌, if◌then◌else◌,
}
use kognizance_tool.Event.{Event, store}
use kognizance_tool.Platform.World.{
  DeviceKind, ebs, pebs, bp, Device, Host, M, ◌>>=◌, ◌>>◌, pure, exit,
}
use kognizance_tool.Platform.Agent.{is_bp}
use kognizance_tool.Platform.Devices.{
  get_device, store_device, register_device, remove_device_by_session, update_bp_address,
  end_device,
}
use kognizance_tool.Platform.Sessions.{generate_session_key, get_session_key, destroy_session_key}
use kognizance_tool.Watch.Arm.{is_breakpoint_length, new_bp_device}
use kognizance_tool.Tool.Handlers.{new_pebs_device}
pub mod Watched
mod Examples

-- `new EBSDevice()`
unfoldable pub new_ebs_device : Device
new_ebs_device = record {
  kind = ebs;
  file_id = 0;
  session_id = 0;
  mapped = false;
  is_disabled = false;
  length = 0;
  bp_type = 0;
  address = 0;
  access_type = store;
}

-- HW_BREAKPOINT_LEN_1
abbrev pub watch_length : ℕ
watch_length = 1

-- HW_BREAKPOINT_W | HW_BREAKPOINT_R
abbrev pub watch_type : ℕ
watch_type = 2 + 1

-- The dynamic_cast to a BPDevice.
abbrev pub as_bp : Option Device → Option Device
as_bp none = none
as_bp (some d) = if is_bp d.kind then some d else none

module _ (host : Host) (tid : ℕ) where
  -- tool_sessionInit of sampleTool
  unfoldable pub start_session : M ℕ
  start_session = do generate_session_key tid; get_session_key tid

  -- tool_sessionInit of samplePEBSTool and samplePEBSBPTool
  unfoldable pub start_pebs_session : M Unit
  start_pebs_session = do
    session ← start_session
    register_device host tid session (new_pebs_device store)
    pure tt

  -- tool_sessionInit of sampleEBSTool
  unfoldable pub start_ebs_session : M Unit
  start_ebs_session = do
    session ← start_session
    register_device host tid session new_ebs_device
    pure tt

  -- tool_sessionExit of sampleTool and sampleEBSTool
  unfoldable pub end_session : M Unit
  end_session = do session ← get_session_key tid; remove_device_by_session host tid session

  -- tool_sessionExit of samplePEBSTool and samplePEBSBPTool: the session's key, which is one less
  -- than the number that stands for it, goes where destroy_session_key takes a thread's id. The key
  -- -1 is the id of no thread.
  unfoldable pub end_and_destroy_session : M Unit
  end_and_destroy_session = do
    session ← get_session_key tid
    remove_device_by_session host tid session
    elim session [ zero ↦ pure tt | suc key ↦ destroy_session_key key ]

  -- The handlers of samplePEBSBPTool, with its variable `fd`, `none` for -1.
  module _ (fast : Bool) where
    unfoldable pub first_watch : ℕ → M (Option ℕ)
    first_watch addr = do
      session ← get_session_key tid
      (registered, dev) ←
          register_device host tid session (new_bp_device watch_length watch_type addr)
      pure (if registered then some dev.file_id else none)

    unfoldable pub move_watch : ℕ → ℕ → M (Option ℕ)
    move_watch addr fd = do
      found ← get_device tid fd
      elim (as_bp found) [
        | none ↦ pure none
        | some d ↦ do
          (updated, dev) ← update_bp_address host fast d watch_length watch_type addr
          store_device (tid, fd) dev
          pure (some fd)
      ]

    unfoldable pub watch_from : ℕ → Option ℕ → M (Option ℕ)
    watch_from addr none = first_watch addr
    watch_from addr (some fd) = move_watch addr fd

    -- tool_PEBSEventHandler
    unfoldable pub watch_sample : Event → Option ℕ → M (Option ℕ)
    watch_sample e fd =
        if e.h_data_addr == 0
        then pure fd
        else if is_breakpoint_length watch_length
        then watch_from e.h_data_addr fd
        else exit

    -- tool_BPEventHandler
    unfoldable pub end_watch : Device → M Unit
    end_watch dev = do ended ← end_device host dev; store_device (tid, dev.file_id) ended

    -- tool_eventHandler
    unfoldable pub handle_sample_event : Device → Event → Option ℕ → M (Option ℕ)
    handle_sample_event dev e fd = elim dev.kind [
      | pebs ↦ watch_sample e fd
      | bp ↦ do end_watch dev; pure fd
      | ebs ↦ pure fd
    ]
