-- ===== src/Watch/Arm.antt =====
-- Setting and clearing one watchpoint: EnableWatchpoint, DisableWatchpoint, DisArm,
-- DisableWatchpointWrapper, CreateWatchPoint and ArmWatchPoint of
-- kvmTest/src/tools/witchTool/watchpoint-lib/src/watchpoint.cpp. A function that writes to a slot
-- returns the slot's new value. The calling thread, gettid(), and the time stamp counter are
-- arguments; a failing `assert` ends the process.
use kognizance_tool.Prelude.{
  ℕ, Bool, true, false, Option, none, some, ◌==◌, ◌&&◌, ◌||◌, if◌then◌else◌,
}
use kognizance_tool.Prelude.Int.{signed64}
use kognizance_tool.Event.{Event, store}
use kognizance_tool.Platform.World.{bp, Device, Host, M, ◌>>=◌, ◌>>◌, pure, exit}
use kognizance_tool.Platform.Devices.{
  get_device, store_device, start_device, end_device, register_device, remove_device,
  update_bp_address,
}
use kognizance_tool.Platform.Sessions.{get_session_key}
use kognizance_tool.Watch.Slots.{Access, wp_read, wp_write, wp_inst, Policy, RegisterInfo}

-- WP_Config_t
pub record Config : Type 0 where
  pub is_wp_modify_enabled : Bool
  pub replacement_policy : Policy
  pub max_wp : ℕ

-- HW_BREAKPOINT_X, HW_BREAKPOINT_R, HW_BREAKPOINT_W
unfoldable pub breakpoint_type : Access → ℕ
breakpoint_type wp_inst = 4
breakpoint_type wp_read = 1
breakpoint_type wp_write = 2
breakpoint_type _ = 3

-- `fileHandle != -1`
abbrev pub has_file : RegisterInfo → Bool
has_file w = elim w.file_handle [ none ↦ false | some fd ↦ true ]

-- The lengths that `switch (watch_length)` accepts; any other ends the process.
unfoldable pub is_breakpoint_length : ℕ → Bool
is_breakpoint_length n = n == 1 || n == 2 || n == 4 || n == 8

-- `new BPDevice(len, type, addr)`
unfoldable pub new_bp_device : ℕ → ℕ → ℕ → Device
new_bp_device len bp_type addr = record {
  kind = bp;
  file_id = 0;
  session_id = 0;
  mapped = false;
  is_disabled = false;
  length = len;
  bp_type = bp_type;
  address = addr;
  access_type = store;
}

-- The writes at the end of CreateWatchPoint.
unfoldable pub mark_armed : ℕ → ℕ → Option Event → ℕ → RegisterInfo → RegisterInfo
mark_armed va len sample now wpi = record wpi {
  is_active = true;
  va = va;
  wp_length = len;
  sampled_event = elim sample [ some e ↦ some e | none ↦ wpi.sampled_event ];
  start_time = signed64 now;
}

module _ (host : Host) (fast : Bool) (tid : ℕ) where
  unfoldable pub enable_watchpoint : ℕ → ℕ → M Unit
  enable_watchpoint thread fd = do
    found ← get_device thread fd
    elim found [
      | none ↦ pure tt
      | some d ↦ do started ← start_device host d; store_device (thread, fd) started
    ]

  unfoldable pub disable_watchpoint : RegisterInfo → M RegisterInfo
  disable_watchpoint wpi = elim wpi.file_handle [
    | none ↦ exit
    | some fd ↦ do
      found ← get_device wpi.thread_id fd
      elim found [
        | none ↦ pure wpi
        | some d ↦ do
          ended ← end_device host d
          store_device (wpi.thread_id, fd) ended
          pure (record wpi { is_active = false })
      ]
  ]

  unfoldable pub dis_arm : RegisterInfo → M RegisterInfo
  dis_arm wpi = elim wpi.file_handle [
    | none ↦ exit
    | some fd ↦ do
      remove_device host tid fd true
      pure (record wpi { mmap_buffer = false; file_handle = none; is_active = false })
  ]

  unfoldable pub disable_watchpoint_wrapper : Config → RegisterInfo → M RegisterInfo
  disable_watchpoint_wrapper config wpi =
      if config.is_wp_modify_enabled then disable_watchpoint wpi else dis_arm wpi

  -- CreateWatchPoint with `modify`, once the length is accepted.
  unfoldable pub modify_watch_point : RegisterInfo → ℕ → ℕ → ℕ → Option Event → ℕ → M RegisterInfo
  modify_watch_point wpi len bp_type va sample now = elim wpi.file_handle [
    | none ↦ exit
    | some fd ↦ do
      disabled ← disable_watchpoint wpi
      found ← get_device wpi.thread_id fd
      elim found [
        | none ↦ pure disabled
        | some d ↦ do
          (updated, dev) ← update_bp_address host fast d len bp_type va
          store_device (wpi.thread_id, fd) dev
          if updated
              then (do
                if disabled.is_active then pure tt else enable_watchpoint wpi.thread_id fd
                pure (mark_armed va len sample now disabled))
              else pure disabled
      ]
  ]

  -- CreateWatchPoint without `modify`, once the length is accepted.
  unfoldable pub open_watch_point : RegisterInfo → ℕ → ℕ → ℕ → Option Event → ℕ → M RegisterInfo
  open_watch_point wpi len bp_type va sample now = do
    session ← get_session_key tid
    (registered, dev) ← register_device host tid session (new_bp_device len bp_type va)
    pure (
        if registered
        then mark_armed va len sample now
            (record wpi { file_handle = some dev.file_id; mmap_buffer = dev.mapped })
        else record wpi { file_handle = none })

  unfoldable pub create_watch_point :
      RegisterInfo → ℕ → Access → ℕ → Bool → Option Event → ℕ → M RegisterInfo
  create_watch_point wpi len access va modify sample now =
      if is_breakpoint_length len
      then (if modify
          then modify_watch_point wpi len (breakpoint_type access) va sample now
          else open_watch_point wpi len (breakpoint_type access) va sample now)
      else exit

  -- Whether the watchpoint is set, and the slot.
  unfoldable pub arm_watch_point :
      Config → RegisterInfo → ℕ → Access → ℕ → Option Event → ℕ → M (Bool × RegisterInfo)
  arm_watch_point config wpi len access va sample now =
      if config.is_wp_modify_enabled && has_file wpi
      then (do
        modified ← create_watch_point wpi len access va true sample now
        pure (true, modified))
      else (do
        old ← (if wpi.is_active then dis_arm wpi else pure wpi)
        created ← create_watch_point old len access va false sample now
        pure (has_file created, created))
