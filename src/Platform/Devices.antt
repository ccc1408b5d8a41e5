-- ===== src/Platform/Devices.antt =====
-- Devices and the tables that find them: kvmTest/src/platform/device/device.cpp, updateBPAddress of
-- kvmTest/includes/platform/device/bpDevice.hpp and the methods of Platform in
-- kvmTest/includes/platform/platform.hpp. The caller's thread, gettid(), is an argument. A device
-- object is the value under its key in the table.
use kognizance_tool.Prelude.{
  ℕ, Bool, true, false, Option, none, some, List, [], ◌∷◌, ◌==◌, ltb, ◌&&◌, if◌then◌else◌,
}
use kognizance_tool.Prelude.Map.{lookup, insert, erase, nat_key, pair_key}
use kognizance_tool.Platform.World.{
  Device, perf_event_open, mmap_buffer, munmap_buffer, close_file, set_async, set_signal, set_owner,
  set_action, ioctl_disable, ioctl_refresh, ioctl_modify, Host, M, ◌>>=◌, ◌>>◌, pure, get_world,
  put_world, call, call_file, check,
}
use kognizance_tool.Platform.Agent.{
  is_bp, agent_update_bp, pause_device, resume_device, agent_register, agent_unregister,
}

-- `deviceSessionMultiMap.insert(make_pair(session, fd))`: behind the entries of equal key.
unfoldable pub insert_session : ℕ → ℕ → List (ℕ × ℕ) → List (ℕ × ℕ)
insert_session s fd [] = (s, fd) ∷ []
insert_session s fd ((t, g) ∷ m) =
    if ltb s t then (s, fd) ∷ (t, g) ∷ m else (t, g) ∷ insert_session s fd m

-- The devices of `equal_range(session)`.
unfoldable pub session_files : ℕ → List (ℕ × ℕ) → List ℕ
session_files s [] = []
session_files s ((t, g) ∷ m) = let rest = session_files s m in if t == s then g ∷ rest else rest

-- `deviceSessionMultiMap.erase(session)`
unfoldable pub erase_session : ℕ → List (ℕ × ℕ) → List (ℕ × ℕ)
erase_session s [] = []
erase_session s ((t, g) ∷ m) =
    let rest = erase_session s m in if t == s then rest else (t, g) ∷ rest

-- The first entry of the session that names the file is erased.
unfoldable pub erase_entry : ℕ → ℕ → List (ℕ × ℕ) → List (ℕ × ℕ)
erase_entry s fd [] = []
erase_entry s fd ((t, g) ∷ m) = if t == s && g == fd then m else (t, g) ∷ erase_entry s fd m

-- The object behind a pointer of the table gets a new value.
unfoldable pub store_device : ℕ × ℕ → Device → M Unit
store_device key d w = pure tt (record w { devices = insert key d w.devices })

unfoldable pub add_new_device : ℕ → ℕ → Device → M Unit
add_new_device tid fd d = store_device (tid, fd) d

unfoldable pub add_new_device_to_session : ℕ → ℕ → M Unit
add_new_device_to_session fd s w =
    pure tt (record w { device_sessions = insert_session s fd w.device_sessions })

unfoldable pub get_device : ℕ → ℕ → M (Option Device)
get_device tid fd w = pure (lookup (tid, fd) w.devices) w

module _ (host : Host) where
  unfoldable pub disable_device : Device → M Unit
  disable_device d = do
    paused ← (if is_bp d.kind then pause_device host d else pure false)
    if paused then pure tt else (do call host (ioctl_disable d.file_id); pure tt)

  unfoldable pub enable_device : Device → M Unit
  enable_device d = do
    resumed ← (if is_bp d.kind then resume_device host d else pure false)
    if resumed then pure tt else (do call host (ioctl_refresh d.file_id); pure tt)

  -- These two return the device with its flag `isDisabled`.
  unfoldable pub start_device : Device → M Device
  start_device d = do call host (ioctl_refresh d.file_id); pure (record d { is_disabled = false })

  unfoldable pub end_device : Device → M Device
  end_device d = do let ended = record d { is_disabled = true }; disable_device ended; pure ended

  -- The last steps of registerDevice, once the signal is set up.
  unfoldable pub enter_device : ℕ → ℕ → Device → M (Bool × Device)
  enter_device tid s dev = do
    check host (set_signal dev.file_id)
    owned ← call host (set_owner dev.file_id)
    if owned
        then (do
          add_new_device tid dev.file_id dev
          add_new_device_to_session dev.file_id s
          agent_register host dev
          pure (true, dev))
        else pure (false, dev)

  -- registerDevice: whether it returns 0, and the device.
  unfoldable pub register_device : ℕ → ℕ → Device → M (Bool × Device)
  register_device tid s d w =
      (do
        let named = record d { session_id = s }
        opened ←
            call_file host
              (perf_event_open d.kind d.length d.bp_type (if w.is_agent_kvm then 0 else d.address))
        elim opened [
          | none ↦ pure (false, named)
          | some fd ↦ do
            mapped ← call host (mmap_buffer fd)
            let dev = record named { file_id = fd; mapped = mapped }
            if mapped
                then (do
                  check host (set_async fd)
                  acting ← call host set_action
                  if acting then enter_device tid s dev else pure (false, dev))
                else (do check host (close_file fd); pure (false, dev))
        ])
        w

  unfoldable pub unregister_device : Device → M Unit
  unregister_device d = do
    check host (munmap_buffer d.file_id)
    check host (close_file d.file_id)
    agent_unregister (record d { mapped = false; is_disabled = false })

  unfoldable pub remove_device : ℕ → ℕ → Bool → M Unit
  remove_device tid fd remove_session_map = do
    found ← get_device tid fd
    elim found [
      | none ↦ pure tt
      | some d ↦ do
        w ← get_world
        put_world (
            if remove_session_map
            then record w { device_sessions = erase_entry d.session_id fd w.device_sessions }
            else w)
        ended ← end_device d
        unregister_device ended
        v ← get_world
        put_world (record v { devices = erase (tid, fd) v.devices })
    ]

  unfoldable pub remove_devices : ℕ → List ℕ → M Unit
  remove_devices tid [] = pure tt
  remove_devices tid (fd ∷ fds) = do remove_device tid fd false; remove_devices tid fds

  unfoldable pub remove_device_by_session : ℕ → ℕ → M Unit
  remove_device_by_session tid s = do
    w ← get_world
    remove_devices tid (session_files s w.device_sessions)
    v ← get_world
    put_world (record v { device_sessions = erase_session s v.device_sessions })

  -- The loops over all devices. A device that the agent or the kernel pauses keeps its flag.
  unfoldable pub pause_each : List ((ℕ × ℕ) × Device) → M Unit
  pause_each [] = pure tt
  pause_each ((key, d) ∷ ds) = do disable_device d; pause_each ds

  unfoldable pub pause_all_devices : M Unit
  pause_all_devices w = pause_each w.devices w

  unfoldable pub resume_each : List ((ℕ × ℕ) × Device) → M Unit
  resume_each [] = pure tt
  resume_each ((key, d) ∷ ds) = do
    if d.is_disabled then pure tt else enable_device d
    resume_each ds

  unfoldable pub resume_all_devices : M Unit
  resume_all_devices w = resume_each w.devices w

  unfoldable pub pause_files : ℕ → List ℕ → M Unit
  pause_files tid [] = pure tt
  pause_files tid (fd ∷ fds) = do
    found ← get_device tid fd
    elim found [ none ↦ pure tt | some d ↦ if d.is_disabled then pure tt else disable_device d ]
    pause_files tid fds

  unfoldable pub pause_devices_by_session : ℕ → ℕ → M Unit
  pause_devices_by_session tid s w = pause_files tid (session_files s w.device_sessions) w

  unfoldable pub resume_files : ℕ → List ℕ → M Unit
  resume_files tid [] = pure tt
  resume_files tid (fd ∷ fds) = do
    found ← get_device tid fd
    elim found [ none ↦ pure tt | some d ↦ if d.is_disabled then pure tt else enable_device d ]
    resume_files tid fds

  unfoldable pub resume_devices_by_session : ℕ → ℕ → M Unit
  resume_devices_by_session tid s w = resume_files tid (session_files s w.device_sessions) w

  -- BPDevice::updateBPAddress. Whether the kernel offers the request that modifies a breakpoint,
  -- FAST_BP_IOC_FLAG, is known when the tool is built.
  unfoldable pub update_bp_address : Bool → Device → ℕ → ℕ → ℕ → M (Bool × Device)
  update_bp_address fast d len bp_type addr = do
    let moved = record d { is_disabled = false; length = len; address = addr; bp_type = bp_type }
    updated ← agent_update_bp host d.file_id len bp_type addr
    if updated
        then pure (true, moved)
        else if fast
        then (do
          modified ← call host (ioctl_modify d.file_id len bp_type addr)
          pure (if modified then (true, moved) else (false, d)))
        else pure (false, d)
