-- ===== src/Tool/Handlers.antt =====
-- The callbacks of MyTool, kvmTest/src/tools/witchTool/mytool.cpp: sessions and events. Only the
-- instance of the configured logic is kept, and the flag WPInitFlag is the configuration that
-- WP_Init left, if it has run. Deleting an event that is passed over is left out.
use kognizance_tool.Prelude.{
  ℕ, Bool, true, false, Option, none, some, List, ◌==◌, leb, ltb, not, ◌&&◌, ◌||◌, if◌then◌else◌,
}
use kognizance_tool.Event.{Event, AccessType, load, store}
use kognizance_tool.AgentApi.{Agent}
use kognizance_tool.Platform.World.{DeviceKind, ebs, pebs, bp, Device, Host, M, ◌>>=◌, ◌>>◌, pure}
use kognizance_tool.Platform.Devices.{register_device, remove_device_by_session}
use kognizance_tool.Platform.Sessions.{generate_session_key, get_session_key}
use kognizance_tool.Watch.Address.{get_floor_wp_length}
use kognizance_tool.Watch.Slots.{Access, wp_write, wp_rw, wp_inst, ThreadData, RegisterInfo}
use kognizance_tool.Watch.Victim.{Random}
use kognizance_tool.Watch.Arm.{Config}
use kognizance_tool.Watch.Thread.{wp_init, wp_thread_init, wp_thread_terminate, wp_subscribe}
use kognizance_tool.Watch.Trigger.{on_watch_point}
use kognizance_tool.Witch.Tree.{Floats, on_sample}
use kognizance_tool.Witch.Totals.{Logic}
use kognizance_tool.Witch.Stores.{is_unknown}
use kognizance_tool.Witch.Logics.{WitchLogicType, redspy, loadspy, dupspy, Flags, witch_on_wp}
use kognizance_tool.Tool.Fix.{fix_ip}

-- AVOID_PUSH, AVOID_CALLQ and AVOID_LOCK.
pub record Avoided : Type 0 where
  pub push : Bool
  pub callq : Bool
  pub lock : Bool

unfoldable pub is_avoided : Avoided → ℕ → Bool
is_avoided flags inst =
    (flags.push && inst == 65) || (flags.callq && inst == 232) || (flags.lock && inst == 240)

-- The access type of the sampling device; `dup_load` is WITCHTOOL_DUPSPY_LOAD.
unfoldable pub sampled_access : Bool → WitchLogicType → AccessType
sampled_access dup_load loadspy = load
sampled_access dup_load dupspy = if dup_load then load else store
sampled_access dup_load _ = store

-- `new PEBSDevice(accessType)`
unfoldable pub new_pebs_device : AccessType → Device
new_pebs_device access = record {
  kind = pebs;
  file_id = 0;
  session_id = 0;
  mapped = false;
  is_disabled = false;
  length = 0;
  bp_type = 0;
  address = 0;
  access_type = access;
}

-- Samples outside the kernel, or without an address, are passed over.
unfoldable pub is_kernel_sample : Event → Bool
is_kernel_sample e =
    not (e.h_data_addr == 0) && (not (e.h_ip_addr == 0) && ltb 18446726481523507200 e.h_ip_addr)

-- The range of kernel code that is not watched, 0xffffffff810bb1f0 to 0xffffffff811271a0.
unfoldable pub is_excluded_code : ℕ → Bool
is_excluded_code ip = leb 18446744071579611632 ip && leb ip 18446744071580053920

-- The range and the access that a sample's watchpoint has.
pub record Request : Type 0 where
  pub va : ℕ
  pub length : ℕ
  pub access : Access

unfoldable pub request_of : WitchLogicType → Event → Request
request_of redspy e = record {
  va = e.h_data_addr;
  length = get_floor_wp_length e.access_length;
  access = wp_write;
}
request_of dupspy e = record { va = e.h_ip_addr; length = 8; access = wp_inst }
request_of _ e = record {
  va = e.h_data_addr;
  length = get_floor_wp_length e.access_length;
  access = wp_rw;
}

abbrev pub is_dupspy : WitchLogicType → Bool
is_dupspy dupspy = true
is_dupspy _ = false

module _ (host : Host) (fast : Bool) (tid : ℕ) where
  -- WPInitOnce
  unfoldable pub wp_init_once : Bool → ℕ → Option Config → M Config
  wp_init_once kvm base (some config) = pure config
  wp_init_once kvm base none = wp_init host fast tid kvm base

  module _ {R F : Type 0} (env : Random R F) where
    -- tool_sessionInit, which is also tool_processInit and tool_threadInit
    unfoldable pub tool_session_init :
        Bool → WitchLogicType → Bool → ℕ → ℕ → Option Config → M (Config × ThreadData R)
    tool_session_init dup_load type kvm base time known = do
      config ← wp_init_once kvm base known
      generate_session_key tid
      session ← get_session_key tid
      register_device host tid session (new_pebs_device (sampled_access dup_load type))
      pure (config, wp_thread_init env config tid time)

    -- tool_sessionExit, which is also tool_processExit and tool_threadExit
    unfoldable pub tool_session_exit : ThreadData R → M (List RegisterInfo)
    tool_session_exit t = do
      slots ← wp_thread_terminate host fast tid t
      session ← get_session_key tid
      remove_device_by_session host tid session
      pure slots

    module _ {D S : Type 0} (doubles : Floats D) (floats : Floats S) (flags : Flags)
        (avoided : Avoided) (agent : Agent) (type : WitchLogicType) (config : Config) where
      -- From the fixed event on: the logic takes the sample, and a watchpoint is asked for.
      unfoldable pub take_sample : ℕ → Event → ThreadData R → Logic D → M (ThreadData R × Logic D)
      take_sample now e t l =
          if is_unknown e.access_type || (is_excluded_code e.h_ip_addr || is_avoided avoided e.inst)
          then pure (t, l)
          else (do
            let (taken, tables) = on_sample doubles e l.tables
            let l' = record l { tables = tables }
            let r = request_of type e
            if taken
                then (do
                  (subscribed, t') ←
                      wp_subscribe host fast tid env config t r.va r.length r.access (some e) now
                  pure (t', l'))
                else pure (t, l'))

      unfoldable pub tool_pebs_event_handler :
          ℕ → Event → ThreadData R → Logic D → M (ThreadData R × Logic D)
      tool_pebs_event_handler now e t l =
          if is_kernel_sample e
          then (do
            (fixed, e') ← (if e.is_fixed then pure (true, e) else fix_ip agent t.slots e)
            if fixed then take_sample now e' t l else pure (t, l))
          else pure (t, l)

      unfoldable pub tool_bp_event_handler :
          ℕ → Event → ThreadData R → Logic D → M (ThreadData R × Logic D)
      tool_bp_event_handler fd e t l =
          on_watch_point host fast tid (fix_ip agent t.slots)
            (witch_on_wp doubles floats flags type) config (is_dupspy type) fd e t l

      -- The event of a device of the kind and file.
      unfoldable pub tool_event_handler :
          DeviceKind → ℕ → ℕ → Event → ThreadData R → Logic D → M (ThreadData R × Logic D)
      tool_event_handler pebs fd now e t l = tool_pebs_event_handler now e t l
      tool_event_handler bp fd now e t l = tool_bp_event_handler fd e t l
      tool_event_handler ebs fd now e t l = pure (t, l)
