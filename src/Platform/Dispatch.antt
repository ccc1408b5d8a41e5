-- ===== src/Platform/Dispatch.antt =====
-- From an event that the agent has completed to the tool: Device::postAgentProcessing of
-- kvmTest/src/platform/device/device.cpp and Agent::done_processEvent of
-- kvmTest/src/agent/agent.cpp. The state of the tool is S, and its handler an argument.
use kognizance_tool.Prelude.{ℕ, Option, none, some, if◌then◌else◌}
use kognizance_tool.Event.{Event}
use kognizance_tool.Platform.World.{Device, Host, M, ◌>>=◌, ◌>>◌, pure, get_world, exit}
use kognizance_tool.Platform.Devices.{get_device, resume_devices_by_session}

-- The call of the tool. Of a null device the kind is read; without an event it is not looked at.
unfoldable pub handle_event :
    {S : Type 0} → (Device → Event → S → M S) → Option Device → Option Event → S → M S
handle_event handler device none s = pure s
handle_event handler none (some e) s = exit
handle_event handler (some d) (some e) s = handler d e s

module _ (host : Host) (tid : ℕ) {S : Type 0} (handler : Device → Event → S → M S) where
  unfoldable pub post_agent_processing : Option Device → Option Event → ℕ → S → M S
  post_agent_processing device event session s = do
    w ← get_world
    if w.request_will_be_notified
        then (do
          s' ← handle_event handler device event s
          resume_devices_by_session host tid session
          pure s')
        else pure s

  unfoldable pub done_process_event : Option Event → ℕ → ℕ → S → M S
  done_process_event event fd session s = do
    found ← get_device tid fd
    post_agent_processing found event session s
