-- ===== src/Watch/Thread.antt =====
-- WP_Init, WP_ThreadInit, WP_ThreadTerminate and WP_Subscribe of
-- kvmTest/src/tools/witchTool/watchpoint-lib/src/watchpoint.cpp. The thread's data, which
-- pthread_getspecific finds, is passed along. A read of a slot out of range ends the process here.
use kognizance_tool.Prelude.{
  ℕ, zero, suc, Bool, true, false, Option, none, some, List, [], ◌∷◌, not, ◌&&◌, ◌||◌,
  if◌then◌else◌, replicate,
}
use kognizance_tool.Prelude.Int.{pos}
use kognizance_tool.Event.{Event}
use kognizance_tool.Platform.World.{bp, Host, M, ◌>>=◌, pure, exit}
use kognizance_tool.Platform.Sessions.{get_max_devices}
use kognizance_tool.Watch.Address.{validate_wp_data}
use kognizance_tool.Watch.Slots.{
  Access, wp_inst, auto, none_available, RegisterInfo, ThreadData, is_overlapped,
  samples_post_full_reset_val,
}
use kognizance_tool.Watch.Victim.{Random, get_victim}
use kognizance_tool.Watch.Arm.{Config, has_file, dis_arm, arm_watch_point}

-- A slot as WP_ThreadInit leaves it; the fields that it does not set are given as 0 and unset.
unfoldable pub fresh_slot : ℕ → RegisterInfo
fresh_slot tid = record {
  va = 0;
  wp_length = 0;
  start_time = pos 0;
  file_handle = none;
  thread_id = tid;
  is_active = false;
  mmap_buffer = false;
  sampled_event = none;
  sample_post_full = samples_post_full_reset_val;
}

abbrev pub is_inst : Access → Bool
is_inst wp_inst = true
is_inst _ = false

-- Writes slot i by what the action makes of it.
unfoldable pub update_slot :
    {B : Type 0}
    → ℕ
    → (RegisterInfo → M (B × RegisterInfo))
    → List RegisterInfo
    → M (B × List RegisterInfo)
update_slot i f [] = exit
update_slot zero f (w ∷ ws) = do (b, w') ← f w; pure (b, w' ∷ ws)
update_slot (suc i) f (w ∷ ws) = do (b, ws') ← update_slot i f ws; pure (b, w ∷ ws')

module _ {R F : Type 0} (env : Random R F) where
  unfoldable pub wp_thread_init : Config → ℕ → ℕ → ThreadData R
  wp_thread_init config tid time = record {
    sample_post_full = samples_post_full_reset_val;
    rand_buffer = env.srand time;
    slots = replicate config.max_wp (fresh_slot tid);
  }

module _ (host : Host) (fast : Bool) (tid : ℕ) where
  -- `base` is the address of the dummy variables of getMaxDevices.
  unfoldable pub wp_init : Bool → ℕ → M Config
  wp_init kvm base = do
    n ← get_max_devices host tid bp base
    pure (record { is_wp_modify_enabled = kvm || fast; replacement_policy = auto; max_wp = n })

  unfoldable pub dis_arm_all : List RegisterInfo → M (List RegisterInfo)
  dis_arm_all [] = pure []
  dis_arm_all (w ∷ ws) = do
    w' ← (if has_file w then dis_arm host fast tid w else pure w)
    ws' ← dis_arm_all ws
    pure (w' ∷ ws')

  -- WP_ThreadTerminate; the slots that it returns are those just before `free`.
  unfoldable pub wp_thread_terminate : {R : Type 0} → ThreadData R → M (List RegisterInfo)
  wp_thread_terminate t = dis_arm_all t.slots

  module _ {R F : Type 0} (env : Random R F) where
    -- WP_Subscribe behind the tests of the address: whether it returns 0.
    unfoldable pub install :
        Config → ThreadData R → ℕ → ℕ → Access → Option Event → ℕ → M (Bool × ThreadData R)
    install config t va len access sample now =
        let c = get_victim env config.replacement_policy t.slots t.rand_buffer in
        let chosen = record t { slots = c.slots; rand_buffer = c.rand } in
        elim c.victim [
          | none_available ↦ pure (false, chosen)
          | _ ↦ elim c.location [
            | none ↦ exit
            | some i ↦ do
              (armed, ws) ←
                  update_slot i
                    (λ w. arm_watch_point host fast tid config w len access va sample now) c.slots
              pure (armed, record chosen { slots = ws })
          ]
        ]

    unfoldable pub wp_subscribe :
        Config → ThreadData R → ℕ → ℕ → Access → Option Event → ℕ → M (Bool × ThreadData R)
    wp_subscribe config t va len access sample now =
        if not (is_inst access) && not (validate_wp_data va len)
        then pure (false, t)
        else if is_overlapped va len t.slots
        then pure (false, t)
        else install config t va len access sample now
