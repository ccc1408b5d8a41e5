-- ===== src/Watch/Trigger.antt =====
-- OnWatchPoint of kvmTest/src/tools/witchTool/watchpoint-lib/src/watchpoint.cpp: which watchpoint
-- fired, the callback of the tool's logic, and what becomes of the watchpoint. The callback and
-- fixIP are arguments; the callback passes the logic's state along. Deleting the two events at the end
-- is left out, and with it what a read of a deleted one may find: a slot keeps its sampled event. The
-- messages are left out, also the one that reads the first slot's event before the search.
use kognizance_tool.Prelude.{
  ℕ, zero, suc, Bool, true, false, Option, none, some, List, [], ◌∷◌, ◌==◌, ◌&&◌, if◌then◌else◌,
}
use kognizance_tool.Event.{Event}
use kognizance_tool.Platform.World.{Host, M, ◌>>=◌, ◌>>◌, pure, exit}
use kognizance_tool.Watch.Slots.{
  TriggerAction, disable, already_disabled, disable_all, retain, RegisterInfo, ThreadData,
  samples_post_full_reset_val,
}
use kognizance_tool.Watch.Arm.{Config, disable_watchpoint_wrapper, enable_watchpoint}
use kognizance_tool.Watch.Thread.{update_slot}
use mathlib.Core.Option

-- The fields of WP_TriggerInfo_t that OnWatchPoint fills for the callback.
pub record TriggerInfo : Type 0 where
  pub va : ℕ
  pub watch_len : ℕ

abbrev is_file : ℕ → Option ℕ → Bool
is_file fd none = false
is_file fd (some g) = fd == g

-- The address of an event by which a trap is matched: the instruction's for DUPSPY.
abbrev trap_addr : Bool → Event → ℕ
trap_addr dup e = if dup then e.ip_addr else e.data_addr

-- A slot whose event pointer was never set matches no trap.
unfoldable pub matches : Bool → ℕ → Event → RegisterInfo → Bool
matches dup fd event w =
    w.is_active
    && is_file fd w.file_handle
    && (elim w.sampled_event [ none ↦ false | some s ↦ trap_addr dup s == trap_addr dup event ])

-- The loop that finds the location; `none` is -1.
unfoldable pub find_location : Bool → ℕ → Event → List RegisterInfo → Option ℕ
find_location dup fd event [] = none
find_location dup fd event (w ∷ ws) =
    let rest = Option.map suc (find_location dup fd event ws) in
    if matches dup fd event w then some 0 else rest

unfoldable pub reset_count : RegisterInfo → RegisterInfo
reset_count w = record w { sample_post_full = samples_post_full_reset_val }

module _ (host : Host) (fast : Bool) (tid : ℕ) where
  unfoldable pub disable_each : Config → List RegisterInfo → M (List RegisterInfo)
  disable_each config [] = pure []
  disable_each config (w ∷ ws) = do
    w' ← (if w.is_active then disable_watchpoint_wrapper host fast tid config w else pure w)
    ws' ← disable_each config ws
    pure (reset_count w' ∷ ws')

  -- The case WP_RETAIN.
  unfoldable pub resurrect : RegisterInfo → M RegisterInfo
  resurrect w = if w.is_active then pure w else elim w.file_handle [
    | none ↦ pure (record w { is_active = true })
    | some fd ↦ do enable_watchpoint host fast tid tid fd; pure (record w { is_active = true })
  ]

  -- One slot under WP_DISABLE, WP_ALREADY_DISABLED and WP_RETAIN.
  unfoldable pub act_on_slot : Config → TriggerAction → RegisterInfo → M RegisterInfo
  act_on_slot config disable w = do
    w' ← (if w.is_active then disable_watchpoint_wrapper host fast tid config w else pure w)
    pure (reset_count w')
  act_on_slot config already_disabled w = if w.is_active then exit else pure (reset_count w)
  act_on_slot config retain w = resurrect w
  act_on_slot config disable_all w = pure w

  abbrev resets_thread : TriggerAction → Bool
  resets_thread retain = false
  resets_thread _ = true

  -- The switch over the callback's answer, for the slot at `location`.
  unfoldable pub act : {R : Type 0} → Config → TriggerAction → ℕ → ThreadData R → M (ThreadData R)
  act config action location t = do
    ws ← (elim action [
      | disable_all ↦ disable_each config t.slots
      | other ↦ do
        (u, ws) ←
            update_slot location (λ w. do w' ← act_on_slot config other w; pure (tt {0}, w'))
              t.slots
        pure ws
    ])
    pure (record t {
      slots = ws;
      sample_post_full =
          if resets_thread action then samples_post_full_reset_val else t.sample_post_full;
    })

  module _ {L : Type 0} (fix_ip : Event → M (Bool × Event))
      (callback : Event → Event → TriggerInfo → L → TriggerAction × L) where
    -- From the trap's slot on: the answer and the logic's state.
    unfoldable pub judge : Event → RegisterInfo → L → M (TriggerAction × L)
    judge event w l = if event.h_ip_addr == 0 then pure (disable, l) else (do
      (fixed, event') ← (if event.is_fixed then pure (true, event) else fix_ip event)
      pure (
          if fixed
          then (elim w.sampled_event [
            | none ↦ (disable, l)
            | some s ↦ callback event' s (record { va = w.va; watch_len = w.wp_length }) l
          ])
          else (disable, l)))

    unfoldable pub slot_at : ℕ → List RegisterInfo → M RegisterInfo
    slot_at i [] = exit
    slot_at zero (w ∷ ws) = pure w
    slot_at (suc i) (w ∷ ws) = slot_at i ws

    -- A trap that matches no active watchpoint ends the process.
    unfoldable pub on_watch_point :
        {R : Type 0} → Config → Bool → ℕ → Event → ThreadData R → L → M (ThreadData R × L)
    on_watch_point config dup fd event t l = elim (find_location dup fd event t.slots) [
      | none ↦ exit
      | some i ↦ do
        w ← slot_at i t.slots
        (action, l') ← judge event w l
        t' ← act config action i t
        pure (t', l')
    ]
