-- ===== src/Tool/Sound.antt =====
-- Every event keeps the thread's watchpoints and the logic's tables valid: tool_eventHandler of
-- kvmTest/src/tools/witchTool/mytool.cpp.
use kognizance_tool.Prelude.{
  ℕ, ◌+◌, ◌<◌, ◌≤◌, ◌≡◌, refl, Bool, true, false, some, ◌||◌, if◌then◌else◌, Bool-cases, inl, inr,
  arith,
}
use kognizance_tool.Prelude.Map.{lookup, pair_key}
use kognizance_tool.Event.{Event}
use kognizance_tool.AgentApi.{Agent}
use kognizance_tool.Platform.World.{
  DeviceKind, ebs, pebs, bp, Device, Host, World, Outcome, done, exited, M, pure,
}
use kognizance_tool.Platform.Ensures.{
  Returned, Ensures, Ensures-pure, Ensures-if, Ensures-bind, Ensures-both,
}
use kognizance_tool.Watch.Address.{word_size, get_floor_wp_length}
use kognizance_tool.Watch.Slots.{ThreadData}
use kognizance_tool.Watch.Victim.{Random}
use kognizance_tool.Watch.Arm.{Config}
use kognizance_tool.Watch.Thread.{wp_subscribe}
use kognizance_tool.Watch.Disjoint.{IsValid}
use kognizance_tool.Watch.Subscribe.{wp_subscribe-IsValid}
use kognizance_tool.Watch.Trapped.{on_watch_point-IsValid}
use kognizance_tool.Witch.Tree.{Floats, on_sample}
use kognizance_tool.Witch.Totals.{Logic}
use kognizance_tool.Witch.Stores.{is_unknown}
use kognizance_tool.Witch.Rooted.{IsRooted}
use kognizance_tool.Witch.Reachable.{on_sample-IsRooted, witch_on_wp-IsRooted}
use kognizance_tool.Witch.Logics.{
  WitchLogicType, deadspy, redspy, loadspy, dupspy, falseshare, Flags, witch_on_wp,
}
use kognizance_tool.Tool.Fix.{fix_ip}
use kognizance_tool.Tool.Handlers.{
  Avoided, is_avoided, is_kernel_sample, is_excluded_code, request_of, is_dupspy, take_sample,
  tool_pebs_event_handler, tool_bp_event_handler, tool_event_handler,
}
use kognizance_tool.Tool.Judged.{on_watch_point-Keeps}
use kognizance_tool.Tool.Kept.{SameAddresses, fix_ip-Same}

floor-le : (n : ℕ) → get_floor_wp_length n ≤ 8
unfolding get_floor_wp_length
floor-le n = ground arith

-- An event whose addresses leave room for a watchpoint.
abbrev pub HasRoom : Event → Type 0
HasRoom e = (e.h_data_addr + 8 < word_size) × (e.h_ip_addr + 8 < word_size)

request_of-inside :
    (type : WitchLogicType) (e : Event)
    → HasRoom e
    → (request_of type e).va + (request_of type e).length < word_size
unfolding request_of
request_of-inside redspy e (h, k) = omega (arith, floor-le e.access_length, h)
request_of-inside dupspy e (h, k) = k
request_of-inside deadspy e (h, k) = omega (arith, floor-le e.access_length, h)
request_of-inside loadspy e (h, k) = omega (arith, floor-le e.access_length, h)
request_of-inside falseshare e (h, k) = omega (arith, floor-le e.access_length, h)

-- Valid watchpoints and consistent tables.
abbrev pub Sound : {R D : Type 0} → ThreadData R × Logic D → Type 0
Sound (t, l) = IsValid t.slots × IsRooted l.tables

module _ {R F D S : Type 0} (host : Host) (fast : Bool) (tid : ℕ) (env : Random R F)
    (doubles : Floats D) (floats : Floats S) (flags : Flags) (avoided : Avoided) (agent : Agent)
    (type : WitchLogicType) (config : Config) where
  take_sample-Sound :
      (now : ℕ) (e : Event) (t : ThreadData R) (l : Logic D)
      → HasRoom e
      → Sound (t, l)
      → Ensures Sound
          (take_sample host fast tid env doubles floats flags avoided agent type config now e t l)
  unfolding take_sample
  take_sample-Sound now e t l room h =
      let rooted = on_sample-IsRooted doubles e l.tables h.1 in
      let r = request_of type e in
      Ensures-if Sound
        (is_unknown e.access_type || (is_excluded_code e.h_ip_addr || is_avoided avoided e.inst)) _
        _ (Ensures-pure Sound (t, l) h)
        (Ensures-if Sound (on_sample doubles e l.tables).0 _ _
          (Ensures-bind (λ q. IsValid q.1.slots) Sound
            (wp_subscribe host fast tid env config t r.va r.length r.access (some e) now) _
            (wp_subscribe-IsValid env host fast tid config t r.va r.length r.access (some e) now
              (request_of-inside type e room) h.0)
            λ (subscribed, t') valid. Ensures-pure Sound _ (valid, rooted))
          (Ensures-pure Sound _ (h.0, rooted)))

  module _ (e : Event) (t : ThreadData R) (l : Logic D) (h : Sound (t, l)) where
    tool_bp_event_handler-Sound :
        (fd : ℕ)
        → Ensures Sound (
            tool_bp_event_handler host fast tid env doubles floats flags avoided agent type config
              fd e t l)
    unfolding tool_bp_event_handler
    tool_bp_event_handler-Sound fd =
        Ensures-both (λ r. IsValid r.0.slots) (λ r. IsRooted r.1.tables) _
          (on_watch_point-IsValid host fast tid config (fix_ip agent t.slots)
            (witch_on_wp doubles floats flags type) (is_dupspy type) fd e t l h.0)
          (on_watch_point-Keeps host fast tid config (fix_ip agent t.slots)
            (witch_on_wp doubles floats flags type) (λ k. IsRooted k.tables)
            (λ curr sample wpt k. witch_on_wp-IsRooted doubles floats flags type curr sample wpt k)
            (is_dupspy type) fd e t l h.1)

    module _ (room : HasRoom e) (d : Device) (w : World)
        (found : lookup (e.h_t_id, e.device_file_id) w.devices ≡ some d) where
      -- With what fixIP gives.
      fixed-Sound :
          (now : ℕ) (r : Bool × Event)
          → SameAddresses e r.1
          → Ensures Sound (
              if r.0
              then take_sample host fast tid env doubles floats flags avoided agent type config now
                  r.1 t l
              else pure (t, l))
      fixed-Sound now (false, e') same = Ensures-pure Sound (t, l) h
      fixed-Sound now (true, e') (a, b) =
          take_sample-Sound now e' t l (omega (arith, a, room), omega (arith, b, room)) h

      then_taken :
          (now : ℕ) (o : Outcome (Bool × Event)) (r : Bool × Event)
          → o ≡ done r w
          → SameAddresses e r.1
          → Returned Sound (elim o as (λ x. Outcome (ThreadData R × Logic D)) [
            | done r v ↦
                (if r.0
                    then take_sample host fast tid env doubles floats flags avoided agent type
                        config now r.1 t l
                    else pure (t, l))
                  v
            | exited v ↦ exited v
          ])
      then_taken now o r ran same = rw ran ((fixed-Sound now r same).at w)

      fixed_already :
          (b : Bool)
          → d.kind ≡ pebs
          → (r : Bool × Event) × ((if b
                  then pure {A = Bool × Event} (true, e)
                  else fix_ip agent t.slots e)
                w
              ≡ done r w)
            × SameAddresses e r.1
      fixed_already true kind = ((true, e), refl, (refl, refl))
      fixed_already false kind = fix_ip-Same agent t.slots e w d found kind

      tool_pebs_event_handler-Sound :
          (now : ℕ)
          → d.kind ≡ pebs
          → Returned Sound (
              tool_pebs_event_handler host fast tid env doubles floats flags avoided agent type
                config now e t l w)
      unfolding tool_pebs_event_handler
      tool_pebs_event_handler-Sound now kind = elim (Bool-cases (is_kernel_sample e)) [
        | inr f ↦ rw (f, tool_pebs_event_handler) h
        | inl k ↦
            let (r, ran, same) = fixed_already e.is_fixed kind in
            rw (k, tool_pebs_event_handler)
              (then_taken now ((if e.is_fixed then pure (true, e) else fix_ip agent t.slots e) w) r
                ran same)
      ]

      event-Sound :
          (kind : DeviceKind) (fd now : ℕ)
          → d.kind ≡ kind
          → Returned Sound (
              tool_event_handler host fast tid env doubles floats flags avoided agent type config
                kind fd now e t l w)
      unfolding tool_event_handler
      event-Sound pebs fd now kind = tool_pebs_event_handler-Sound now kind
      event-Sound bp fd now kind = (tool_bp_event_handler-Sound fd).at w
      event-Sound ebs fd now kind = h

      -- If the thread's watchpoints are valid and the logic's tree and pending samples consistent,
      -- then so they are whenever the handler of an event returns, for an event of a known device,
      -- of any kind, whose addresses are at least 8 below 2^64, under each logic.
      pub tool_event_handler-Sound :
          (fd now : ℕ)
          → Returned Sound (
              tool_event_handler host fast tid env doubles floats flags avoided agent type config
                d.kind fd now e t l w)
      tool_event_handler-Sound fd now = event-Sound d.kind fd now refl

module _ {R F D S : Type 0} (host : Host) (fast : Bool) (tid : ℕ) (env : Random R F)
    (doubles : Floats D) (floats : Floats S) (flags : Flags) (avoided : Avoided) (agent : Agent)
    (type : WitchLogicType) (config : Config) (now : ℕ) where
  -- The tool's handler, on the state of the thread and of the logic.
  abbrev pub tool_handler : Device → Event → ThreadData R × Logic D → M (ThreadData R × Logic D)
  tool_handler d e s =
      tool_event_handler host fast tid env doubles floats flags avoided agent type config d.kind
        d.file_id now e s.0 s.1
