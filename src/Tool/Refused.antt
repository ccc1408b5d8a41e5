-- ===== src/Tool/Refused.antt =====
-- The tool under the native agent, kvmTest/src/agent/nativeAgent/myagent.cpp, which reads no values.
use kognizance_tool.Prelude.{
  ℕ, ◌≡◌, refl, Bool, true, false, Option, none, some, List, if◌then◌else◌, Bool-cases,
  Option-cases, inl, inr,
}
use kognizance_tool.Event.{Event}
use kognizance_tool.Decoder.{Xed}
use kognizance_tool.Native.{native_agent}
use kognizance_tool.Platform.World.{Device, Host, pure}
use kognizance_tool.Platform.Devices.{get_device}
use kognizance_tool.Platform.Ensures.{Ensures, Ensures-pure, Ensures-if, Ensures-bind, Ensures-then}
use kognizance_tool.Watch.Address.{is_pc_sane}
use kognizance_tool.Watch.Slots.{RegisterInfo, ThreadData}
use kognizance_tool.Watch.Victim.{Random}
use kognizance_tool.Watch.Arm.{Config}
use kognizance_tool.Witch.Tree.{Floats}
use kognizance_tool.Witch.Totals.{Logic}
use kognizance_tool.Witch.Logics.{WitchLogicType, Flags}
use kognizance_tool.Tool.Fix.{
  patched_ip, resolve_access, read_values, fix_at, fixed_or, fix_from, fix_ip,
}
use kognizance_tool.Tool.Handlers.{Avoided, is_kernel_sample, take_sample, tool_pebs_event_handler}

module _ {I : Type 0} (xed : Xed I) (symbols : List ℕ) where
  read_values-native : (e : Event) → read_values (native_agent xed symbols) e ≡ none
  unfolding read_values native_agent
  read_values-native e = refl

  fix_at-native :
      (d : Device) (ip : ℕ) (e : Event) → fix_at (native_agent xed symbols) d ip e ≡ none
  unfolding fix_at
  fix_at-native d ip e = elim (Bool-cases (is_pc_sane e.h_ip_addr ip)) [
    | inr f ↦ rw (f, fix_at) refl
    | inl t ↦
        elim (Option-cases (
          resolve_access (native_agent xed symbols) d.kind
            (record e { fixed_ip = ip; h_ip_addr = ip }))) [
              | inl n ↦ rw (t, n, fix_at) refl
              | inr (r, s) ↦ rw (t, s, fix_at) (read_values-native r)
            ]
  ]

  fix_from-native :
      (slots : List RegisterInfo) (e : Event) (found : Option Device)
      → Ensures (λ r. r.0 ≡ false) (fix_from (native_agent xed symbols) slots e found)
  unfolding fix_from
  fix_from-native slots e none = Ensures-pure _ (false, e) refl
  fix_from-native slots e (some d) =
      Ensures-then _ (patched_ip (native_agent xed symbols) slots d e.h_ip_addr) _ λ ip.
        Ensures-pure _ (fixed_or e (fix_at (native_agent xed symbols) d ip e))
          (rw (fix_at-native d ip e) refl)

  fix_ip-native :
      (slots : List RegisterInfo) (e : Event)
      → Ensures (λ r. r.0 ≡ false) (fix_ip (native_agent xed symbols) slots e)
  unfolding fix_ip
  fix_ip-native slots e =
      Ensures-then _ (get_device e.h_t_id e.device_file_id) _ λ found. fix_from-native slots e found

  module _ {R F D S : Type 0} (host : Host) (fast : Bool) (tid : ℕ) (env : Random R F)
      (doubles : Floats D) (floats : Floats S) (flags : Flags) (avoided : Avoided)
      (type : WitchLogicType) (config : Config) (now : ℕ) (e : Event) (t : ThreadData R)
      (l : Logic D) where
    unfixed :
        (r : Bool × Event)
        → r.0 ≡ false
        → Ensures
            (λ q. q ≡ (t, l))
            (if r.0
              then take_sample host fast tid env doubles floats flags avoided
                  (native_agent xed symbols)
                  type
                  config
                  now
                  r.1
                  t
                  l
              else pure (t, l))
    unfixed (true, e') h = absurd (cc)
    unfixed (false, e') h = Ensures-pure _ (t, l) refl

    by_flag :
        (b : Bool)
        → b ≡ false
        → Ensures
            (λ r. r.0 ≡ false)
            (if b
              then pure {A = Bool × Event} (true, e)
              else fix_ip (native_agent xed symbols) t.slots e)
    by_flag true h = absurd (cc)
    by_flag false h = fix_ip-native t.slots e

    -- Under the native agent, a sample that is not marked as fixed leaves the thread's watchpoints
    -- and the logic as they were, whenever its handler returns: no watchpoint is ever asked for.
    pub tool_pebs_event_handler-native :
        e.is_fixed ≡ false
        → Ensures
            (λ q. q ≡ (t, l))
            (tool_pebs_event_handler host fast tid env doubles floats flags avoided
              (native_agent xed symbols)
              type
              config
              now
              e
              t
              l)
    unfolding tool_pebs_event_handler
    tool_pebs_event_handler-native open_event =
        Ensures-if _ (is_kernel_sample e) _ _
          (Ensures-bind (λ r. r.0 ≡ false) _
            (if e.is_fixed then pure (true, e) else fix_ip (native_agent xed symbols) t.slots e) _
            (by_flag e.is_fixed open_event) unfixed)
          (Ensures-pure _ (t, l) refl)
