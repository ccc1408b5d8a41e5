-- ===== src/Watch/Accepted.antt =====
-- That a watchpoint is set when the kernel grants what it is asked for, WP_Subscribe's way through
-- kvmTest/src/tools/witchTool/watchpoint-lib/src/watchpoint.cpp and
-- kvmTest/src/platform/device/device.cpp.
use kognizance_tool.Prelude.{
  ℕ, ◌≡◌, refl, ap, Bool, true, false, Option, none, some, ◌&&◌, if◌then◌else◌,
}
use kognizance_tool.Prelude.Map.{lookup, nat_key}
use kognizance_tool.Event.{Event}
use kognizance_tool.Platform.World.{
  Host, World, Outcome, done, exited, M, pure, exit, ◌>>=◌, call, call_file, check, Device,
}
use kognizance_tool.Platform.Agent.{agent_register}
use kognizance_tool.Platform.Devices.{
  store_device, add_new_device, add_new_device_to_session, enter_device, register_device,
}
use kognizance_tool.Platform.Sessions.{get_session_key}
use kognizance_tool.Watch.Slots.{Access, RegisterInfo}
use kognizance_tool.Watch.Arm.{
  Config, has_file, is_breakpoint_length, breakpoint_type, new_bp_device, mark_armed,
  open_watch_point, dis_arm, create_watch_point, arm_watch_point,
}

-- A kernel that grants every call, with the file `fd`.
abbrev pub granting : ℕ → Host
granting fd = record { file = λ t c. some fd; success = λ t c. true }

-- The operation returns a value with the property.
abbrev pub Succeeds : {A : Type 0} → (A → Type 0) → Outcome A → Type 0
Succeeds {A} Q o = (a : A) × (w : World) × (o ≡ done a w) × Q a

register_device-granted :
    (fd tid s : ℕ) (d : Device) (w : World)
    → w.is_agent_kvm ≡ false
    → Succeeds (λ r. (r.0 ≡ true) × (r.1.file_id ≡ fd)) (register_device (granting fd) tid s d w)
unfolding register_device enter_device check call call_file store_device add_new_device
    add_new_device_to_session agent_register
register_device-granted fd tid s d w h = rw (h, register_device) (_, _, refl, (refl, refl))

-- A slot watches the range, under the file.
abbrev pub Watches : ℕ → ℕ → ℕ → RegisterInfo → Type 0
Watches fd va len w =
    (w.is_active ≡ true) × (w.va ≡ va) × (w.wp_length ≡ len) × (w.file_handle ≡ some fd)

registered_slot :
    (fd tid key len bp_type va : ℕ) (slot : RegisterInfo) (sample : Option Event) (now : ℕ)
    (o : Outcome (Bool × Device))
    → Succeeds (λ r. (r.0 ≡ true) × (r.1.file_id ≡ fd)) o
    → Succeeds (Watches fd va len) (elim o [
      | exited v ↦ exited v
      | done r v ↦
          done
            (if r.0
              then mark_armed va len sample now
                  (record slot { file_handle = some r.1.file_id; mmap_buffer = r.1.mapped })
              else record slot { file_handle = none })
            v
    ])
unfolding mark_armed
registered_slot fd tid key len bp_type va slot sample now o (r, w, e, (good, file)) =
    rw e (_, w, refl, rw good (refl, refl, refl, ap some file))

session_case :
    {B : Type 0} (Q : B → Type 0) (o : Option ℕ) (f : ℕ → M B) (w : World)
    → ((s : ℕ) → Succeeds Q (f s w))
    → Succeeds Q (((λ v. elim o [ some s ↦ pure s v | none ↦ pure 0 v ]) >>= f) w)
session_case Q none f w h = h 0
session_case Q (some s) f w h = h s

open_watch_point-granted :
    (fd tid : ℕ) (fast : Bool) (slot : RegisterInfo) (len bp_type va : ℕ) (sample : Option Event)
    (now : ℕ) (w : World)
    → w.is_agent_kvm ≡ false
    → Succeeds
        (Watches fd va len)
        (open_watch_point (granting fd) fast tid slot len bp_type va sample now w)
unfolding open_watch_point get_session_key
open_watch_point-granted fd tid fast slot len bp_type va sample now w native =
    session_case _ (lookup tid w.session_keys) _ w λ key.
      registered_slot fd tid key len bp_type va slot sample now _
        (register_device-granted fd tid key (new_bp_device len bp_type va) w native)

armed_slot :
    (fd va len : ℕ) (o : Outcome RegisterInfo)
    → Succeeds (Watches fd va len) o
    → Succeeds {A = Bool × RegisterInfo}
        (λ r. (r.0 ≡ true) × Watches fd va len r.1)
        (elim o [ exited v ↦ exited v | done s v ↦ done (has_file s, s) v ])
armed_slot fd va len o (s, w, e, q) = rw e ((has_file s, s), w, refl, (rw (q.3) refl, q))

-- The tests of ArmWatchPoint, passed one by one.
armed_slot_of :
    (fd va len : ℕ) (slot : RegisterInfo) (w : World) (m : M (Bool × RegisterInfo))
    (d : M RegisterInfo) (c c' : RegisterInfo → M RegisterInfo) (b file active ok : Bool)
    → file ≡ false
    → active ≡ false
    → ok ≡ true
    → Succeeds (Watches fd va len) (c slot w)
    → Succeeds {A = Bool × RegisterInfo}
        (λ r. (r.0 ≡ true) × Watches fd va len r.1)
        ((if b && file then m else (do
          old ← (if active then d else pure slot)
          created ← (if ok then c old else c' old)
          pure (has_file created, created)))
          w)
armed_slot_of fd va len slot w m d c c' true false false true e f g h = armed_slot fd va len _ h
armed_slot_of fd va len slot w m d c c' false false false true e f g h = armed_slot fd va len _ h
armed_slot_of fd va len slot w m d c c' b true active ok e f g h = absurd (cc)
armed_slot_of fd va len slot w m d c c' b false true ok e f g h = absurd (cc)
armed_slot_of fd va len slot w m d c c' b false false false e f g h = absurd (cc)

-- Without the KVM agent, and with a kernel that grants every call, arming an inactive slot without
-- a file for an admissible length returns success and the slot watching the range.
pub arm_watch_point-granted :
    (fd tid : ℕ) (fast : Bool) (config : Config) (slot : RegisterInfo) (len : ℕ) (access : Access)
    (va : ℕ) (sample : Option Event) (now : ℕ) (w : World)
    → w.is_agent_kvm ≡ false
    → slot.is_active ≡ false
    → has_file slot ≡ false
    → is_breakpoint_length len ≡ true
    → Succeeds
        (λ r. (r.0 ≡ true) × Watches fd va len r.1)
        (arm_watch_point (granting fd) fast tid config slot len access va sample now w)
unfolding arm_watch_point create_watch_point
arm_watch_point-granted fd tid fast config slot len access va sample now w native idle empty k =
    armed_slot_of fd va len slot w
      (create_watch_point (granting fd) fast tid slot len access va true sample now >>= λ modified.
        pure (true, modified))
      (dis_arm (granting fd) fast tid slot)
      (λ old.
        open_watch_point (granting fd) fast tid old len (breakpoint_type access) va sample now)
      (λ old. exit) (config.is_wp_modify_enabled) (has_file slot) slot.is_active
      (is_breakpoint_length len) empty idle k
      (open_watch_point-granted fd tid fast slot len (breakpoint_type access) va sample now w
        native)
