-- ===== src/Watch/Installed.antt =====
-- That WP_Subscribe sets a watchpoint when a slot is free and the kernel grants what it is asked
-- for: kvmTest/src/tools/witchTool/watchpoint-lib/src/watchpoint.cpp.
use kognizance_tool.Prelude.{
  ℕ, zero, suc, ◌≡◌, refl, Bool, true, false, not, ◌&&◌, Option, some, List, [], ◌∷◌, map,
  if◌then◌else◌,
}
use kognizance_tool.Event.{Event}
use kognizance_tool.Platform.World.{World, Outcome, done, exited, M}
use kognizance_tool.Watch.Address.{validate_wp_data}
use kognizance_tool.Watch.Slots.{Access, RegisterInfo, ThreadData, slot_empty, is_overlapped, bump}
use kognizance_tool.Watch.Victim.{Random, first_inactive, bump_active, get_victim}
use kognizance_tool.Watch.Arm.{Config, has_file, is_breakpoint_length}
use kognizance_tool.Watch.Thread.{is_inst, update_slot, install, wp_subscribe}
use kognizance_tool.Watch.Accepted.{granting, Succeeds, Watches, arm_watch_point-granted}

-- The slot at an index is there, inactive and without a file.
abbrev pub VacantAt : ℕ → List RegisterInfo → Type 0
VacantAt i [] = ⊥
VacantAt zero (w ∷ ws) = (w.is_active ≡ false) × (has_file w ≡ false)
VacantAt (suc i) (w ∷ ws) = VacantAt i ws

-- The slot at an index watches the range, under the file.
abbrev pub WatchedAt : ℕ → ℕ → ℕ → ℕ → List RegisterInfo → Type 0
WatchedAt fd va len i [] = ⊥
WatchedAt fd va len zero (w ∷ ws) = Watches fd va len w
WatchedAt fd va len (suc i) (w ∷ ws) = WatchedAt fd va len i ws

refused_never : {A : Type 0} (b : Bool) (x y : A) → (if not b && false then x else y) ≡ y
refused_never true x y = refl
refused_never false x y = refl

skipped : {A : Type 0} (b : Bool) (x y : A) → b ≡ false → (if b then x else y) ≡ y
skipped false x y e = refl
skipped true x y e = absurd (cc)

bumped-VacantAt : (i : ℕ) (ws : List RegisterInfo) → VacantAt i ws → VacantAt i (map bump_active ws)
unfolding bump
bumped-VacantAt i [] h = h
bumped-VacantAt zero (w ∷ ws) (off, empty) = rw (skipped w.is_active (bump w) w off) (off, empty)
bumped-VacantAt (suc i) (w ∷ ws) h = bumped-VacantAt i ws h

module _ (fd va len : ℕ) where
  head_watched :
      (ws : List RegisterInfo) (o : Outcome (Bool × RegisterInfo))
      → Succeeds {A = Bool × RegisterInfo} (λ r. (r.0 ≡ true) × Watches fd va len r.1) o
      → Succeeds {A = Bool × List RegisterInfo}
          (λ r. (r.0 ≡ true) × WatchedAt fd va len zero r.1)
          (elim o [ exited v ↦ exited v | done r v ↦ done (r.0, r.1 ∷ ws) v ])
  head_watched ws o (r, w, e, (good, h)) = rw e ((r.0, r.1 ∷ ws), w, refl, (good, h))

  tail_watched :
      (i : ℕ) (s : RegisterInfo) (o : Outcome (Bool × List RegisterInfo))
      → Succeeds {A = Bool × List RegisterInfo} (λ r. (r.0 ≡ true) × WatchedAt fd va len i r.1) o
      → Succeeds {A = Bool × List RegisterInfo}
          (λ r. (r.0 ≡ true) × WatchedAt fd va len (suc i) r.1)
          (elim o [ exited v ↦ exited v | done r v ↦ done (r.0, s ∷ r.1) v ])
  tail_watched i s o (r, w, e, (good, h)) = rw e ((r.0, s ∷ r.1), w, refl, (good, h))

  update_slot-WatchedAt :
      (i : ℕ) (f : RegisterInfo → M (Bool × RegisterInfo)) (ws : List RegisterInfo) (w : World)
      → VacantAt i ws
      → ((s : RegisterInfo)
          → s.is_active ≡ false
          → has_file s ≡ false
          → Succeeds {A = Bool × RegisterInfo} (λ r. (r.0 ≡ true) × Watches fd va len r.1) (f s w))
      → Succeeds {A = Bool × List RegisterInfo}
          (λ r. (r.0 ≡ true) × WatchedAt fd va len i r.1)
          (update_slot i f ws w)
  unfolding update_slot
  update_slot-WatchedAt i f [] w h k = absurd h
  update_slot-WatchedAt zero f (s ∷ ss) w (off, empty) k = head_watched ss _ (k s off empty)
  update_slot-WatchedAt (suc i) f (s ∷ ss) w h k =
      tail_watched i s _ (update_slot-WatchedAt i f ss w h k)

  thread_watched :
      {R : Type 0} (i : ℕ) (t : ThreadData R) (o : Outcome (Bool × List RegisterInfo))
      → Succeeds {A = Bool × List RegisterInfo} (λ r. (r.0 ≡ true) × WatchedAt fd va len i r.1) o
      → Succeeds {A = Bool × ThreadData R}
          (λ r. (r.0 ≡ true) × WatchedAt fd va len i r.1.slots)
          (elim o [ exited v ↦ exited v | done r v ↦ done (r.0, record t { slots = r.1 }) v ])
  thread_watched i t o (r, w, e, (good, h)) =
      rw e ((r.0, record t { slots = r.1 }), w, refl, (good, h))

  module _ {R F : Type 0} (env : Random R F) (fast : Bool) (tid : ℕ) (config : Config)
      (t : ThreadData R) (access : Access) (sample : Option Event) (now : ℕ) (w : World) where
    module _ (i : ℕ) (native : w.is_agent_kvm ≡ false)
        (admissible : is_breakpoint_length len ≡ true) (first : first_inactive t.slots ≡ some i)
        (vacant : VacantAt i t.slots) where
      victim_found : get_victim env config.replacement_policy t.slots t.rand_buffer ≡ record {
        victim = slot_empty;
        location = some i;
        slots = map bump_active t.slots;
        rand = t.rand_buffer;
      }
      unfolding get_victim
      victim_found = rw (first, get_victim) refl

      installed :
          Succeeds {A = Bool × ThreadData R}
            (λ r. (r.0 ≡ true) × WatchedAt fd va len i r.1.slots)
            (install (granting fd) fast tid env config t va len access sample now w)
      unfolding install
      installed =
          rw (victim_found, install)
            (rw victim_found (
              rw victim_found (
                thread_watched i (record t { slots = map bump_active t.slots }) _
                  (update_slot-WatchedAt i _ (map bump_active t.slots) w
                    (bumped-VacantAt i t.slots vacant)
                    λ s off empty.
                      arm_watch_point-granted fd tid fast config s len access va sample now w native
                        off empty admissible))))

      -- Without the KVM agent, and with a kernel that grants every call, subscribing to a validated
      -- range of an admissible length that overlaps no active watchpoint succeeds if the first
      -- inactive slot has no file, and then this slot watches the range.
      pub wp_subscribe-granted :
          validate_wp_data va len ≡ true
          → is_overlapped va len t.slots ≡ false
          → Succeeds {A = Bool × ThreadData R}
              (λ r. (r.0 ≡ true) × WatchedAt fd va len i r.1.slots)
              (wp_subscribe (granting fd) fast tid env config t va len access sample now w)
      unfolding wp_subscribe
      wp_subscribe-granted ok free =
          rw (ok, free, wp_subscribe) (rw (refused_never (is_inst access) _ _) installed)
