-- ===== src/Platform/Places.antt =====
-- The breakpoint slots of a virtual CPU, as the KVM agent of
-- kvmTest/src/agent/kvmAgent/myagent.cpp hands them out and takes them back.
use kognizance_tool.Prelude.{
  ℕ, zero, suc, ◌≡◌, refl, inl, inr, ◌≢◌, true, Option, none, some, List, [], ◌∷◌, map, set,
  replicate, arith, Bool-cases, Option-cases, if◌then◌else◌, ==_iff, ◌==◌,
}
use kognizance_tool.Prelude.Map.{lookup, insert, lookup-insert, lookup-insert_self, nat_key}
use kognizance_tool.Platform.World.{Kvm, same_option, same_option_iff, option_key}
use kognizance_tool.Platform.Agent.{vcpu_of, slots_of, slot_index, bp_place, take_slot, free_slots}

slot_index-set_self :
    (fd b : ℕ) (ss : List (Option ℕ))
    → slot_index none ss ≡ some b
    → (c : ℕ) × (slot_index (some fd) (set ss b (some fd)) ≡ some c)
unfolding slot_index
slot_index-set_self fd b [] h = cc
slot_index-set_self fd zero (s ∷ ss) h = (0, ground (arith, ==_iff fd fd))
slot_index-set_self fd (suc b) (s ∷ ss) h =
    let (c, e) = slot_index-set_self fd b ss (ground arith) in
    elim (Bool-cases (same_option s (some fd))) [
      | inl hit ↦ (0, ground arith)
      | inr miss ↦ (suc c, ground arith)
    ]

slot_index-set_other :
    (fd g b : ℕ) (ss : List (Option ℕ))
    → g ≢ fd
    → slot_index none ss ≡ some b
    → slot_index (some g) (set ss b (some fd)) ≡ slot_index (some g) ss
unfolding slot_index
slot_index-set_other fd g b [] n h = refl
slot_index-set_other fd g zero (s ∷ ss) n h = ground (arith, ==_iff fd g)
slot_index-set_other fd g (suc b) (s ∷ ss) n h = ground (arith, slot_index-set_other fd g b ss n)

slot_index-clear :
    (fd : ℕ) (ss : List (Option ℕ))
    → slot_index (some fd) (map (λ s. if same_option s (some fd) then none else s) ss) ≡ none
unfolding slot_index
slot_index-clear fd [] = refl
slot_index-clear fd (s ∷ ss) = ground (arith, slot_index-clear fd ss, same_option_iff s (some fd))

slot_index-clear_other :
    (fd g : ℕ) (ss : List (Option ℕ))
    → g ≢ fd
    → slot_index (some g) (map (λ s. if same_option s (some fd) then none else s) ss)
      ≡ slot_index (some g) ss
unfolding slot_index
slot_index-clear_other fd g [] n = refl
slot_index-clear_other fd g (s ∷ ss) n = ground (
  arith,
  slot_index-clear_other fd g ss n,
  same_option_iff s (some fd),
  same_option_iff s (some g),
)

-- `take_slot` where the virtual CPU has its slots already, and where it has none yet.
module _ (fd n : ℕ) (k : Kvm) (connected : k.connected ≡ true) where
  placed_at :
      (ss : List (Option ℕ)) (b : ℕ) (k' : Kvm)
      → k'.connected ≡ true
      → lookup fd k'.device_vcpu ≡ some (some n)
      → lookup (some n) k'.vcpu_slots ≡ some ss
      → slot_index (some fd) ss ≡ some b
      → (bp_place fd k').0 ≡ some (some n, b)
  unfolding bp_place vcpu_of slots_of
  placed_at ss b k' c e f g = ground arith

  -- If the agent is connected and goes on to program a new breakpoint device, it finds the device
  -- at a slot of the virtual CPU that it was registered for.
  pub take_slot-placed :
      (take_slot fd true (some n) k).1 ≡ true
      → (b : ℕ) × ((bp_place fd (take_slot fd true (some n) k).0).0 ≡ some (some n, b))
  unfolding take_slot
  take_slot-placed h = elim (Option-cases (lookup (some n) k.vcpu_slots)) [
    | inl e ↦
        rw (e, take_slot)
          (
            0,
            placed_at (some fd ∷ replicate 3 none) 0 _ connected (lookup-insert_self fd _ _)
                (lookup-insert_self (some n) _ _)
                (unfold slot_index in ground (arith, ==_iff fd fd)),
          )
    | inr (ss, e) ↦ elim (Option-cases (slot_index none ss)) [
      | inl f ↦ absurd (ground arith)
      | inr (b, f) ↦
          let (c, q) = slot_index-set_self fd b ss f in
          rw (e, f, take_slot)
            (
              c,
              placed_at (set ss b (some fd)) c _ connected (lookup-insert_self fd _ _)
                  (lookup-insert_self (some n) _ _) q,
            )
    ]
  ]

place_kept :
    (g m : ℕ) (k k' : Kvm) (ts ts' : List (Option ℕ))
    → k'.connected ≡ k.connected
    → lookup g k.device_vcpu ≡ some (some m)
    → lookup g k'.device_vcpu ≡ some (some m)
    → lookup (some m) k.vcpu_slots ≡ some ts
    → lookup (some m) k'.vcpu_slots ≡ some ts'
    → slot_index (some g) ts' ≡ slot_index (some g) ts
    → (bp_place g k').0 ≡ (bp_place g k).0
unfolding bp_place vcpu_of slots_of
place_kept g m k k' ts ts' a b c d e f = ground arith

-- Registering one breakpoint device, whether it finds a slot or not, keeps the place of every other
-- device that has a virtual CPU with slots.
take_slot-others :
    (fd g n m : ℕ) (k : Kvm) (ts : List (Option ℕ))
    → g ≢ fd
    → lookup g k.device_vcpu ≡ some (some m)
    → lookup (some m) k.vcpu_slots ≡ some ts
    → (bp_place g (take_slot fd true (some n) k).0).0 ≡ (bp_place g k).0
unfolding take_slot
take_slot-others fd g n m k ts d a b = elim (Option-cases (lookup (some n) k.vcpu_slots)) [
  | inl e ↦
      rw (e, take_slot)
        (place_kept g m k _ ts ts refl a
          (ground (arith, lookup-insert fd g (some n) k.device_vcpu, ==_iff fd g)) b
          (ground (
            arith,
            ==_iff n m,
            lookup-insert (some n) (some m) (some fd ∷ replicate 3 none) k.vcpu_slots,
          ))
          refl)
  | inr (ss, e) ↦ elim (Option-cases (slot_index none ss)) [
    | inl f ↦
        rw (e, f, take_slot)
          (place_kept g m k _ ts ts refl a
            (ground (
              arith,
              lookup-insert fd g none (insert fd (some n) k.device_vcpu),
              lookup-insert fd g (some n) k.device_vcpu,
              ==_iff fd g,
            ))
            b b refl)
    | inr (c, f) ↦
        rw (e, f, take_slot)
          (place_kept g m k _ ts (if n == m then set ss c (some fd) else ts) refl a
            (ground (arith, lookup-insert fd g (some n) k.device_vcpu, ==_iff fd g)) b
            (ground (
              arith,
              ==_iff n m,
              lookup-insert (some n) (some m) (set ss c (some fd)) k.vcpu_slots,
            ))
            (ground (arith, ==_iff n m, slot_index-set_other fd g c ss d f)))
  ]
]

-- An unregistered breakpoint device has no place any more: its entries among the slots of its
-- virtual CPU are free, and those of the other devices stay where they were.
pub free_slots-placed :
    (fd : ℕ) (v : Option ℕ) (k : Kvm) (ss : List (Option ℕ))
    → lookup fd k.device_vcpu ≡ some v
    → lookup v k.vcpu_slots ≡ some ss
    → ((bp_place fd (free_slots fd true k)).0 ≡ none)
      × ((ss' : List (Option ℕ)) × (lookup v (free_slots fd true k).vcpu_slots ≡ some ss')
          × (slot_index (some fd) ss' ≡ none)
          × ((g : ℕ) → g ≢ fd → slot_index (some g) ss' ≡ slot_index (some g) ss))
unfolding free_slots bp_place vcpu_of slots_of
free_slots-placed fd v k ss e f = (
  ground (arith, lookup-insert_self fd none k.device_vcpu),
  (
    map (λ s. if same_option s (some fd) then none else s) ss,
    ground (
      arith,
      lookup-insert_self v (map (λ s. if same_option s (some fd) then none else s) ss) k.vcpu_slots,
    ),
    slot_index-clear fd ss,
    λ g d. slot_index-clear_other fd g ss d,
  ),
)
