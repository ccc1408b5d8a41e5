-- ===== src/Platform/Agent.antt =====
-- What an agent does for a device: kvmTest/src/agent/kvmAgent/myagent.cpp where the agent is KVM's,
-- kvmTest/src/agent/nativeAgent/myagent.cpp where it is not. A subscript of a `std::map` enters the
-- default value where the key is missing, and so it does here.
use kognizance_tool.Prelude.{
  ℕ, suc, Bool, true, false, Option, none, some, List, [], ◌∷◌, map, ◌&&◌, if◌then◌else◌, replicate,
  set,
}
use kognizance_tool.Prelude.Map.{lookup, insert, nat_key}
use kognizance_tool.Platform.World.{
  DeviceKind, bp, Device, Call, get_vcpu, update_bp, pause_bp, resume_bp, Host, Kvm, M, ◌>>=◌, ◌>>◌,
  pure, get_world, put_world, call, call_file, same_option, option_key,
}
use mathlib.Core.Option

-- HBP_NUM
abbrev pub hbp_num : ℕ
hbp_num = 4

abbrev pub is_bp : DeviceKind → Bool
is_bp bp = true
is_bp _ = false

-- `deviceVCPUMap[fd]`
unfoldable pub vcpu_of : ℕ → Kvm → Option ℕ × Kvm
vcpu_of fd k = elim (lookup fd k.device_vcpu) [
  | some v ↦ (v, k)
  | none ↦ (some 0, record k { device_vcpu = insert fd (some 0) k.device_vcpu })
]

-- `VCPUBPdeviceSlotMap[vcpu]`
unfoldable pub slots_of : Option ℕ → Kvm → List (Option ℕ) × Kvm
slots_of v k = elim (lookup v k.vcpu_slots) [
  | some ss ↦ (ss, k)
  | none ↦ (
    replicate hbp_num (some 0),
    record k { vcpu_slots = insert v (replicate hbp_num (some 0)) k.vcpu_slots },
  )
]

-- The first slot that holds the value.
unfoldable pub slot_index : Option ℕ → List (Option ℕ) → Option ℕ
slot_index x [] = none
slot_index x (s ∷ ss) =
    let rest = Option.map suc (slot_index x ss) in if same_option s x then some 0 else rest

-- Where the loops over the breakpoint slots stop: the VCPU and the slot of a device, if it has any.
unfoldable pub bp_place : ℕ → Kvm → Option (Option ℕ × ℕ) × Kvm
bp_place fd k =
    if k.connected
    then (let (v, k') = vcpu_of fd k in
        elim v [
          | none ↦ (none, k')
          | some n ↦
              let (ss, k'') = slots_of (some n) k' in
              (Option.map (λ b. (some n, b)) (slot_index (some fd) ss), k'')
        ])
    else (none, k)

-- MyAgent::registerDevice of the KVM agent for the answer of getVCPU, up to the call of
-- updateBPAddress; the second part tells whether it comes to that call.
unfoldable pub take_slot : ℕ → Bool → Option ℕ → Kvm → Kvm × Bool
take_slot fd breakpoint v k =
    let known = record k { device_vcpu = insert fd v k.device_vcpu } in
    if breakpoint
    then elim (lookup v k.vcpu_slots) [
      | none ↦
          (record known { vcpu_slots = insert v (some fd ∷ replicate 3 none) k.vcpu_slots }, true)
      | some ss ↦ elim (slot_index none ss) [
        | some b ↦ (record known { vcpu_slots = insert v (set ss b (some fd)) k.vcpu_slots }, true)
        | none ↦ (record known { device_vcpu = insert fd none known.device_vcpu }, false)
      ]
    ]
    else (known, false)

-- MyAgent::unRegisterDevice of the KVM agent.
unfoldable pub free_slots : ℕ → Bool → Kvm → Kvm
free_slots fd breakpoint k =
    let cleared =
      (if breakpoint
        then (let (v, k') = vcpu_of fd k in
            let (ss, k'') = slots_of v k' in
            record k'' {
              vcpu_slots =
                  insert v (map (λ s. if same_option s (some fd) then none else s) ss)
                    k''.vcpu_slots;
            })
        else k) in
    record cleared { device_vcpu = insert fd none cleared.device_vcpu }

module _ (host : Host) where
  -- A request to the hypervisor for the place of a device.
  unfoldable pub at_place : ℕ → (Option ℕ → ℕ → Call) → M Bool
  at_place fd request w =
      if w.is_agent_kvm
      then (let (place, k) = bp_place fd w.kvm in
          let v = record w { kvm = k } in
          elim place [ none ↦ pure false v | some (vcpu, b) ↦ call host (request vcpu b) v ])
      else pure false w

  -- MyAgent::updateBPAddress
  unfoldable pub agent_update_bp : ℕ → ℕ → ℕ → ℕ → M Bool
  agent_update_bp fd len bp_type addr = at_place fd λ v b. update_bp v len bp_type addr b

  -- MyAgent::pauseDevice
  unfoldable pub pause_device : Device → M Bool
  pause_device d = at_place d.file_id λ v b. pause_bp v d.length d.bp_type b

  -- MyAgent::resumeDevice
  unfoldable pub resume_device : Device → M Bool
  resume_device d = at_place d.file_id λ v b. resume_bp v d.length d.bp_type b

  -- MyAgent::registerDevice
  unfoldable pub agent_register : Device → M Unit
  agent_register d w =
      if w.is_agent_kvm && w.kvm.connected
      then (do
        v ← call_file host get_vcpu
        u ← get_world
        let taken = take_slot d.file_id (is_bp d.kind) v u.kvm
        put_world (record u { kvm = taken.0 })
        if taken.1
            then (do agent_update_bp d.file_id d.length d.bp_type d.address; pure tt)
            else pure tt)
          w
      else pure tt w

-- MyAgent::unRegisterDevice
unfoldable pub agent_unregister : Device → M Unit
agent_unregister d w =
    if w.is_agent_kvm
    then pure tt (record w { kvm = free_slots d.file_id (is_bp d.kind) w.kvm })
    else pure tt w
