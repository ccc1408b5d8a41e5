-- ===== src/Tool/Kept.antt =====
-- What fixIP, kvmTest/src/tools/witchTool/mytool.cpp, keeps of a sample's event, and what it makes
-- of any event under the native agent.
use kognizance_tool.Prelude.{
  ◌≡◌, refl, ap, ◌∙◌, Bool, false, Option, none, some, List, Bool-cases, Option-cases, inl, inr,
}
use kognizance_tool.Prelude.Map.{lookup, pair_key}
use kognizance_tool.Event.{Event}
use kognizance_tool.AgentApi.{Agent}
use kognizance_tool.Platform.World.{pebs, Device, World, done}
use kognizance_tool.Platform.Devices.{get_device}
use kognizance_tool.Watch.Address.{is_pc_sane}
use kognizance_tool.Watch.Slots.{RegisterInfo}
use kognizance_tool.Witch.Stores.{is_unknown}
use kognizance_tool.Tool.Fix.{
  patched_ip, known_access, resolve_access, read_values, fix_at, fixed_or, fix_from, fix_ip,
}

-- The addresses that a watchpoint can be set at.
abbrev pub SameAddresses : Event → Event → Type 0
SameAddresses e f = (f.h_data_addr ≡ e.h_data_addr) × (f.h_ip_addr ≡ e.h_ip_addr)

abbrev Keeps : Event → Option Event → Type 0
Keeps e none = Unit
Keeps e (some f) = SameAddresses e f

resolve_access-Keeps : (agent : Agent) (e : Event) → Keeps e (resolve_access agent pebs e)
unfolding resolve_access
resolve_access-Keeps agent e = elim (Bool-cases (is_unknown e.access_type)) [
  | inr f ↦ rw (f, resolve_access) (refl, refl)
  | inl t ↦ elim (Option-cases (agent.mem_access false e.h_ip_addr (known_access e))) [
    | inl n ↦ rw (t, n, resolve_access) tt
    | inr (a, s) ↦ rw (t, s, resolve_access) (refl, refl)
  ]
]

read_values-Keeps : (agent : Agent) (e : Event) → Keeps e (read_values agent e)
unfolding read_values
read_values-Keeps agent e = elim (Option-cases (agent.value_at e.data_addr e.access_length)) [
  | inl n ↦ rw (n, read_values) tt
  | inr (v, s) ↦ elim (Option-cases (agent.value_at e.fixed_ip 4)) [
    | inl n ↦ rw (s, n, read_values) tt
    | inr (c, k) ↦ rw (s, k, read_values) (refl, refl)
  ]
]

Keeps-trans : (e f : Event) (o : Option Event) → SameAddresses e f → Keeps f o → Keeps e o
Keeps-trans e f none h k = tt
Keeps-trans e f (some g) (a, b) (c, d) = (c ∙ a, d ∙ b)

fix_at-Keeps :
    (agent : Agent) (d : Device) (e : Event)
    → d.kind ≡ pebs
    → Keeps e (fix_at agent d e.h_ip_addr e)
unfolding fix_at
fix_at-Keeps agent d e kind =
    let e1 : Event = record e { fixed_ip = e.h_ip_addr } in
    let o : Option Event = resolve_access agent pebs e1 in
    let first : Keeps e o = resolve_access-Keeps agent e1 in
    elim (Bool-cases (is_pc_sane e.h_ip_addr e.h_ip_addr)) [
      | inr f ↦ rw (f, fix_at) tt
      | inl t ↦ elim (Option-cases o) [
        | inl n ↦ rw (t, kind, n, fix_at) tt
        | inr (f, s) ↦
            let same : SameAddresses e f = rw s at first in
            rw (t, kind, s, fix_at)
              (Keeps-trans e f (read_values agent f) same (read_values-Keeps agent f))
      ]
    ]

fixed_or-Same : (e : Event) (o : Option Event) → Keeps e o → SameAddresses e (fixed_or e o).1
fixed_or-Same e none h = (refl, refl)
fixed_or-Same e (some f) h = h

module _ (agent : Agent) (slots : List RegisterInfo) (e : Event) (w : World) (d : Device)
    (found : lookup (e.h_t_id, e.device_file_id) w.devices ≡ some d) where
  -- An event of a PEBS device keeps its addresses, fixed or not.
  pub fix_ip-Same :
      d.kind ≡ pebs → (r : Bool × Event) × (fix_ip agent slots e w ≡ done r w) × SameAddresses e r.1
  unfolding fix_ip fix_from get_device patched_ip
  fix_ip-Same kind =
      let o = fix_at agent d e.h_ip_addr e in
      let ran : fix_from agent slots e (some d) w ≡ done (fixed_or e o) w =
        rw (kind, fix_from, patched_ip) refl in
      (
        fixed_or e o,
        ap (λ x. fix_from agent slots e x w) found ∙ ran,
        fixed_or-Same e o (fix_at-Keeps agent d e kind),
      )
