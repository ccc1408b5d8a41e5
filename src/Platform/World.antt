-- ===== src/Platform/World.antt =====
-- The state that the platform layer keeps (kvmTest/includes/platform/platform.hpp), the devices
-- (kvmTest/includes/platform/device/*.hpp), the tables of the KVM agent
-- (kvmTest/includes/agent/kvmAgent/myagent.hpp), and the monad of code that calls the kernel or the
-- hypervisor and may end the process. The locks are left out: each operation takes its lock for
-- the whole of its body.
use kognizance_tool.Prelude.{
  ℕ, ◌≡◌, ◌↔◌, Bool, true, false, Option, none, some, List, ◌∷◌, ◌==◌, ltb, if◌then◌else◌, arith,
}
use kognizance_tool.Prelude.Map.{Map, Key}
use kognizance_tool.Event.{Event, AccessType}

pub data DeviceKind : Type 0 where
  ebs pebs bp : DeviceKind

-- Device with the fields of its subclasses: `length`, `bp_type` and `address` are those of
-- BPDevice, `access_type` that of PEBSDevice and EBSDevice.
pub record Device : Type 0 where
  pub kind : DeviceKind
  pub file_id : ℕ
  pub session_id : ℕ
  pub mapped : Bool
  pub is_disabled : Bool
  pub length : ℕ
  pub bp_type : ℕ
  pub address : ℕ
  pub access_type : AccessType

-- The calls of the kernel and of the hypervisor.
pub data Call : Type 0 where
  perf_event_open : DeviceKind → ℕ → ℕ → ℕ → Call
  mmap_buffer munmap_buffer close_file set_async set_signal set_owner : ℕ → Call
  set_action : Call
  ioctl_disable ioctl_refresh : ℕ → Call
  ioctl_modify : ℕ → ℕ → ℕ → ℕ → Call
  get_vcpu : Call
  event_state : ℕ → ℕ → Call
  update_bp : Option ℕ → ℕ → ℕ → ℕ → ℕ → Call
  pause_bp resume_bp : Option ℕ → ℕ → ℕ → ℕ → Call

-- The answers of the kernel and the hypervisor, which may depend on all earlier calls: a file or a
-- number (`none` for -1), and whether a call succeeded.
pub record Host : Type 0 where
  pub file : List Call → Call → Option ℕ
  pub success : List Call → Call → Bool

-- The tables of the KVM agent. A `none` stands for -1.
pub record Kvm : Type 0 where
  pub connected : Bool
  pub device_vcpu : Map ℕ (Option ℕ)
  pub vcpu_slots : Map (Option ℕ) (List (Option ℕ))

-- A session key k is the number k + 1, and 0 is the key -1.
pub record World : Type 0 where
  pub is_agent_kvm : Bool
  pub request_will_be_notified : Bool
  pub kvm : Kvm
  pub devices : Map (ℕ × ℕ) Device
  pub device_sessions : List (ℕ × ℕ)
  pub events : Map ℕ Event
  pub thread_sessions : Map ℕ ℕ
  pub session_keys : Map ℕ ℕ
  pub next_session : ℕ
  pub next_event : ℕ
  pub in_signal_handler : Bool
  pub signal_unsafe : Bool
  pub trace : List Call

pub data Outcome (A : Type 0) : Type 0 where
  done : A → World → Outcome A
  exited : World → Outcome A

abbrev pub M : Type 0 → Type 0
M A = World → Outcome A

infixl 5 ◌>>=◌ ◌>>◌
abbrev pub ◌>>=◌ : {A B : Type 0} → M A → (A → M B) → M B
◌>>=◌ m f w = elim (m w) [ done a v ↦ f a v | exited v ↦ exited v ]

abbrev pub ◌>>◌ : {A B : Type 0} → M A → M B → M B
m >> k = m >>= λ _. k

abbrev pub pure : {A : Type 0} → A → M A
pure a w = done a w

abbrev pub get_world : M World
get_world w = done w w

abbrev pub put_world : World → M Unit
put_world v w = done tt v

-- `exit(…)`, and a failing `assert`.
abbrev pub exit : {A : Type 0} → M A
exit w = exited w

module _ (host : Host) where
  -- A call, entered in the trace.
  unfoldable pub call : Call → M Bool
  call c w = done (host.success w.trace c) (record w { trace = c ∷ w.trace })

  unfoldable pub call_file : Call → M (Option ℕ)
  call_file c w = done (host.file w.trace c) (record w { trace = c ∷ w.trace })

  -- The macro CHECK: a failing call ends the process.
  unfoldable pub check : Call → M Unit
  check c = do ok ← call c; if ok then pure tt else exit

abbrev pub same_option : Option ℕ → Option ℕ → Bool
same_option none none = true
same_option (some a) (some b) = a == b
same_option _ _ = false

abbrev pub before_option : Option ℕ → Option ℕ → Bool
before_option none (some b) = true
before_option (some a) (some b) = ltb a b
before_option _ _ = false

pub same_option_iff : (a b : Option ℕ) → (same_option a b ≡ true) ↔ (a ≡ b)
same_option_iff none none = ground arith
same_option_iff none (some b) = ground arith
same_option_iff (some a) none = ground arith
same_option_iff (some a) (some b) = ground arith

instance abbrev pub option_key : Key (Option ℕ)
option_key = record { same = same_option; before = before_option; same_iff = same_option_iff }
