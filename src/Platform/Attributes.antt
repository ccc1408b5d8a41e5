-- ===== src/Platform/Attributes.antt =====
-- The attributes with which a device is opened: registerThisDevice of ebsDevice.cpp, pebsDevice.cpp
-- and bpDevice.cpp in kvmTest/src/platform/device, on the zeroed attributes of device.cpp. The
-- numbers are those of linux/perf_event.h; `dummy[0]`, which is never written, is 0.
use kognizance_tool.Prelude.{ℕ, ◌+◌, Bool, true, false, Option, none, some, if◌then◌else◌}
use kognizance_tool.Event.{AccessType, load}
use kognizance_tool.Platform.World.{ebs, pebs, bp, Device}

-- The fields of perf_event_attr that the devices set.
pub record Attributes : Type 0 where
  pub type : ℕ
  pub size : ℕ
  pub config : ℕ
  pub sample_period : ℕ
  pub sample_type : ℕ
  pub read_format : ℕ
  pub disabled : Bool
  pub exclude_user : Bool
  pub exclude_kernel : Bool
  pub exclude_hv : Bool
  pub exclude_host : Bool
  pub exclude_guest : Bool
  pub exclude_callchain_user : Bool
  pub precise_ip : ℕ
  pub bp_type : ℕ
  pub bp_len : ℕ
  pub bp_addr : ℕ

-- memset
abbrev pub zeroed : Attributes
zeroed = record {
  type = 0;
  size = 0;
  config = 0;
  sample_period = 0;
  sample_type = 0;
  read_format = 0;
  disabled = false;
  exclude_user = false;
  exclude_kernel = false;
  exclude_hv = false;
  exclude_host = false;
  exclude_guest = false;
  exclude_callchain_user = false;
  precise_ip = 0;
  bp_type = 0;
  bp_len = 0;
  bp_addr = 0;
}

-- PEBS_SAMPLING_L1_LOAD_MISS, PEBS_SAMPLING_LLC_LOAD_MISS, or neither.
pub data SampledLoads : Type 0 where
  l1_miss llc_miss all_loads : SampledLoads

-- The size of perf_event_attr, and the macros of the build.
pub record Build : Type 0 where
  pub attr_size : ℕ
  pub pebs_sampling_period : Option ℕ
  pub sampled_loads : SampledLoads

-- IP, TID, TIME, CPU and PERIOD
abbrev pub ebs_sample_type : ℕ
ebs_sample_type = 1 + 2 + 4 + 128 + 256

-- IP, TID, ADDR, ID, CALLCHAIN and CPU
abbrev pub pebs_sample_type : ℕ
pebs_sample_type = 1 + 2 + 8 + 64 + 32 + 128

-- IP, TID, ADDR, CALLCHAIN and CPU
abbrev pub bp_sample_type : ℕ
bp_sample_type = 1 + 2 + 8 + 32 + 128

unfoldable pub ebs_config : AccessType → ℕ
ebs_config load = 0x10002
ebs_config _ = 0x10102

unfoldable pub register_ebs : Build → AccessType → Attributes → Attributes
register_ebs build access a = record a {
  type = 3;
  size = build.attr_size;
  sample_period = 4000;
  sample_type = ebs_sample_type;
  exclude_host = true;
  disabled = false;
  config = ebs_config access;
  read_format = 8 + 4;
}

abbrev pub load_config : SampledLoads → ℕ
load_config l1_miss = 0x8d1
load_config llc_miss = 0x5320D1
load_config all_loads = 0x5381d0

unfoldable pub pebs_config : SampledLoads → AccessType → ℕ
pebs_config loads load = load_config loads
pebs_config loads _ = 0x5382d0

abbrev pub period_or : Option ℕ → ℕ → ℕ
period_or none n = n
period_or (some p) n = p

unfoldable pub register_pebs : Build → Bool → AccessType → Attributes → Attributes
register_pebs build kvm access a =
    let common = record a {
      type = 4;
      size = build.attr_size;
      sample_type = pebs_sample_type;
      config = pebs_config build.sampled_loads access;
      precise_ip = 3;
      read_format = 8 + 4;
      exclude_user = false;
    } in
    if kvm
    then record common {
      sample_period = period_or build.pebs_sampling_period 10003;
      exclude_host = true;
      exclude_kernel = false;
      exclude_hv = false;
      disabled = true;
    }
    else record common {
      sample_period = period_or build.pebs_sampling_period 1000003;
      exclude_kernel = true;
      exclude_guest = true;
      exclude_callchain_user = false;
      disabled = false;
    }

unfoldable pub register_bp : Build → Bool → ℕ → ℕ → ℕ → Attributes → Attributes
register_bp build kvm type length address a = record a {
  type = 5;
  size = build.attr_size;
  bp_type = type;
  bp_len = length;
  bp_addr = if kvm then 0 else address;
  exclude_user = false;
  exclude_kernel = true;
  exclude_hv = true;
  sample_period = 1;
  sample_type = bp_sample_type;
  disabled = false;
  precise_ip = 2;
}

-- registerThisDevice
unfoldable pub register_this_device : Build → Bool → Device → Attributes → Attributes
register_this_device build kvm d a = elim d.kind [
  | ebs ↦ register_ebs build d.access_type a
  | pebs ↦ register_pebs build kvm d.access_type a
  | bp ↦ register_bp build kvm d.bp_type d.length d.address a
]
