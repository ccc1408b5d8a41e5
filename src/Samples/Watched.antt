-- ===== src/Samples/Watched.antt =====
-- What samplePEBSBPTool's handler of a sample, kvmTest/src/tools/samplePEBSBPTool/mytool.cpp, leaves
-- behind.
use kognizance_tool.Prelude.{
  ℕ, ◌≡◌, ◌≢◌, inl, inr, Bool, true, false, Option, none, some, ◌==◌, ==-false, if◌then◌else◌,
}
use kognizance_tool.Prelude.Map.{lookup, pair_key}
use kognizance_tool.Event.{Event}
use kognizance_tool.Platform.World.{bp, Device, Host, World}
use kognizance_tool.Platform.Sessions.{get_session_key}
use kognizance_tool.Platform.Removed.{Leaves, Leaves-bind, Leaves-any}
use kognizance_tool.Platform.Registered.{Registered, register_device-Registered}
use kognizance_tool.Watch.Arm.{is_breakpoint_length, new_bp_device}
use kognizance_tool.Samples.{watch_length, watch_type, first_watch, watch_from, watch_sample}

-- A breakpoint of one byte at the address, for reads and writes.
abbrev pub WatchesByte : ℕ → ℕ → ℕ → World → Type 0
WatchesByte tid addr fd v =
    (dev : Device) × (lookup (tid, fd) v.devices ≡ some dev)
    × (dev.kind ≡ bp)
    × (dev.length ≡ 1)
    × (dev.bp_type ≡ 3)
    × (dev.address ≡ addr)

-- No file, or one that watches the byte.
abbrev pub NoneOrWatches : ℕ → ℕ → Option ℕ → World → Type 0
NoneOrWatches tid addr none v = Unit
NoneOrWatches tid addr (some fd) v = WatchesByte tid addr fd v

named :
    (tid session addr : ℕ) (r : Bool × Device) (v : World)
    → Registered tid session (new_bp_device watch_length watch_type addr) r v
    → NoneOrWatches tid addr (if r.0 then some r.1.file_id else none) v
unfolding new_bp_device
named tid session addr (false, dev) v h = tt
named tid session addr (true, dev) v (inl f) = absurd (cc)
named tid session addr (true, dev) v (inr (found, (kind, len, type, address, same))) =
    (dev, found, kind, len, type, address)

-- A sample with an address, when the tool has no breakpoint: whenever the handler returns, the tool
-- has none, or the one that it has is in the table under the thread and watches the sample's byte for
-- reads and writes.
pub watch_sample-NoneOrWatches :
    (host : Host) (tid : ℕ) (fast : Bool) (e : Event) (w : World)
    → e.h_data_addr ≢ 0
    → Leaves (NoneOrWatches tid e.h_data_addr) (watch_sample host tid fast e none w)
unfolding watch_sample watch_from first_watch is_breakpoint_length
watch_sample-NoneOrWatches host tid fast e w ne =
    let f : (e.h_data_addr == 0) ≡ false = ==-false e.h_data_addr 0 ne in
    rw (f, watch_sample)
      (Leaves-bind (λ s u. Unit {0}) _ _ _ (Leaves-any (get_session_key tid w))
        λ session u h.
          Leaves-bind (Registered tid session (new_bp_device watch_length watch_type e.h_data_addr))
            _ _ _
            (register_device-Registered host tid session
              (new_bp_device watch_length watch_type e.h_data_addr) u)
            λ r v k. named tid session e.h_data_addr r v k)
