-- ===== src/Samples/Examples.antt =====
-- A sample of the sample tool at the address 64.
use kognizance_tool.Prelude.{ℕ, ◌≢◌, arith, none, false}
use kognizance_tool.Event.{store}
use kognizance_tool.Platform.Removed.{Leaves}
use kognizance_tool.Watch.Accepted.{granting}
use kognizance_tool.Watch.Cases.{start}
use kognizance_tool.Witch.Cases.{event_of}
use kognizance_tool.Samples.{watch_sample}
use kognizance_tool.Samples.Watched.{NoneOrWatches, watch_sample-NoneOrWatches}

has_address : ◌≢◌ {A = ℕ} (event_of 5 store 10).h_data_addr 0
has_address e = absurd (omega (arith, e))

watch_sample-NoneOrWatches_example :
    Leaves
      (NoneOrWatches 1 (event_of 5 store 10).h_data_addr)
      (watch_sample (granting 9) 1 false (event_of 5 store 10) none start)
watch_sample-NoneOrWatches_example =
    watch_sample-NoneOrWatches (granting 9) 1 false (event_of 5 store 10) start has_address
