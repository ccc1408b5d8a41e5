-- ===== src/Witch/SpyExamples.antt =====
-- Runs of RedSpy, DupSpy and of a whole session at concrete samples and traps.
use kognizance_tool.Prelude.{refl, true, [], ◌∷◌, not, ◌&&◌, ◌==◌}
use kognizance_tool.Prelude.Map.{lookup}
use kognizance_tool.Event.{store}
use kognizance_tool.Witch.Writes.{is_store, red_spy_on_wp}
use kognizance_tool.Witch.Logics.{sampled, trapped, redspy, run}
use kognizance_tool.Witch.WriteCharges.{Judged, red_spy_on_wp-Judged}
use kognizance_tool.Witch.Rooted.{IsRooted}
use kognizance_tool.Witch.Reachable.{run-IsRooted}
use kognizance_tool.Witch.Cases.{
  whole, red_flags, flags, no_tables-IsRooted, event_of, no_tables, no_counts, logic, trap,
}

red_spy_on_wp-Judged_example :
    Judged
      (is_store store && not (true && not (4096 == 4096)))
      whole
      (event_of 6 store 20)
      (event_of 5 store 10)
      ((200, 7) ∷ [])
      logic
      (red_spy_on_wp whole whole red_flags (event_of 6 store 20) (event_of 5 store 10) trap logic)
unfolding lookup
red_spy_on_wp-Judged_example =
    red_spy_on_wp-Judged whole whole (event_of 6 store 20) (event_of 5 store 10) trap
      ((200, 7) ∷ []) logic refl red_flags

run-IsRooted_example :
    IsRooted
      (run whole whole flags redspy
        (sampled (event_of 5 store 10)
          ∷ trapped (event_of 6 store 20) (event_of 5 store 10) trap
          ∷ [])
        (record { tables = no_tables; total = no_counts; per_thread = no_counts })).tables
run-IsRooted_example =
    run-IsRooted whole whole flags redspy
      (sampled (event_of 5 store 10)
        ∷ trapped (event_of 6 store 20) (event_of 5 store 10) trap
        ∷ [])
      (record { tables = no_tables; total = no_counts; per_thread = no_counts }) no_tables-IsRooted
