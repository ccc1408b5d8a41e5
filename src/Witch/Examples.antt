-- ===== src/Witch/Examples.antt =====
-- Runs of the analysis at concrete samples and traps.
use kognizance_tool.Prelude.{refl, true, [], ◌∷◌, not, ◌&&◌, ◌==◌}
use kognizance_tool.Prelude.Int.{pos, lez}
use kognizance_tool.Prelude.Map.{lookup, nat_key}
use kognizance_tool.Event.{load, store}
use kognizance_tool.Witch.Tree.{path_key}
use kognizance_tool.Witch.Totals.{overlap_of}
use kognizance_tool.Witch.Stores.{is_unknown, dead_store_on_wp, false_sharing_on_wp}
use kognizance_tool.Witch.Loads.{load_spy_on_wp}
use kognizance_tool.Witch.LoadCharges.{LoadJudged, load_spy_on_wp-LoadCharged}
use kognizance_tool.Witch.Accounts.{
  Counted, Forgets, tally_if, false_sharing_tally, credit, DeadStoreJudged,
}
use kognizance_tool.Witch.Charges.{dead_store_on_wp-Charged, false_sharing_on_wp-Charged}
use kognizance_tool.Witch.Cases.{whole, event_of, logic, trap}

dead_store_on_wp-Charged_example :
    DeadStoreJudged whole true
      (event_of 6 store 20)
      (event_of 5 store 10)
      trap
      ((200, 7) ∷ [])
      logic
      (dead_store_on_wp whole whole true (event_of 6 store 20) (event_of 5 store 10) trap logic)
unfolding lookup
dead_store_on_wp-Charged_example =
    dead_store_on_wp-Charged whole whole (event_of 6 store 20) (event_of 5 store 10) trap
      ((200, 7) ∷ []) logic refl true

false_sharing_on_wp-Charged_example :
    Counted
      (tally_if
        (not (is_unknown load)
          && not (lez (overlap_of (event_of 6 load 20) (event_of 5 store 10) trap) (pos 0)))
        (false_sharing_tally
          ((event_of 6 load 20).cpu == (event_of 5 store 10).cpu)
          (credit whole (event_of 6 load 20) (event_of 5 store 10) ((200, 7) ∷ []) logic)))
      logic
      (false_sharing_on_wp whole whole (event_of 6 load 20) (event_of 5 store 10) trap logic).1
    × Forgets
        (event_of 5 store 10)
        logic
        (false_sharing_on_wp whole whole (event_of 6 load 20) (event_of 5 store 10) trap logic).1
unfolding lookup
false_sharing_on_wp-Charged_example =
    false_sharing_on_wp-Charged whole whole (event_of 6 load 20) (event_of 5 store 10) trap
      ((200, 7) ∷ []) logic refl

load_spy_on_wp-LoadCharged_example :
    LoadJudged whole whole true
      (event_of 6 load 20)
      (event_of 5 store 10)
      trap
      ((200, 7) ∷ [])
      logic
      (load_spy_on_wp whole whole true (event_of 6 load 20) (event_of 5 store 10) trap logic)
unfolding lookup
load_spy_on_wp-LoadCharged_example =
    load_spy_on_wp-LoadCharged whole whole (event_of 6 load 20) (event_of 5 store 10) trap
      ((200, 7) ∷ []) logic refl true
