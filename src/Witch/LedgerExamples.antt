-- ===== src/Witch/LedgerExamples.antt =====
-- Two samples and a trap between them, in the table and in the ledger.
use kognizance_tool.Prelude.{◌≡◌, List, [], ◌∷◌}
use kognizance_tool.Prelude.Map.{lookup}
use kognizance_tool.Event.{store}
use kognizance_tool.Witch.Laws.{outstanding}
use kognizance_tool.Witch.Ledger.{
  Entry, sampled, credited, HasCounts, record_all, post_all, record_all-post,
}
use kognizance_tool.Witch.Cases.{whole, event_of, no_tables}

abbrev entries : List Entry
entries =
    sampled (event_of 5 store 10) ∷ credited ((200, 7) ∷ []) 20 ∷ sampled (event_of 6 store 30) ∷ []

no_tables-HasCounts : HasCounts no_tables
unfolding lookup
no_tables-HasCounts p = tt

record_all-post_example :
    (λ p. outstanding p (record_all whole entries no_tables))
    ≡ post_all entries (λ p. outstanding p no_tables)
record_all-post_example = record_all-post whole entries no_tables no_tables-HasCounts
