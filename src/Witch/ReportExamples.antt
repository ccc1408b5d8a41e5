-- ===== src/Witch/ReportExamples.antt =====
-- The sums of the report on a small tree with a recursive call.
use kognizance_tool.Prelude.{ℕ, none, []}
use kognizance_tool.Prelude.Int.{pos}
use kognizance_tool.Witch.Tree.{Node, no_metrics}
use kognizance_tool.Witch.Report.{Branch, branch, leaf, more, calculate_for_all_context}
use kognizance_tool.Witch.Sums.{IsTotalled, calculate_for_all_context-IsTotalled}

abbrev node : ℕ → ℕ → Node
node addr red = record {
  frame = record { binary_addr = addr; src_lineno = 0; method_name = []; source_file = [] };
  metrics = record no_metrics { red_bytes = pos red; used_bytes = pos 1 };
}

-- A root with a caller, whose callees are itself and another method.
abbrev tree : Branch
tree = branch (node 0 0) (
    more
      (branch (node 64 8) (more (branch (node 64 5) leaf) (more (branch (node 128 4) leaf) leaf)))
      leaf)

calculate_for_all_context-IsTotalled_example :
    IsTotalled (λ v. v.i) none tree (calculate_for_all_context none tree).1
    × IsTotalled (λ v. v.r) none tree (calculate_for_all_context none tree).1
calculate_for_all_context-IsTotalled_example = calculate_for_all_context-IsTotalled none tree
