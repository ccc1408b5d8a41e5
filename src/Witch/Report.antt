-- ===== src/Witch/Report.antt =====
-- The report of a logic: calculateForAllContext and printAllContext of
-- kvmTest/includes/tools/witchTool/witchLogic/WitchLogic.hpp and inAlreadySeenList of
-- kvmTest/src/tools/witchTool/witchLogic/WitchLogic.cpp. Both walk the tree from the root over the
-- child sets, in whichever order these have; here the tree is given in that order.
use kognizance_tool.Prelude.{
  ℕ, ◌+◌, Bool, true, false, Option, none, some, List, [], ◌∷◌, ◌++◌, ◌==◌, ◌&&◌, if◌then◌else◌,
}
use kognizance_tool.Prelude.Int.{ℤ, pos, pos_part, neg_part}
use kognizance_tool.Witch.Tree.{Node}
use kognizance_tool.Witch.Totals.{plus64}

-- A Context with its children.
mutual
  pub data Branch : Type 0 where
    branch : Node → Branches → Branch

  pub data Branches : Type 0 where
    leaf : Branches
    more : Branch → Branches → Branches

-- metric_val_t
pub record MetricVal : Type 0 where
  pub r : ℤ
  pub i : ℤ

abbrev pub zero_val : MetricVal
zero_val = record { r = pos 0; i = pos 0 }

abbrev pub plus_val : MetricVal → MetricVal → MetricVal
plus_val v w = record { r = plus64 v.r w.r; i = plus64 v.i w.i }

-- The test for a node with its parent's address, `none` for the root.
unfoldable pub repeats_parent : Option ℕ → Node → Bool
repeats_parent none n = false
repeats_parent (some addr) n = n.frame.binary_addr == addr

unfoldable pub add_bytes : MetricVal → Node → Node
add_bytes v n = record n {
  metrics = record n.metrics {
    red_bytes = plus64 n.metrics.red_bytes v.i;
    used_bytes = plus64 n.metrics.used_bytes v.r;
  };
}

abbrev pub bytes_of : Node → MetricVal
bytes_of n = record { i = n.metrics.red_bytes; r = n.metrics.used_bytes }

-- What the function returns, and the tree that it leaves.
unfoldable mutual
  pub calculate_for_all_context : Option ℕ → Branch → MetricVal × Branch
  calculate_for_all_context parent (branch n cs) =
      let (v, cs') = calculate_children n.frame.binary_addr zero_val cs in
      if repeats_parent parent n
      then (zero_val, branch n cs)
      else (bytes_of (add_bytes v n), branch (add_bytes v n) cs')

  -- The loop over the children.
  pub calculate_children : ℕ → MetricVal → Branches → MetricVal × Branches
  calculate_children addr v leaf = (v, leaf)
  calculate_children addr v (more c cs) =
      let (w, c') = calculate_for_all_context (some addr) c in
      let (u, cs') = calculate_children addr (plus_val v w) cs in (u, more c' cs')

abbrev pub is_zero : ℤ → Bool
is_zero z = pos_part z + neg_part z == 0

-- The nodes that printAllContext prints, with their depths.
unfoldable mutual
  pub print_all_context : Option ℕ → ℕ → Branch → List (ℕ × Node)
  print_all_context parent depth (branch n cs) =
      let below = print_children n.frame.binary_addr (depth + 1) cs in
      if repeats_parent parent n
      then []
      else if is_zero n.metrics.used_bytes && is_zero n.metrics.red_bytes
      then below
      else (depth, n) ∷ below

  pub print_children : ℕ → ℕ → Branches → List (ℕ × Node)
  print_children addr depth leaf = []
  print_children addr depth (more c cs) =
      print_all_context (some addr) depth c ++ print_children addr depth cs

-- SeenList
abbrev pub seen_list : List ℕ
seen_list =
    0xffffffff810c3ac2 ∷ 0xffffffff810bea30 ∷ 0xffffffff810cae83 ∷ 0xffffffff810cb70b
    ∷ 0xffffffff811145f5 ∷ 0xffffffff819f051f ∷ 0xffffffff819f08d9 ∷ 0xffffffff81398ce6 ∷ []

unfoldable pub is_listed : ℕ → List ℕ → Bool
is_listed addr [] = false
is_listed addr (a ∷ others) = let rest = is_listed addr others in if a == addr then true else rest

unfoldable pub in_already_seen_list : ℕ → Bool
in_already_seen_list addr = is_listed addr seen_list
