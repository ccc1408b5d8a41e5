-- ===== src/Witch/Tree.antt =====
-- The calling context tree and the table of proportional attribution, the class WitchLogic of
-- kvmTest/includes/tools/witchTool/witchLogic/WitchLogic.hpp. A node's identity is its path: a
-- child set holds one node for each pair of binary address and line, so the nodes of the tree are
-- a map from paths, leaf first. The root has the empty path. The arithmetic on doubles is a
-- parameter. The mutex is left out: each operation holds it for the whole of its body.
use kognizance_tool.Prelude.{
  ℕ, ◌+◌, ◌^◌, ◌%◌, ◌≡◌, ◌↔◌, Bool, true, false, Option, none, some, List, [], ◌∷◌, ◌&&◌,
  if◌then◌else◌, arith,
}
use kognizance_tool.Prelude.Int.{ℤ, pos}
use kognizance_tool.Prelude.Map.{
  Map, Key, lookup, insert, erase, nat_key, same_pair, before_pair, same_pair_iff,
}
use kognizance_tool.Event.{Event, Frame}
use kognizance_tool.Watch.Address.{sub64}

-- The operations on a type of floating-point numbers: `to_ℤ` is the conversion to int64_t,
-- `of_bytes` reads a value from memory, and `is_far_off` is the test
-- `rate > APPROX_RATE || rate < -APPROX_RATE`.
pub record Floats (D : Type 0) : Type 0 where
  pub of_ℕ : ℕ → D
  pub of_ℤ : ℤ → D
  pub add : D → D → D
  pub sub : D → D → D
  pub mul : D → D → D
  pub div : D → D → D
  pub lt : D → D → Bool
  pub eq : D → D → Bool
  pub to_ℤ : D → ℤ
  pub of_bytes : List ℕ → D
  pub is_far_off : D → Bool

pub data ContextType : Type 0 where
  sampled_context used_context dead_context red_context undefined_context : ContextType

-- The metrics of a node that the logics use; an entry that was never set reads as 0, and the
-- context type 0 is that of a sampled context.
pub record Metrics : Type 0 where
  pub used_bytes : ℤ
  pub red_bytes : ℤ
  pub approx_red_bytes : ℤ
  pub dead_bytes : ℤ
  pub inefficiency : ℤ
  pub context_type : ContextType

pub record Node : Type 0 where
  pub frame : Frame
  pub metrics : Metrics

abbrev pub PathTo : Type 0
PathTo = List (ℕ × ℕ)

abbrev pub same_path : PathTo → PathTo → Bool
same_path [] [] = true
same_path (a ∷ p) (b ∷ q) = same_pair a b && same_path p q
same_path _ _ = false

abbrev pub before_path : PathTo → PathTo → Bool
before_path [] (b ∷ q) = true
before_path (a ∷ p) (b ∷ q) =
    let rest = before_path p q in if same_pair a b then rest else before_pair a b
before_path _ _ = false

pub same_path_iff : (p q : PathTo) → (same_path p q ≡ true) ↔ (p ≡ q)
same_path_iff [] [] = ground arith
same_path_iff [] (b ∷ q) = ground arith
same_path_iff (a ∷ p) [] = ground arith
same_path_iff (a ∷ p) (b ∷ q) = ground (arith, same_pair_iff a b, same_path_iff p q)

instance abbrev pub path_key : Key PathTo
path_key = record { same = same_path; before = before_path; same_iff = same_path_iff }

-- SampleNum
pub record SampleNum (D : Type 0) : Type 0 where
  pub catchup_num : ℕ
  pub cur_num : ℕ
  pub avg_distance : D

-- The fields of WitchLogic; `nodes` holds all nodes but the root.
pub record Tables (D : Type 0) : Type 0 where
  pub nodes : Map PathTo Node
  pub leaf_of_event : Map ℕ PathTo
  pub prop_attr : Map PathTo (SampleNum D)

unfoldable pub no_metrics : Metrics
no_metrics = record {
  used_bytes = pos 0;
  red_bytes = pos 0;
  approx_red_bytes = pos 0;
  dead_bytes = pos 0;
  inefficiency = pos 0;
  context_type = sampled_context;
}

-- The child of a frame: the node that is there, or a new one.
unfoldable pub child_at : Frame → PathTo → Map PathTo Node → Node
child_at f p nodes = elim (lookup p nodes) [
  | some n ↦ n
  | none ↦ record { frame = f; metrics = no_metrics }
]

-- The last assignment of the loop's body decides the type.
unfoldable pub set_type : ContextType → Node → Node
set_type c n = record n { metrics = record n.metrics { context_type = c } }

-- addFramesToContextTree, over the frames in the order in which it visits them.
unfoldable pub add_frames :
    ContextType → List Frame → PathTo → Map PathTo Node → PathTo × Map PathTo Node
add_frames c [] p nodes = (p, nodes)
add_frames c (f ∷ fs) p nodes =
    let q = (f.binary_addr, f.src_lineno) ∷ p in
    add_frames c fs q (insert q (set_type c (child_at f q nodes)) nodes)

unfoldable pub reverse_onto : {A : Type 0} → List A → List A → List A
reverse_onto [] ys = ys
reverse_onto (x ∷ xs) ys = reverse_onto xs (x ∷ ys)

-- The leaf below `p` for an event's frames, from the last frame if `parent_to_child`.
unfoldable pub add_frames_to_context_tree :
    ContextType → List Frame → PathTo → Bool → Map PathTo Node → PathTo × Map PathTo Node
add_frames_to_context_tree c fs p parent_to_child nodes =
    add_frames c (if parent_to_child then reverse_onto fs [] else fs) p nodes

module _ {D : Type 0} (double : Floats D) where
  unfoldable pub count_sample : Option (SampleNum D) → SampleNum D
  count_sample (some s) = record s { cur_num = (s.cur_num + 1) % 2 ^ 64 }
  count_sample none = record { cur_num = 1; catchup_num = 0; avg_distance = double.of_ℕ 0 }

  -- Witch_OnSample_Callback
  unfoldable pub on_sample : Event → Tables D → Bool × Tables D
  on_sample e t =
      let (leaf, nodes) =
        add_frames_to_context_tree sampled_context e.context_agent [] true t.nodes in
      if same_path leaf [] then (false, record t { nodes = nodes }) else (
        true,
        record {
          nodes = nodes;
          leaf_of_event = insert e.event_id leaf t.leaf_of_event;
          prop_attr = insert leaf (count_sample (lookup leaf t.prop_attr)) t.prop_attr;
        },
      )

  -- What GetNumDiffSamplesAndReset leaves in the table.
  unfoldable pub catch_up : ℕ → SampleNum D → SampleNum D
  catch_up dist s = record {
    cur_num = s.cur_num;
    catchup_num = s.cur_num;
    avg_distance =
        double.div (double.add s.avg_distance (double.of_ℕ dist)) (double.of_ℕ s.cur_num);
  }

  unfoldable pub get_num_diff_samples_and_reset : PathTo → D → ℕ → ℕ → Tables D → D × Tables D
  get_num_diff_samples_and_reset leaf prop threshold dist t = elim (lookup leaf t.prop_attr) [
    | none ↦ (double.of_ℕ 0, t)
    | some s ↦ (
      double.mul (double.mul (double.of_ℕ (sub64 s.cur_num s.catchup_num)) prop)
          (double.of_ℕ threshold),
      record t { prop_attr = insert leaf (catch_up dist s) t.prop_attr },
    )
  ]

-- removeEventContextMapEntry
unfoldable pub remove_event : {D : Type 0} → Event → Tables D → Tables D
remove_event e t = record t { leaf_of_event = erase e.event_id t.leaf_of_event }

-- cleanContextTree, before resetWitchLogic. The freed children, whose addresses the root's set keeps,
-- are left out.
unfoldable pub clean_context_tree : {D : Type 0} → Tables D → Tables D
clean_context_tree t = record { nodes = []; leaf_of_event = []; prop_attr = [] }
