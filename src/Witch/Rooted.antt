-- ===== src/Witch/Rooted.antt =====
-- The calling context tree and the pending samples stay consistent under samples and traps:
-- kvmTest/includes/tools/witchTool/witchLogic/WitchLogic.hpp and the callbacks of the logics.
use kognizance_tool.Prelude.{
  ℕ, ◌≡◌, refl, sym, subst, inl, inr, Bool, none, some, List, [], ◌∷◌, ◌==◌, Bool-cases,
  Option-cases, arith,
}
use kognizance_tool.Prelude.Map.{Map, lookup, insert, lookup-erase, nat_key}
use kognizance_tool.Event.{Event, Frame}
use kognizance_tool.Witch.Tree.{
  Floats, Metrics, Node, PathTo, path_key, Tables, ContextType, add_frames,
  add_frames_to_context_tree, get_num_diff_samples_and_reset, remove_event,
}
use kognizance_tool.Witch.Totals.{change_metrics}
use kognizance_tool.Witch.Accounts.{change_metrics-events, reset-events}
use kognizance_tool.Witch.Laws.{
  HasNode, IsTree, insert-HasNode, insert-HasNode_inverse, add_frames-IsTree,
}

-- The tree is closed under parents, and the leaf of every pending sample is in it.
abbrev pub IsRooted : {D : Type 0} → Tables D → Type 0
IsRooted t =
    IsTree t.nodes × ((i : ℕ) (p : PathTo) → lookup i t.leaf_of_event ≡ some p → HasNode p t.nodes)

-- From one set of nodes to another that has them all, a tree if the first is one.
abbrev pub Grows : Map PathTo Node → Map PathTo Node → Type 0
Grows m m' = (IsTree m → IsTree m') × ((p : PathTo) → HasNode p m → HasNode p m')

Grows-refl : (m : Map PathTo Node) → Grows m m
Grows-refl m = (λ h. h, λ p h. h)

Grows-trans : (m n o : Map PathTo Node) → Grows m n → Grows n o → Grows m o
Grows-trans m n o f g = (λ h. g.0 (f.0 h), λ p h. g.1 p (f.1 p h))

insert-Grows :
    (q : PathTo) (n n' : Node) (m : Map PathTo Node) → lookup q m ≡ some n → Grows m (insert q n' m)
insert-Grows q n n' m e = (
  λ h k p below. elim (insert-HasNode_inverse q (k ∷ p) n' m below) [
    | inl same ↦
        insert-HasNode q p n' m (h k p (inr (n, subst (λ x. lookup x m ≡ some n) (sym same) e)))
    | inr old ↦ insert-HasNode q p n' m (h k p old)
  ],
  λ p h. insert-HasNode q p n' m h,
)

change_metrics-Grows :
    {D : Type 0} (p : PathTo) (f : Metrics → Metrics) (t : Tables D)
    → Grows t.nodes (change_metrics p f t).nodes
unfolding change_metrics
change_metrics-Grows p f t = elim (Option-cases (lookup p t.nodes)) [
  | inl e ↦ rw (e, change_metrics) (Grows-refl t.nodes)
  | inr (n, e) ↦ rw (e, change_metrics) (insert-Grows p n _ t.nodes e)
]

add_frames-keeps :
    (c : ContextType) (fs : List Frame) (p q : PathTo) (m : Map PathTo Node)
    → HasNode q m
    → HasNode q (add_frames c fs p m).1
unfolding add_frames
add_frames-keeps c [] p q m h = h
add_frames-keeps c (f ∷ fs) p q m h = add_frames-keeps c fs _ q _ (insert-HasNode _ q _ m h)

-- Frames below a node of the tree.
pub add_frames_to_context_tree-Grows :
    (c : ContextType) (fs : List Frame) (p : PathTo) (down : Bool) (m : Map PathTo Node)
    → HasNode p m
    → Grows m (add_frames_to_context_tree c fs p down m).1
unfolding add_frames_to_context_tree
add_frames_to_context_tree-Grows c fs p down m here =
    (λ h. (add_frames-IsTree c _ p m h here).0, λ q h. add_frames-keeps c _ p q m h)

reset-nodes :
    {D : Type 0} (double : Floats D) (p : PathTo) (prop : D) (threshold dist : ℕ) (t : Tables D)
    → (get_num_diff_samples_and_reset double p prop threshold dist t).1.nodes ≡ t.nodes
unfolding get_num_diff_samples_and_reset
reset-nodes double p prop threshold dist t = ground arith

-- A consistent state and a node in its tree.
abbrev pub Fits : {D : Type 0} → PathTo → Tables D → Type 0
Fits leaf t = IsRooted t × HasNode leaf t.nodes

Grows-Fits :
    {D : Type 0} (leaf : PathTo) (t t' : Tables D)
    → Grows t.nodes t'.nodes
    → t'.leaf_of_event ≡ t.leaf_of_event
    → Fits leaf t
    → Fits leaf t'
Grows-Fits leaf t t' g e ((tree, pending), here) =
    ((g.0 tree, λ i p h. g.1 p (pending i p (rw (sym e) h))), g.1 leaf here)

pub change_metrics-Fits :
    {D : Type 0} (leaf p : PathTo) (f : Metrics → Metrics) (t : Tables D)
    → Fits leaf t
    → Fits leaf (change_metrics p f t)
change_metrics-Fits leaf p f t =
    Grows-Fits leaf t (change_metrics p f t) (change_metrics-Grows p f t)
      (change_metrics-events p f t)

pub frames-Fits :
    {D : Type 0} (c : ContextType) (fs : List Frame) (leaf : PathTo) (down : Bool) (t : Tables D)
    → Fits leaf t
    → Fits leaf (record t { nodes = (add_frames_to_context_tree c fs leaf down t.nodes).1 })
frames-Fits c fs leaf down t h =
    Grows-Fits leaf t (record t { nodes = (add_frames_to_context_tree c fs leaf down t.nodes).1 })
      (add_frames_to_context_tree-Grows c fs leaf down t.nodes h.1) refl h

pub reset-Fits :
    {D : Type 0} (double : Floats D) (leaf : PathTo) (prop : D) (threshold dist : ℕ) (t : Tables D)
    → Fits leaf t
    → Fits leaf (get_num_diff_samples_and_reset double leaf prop threshold dist t).1
reset-Fits double leaf prop threshold dist t =
    Grows-Fits leaf t (get_num_diff_samples_and_reset double leaf prop threshold dist t).1
      (subst (λ m. Grows t.nodes m) (sym (reset-nodes double leaf prop threshold dist t))
        (Grows-refl t.nodes))
      (reset-events double leaf prop threshold dist t)

-- Forgetting a sample.
pub remove_event-IsRooted :
    {D : Type 0} (e : Event) (t : Tables D) → IsRooted t → IsRooted (remove_event e t)
unfolding remove_event
remove_event-IsRooted e t (tree, pending) = (
  tree,
  λ i p h. elim (Bool-cases (e.event_id == i)) [
    | inl same ↦
        let gone : none ≡ some p = rw (lookup-erase e.event_id i t.leaf_of_event, same) at h in
        absurd (cc)
    | inr other ↦ pending i p (rw (lookup-erase e.event_id i t.leaf_of_event, other) at h)
  ],
)
