-- ===== src/Witch/Laws.antt =====
-- Laws of the calling context tree and the attribution of samples,
-- kvmTest/includes/tools/witchTool/witchLogic/WitchLogic.hpp.
use kognizance_tool.Prelude.{
  ℕ, ◌+◌, ◌^◌, ◌%◌, ◌<◌, ◌≡◌, refl, sym, ap, ◌∙◌, true, false, Option, none, some, List, [], ◌∷◌,
  if◌then◌else◌, arith, Bool-cases, Option-cases, ◌⊎◌, inl, inr,
}
use kognizance_tool.Prelude.Map.{Map, lookup, insert, lookup-insert, lookup-insert_self, nat_key}
use kognizance_tool.Event.{Event, Frame}
use kognizance_tool.Watch.Address.{sub64}
use kognizance_tool.Witch.Tree.{
  Floats, Node, PathTo, path_key, same_path, same_path_iff, SampleNum, Tables, ContextType,
  sampled_context, child_at, set_type, add_frames, reverse_onto, add_frames_to_context_tree,
  count_sample, on_sample, catch_up, get_num_diff_samples_and_reset,
}

-- The path below p of frames in the order of the visit.
abbrev pub path_below : PathTo → List Frame → PathTo
path_below p [] = p
path_below p (f ∷ fs) = path_below ((f.binary_addr, f.src_lineno) ∷ p) fs

-- Every node of the map is a child of the root or of a node of the map.
abbrev pub HasNode : PathTo → Map PathTo Node → Type 0
HasNode p nodes = (p ≡ []) ⊎ ((n : Node) × (lookup p nodes ≡ some n))

abbrev pub IsTree : Map PathTo Node → Type 0
IsTree nodes = (k : ℕ × ℕ) (p : PathTo) → HasNode (k ∷ p) nodes → HasNode p nodes

pub insert-HasNode :
    (q p : PathTo) (n : Node) (nodes : Map PathTo Node)
    → HasNode p nodes
    → HasNode p (insert q n nodes)
insert-HasNode q p n nodes (inl e) = inl e
insert-HasNode q p n nodes (inr (m, e)) = elim (Bool-cases (same_path q p)) [
  | inl t ↦ inr (n, lookup-insert q p n nodes ∙ rw t refl)
  | inr f ↦ inr (m, lookup-insert q p n nodes ∙ rw f e)
]

pub insert-HasNode_inverse :
    (q p : PathTo) (n : Node) (nodes : Map PathTo Node)
    → HasNode p (insert q n nodes)
    → (p ≡ q) ⊎ HasNode p nodes
insert-HasNode_inverse q p n nodes (inl e) = inr (inl e)
insert-HasNode_inverse q p n nodes (inr (m, e)) = elim (Bool-cases (same_path q p)) [
  | inl t ↦ inl (sym ((same_path_iff q p).0 t))
  | inr f ↦ inr (inr (m, rw (lookup-insert q p n nodes, f) at e))
]

insert-IsTree :
    (k : ℕ × ℕ) (p : PathTo) (n : Node) (nodes : Map PathTo Node)
    → IsTree nodes
    → HasNode p nodes
    → IsTree (insert (k ∷ p) n nodes)
insert-IsTree k p n nodes h here j q below =
    elim (insert-HasNode_inverse (k ∷ p) (j ∷ q) n nodes below) [
      | inl e ↦ let e' : q ≡ p = cc in insert-HasNode (k ∷ p) q n nodes (rw e' here)
      | inr old ↦ insert-HasNode (k ∷ p) q n nodes (h j q old)
    ]

-- Adding frames keeps the tree
pub add_frames-IsTree :
    (c : ContextType) (fs : List Frame) (p : PathTo) (nodes : Map PathTo Node)
    → IsTree nodes
    → HasNode p nodes
    → IsTree (add_frames c fs p nodes).1
      × HasNode (add_frames c fs p nodes).0 (add_frames c fs p nodes).1
unfolding add_frames
add_frames-IsTree c [] p nodes h here = (h, here)
add_frames-IsTree c (f ∷ fs) p nodes h here =
    let q : PathTo = (f.binary_addr, f.src_lineno) ∷ p in
    let n : Node = set_type c (child_at f q nodes) in
    add_frames-IsTree c fs q (insert q n nodes)
      (insert-IsTree (f.binary_addr, f.src_lineno) p n nodes h here)
      (inr (n, lookup-insert_self q n nodes))

add_frames-path :
    (c : ContextType) (fs : List Frame) (p : PathTo) (nodes : Map PathTo Node)
    → (add_frames c fs p nodes).0 ≡ path_below p fs
unfolding add_frames
add_frames-path c [] p nodes = refl
add_frames-path c (f ∷ fs) p nodes = add_frames-path c fs _ _

-- The samples of a node that no trap has been credited with.
abbrev pub waiting : {D : Type 0} → Option (SampleNum D) → ℕ
waiting none = 0
waiting (some s) = sub64 s.cur_num s.catchup_num

abbrev pub outstanding : {D : Type 0} → PathTo → Tables D → ℕ
outstanding p t = waiting (lookup p t.prop_attr)

caught_up : (n : ℕ) → sub64 n n ≡ 0
caught_up n = omega arith

-- The counts are 64-bit numbers.
abbrev pub IsCount : {D : Type 0} → Option (SampleNum D) → Type 0
IsCount none = Unit
IsCount (some s) = (s.cur_num < 2 ^ 64) × (s.catchup_num < 2 ^ 64)

pub path_below-same :
    (k : ℕ × ℕ) (p : PathTo) (fs : List Frame) → same_path (path_below (k ∷ p) fs) [] ≡ false
path_below-same k p [] = refl
path_below-same k p (f ∷ fs) = path_below-same _ (k ∷ p) fs

module _ {D : Type 0} where
  waiting-insert :
      (q p : PathTo) (s : SampleNum D) (m : Map PathTo (SampleNum D))
      → waiting (lookup p (insert q s m))
        ≡ (if same_path q p then waiting (some s) else waiting (lookup p m))
  waiting-insert q p s m = elim (Bool-cases (same_path q p)) [
    | inl t ↦ rw (lookup-insert q p s m, t) refl
    | inr f ↦ rw (lookup-insert q p s m, f) refl
  ]

  waiting-missing :
      (q p : PathTo) (m : Map PathTo (SampleNum D))
      → lookup q m ≡ none
      → waiting (lookup p m) ≡ (if same_path q p then 0 else waiting (lookup p m))
  waiting-missing q p m e = elim (Bool-cases (same_path q p)) [
    | inl t ↦ rw t (ap waiting (rw ((same_path_iff q p).0 t) at e))
    | inr f ↦ rw f refl
  ]

-- Two values that agree where the paths do.
at_path :
    (q p : PathTo) (a b : PathTo → ℕ) (c : ℕ)
    → a q ≡ b q
    → (if same_path q p then a q else c) ≡ (if same_path q p then b p else c)
at_path q p a b c e = elim (Bool-cases (same_path q p)) [
  | inl t ↦ rw t (e ∙ ap b ((same_path_iff q p).0 t))
  | inr f ↦ rw f refl
]

module _ {D : Type 0} (double : Floats D) where
  count_sample-waiting :
      (s : Option (SampleNum D))
      → IsCount s
      → waiting (some (count_sample double s)) ≡ (waiting s + 1) % 2 ^ 64
  unfolding count_sample
  count_sample-waiting none h = refl
  count_sample-waiting (some s) h = omega arith

  grown-IsTree :
      (e : Event) (t : Tables D)
      → IsTree t.nodes
      → IsTree (add_frames_to_context_tree sampled_context e.context_agent [] true t.nodes).1
  unfolding add_frames_to_context_tree
  grown-IsTree e t h =
      (add_frames-IsTree _ (reverse_onto e.context_agent []) [] t.nodes h (inl refl)).0

  on_sample-nodes :
      (e : Event) (t : Tables D)
      → (on_sample double e t).1.nodes
        ≡ (add_frames_to_context_tree sampled_context e.context_agent [] true t.nodes).1
  unfolding on_sample
  on_sample-nodes e t = ground arith

  -- If the parent of every node is a node or the root, then it is so after a sample.
  on_sample-IsTree :
      (e : Event) (t : Tables D) → IsTree t.nodes → IsTree (on_sample double e t).1.nodes
  on_sample-IsTree e t h = rw (on_sample-nodes e t) (grown-IsTree e t h)

  module _ (e : Event) (t : Tables D) (f : Frame) (fs : List Frame)
      (visit : reverse_onto e.context_agent [] ≡ f ∷ fs) where
    on_sample-leaf :
        (add_frames_to_context_tree sampled_context e.context_agent [] true t.nodes).0
        ≡ path_below [] (f ∷ fs)
    unfolding add_frames_to_context_tree
    on_sample-leaf = rw visit (add_frames-path _ (f ∷ fs) [] t.nodes)

    pub on_sample-prop_attr :
        (on_sample double e t).1.prop_attr
        ≡ insert
            (path_below [] (f ∷ fs))
            (count_sample double (lookup (path_below [] (f ∷ fs)) t.prop_attr))
            t.prop_attr
    unfolding on_sample
    on_sample-prop_attr =
        ground (arith, on_sample-leaf, path_below-same (f.binary_addr, f.src_lineno) [] fs)

    -- A sample with frames adds one outstanding sample, modulo 2^64, to its leaf, whose counts are
    -- 64-bit numbers, and none to any other node.
    pub on_sample-outstanding :
        (p : PathTo)
        → IsCount (lookup (path_below [] (f ∷ fs)) t.prop_attr)
        → outstanding p (on_sample double e t).1 ≡ (
            if same_path (path_below [] (f ∷ fs)) p
            then (outstanding p t + 1) % 2 ^ 64
            else outstanding p t)
    on_sample-outstanding p h =
        let q : PathTo = path_below [] (f ∷ fs) in
        ap (λ m. waiting (lookup p m)) on_sample-prop_attr
        ∙ waiting-insert q p _ t.prop_attr
        ∙ at_path q p (λ x. waiting (some (count_sample double (lookup x t.prop_attr))))
            (λ x. (outstanding x t + 1) % 2 ^ 64) (outstanding p t)
            (count_sample-waiting (lookup q t.prop_attr) h)

  module _ (leaf : PathTo) (prop : D) (threshold dist : ℕ) (t : Tables D) where
    -- A trap takes the outstanding samples of its node, which then has none, and leaves those of all
    -- other nodes.
    pub get_num_diff_samples_and_reset-outstanding :
        (p : PathTo)
        → outstanding p (get_num_diff_samples_and_reset double leaf prop threshold dist t).1
          ≡ (if same_path leaf p then 0 else outstanding p t)
    unfolding get_num_diff_samples_and_reset catch_up
    get_num_diff_samples_and_reset-outstanding p = elim (Option-cases (lookup leaf t.prop_attr)) [
      | inl e ↦ rw (e, get_num_diff_samples_and_reset) (waiting-missing leaf p t.prop_attr e)
      | inr (s, e) ↦
          rw (e, get_num_diff_samples_and_reset)
            (waiting-insert leaf p (catch_up double dist s) t.prop_attr
              ∙ ap (λ n. if same_path leaf p then n else outstanding p t)
                  (unfold catch_up in (caught_up s.cur_num)))
    ]
