-- ===== src/Witch/Ledger.antt =====
-- The table of proportional attribution of
-- kvmTest/includes/tools/witchTool/witchLogic/WitchLogic.hpp as a ledger: a count of samples for
-- every node that no trap has been credited with.
use kognizance_tool.Prelude.{
  ℕ, ◌+◌, ◌^◌, ◌%◌, ◌≡◌, refl, ap, ◌∙◌, Option, none, some, List, [], ◌∷◌, if◌then◌else◌,
  Bool-cases, Option-cases, inl, inr, arith,
}
use mathlib.Core.Path.{fun_ext}
use kognizance_tool.Prelude.Map.{Map, lookup, insert, lookup-insert}
use kognizance_tool.Event.{Event, Frame}
use kognizance_tool.Witch.Tree.{
  Floats, PathTo, path_key, same_path, SampleNum, Tables, reverse_onto, count_sample, on_sample,
  add_frames_to_context_tree, catch_up, get_num_diff_samples_and_reset, add_frames,
}
use kognizance_tool.Witch.Stores.{threshold}
use kognizance_tool.Witch.Laws.{
  IsCount, outstanding, path_below, path_below-same, on_sample-outstanding, on_sample-prop_attr,
  get_num_diff_samples_and_reset-outstanding,
}

-- What happens to the table: a sample, or a trap at a node after a time.
pub data Entry : Type 0 where
  sampled : Event → Entry
  credited : PathTo → ℕ → Entry

abbrev pub Ledger : Type 0
Ledger = PathTo → ℕ

-- The node of a sample.
abbrev pub node_of : Event → PathTo
node_of e = path_below [] (reverse_onto e.context_agent [])

-- A sample with frames adds one, modulo 2^64, at its node, and a trap clears its node.
abbrev pub post : Entry → Ledger → Ledger
post (sampled e) ledger p =
    if same_path (node_of e) []
    then ledger p
    else if same_path (node_of e) p
    then (ledger p + 1) % 2 ^ 64
    else ledger p
post (credited q time) ledger p = if same_path q p then 0 else ledger p

abbrev pub post_all : List Entry → Ledger → Ledger
post_all [] ledger = ledger
post_all (x ∷ xs) ledger = post_all xs (post x ledger)

-- Every count of the table is a 64-bit number.
abbrev pub HasCounts : {D : Type 0} → Tables D → Type 0
HasCounts t = (p : PathTo) → IsCount (lookup p t.prop_attr)

insert-IsCount :
    {D : Type 0} (q : PathTo) (s : SampleNum D) (m : Map PathTo (SampleNum D))
    → ((p : PathTo) → IsCount (lookup p m))
    → IsCount (some s)
    → (p : PathTo) → IsCount (lookup p (insert q s m))
insert-IsCount q s m h k p = elim (Bool-cases (same_path q p)) [
  | inl t ↦ rw (lookup-insert q p s m, t) k
  | inr f ↦ rw (lookup-insert q p s m, f) (h p)
]

module _ {D : Type 0} (double : Floats D) where
  abbrev pub record_entry : Entry → Tables D → Tables D
  record_entry (sampled e) t = (on_sample double e t).1
  record_entry (credited p time) t =
      (get_num_diff_samples_and_reset double p (double.of_ℕ 1) threshold time t).1

  abbrev pub record_all : List Entry → Tables D → Tables D
  record_all [] t = t
  record_all (x ∷ xs) t = record_all xs (record_entry x t)

  count_sample-IsCount :
      (o : Option (SampleNum D)) → IsCount o → IsCount (some (count_sample double o))
  unfolding count_sample
  count_sample-IsCount none h = (omega arith, omega arith)
  count_sample-IsCount (some s) (a, b) = (omega arith, b)

  -- A sample without frames leaves the table.
  frameless :
      (e : Event) (t : Tables D)
      → reverse_onto e.context_agent [] ≡ []
      → (on_sample double e t).1.prop_attr ≡ t.prop_attr
  unfolding on_sample add_frames_to_context_tree add_frames
  frameless e t none_seen = rw (none_seen, on_sample, add_frames_to_context_tree, add_frames) refl

  sampled-HasCounts :
      (e : Event) (t : Tables D) (fs : List Frame)
      → reverse_onto e.context_agent [] ≡ fs
      → HasCounts t
      → HasCounts (on_sample double e t).1
  sampled-HasCounts e t [] seen h p = rw (frameless e t seen) (h p)
  sampled-HasCounts e t (f ∷ fs) seen h p =
      rw (on_sample-prop_attr double e t f fs seen)
        (insert-IsCount _ _ t.prop_attr h (count_sample-IsCount _ (h _)) p)

  record_entry-HasCounts : (x : Entry) (t : Tables D) → HasCounts t → HasCounts (record_entry x t)
  unfolding get_num_diff_samples_and_reset catch_up
  record_entry-HasCounts (sampled e) t h = sampled-HasCounts e t _ refl h
  record_entry-HasCounts (credited q time) t h = elim (Option-cases (lookup q t.prop_attr)) [
    | inl n ↦ λ p. rw (n, record_entry, get_num_diff_samples_and_reset) (h p)
    | inr (s, e) ↦
        let small : IsCount (some s) = rw e at (h q) in
        λ p.
          rw (e, record_entry, get_num_diff_samples_and_reset)
            (insert-IsCount q (catch_up double time s) t.prop_attr h (small.0, small.0) p)
  ]

  sampled-post :
      (e : Event) (t : Tables D) (fs : List Frame)
      → reverse_onto e.context_agent [] ≡ fs
      → HasCounts t
      → (p : PathTo)
      → outstanding p (on_sample double e t).1 ≡ post (sampled e) (λ q. outstanding q t) p
  sampled-post e t [] seen h p = rw (seen, frameless e t seen) refl
  sampled-post e t (f ∷ fs) seen h p =
      rw (seen, path_below-same (f.binary_addr, f.src_lineno) [] fs)
        (on_sample-outstanding double e t f fs seen p (h _))

  record_entry-post :
      (x : Entry) (t : Tables D)
      → HasCounts t
      → (λ p. outstanding p (record_entry x t)) ≡ post x (λ p. outstanding p t)
  record_entry-post (sampled e) t h = fun_ext λ p. sampled-post e t _ refl h p
  record_entry-post (credited q time) t h =
      fun_ext
        λ p. get_num_diff_samples_and_reset-outstanding double q (double.of_ℕ 1) threshold time t p

  -- The table refines the ledger: after any sequence of samples and traps on a table of 64-bit
  -- counts, the outstanding samples of all nodes are those that the ledger has.
  pub record_all-post :
      (xs : List Entry) (t : Tables D)
      → HasCounts t
      → (λ p. outstanding p (record_all xs t)) ≡ post_all xs (λ p. outstanding p t)
  record_all-post [] t h = refl
  record_all-post (x ∷ xs) t h =
      record_all-post xs (record_entry x t) (record_entry-HasCounts x t h)
      ∙ ap (post_all xs) (record_entry-post x t h)
