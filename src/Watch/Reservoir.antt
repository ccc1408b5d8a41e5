-- ===== src/Watch/Reservoir.antt =====
-- Laws of the victim selection, GetVictim of
-- kvmTest/src/tools/witchTool/watchpoint-lib/src/watchpoint.cpp.
use mathlib.Core.List.{Perm, Permᴰ, Mem, mem-cons, mem-map, not-mem-nil}
use native.Mathlib.Bridge.{le_prop}
use mathlib.Core.Logic.Or
use mathlib.Core.List.Perm
use mathlib.Core.Logic.{∥∥₁_elim}
use kognizance_tool.Prelude.{
  ℕ, zero, suc, ◌+◌, ◌%◌, ◌<◌, ◌≤◌, ◌≡◌, refl, ap, ◌∙◌, inl, inr, some, List, [], ◌∷◌, map, length,
  get_or, set, arith, length-set, length-map, Bool-cases, Option-cases,
}
use kognizance_tool.Watch.Slots.{RegisterInfo, slot_non_empty, bump}
use kognizance_tool.Watch.Victim.{
  Random, swap_at, range, shuffle, bump_at, bump_list, survival, accepts, attempt, get_victim_auto,
}

RegisterInfo_list-set : IsSet (List RegisterInfo)
RegisterInfo_list-set = hlevel

bump_at_comm :
    (i j : ℕ) (ws : List RegisterInfo) → bump_at i (bump_at j ws) ≡ bump_at j (bump_at i ws)
unfolding bump_at
bump_at_comm i j [] = refl
bump_at_comm zero zero (w ∷ ws) = refl
bump_at_comm zero (suc j) (w ∷ ws) = refl
bump_at_comm (suc i) zero (w ∷ ws) = refl
bump_at_comm (suc i) (suc j) (w ∷ ws) = ap (◌∷◌ w) (bump_at_comm i j ws)

-- The order of the increments does not matter.
bump_list-permᴰ :
    {is js : List ℕ} (ws : List RegisterInfo) → Permᴰ is js → bump_list is ws ≡ bump_list js ws
unfolding bump_list
bump_list-permᴰ ws Permᴰ.nil = refl
bump_list-permᴰ ws (Permᴰ.cons {a = a} {b = b} e p) = rw e (bump_list-permᴰ (bump_at b ws) p)
bump_list-permᴰ ws (Permᴰ.swap {a = a} {b = b} {l = l} e f) =
    rw (← e, ← f) (ap (bump_list l) (bump_at_comm b a ws))
bump_list-permᴰ ws (Permᴰ.trans p q) = bump_list-permᴰ ws p ∙ bump_list-permᴰ ws q

bump_list-perm :
    (is js : List ℕ) (ws : List RegisterInfo) → Perm is js → bump_list is ws ≡ bump_list js ws
bump_list-perm is js ws p = ∥∥₁_elim p (RegisterInfo_list-set _ _) (λ d. bump_list-permᴰ ws d)

bump_list-map-suc :
    (is : List ℕ) (w : RegisterInfo) (ws : List RegisterInfo)
    → bump_list (map suc is) (w ∷ ws) ≡ w ∷ bump_list is ws
unfolding bump_list bump_at
bump_list-map-suc [] w ws = refl
bump_list-map-suc (i ∷ is) w ws = bump_list-map-suc is w (bump_at i ws)

bump_list-range : (ws : List RegisterInfo) → bump_list (range (length ws)) ws ≡ map bump ws
unfolding bump_list bump_at range
bump_list-range [] = refl
bump_list-range (w ∷ ws) =
    bump_list-map-suc (range (length ws)) (bump w) ws ∙ ap (◌∷◌ (bump w)) (bump_list-range ws)

-- Putting b in the place of an entry a exchanges the two.
set-perm :
    (i : ℕ) (b : ℕ) (xs : List ℕ) → i < length xs → Perm (b ∷ xs) (get_or xs i 0 ∷ set xs i b)
set-perm i b [] h = absurd (omega arith)
set-perm zero b (x ∷ xs) h = Perm.swap x b xs
set-perm (suc i) b (x ∷ xs) h =
    Perm.trans (Perm.swap x b xs)
      (Perm.trans (Perm.cons x (set-perm i b xs (omega arith))) (Perm.swap (get_or xs i 0) x _))

get_or-set :
    (i j : ℕ) (xs : List ℕ) → j < length xs → get_or (set xs i (get_or xs j 0)) j 0 ≡ get_or xs j 0
get_or-set i j [] h = refl
get_or-set zero zero (x ∷ xs) h = refl
get_or-set zero (suc j) (x ∷ xs) h = refl
get_or-set (suc i) zero (x ∷ xs) h = refl
get_or-set (suc i) (suc j) (x ∷ xs) h = get_or-set i j xs (omega arith)

swap_at-perm : (i j : ℕ) (xs : List ℕ) → i < length xs → j < length xs → Perm (swap_at i j xs) xs
unfolding swap_at
swap_at-perm i j xs h k =
    let c : ℕ = get_or xs j 0 in
    let a : ℕ = get_or xs i 0 in
    let first = set-perm i c xs h in
    let second = set-perm j a (set xs i c) (omega (arith, length-set {0} xs i c)) in
    Perm.symm (Perm.cons_inv (Perm.trans first (rw (get_or-set i j xs k) at second)))

length-swap_at : (i j : ℕ) (xs : List ℕ) → length (swap_at i j xs) ≡ length xs
unfolding swap_at
length-swap_at i j xs = length-set (set xs i (get_or xs j 0)) j _ ∙ length-set xs i _

length-range : (n : ℕ) → length (range n) ≡ n
unfolding range
length-range zero = refl
length-range (suc n) = ap suc (length-map (range n) suc ∙ length-range n)

mem-range : (n : ℕ) {m : ℕ} → Mem m (range n) → m < n
unfolding range
mem-range zero h = absurd (not-mem-nil h)
mem-range (suc n) h =
    Or.elim le_prop (mem-cons.0 h) (λ e. rw e (omega arith))
      λ t.
        ∥∥₁_elim (mem-map.0 t) le_prop
          λ (k, inside, e). rw (← e) (omega (arith, mem-range n inside))

module _ {R F : Type 0} (env : Random R F) where
  shuffle-perm_from :
      (k i : ℕ) (r : R) (xs : List ℕ)
      → i + k ≤ length xs
      → Perm (shuffle env (length xs) k i r xs).0 xs
  unfolding shuffle
  shuffle-perm_from zero i r xs h = Perm.refl xs
  shuffle-perm_from (suc k) i r xs h =
      let j : ℕ = (env.lrand r).0 % length xs in
      let e = length-swap_at i j xs in
      let rest = shuffle-perm_from k (suc i) (env.lrand r).1 (swap_at i j xs) (omega arith) in
      Perm.trans (rw e at rest) (swap_at-perm i j xs (omega arith) (grind arith))

  -- The shuffle visits every slot exactly once, whatever numbers the generator gives.
  shuffle-perm : (n : ℕ) (r : R) → Perm (shuffle env n n 0 r (range n)).0 (range n)
  shuffle-perm n r =
      rw (length-range n) at (shuffle-perm_from (length (range n)) 0 r (range n) (omega arith))

  -- Accepted or not, an attempt counts once for each slot in visit order.
  attempt-slots :
      (locs : List ℕ) (ws : List RegisterInfo) (r : R)
      → (attempt env locs ws r).1 ≡ bump_list locs ws
  unfolding attempt bump_list
  attempt-slots [] ws r = refl
  attempt-slots (loc ∷ locs) ws r =
      ground (arith, attempt-slots locs (bump_at loc ws) (env.drand r).1)

  attempt-mem :
      (locs : List ℕ) (ws : List RegisterInfo) (r : R) {loc : ℕ}
      → (attempt env locs ws r).0 ≡ some loc
      → Mem loc locs
  unfolding attempt
  attempt-mem [] ws r e = cc
  attempt-mem (l ∷ locs) ws r {loc} e =
      elim (Bool-cases (accepts env (env.drand r).0 (survival ws l))) [
        | inl t ↦ mem-cons.1 (Or.inl (ground arith))
        | inr f ↦
            mem-cons.1 (Or.inr (attempt-mem locs (bump_at l ws) (env.drand r).1 (ground arith)))
      ]

  -- With every slot active, the reservoir policy counts the sample once in every slot, whichever
  -- slot it picks and also when it picks none.
  pub get_victim_auto-slots :
      (ws : List RegisterInfo) (r : R) → (get_victim_auto env ws r).slots ≡ map bump ws
  unfolding get_victim_auto
  get_victim_auto-slots ws r =
      let order : List ℕ = (shuffle env (length ws) (length ws) 0 r (range (length ws))).0 in
      let r' : R = (shuffle env (length ws) (length ws) 0 r (range (length ws))).1 in
      let counted =
        attempt-slots order ws r'
        ∙ bump_list-perm order _ ws (shuffle-perm (length ws) r)
        ∙ bump_list-range ws in
      elim (Option-cases (attempt env order ws r').0) [
        | inl e ↦ rw (e, get_victim_auto) counted
        | inr (loc, e) ↦ rw (e, get_victim_auto) counted
      ]

  -- The slot that the reservoir policy gives up is one of the thread's slots.
  get_victim_auto-location :
      (ws : List RegisterInfo) (r : R) (loc : ℕ)
      → (get_victim_auto env ws r).victim ≡ slot_non_empty
      → (get_victim_auto env ws r).location ≡ some loc
      → loc < length ws
  unfolding get_victim_auto
  get_victim_auto-location ws r loc v e =
      let order : List ℕ = (shuffle env (length ws) (length ws) 0 r (range (length ws))).0 in
      let r' : R = (shuffle env (length ws) (length ws) 0 r (range (length ws))).1 in
      mem-range (length ws)
        (Perm.subset (shuffle-perm (length ws) r) loc (attempt-mem order ws r' (ground arith)))
