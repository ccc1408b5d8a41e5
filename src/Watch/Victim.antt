-- ===== src/Watch/Victim.antt =====
-- GetVictim of kvmTest/src/tools/witchTool/watchpoint-lib/src/watchpoint.cpp. The random numbers
-- of the C library and the double arithmetic are parameters.
use mathlib.Core.Option
use kognizance_tool.Prelude.{
  ℕ, zero, suc, ◌-◌, ◌%◌, ◌^◌, Bool, Option, none, some, List, [], ◌∷◌, map, length, get_or, set,
  if◌then◌else◌,
}
use kognizance_tool.Prelude.Int.{ℤ, pos, ltz}
use kognizance_tool.Watch.Slots.{
  Policy, auto, empty_slot, oldest, newest, Victim, slot_empty, slot_non_empty, none_available,
  RegisterInfo, bump,
}

-- lrand48_r, drand48_r and srand48_r over the state R, and the operations on doubles F that the
-- library uses.
pub record Random (R F : Type 0) : Type 0 where
  pub lrand : R → ℕ × R
  pub drand : R → F × R
  pub srand : ℕ → R
  pub of_ℕ : ℕ → F
  pub add : F → F → F
  pub div : F → F → F
  pub leb : F → F → Bool

-- The outcome: the kind of victim, the location (`none` for the initial -1), the slots with their
-- new survival counts, and the state of the generator.
pub record Choice (R : Type 0) : Type 0 where
  pub victim : Victim
  pub location : Option ℕ
  pub slots : List RegisterInfo
  pub rand : R

-- The first inactive slot.
unfoldable pub first_inactive : List RegisterInfo → Option ℕ
first_inactive [] = none
first_inactive (w ∷ ws) =
    let rest = Option.map suc (first_inactive ws) in if w.is_active then rest else some 0

abbrev pub bump_active : RegisterInfo → RegisterInfo
bump_active w = if w.is_active then bump w else w

-- `array[i].samplePostFull++`
unfoldable pub bump_at : ℕ → List RegisterInfo → List RegisterInfo
bump_at i [] = []
bump_at zero (w ∷ ws) = bump w ∷ ws
bump_at (suc i) (w ∷ ws) = w ∷ bump_at i ws

-- The increments over a list of locations, from the first on.
unfoldable pub bump_list : List ℕ → List RegisterInfo → List RegisterInfo
bump_list [] ws = ws
bump_list (i ∷ is) ws = bump_list is (bump_at i ws)

-- The array 0, 1, …, n - 1.
unfoldable pub range : ℕ → List ℕ
range zero = []
range (suc n) = 0 ∷ map suc (range n)

unfoldable pub swap_at : ℕ → ℕ → List ℕ → List ℕ
swap_at i j xs = let tmp = get_or xs i 0 in set (set xs i (get_or xs j 0)) j tmp

-- The sampled slot's survival count; a location out of range does not occur.
unfoldable pub survival : List RegisterInfo → ℕ → ℕ
survival [] i = 0
survival (w ∷ ws) zero = w.sample_post_full
survival (w ∷ ws) (suc i) = survival ws i

-- The loop of WP_REPLACEMENT_NEWEST from index i on.
unfoldable pub find_newest : ℕ → Option ℕ → ℤ → List RegisterInfo → Option ℕ
find_newest i location time [] = location
find_newest i location time (w ∷ ws) =
    let later = ltz time w.start_time in
    find_newest (suc i) (if later then some i else location) (if later then w.start_time else time)
      ws

-- The loop of WP_REPLACEMENT_OLDEST from index i on.
unfoldable pub find_oldest : ℕ → Option ℕ → ℤ → List RegisterInfo → Option ℕ
find_oldest i location time [] = location
find_oldest i location time (w ∷ ws) =
    let earlier = ltz w.start_time time in
    find_oldest (suc i) (if earlier then some i else location)
      (if earlier then w.start_time else time) ws

abbrev pub int64_max : ℤ
int64_max = pos (2 ^ 63 - 1)

module _ {R F : Type 0} (env : Random R F) where
  open env use {lrand, drand, of_ℕ, add, div, leb}

  -- The `k` last rounds of the shuffle of `n` entries, from round `i` on.
  unfoldable pub shuffle : ℕ → ℕ → ℕ → R → List ℕ → List ℕ × R
  shuffle n zero i r xs = (xs, r)
  shuffle n (suc k) i r xs = let (v, r') = lrand r in shuffle n k (suc i) r' (swap_at i (v % n) xs)

  -- `randValue <= 1.0/(1.0 + (double)samplePostFull)`
  unfoldable pub accepts : F → ℕ → Bool
  accepts v survived = leb v (div (of_ℕ 1) (add (of_ℕ 1) (of_ℕ survived)))

  -- The attempts in visit order. The first accepted one also counts for those not yet visited.
  unfoldable pub attempt : List ℕ → List RegisterInfo → R → Option ℕ × List RegisterInfo × R
  attempt [] ws r = (none, ws, r)
  attempt (loc ∷ locs) ws r =
      let (v, r') = drand r in
      let rest = attempt locs (bump_at loc ws) r' in
      if accepts v (survival ws loc) then (some loc, bump_list locs (bump_at loc ws), r') else rest

  -- WP_REPLACEMENT_AUTO: reservoir sampling with one probability per slot.
  unfoldable pub get_victim_auto : List RegisterInfo → R → Choice R
  get_victim_auto ws r =
      let n = length ws in
      let (order, r') = shuffle n n 0 r (range n) in
      let (chosen, ws', r'') = attempt order ws r' in
      elim chosen [
        | some loc ↦ record {
          victim = slot_non_empty;
          location = some loc;
          slots = ws';
          rand = r'';
        }
        | none ↦ record {
          victim = none_available;
          location = some (get_or order 0 0);
          slots = ws';
          rand = r'';
        }
      ]

  -- The switch over the policy, when every slot is active.
  unfoldable pub replace_full : Policy → List RegisterInfo → R → Choice R
  replace_full auto ws r = get_victim_auto ws r
  replace_full newest ws r = record {
    victim = slot_non_empty;
    location = find_newest 0 none (pos 0) ws;
    slots = ws;
    rand = r;
  }
  replace_full oldest ws r = record {
    victim = slot_non_empty;
    location = find_oldest 0 none int64_max ws;
    slots = ws;
    rand = r;
  }
  replace_full empty_slot ws r = record {
    victim = none_available;
    location = none;
    slots = ws;
    rand = r;
  }

  unfoldable pub get_victim : Policy → List RegisterInfo → R → Choice R
  get_victim policy ws r = elim (first_inactive ws) [
    | some i ↦ record {
      victim = slot_empty;
      location = some i;
      slots = map bump_active ws;
      rand = r;
    }
    | none ↦ replace_full policy ws r
  ]
