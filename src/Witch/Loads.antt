-- ===== src/Witch/Loads.antt =====
-- Witch_OnWP_Callback of LoadSpy, kvmTest/src/tools/witchTool/witchLogic/loadSpy.cpp. The printing
-- is left out. `inst` tells whether WITCHTOOL_LOADSPY_INST is defined.
use kognizance_tool.Prelude.{
  ℕ, zero, suc, ◌+◌, Bool, true, false, Option, ◌%◌, none, some, List, ◌==◌, not, ◌&&◌, ◌||◌,
  if◌then◌else◌, get_or, drop,
}
use kognizance_tool.Prelude.Int.{ℤ, pos, negsuc, pos_part, lez, ltz}
use kognizance_tool.Prelude.Map.{lookup, nat_key}
use kognizance_tool.Event.{Event, AccessType, load, load_and_store, single, double}
use kognizance_tool.Watch.Address.{sub64, word_size, is_aligned, offset_in_first, offset_in_second}
use kognizance_tool.Watch.Slots.{TriggerAction, disable, retain}
use kognizance_tool.Watch.Trigger.{TriggerInfo}
use kognizance_tool.Witch.Tree.{
  Floats, Metrics, PathTo, ContextType, sampled_context, add_frames_to_context_tree,
  get_num_diff_samples_and_reset,
}
use kognizance_tool.Witch.Totals.{
  Counters, Logic, count, add_used, add_red, add_approx_red, add_watched, plus64, times64,
  change_metrics, overlap_of, bits64,
}
use kognizance_tool.Witch.Stores.{finish, threshold}

abbrev pub is_load : AccessType → Bool
is_load load = true
is_load load_and_store = true
is_load _ = false

-- `offset < -16 || offset > 16`
abbrev pub is_far : ℤ → Bool
is_far offset = ltz offset (negsuc 15) || ltz (pos 16) offset

-- The bytes of a value from an offset on; no offset is negative where this is read.
abbrev pub bytes_from : ℤ → List ℕ → List ℕ
bytes_from offset value = drop (pos_part offset) value

-- How many of the `n` first bytes agree: `n`, or 0 when one differs.
unfoldable pub equal_bytes : ℕ → ℕ → List ℕ → List ℕ → ℕ
equal_bytes zero red xs ys = red
equal_bytes (suc n) red xs ys =
    let rest = equal_bytes n (suc red) (drop 1 xs) (drop 1 ys) in
    if get_or xs 0 0 == get_or ys 0 0 then rest else 0

-- `addr + offset`, as a pointer.
abbrev pub start_byte : ℕ → ℤ → ℕ
start_byte addr offset = (addr + bits64 offset) % word_size

-- The comparison as floating-point values of some width: the redundant bytes, or `none` where the
-- code goes to TreatLikeInteger.
unfoldable pub red_as_float : {F : Type 0} → Floats F → ℕ → Event → Event → ℤ → ℤ → ℤ → Option ℕ
red_as_float float width curr sample overlap first second =
    let old = float.of_bytes (bytes_from second sample.value_at_event) in
    let new = float.of_bytes (bytes_from first curr.value_at_event) in
    if ltz overlap (pos width)
      || not (is_aligned (start_byte sample.data_addr second) width)
      || not (is_aligned (start_byte curr.data_addr first) width)
    then none
    else if float.eq old new
    then some width
    else if float.is_far_off (float.div (float.sub old new) old)
    then some 0
    else some width

unfoldable pub red_as_integer : Event → Event → ℤ → ℤ → ℤ → ℕ
red_as_integer curr sample overlap first second =
    equal_bytes (pos_part overlap) 0 (bytes_from first curr.value_at_event)
      (bytes_from second sample.value_at_event)
    % 256

-- The outcome of the comparison.
pub data Verdict : Type 0 where
  redundant approximately_redundant not_redundant : Verdict

unfoldable pub verdict_of : Option ℕ → ℕ → Verdict
verdict_of none red = if red == 0 then not_redundant else redundant
verdict_of (some approx) red = if approx == 0 then not_redundant else approximately_redundant

module _ {D S : Type 0} (doubles : Floats D) (floats : Floats S) where
  unfoldable pub load_spy_compare : Event → Event → ℤ → ℤ → ℤ → Verdict
  load_spy_compare curr sample overlap first second =
      let as_float : Option ℕ = elim curr.float_type [
        | single ↦ red_as_float floats 4 curr sample overlap first second
        | double ↦ red_as_float doubles 8 curr sample overlap first second
        | _ ↦ none
      ] in
      verdict_of as_float (red_as_integer curr sample overlap first second)

  -- INEFFICIENCY from the redundant and the used bytes.
  unfoldable pub rate_red : Metrics → Metrics
  rate_red m =
      let red = plus64 m.red_bytes m.approx_red_bytes in
      record m {
        inefficiency = floats.to_ℤ (
            floats.mul (floats.div (floats.of_ℤ red) (floats.of_ℤ (plus64 red m.used_bytes)))
              (floats.of_ℕ 100));
      }

  unfoldable pub record_used_load : PathTo → ℤ → Logic D → Logic D
  record_used_load leaf inc l =
      let counted = count (add_used inc) l in
      record counted {
        tables =
            change_metrics leaf (λ m. rate_red (record m { used_bytes = plus64 m.used_bytes inc }))
              counted.tables;
      }

  -- The trap's frames go below the sample's leaf, and both leaves count.
  unfoldable pub record_red :
      ContextType
      → (ℤ → Counters → Counters)
      → (Metrics → Metrics)
      → PathTo
      → Event
      → ℤ
      → Logic D
      → Logic D
  record_red c tally more leaf curr inc l =
      let (watched, nodes) =
        add_frames_to_context_tree c curr.context_agent leaf false l.tables.nodes in
      let counted = count (tally inc) l in
      record counted {
        tables =
            change_metrics leaf (λ m. rate_red (more m))
              (change_metrics watched more (record l.tables { nodes = nodes }));
      }

  unfoldable pub load_spy_classify : Verdict → PathTo → Event → ℤ → Logic D → Logic D
  load_spy_classify redundant leaf curr inc l =
      record_red sampled_context add_red (λ m. record m { red_bytes = plus64 m.red_bytes inc }) leaf
        curr inc l
  load_spy_classify approximately_redundant leaf curr inc l =
      record_red sampled_context add_approx_red
        (λ m. record m { approx_red_bytes = plus64 m.approx_red_bytes inc }) leaf curr inc l
  load_spy_classify not_redundant leaf curr inc l = record_used_load leaf inc l

  -- From the sample's leaf on.
  unfoldable pub load_spy_attribute :
      Event → Event → TriggerInfo → PathTo → Logic D → TriggerAction × Logic D
  load_spy_attribute curr sample wpt leaf l =
      let overlap = overlap_of curr sample wpt in
      let first = offset_in_first curr.data_addr sample.data_addr in
      let second = offset_in_second curr.data_addr sample.data_addr in
      let (diff, tables) =
        get_num_diff_samples_and_reset doubles leaf (doubles.of_ℕ 1) threshold
          (sub64 curr.event_time sample.event_time) l.tables in
      let inc = times64 (doubles.to_ℤ diff) sample.access_length in
      let reset = record l { tables = tables } in
      if lez overlap (pos 0) || is_far second || is_far first
      then finish sample l
      else if bits64 inc == 0
      then finish sample reset
      else finish sample (
          count add_watched (
            load_spy_classify (load_spy_compare curr sample overlap first second) leaf curr inc
              reset))

  unfoldable pub load_spy_on_wp :
      Bool → Event → Event → TriggerInfo → Logic D → TriggerAction × Logic D
  load_spy_on_wp inst curr sample wpt l =
      if not (is_load curr.access_type)
      then (retain, l)
      else if inst && not (sample.fixed_ip == curr.fixed_ip)
      then (disable, l)
      else elim (lookup sample.event_id l.tables.leaf_of_event) [
        | none ↦ finish sample l
        | some leaf ↦ load_spy_attribute curr sample wpt leaf l
      ]
