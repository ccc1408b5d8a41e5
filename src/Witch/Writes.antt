-- ===== src/Witch/Writes.antt =====
-- Witch_OnWP_Callback of RedSpy and DupSpy, kvmTest/src/tools/witchTool/witchLogic/redSpy.cpp and
-- dupSpy.cpp. The printing is left out. The macros of the build are a record of flags.
use kognizance_tool.Prelude.{
  ℕ, Bool, true, false, Option, none, some, ◌==◌, not, ◌&&◌, ◌||◌, if◌then◌else◌,
}
use kognizance_tool.Prelude.Int.{ℤ, pos, lez, ltz}
use kognizance_tool.Prelude.Map.{lookup, nat_key}
use kognizance_tool.Event.{Event, AccessType, store, load_and_store, single, double}
use kognizance_tool.Watch.Address.{sub64, is_aligned, offset_in_first, offset_in_second}
use kognizance_tool.Watch.Slots.{TriggerAction, disable, retain}
use kognizance_tool.Watch.Trigger.{TriggerInfo}
use kognizance_tool.Witch.Tree.{
  Floats, Metrics, PathTo, used_context, red_context, add_frames_to_context_tree,
  get_num_diff_samples_and_reset,
}
use kognizance_tool.Witch.Totals.{
  Logic, count, add_used, add_red, add_approx_red, add_watched, plus64, times64, change_metrics,
  overlap_of, bits64,
}
use kognizance_tool.Witch.Stores.{finish, threshold}
use kognizance_tool.Witch.Loads.{
  is_load, is_far, bytes_from, equal_bytes, start_byte, red_as_integer, rate_red, record_red,
}

abbrev pub is_store : AccessType → Bool
is_store store = true
is_store load_and_store = true
is_store _ = false

-- WITCHTOOL_REDSPY_INST, WITCHTOOL_REDSPY_CONSIDER_APPROXRED and SHOW_USED_CONTEXT.
pub record RedFlags : Type 0 where
  pub inst : Bool
  pub consider_approx : Bool
  pub show_used : Bool

-- WITCHTOOL_DUPSPY_LOAD, WITCHTOOL_DUPSPY_OVERLAP, WITCHTOOL_DUPSPY_CONSIDER_APPROXRED and
-- SHOW_USED_CONTEXT.
pub record DupFlags : Type 0 where
  pub on_load : Bool
  pub on_overlap : Bool
  pub consider_approx : Bool
  pub show_used : Bool

-- The outcome of the comparison: the same value or another one, compared as integers or as
-- floating-point numbers.
pub data Rewrite : Type 0 where
  same_integer same_float other_integer other_float : Rewrite

-- The comparison as floating-point values of some width, or `none` where the code goes to
-- TreatLikeInteger.
unfoldable pub same_as_float :
    {F : Type 0} → Bool → Floats F → ℕ → Event → Event → ℤ → ℤ → ℤ → Option Rewrite
same_as_float consider_approx float width curr sample overlap first second =
    let old = float.of_bytes (bytes_from second sample.value_at_event) in
    let new = float.of_bytes (bytes_from first curr.value_at_event) in
    if ltz overlap (pos width)
      || not (is_aligned (start_byte sample.data_addr second) width)
      || not (is_aligned (start_byte curr.data_addr first) width)
    then none
    else if float.eq old new
    then some same_float
    else if consider_approx && not (float.is_far_off (float.div (float.sub old new) old))
    then some same_float
    else some other_float

abbrev pub rewrite_of : Option Rewrite → ℕ → Rewrite
rewrite_of (some r) red = r
rewrite_of none red = if red == 0 then other_integer else same_integer

-- `sizeof(int)` bytes, whatever the overlap is.
unfoldable pub dup_as_integer : Event → Event → ℤ → ℤ → ℕ
dup_as_integer curr sample first second =
    equal_bytes 4 0 (bytes_from first curr.value_at_event) (bytes_from second sample.value_at_event)

module _ {D S : Type 0} (doubles : Floats D) (floats : Floats S) where
  -- The comparison, given the count of equal bytes.
  unfoldable pub compare_written : Bool → ℕ → Event → Event → ℤ → ℤ → ℤ → Rewrite
  compare_written consider_approx red curr sample overlap first second =
      let as_float : Option Rewrite = elim curr.float_type [
        | single ↦ same_as_float consider_approx floats 4 curr sample overlap first second
        | double ↦ same_as_float consider_approx doubles 8 curr sample overlap first second
        | _ ↦ none
      ] in
      rewrite_of as_float red

  -- The comparison as floating-point numbers leaves INEFFICIENCY as it was.
  unfoldable pub record_used_write : Bool → Bool → PathTo → Event → ℤ → Logic D → Logic D
  record_used_write show_used rates leaf curr inc l =
      let counted = count (add_used inc) l in
      let more = λ (m : Metrics). record m { used_bytes = plus64 m.used_bytes inc } in
      let used =
        change_metrics leaf (if rates then (λ m. rate_red doubles floats (more m)) else more)
          counted.tables in
      let (shown, nodes) =
        add_frames_to_context_tree used_context curr.context_agent leaf false used.nodes in
      record counted { tables = record used { nodes = if show_used then nodes else used.nodes } }

  unfoldable pub write_classify : Bool → Rewrite → PathTo → Event → ℤ → Logic D → Logic D
  write_classify show_used same_integer leaf curr inc l =
      record_red doubles floats red_context add_red
        (λ m. record m { red_bytes = plus64 m.red_bytes inc }) leaf curr inc l
  write_classify show_used same_float leaf curr inc l =
      record_red doubles floats red_context add_approx_red
        (λ m. record m { approx_red_bytes = plus64 m.approx_red_bytes inc }) leaf curr inc l
  write_classify show_used other_integer leaf curr inc l =
      record_used_write show_used true leaf curr inc l
  write_classify show_used other_float leaf curr inc l =
      record_used_write show_used false leaf curr inc l

  -- From the sample's leaf on; `refused` tells that the overlap or the offsets rule the trap out.
  unfoldable pub write_attribute :
      Bool → Bool → Rewrite → Event → Event → PathTo → Logic D → TriggerAction × Logic D
  write_attribute show_used refused r curr sample leaf l =
      let (diff, tables) =
        get_num_diff_samples_and_reset doubles leaf (doubles.of_ℕ 1) threshold
          (sub64 curr.event_time sample.event_time) l.tables in
      let inc = times64 (doubles.to_ℤ diff) sample.access_length in
      let reset = record l { tables = tables } in
      if refused
      then finish sample l
      else if bits64 inc == 0
      then finish sample reset
      else finish sample (count add_watched (write_classify show_used r leaf curr inc reset))

  unfoldable pub red_spy_attribute :
      RedFlags → Event → Event → TriggerInfo → PathTo → Logic D → TriggerAction × Logic D
  red_spy_attribute flags curr sample wpt leaf l =
      let overlap = overlap_of curr sample wpt in
      let first = offset_in_first curr.data_addr sample.data_addr in
      let second = offset_in_second curr.data_addr sample.data_addr in
      let red = red_as_integer curr sample overlap first second in
      write_attribute flags.show_used (lez overlap (pos 0) || is_far second || is_far first)
        (compare_written flags.consider_approx red curr sample overlap first second) curr sample
        leaf l

  unfoldable pub red_spy_on_wp :
      RedFlags → Event → Event → TriggerInfo → Logic D → TriggerAction × Logic D
  red_spy_on_wp flags curr sample wpt l =
      if not (is_store curr.access_type)
      then (retain, l)
      else if flags.inst && not (sample.fixed_ip == curr.fixed_ip)
      then (disable, l)
      else elim (lookup sample.event_id l.tables.leaf_of_event) [
        | none ↦ finish sample l
        | some leaf ↦ red_spy_attribute flags curr sample wpt leaf l
      ]

  -- Without the flag for overlaps the offsets are 0, and a trap counts only if the ranges lie
  -- apart.
  unfoldable pub dup_spy_attribute :
      DupFlags → Event → Event → TriggerInfo → PathTo → Logic D → TriggerAction × Logic D
  dup_spy_attribute flags curr sample wpt leaf l =
      let overlap = overlap_of curr sample wpt in
      let first =
        if flags.on_overlap then offset_in_first curr.data_addr sample.data_addr else pos 0 in
      let second =
        if flags.on_overlap then offset_in_second curr.data_addr sample.data_addr else pos 0 in
      let refused = if flags.on_overlap then lez overlap (pos 0) else lez (pos 0) overlap in
      let red = dup_as_integer curr sample first second in
      write_attribute flags.show_used (refused || is_far second || is_far first)
        (compare_written flags.consider_approx red curr sample overlap first second) curr sample
        leaf l

  unfoldable pub dup_spy_on_wp :
      DupFlags → Event → Event → TriggerInfo → Logic D → TriggerAction × Logic D
  dup_spy_on_wp flags curr sample wpt l =
      if not (if flags.on_load then is_load curr.access_type else is_store curr.access_type)
      then (retain, l)
      else elim (lookup sample.event_id l.tables.leaf_of_event) [
        | none ↦ finish sample l
        | some leaf ↦ dup_spy_attribute flags curr sample wpt leaf l
      ]
