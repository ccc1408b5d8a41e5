-- ===== src/Witch/Logics.antt =====
-- The logics of the witch tool: kvmTest/includes/tools/witchTool/mytool.hpp and the selection of
-- the callback in OnWatchPoint, kvmTest/src/tools/witchTool/watchpoint-lib/src/watchpoint.cpp.
use kognizance_tool.Prelude.{Bool, List, [], ◌∷◌}
use kognizance_tool.Event.{Event}
use kognizance_tool.Watch.Slots.{TriggerAction}
use kognizance_tool.Watch.Trigger.{TriggerInfo}
use kognizance_tool.Witch.Tree.{Floats, on_sample, clean_context_tree}
use kognizance_tool.Witch.Totals.{Counters, Logic}
use kognizance_tool.Witch.Stores.{dead_store_on_wp, false_sharing_on_wp}
use kognizance_tool.Witch.Loads.{load_spy_on_wp}
use kognizance_tool.Witch.Writes.{RedFlags, DupFlags, red_spy_on_wp, dup_spy_on_wp}

pub data WitchLogicType : Type 0 where
  deadspy redspy loadspy dupspy falseshare : WitchLogicType

-- The macros that the callbacks of the logics test.
pub record Flags : Type 0 where
  pub dead_inst : Bool
  pub load_inst : Bool
  pub red : RedFlags
  pub dup : DupFlags

-- A sample, or a trap with its sample.
pub data Move : Type 0 where
  sampled : Event → Move
  trapped : Event → Event → TriggerInfo → Move

-- resetWitchLogic; the counters of the threads stay.
unfoldable reset_counters : WitchLogicType → Counters → Counters
reset_counters deadspy c = record c { dead = 0; used = 0; watched = 0 }
reset_counters falseshare c = record c { dead = 0; used = 0; watched = 0 }
reset_counters _ c = record c { red = 0; approx_red = 0; used = 0; watched = 0 }

-- cleanContextTree with resetWitchLogic.
unfoldable clean_logic : {D : Type 0} → WitchLogicType → Logic D → Logic D
clean_logic type l = record l {
  tables = clean_context_tree l.tables;
  total = reset_counters type l.total;
}

module _ {D S : Type 0} (doubles : Floats D) (floats : Floats S) (flags : Flags) where
  -- `wl->Witch_OnWP_Callback`
  unfoldable pub witch_on_wp :
      WitchLogicType → Event → Event → TriggerInfo → Logic D → TriggerAction × Logic D
  witch_on_wp deadspy = dead_store_on_wp doubles floats flags.dead_inst
  witch_on_wp redspy = red_spy_on_wp doubles floats flags.red
  witch_on_wp loadspy = load_spy_on_wp doubles floats flags.load_inst
  witch_on_wp dupspy = dup_spy_on_wp doubles floats flags.dup
  witch_on_wp falseshare = false_sharing_on_wp doubles floats

  abbrev pub move : WitchLogicType → Move → Logic D → Logic D
  move type (sampled e) l = record l { tables = (on_sample doubles e l.tables).1 }
  move type (trapped curr sample wpt) l = (witch_on_wp type curr sample wpt l).1

  -- A session's samples and traps, in their order.
  abbrev pub run : WitchLogicType → List Move → Logic D → Logic D
  run type [] l = l
  run type (m ∷ ms) l = run type ms (move type m l)
