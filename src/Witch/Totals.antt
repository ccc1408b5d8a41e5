-- ===== src/Witch/Totals.antt =====
-- The byte counters of the logics and their updates. A counter is kept for the process and for the
-- thread; inc, an int64_t, is added to a uint64_t.
use kognizance_tool.Prelude.{ℕ, ◌+◌, ◌-◌, ◌*◌, ◌^◌, ◌%◌, none, some, if◌then◌else◌}
use kognizance_tool.Prelude.Int.{ℤ, pos, negsuc, signed64}
use kognizance_tool.Prelude.Map.{lookup, insert}
use kognizance_tool.Event.{Event}
use kognizance_tool.Watch.Address.{addresses_overlap, overlap_bytes}
use kognizance_tool.Watch.Trigger.{TriggerInfo}
use kognizance_tool.Witch.Tree.{Metrics, PathTo, path_key, Tables}

pub record Counters : Type 0 where
  pub used : ℕ
  pub red : ℕ
  pub approx_red : ℕ
  pub dead : ℕ
  pub watched : ℕ

-- The bit pattern of an int64_t.
abbrev pub bits64 : ℤ → ℕ
bits64 (pos n) = n % 2 ^ 64
bits64 (negsuc n) = 2 ^ 64 - 1 - n % 2 ^ 64

abbrev pub add_to : ℕ → ℤ → ℕ
add_to total inc = (total + bits64 inc) % 2 ^ 64

-- A sum and a product of type int64_t, at the wrap-around.
abbrev pub plus64 : ℤ → ℤ → ℤ
plus64 a b = signed64 ((bits64 a + bits64 b) % 2 ^ 64)

abbrev pub times64 : ℤ → ℕ → ℤ
times64 a n = signed64 ((bits64 a * n) % 2 ^ 64)

unfoldable pub add_used : ℤ → Counters → Counters
add_used inc c = record c { used = add_to c.used inc }

unfoldable pub add_dead : ℤ → Counters → Counters
add_dead inc c = record c { dead = add_to c.dead inc }

unfoldable pub add_red : ℤ → Counters → Counters
add_red inc c = record c { red = add_to c.red inc }

unfoldable pub add_approx_red : ℤ → Counters → Counters
add_approx_red inc c = record c { approx_red = add_to c.approx_red inc }

unfoldable pub add_watched : Counters → Counters
add_watched c = record c { watched = (c.watched + 1) % 2 ^ 64 }

-- A logic: the tables, and its counters for the process and for the thread.
pub record Logic (D : Type 0) : Type 0 where
  pub tables : Tables D
  pub total : Counters
  pub per_thread : Counters

unfoldable pub count : {D : Type 0} → (Counters → Counters) → Logic D → Logic D
count f l = record l { total = f l.total; per_thread = f l.per_thread }

-- A change of one node's metrics; the nodes that the logics name are in the tree.
unfoldable pub change_metrics : {D : Type 0} → PathTo → (Metrics → Metrics) → Tables D → Tables D
change_metrics p f t = elim (lookup p t.nodes) [
  | none ↦ t
  | some n ↦ record t { nodes = insert p (record n { metrics = f n.metrics }) t.nodes }
]

-- `wpt->va` after the test for an overlap, and the overlap at it.
unfoldable pub overlap_of : Event → Event → TriggerInfo → ℤ
overlap_of curr sample wpt =
    overlap_bytes sample.data_addr wpt.watch_len
      (if addresses_overlap curr.data_addr curr.access_length sample.data_addr wpt.watch_len
        then curr.data_addr
        else wpt.va)
      curr.access_length
