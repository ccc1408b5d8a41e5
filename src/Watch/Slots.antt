-- ===== src/Watch/Slots.antt =====
-- The watchpoint slots of a thread: the types of
-- kvmTest/includes/tools/witchTool/watchpoint-lib/watchpoint.h and watchpoint_util.h, and the test
-- for an overlap with an active slot. `watchPointArray` is the list of its first `maxWP` entries,
-- so a loop over the slots is a recursion on that list.
use kognizance_tool.Prelude.{
  ℕ, ◌+◌, ◌^◌, ◌%◌, Bool, true, false, Option, List, [], ◌∷◌, if◌then◌else◌,
}
use kognizance_tool.Prelude.Int.{ℤ}
use kognizance_tool.Event.{Event}
use kognizance_tool.Watch.Address.{addresses_overlap}

pub data Access : Type 0 where
  wp_read wp_write wp_rw wp_inst wp_invalid : Access

pub data Policy : Type 0 where
  auto empty_slot oldest newest : Policy

pub data TriggerAction : Type 0 where
  disable already_disabled disable_all retain : TriggerAction

pub data Victim : Type 0 where
  slot_empty slot_non_empty none_available : Victim

-- WP_RegisterInfo_t; `file_handle` is `none` for -1 and `sampled_event` is `none` for a pointer
-- that was never set. The fields that the library never writes are left out.
pub record RegisterInfo : Type 0 where
  pub va : ℕ
  pub wp_length : ℕ
  pub start_time : ℤ
  pub file_handle : Option ℕ
  pub thread_id : ℕ
  pub is_active : Bool
  pub mmap_buffer : Bool
  pub sampled_event : Option Event
  pub sample_post_full : ℕ

-- WP_ThreadData_t over the type of the random generator's state
pub record ThreadData (R : Type 0) : Type 0 where
  pub sample_post_full : ℕ
  pub rand_buffer : R
  pub slots : List RegisterInfo

abbrev pub samples_post_full_reset_val : ℕ
samples_post_full_reset_val = 1

-- IsOveralpped
unfoldable pub is_overlapped : ℕ → ℕ → List RegisterInfo → Bool
is_overlapped va len [] = false
is_overlapped va len (w ∷ ws) =
    let rest = is_overlapped va len ws in
    if w.is_active then (if addresses_overlap w.va w.wp_length va len then true else rest) else rest

-- `samplePostFull++` of a 64-bit counter
unfoldable pub bump : RegisterInfo → RegisterInfo
bump w = record w { sample_post_full = (w.sample_post_full + 1) % 2 ^ 64 }
