-- ===== src/SegList/State.antt =====
-- The state of a segmented list and its errors (`SegList` and `ListError` of
-- server/src/db/seg_list.rs). A `*mut u8` is the number of an allocation, and `memory` holds what
-- the process has allocated: segments move between `free_segs` and the lists by their pointers.
use segmented_memory_storage.Common.{ℕ, List}
use segmented_memory_storage.Common.HashMap.{HashMap}
use segmented_memory_storage.Segment.{Segment}

abbrev pub Pointer : Type 0
Pointer = ℕ

-- The contents of the allocations, and how many there are.
pub record Memory : Type 0 where
  pub heap : Pointer → Segment
  pub allocated : ℕ

pub record SegList : Type 0 where
  pub written : HashMap (List Pointer)
  pub free_segs : List Pointer
  pub memory : Memory

pub data ListError : Type 0 where
  entry_too_large : ListError
  alloc_failed : ListError
  key_not_found : ListError
  out_of_range : ListError
