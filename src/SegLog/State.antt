-- ===== src/SegLog/State.antt =====
-- The state of a segmented log and its errors (`SegLog`, `EntryLoc`, `LogEntry` and `LogError` of
-- server/src/db/seg_log.rs).
use segmented_memory_storage.Common.{ℕ, ◌*◌, Bool, List}
use segmented_memory_storage.Common.BTreeMap.{BTreeMap}
use segmented_memory_storage.Segment.{Segment}

abbrev pub initial_segments : ℕ
initial_segments = 8

abbrev pub max_segments : ℕ
max_segments = 1024 * 1024 * 1024

pub record EntryLoc : Type 0 where
  pub segment_idx : ℕ
  pub offset : ℕ
  pub len : ℕ

-- `segs` owns its segments, so they are held by value. `lock_write` says whether the mutex is taken.
pub record SegLog : Type 0 where
  pub segs : List Segment
  pub active_seg : ℕ
  pub write_cursor : ℕ
  pub idx : BTreeMap EntryLoc
  pub next_id : ℕ
  pub entry_count : ℕ
  pub lock_write : Bool

pub record LogEntry : Type 0 where
  pub id : ℕ
  pub timestamp : ℕ
  pub len : ℕ
  pub payload : List ℕ

pub data LogError : Type 0 where
  entry_too_large : LogError
  segment_limit_reached : LogError
  entry_not_found : LogError
  allocation_failed : LogError
  max_segments_reached : LogError
  write_lock_unavailable : LogError
