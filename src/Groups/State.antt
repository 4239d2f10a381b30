-- ===== src/Groups/State.antt =====
-- `GroupManager`, its groups and its errors (server/src/db/groups.rs).
use segmented_memory_storage.Common.{ℕ}
use segmented_memory_storage.Common.HashMap.{HashMap}
use segmented_memory_storage.Common.Texts.{Text}
use segmented_memory_storage.SegLog.State.{SegLog, LogEntry, LogError}
use segmented_memory_storage.Lru.State.{Lru}

pub data GroupError : Type 0 where
  group_not_found group_already_exists : Text → GroupError
  log_error : LogError → GroupError

pub record GroupStats : Type 0 where
  pub total_entries : ℕ
  pub total_segments : ℕ
  pub next_id : ℕ

pub record Group : Type 0 where
  pub name : Text
  pub log : SegLog
  pub lru_cache : Lru LogEntry

pub record GroupManager : Type 0 where
  pub groups : HashMap Group
