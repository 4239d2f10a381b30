-- ===== src/Db/State.antt =====
-- `DB`, what a call of it asks of its surroundings, and its errors (server/src/db/db.rs).
use segmented_memory_storage.Common.{ℕ, Bool, Option, List}
use segmented_memory_storage.Common.HashMap.{HashMap}
use segmented_memory_storage.Common.Texts.{Text}
use segmented_memory_storage.Kv.State.{KvStore, DbEntry, KvError}
use segmented_memory_storage.Groups.State.{GroupManager, Group, GroupError}
use segmented_memory_storage.SegList.State.{SegList, ListError}
use segmented_memory_storage.Aof.Entry.{AofEntry}

-- The two readings of the clock and the order of the map for the keys; the reading for the cache,
-- the order of the groups and the hash of a name and an id; whether memory is to be had.
pub record Env : Type 0 where
  pub now : ℕ
  pub now' : ℕ
  pub iter : HashMap DbEntry → List (Text × DbEntry)
  pub instant : ℕ
  pub iter_groups : HashMap Group → List (Text × Group)
  pub build_key : Text → ℕ → ℕ
  pub available : Bool

-- `aof` is what was sent to the writer, and `event_tx` what was sent to the replication, if it is
-- on. The locks around the stores are held for one call each.
pub record Db : Type 0 where
  pub kv_store : KvStore
  pub group_manager : GroupManager
  pub list : SegList
  pub aof : List AofEntry
  pub event_tx : Option (List AofEntry)

pub data DbError : Type 0 where
  log_create_group_error log_drop_group_error log_append_error : GroupError → DbError
  log_append_range_error log_read_error log_read_range_error : GroupError → DbError
  log_remove_error log_group_stats_error : GroupError → DbError
  kv_set_error kv_get_error kv_del_error kv_keys_error kv_flush_error : KvError → DbError
  list_push_error list_push_range_error list_pop_error : ListError → DbError
  list_pop_range_error list_pop_count_error list_len_error list_flush_error : ListError → DbError
