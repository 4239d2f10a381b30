-- ===== src/Aof/Entry.antt =====
-- The entries of the append-only file and their categories (server/src/db/aof.rs).
use segmented_memory_storage.Common.{ℕ, List, Bool, true, false}
use segmented_memory_storage.Common.Texts.{Text}

-- Fields in the order of the source; a time to live is the 64 bits of an `i64`.
pub data AofEntry : Type 0 where
  kv_set : (db key : Text) (val : List ℕ) (ttl : ℕ) → AofEntry
  kv_del : (db key : Text) → AofEntry
  kv_flush : (db : Text) → AofEntry
  log_create_group : (name : Text) → AofEntry
  log_drop_group : (name : Text) → AofEntry
  log_add : (group : Text) (timestamp : ℕ) (payload : List ℕ) → AofEntry
  log_add_range : (group : Text) (entries : List (ℕ × List ℕ)) → AofEntry
  log_remove : (group : Text) (up_to_id : ℕ) → AofEntry
  list_push : (key : Text) (payload : List ℕ) → AofEntry
  list_push_range : (key : Text) (items : List (List ℕ)) → AofEntry
  list_pop : (key : Text) → AofEntry
  list_pop_range : (key : Text) (start end : ℕ) → AofEntry
  list_pop_count : (key : Text) (count : ℕ) → AofEntry
  list_flush : (key : Text) → AofEntry

pub data EntryCategory : Type 0 where
  kv log list : EntryCategory

abbrev pub category : AofEntry → EntryCategory
category (kv_set _ _ _ _) = kv
category (kv_del _ _) = kv
category (kv_flush _) = kv
category (log_create_group _) = log
category (log_drop_group _) = log
category (log_add _ _ _) = log
category (log_add_range _ _) = log
category (log_remove _ _) = log
category (list_push _ _) = list
category (list_push_range _ _) = list
category (list_pop _) = list
category (list_pop_range _ _ _) = list
category (list_pop_count _ _) = list
category (list_flush _) = list

abbrev pub is_kv : AofEntry → Bool
is_kv e = elim (category e) [ kv ↦ true | _ ↦ false ]

abbrev pub is_list : AofEntry → Bool
is_list e = elim (category e) [ list ↦ true | _ ↦ false ]

abbrev pub is_log : AofEntry → Bool
is_log e = elim (category e) [ log ↦ true | _ ↦ false ]
