-- ===== src/Db/Client.antt =====
-- Whatever clients call of the database, one call after another (server/src/db/db.rs).
use segmented_memory_storage.Common.{
  ℕ, Bool, true, false, ◌&&◌, none, some, Option, List, [], ◌∷◌, if◌then◌else◌,
}
use segmented_memory_storage.Common.HashMap
use segmented_memory_storage.Common.Outcome.{pure, ◌>>◌}
use segmented_memory_storage.Common.Texts.{Text}
use segmented_memory_storage.Aof.Entry.{AofEntry, is_list}
use segmented_memory_storage.Db.State.{Env, Db}
use segmented_memory_storage.Db.Calls.{DbAction}
use segmented_memory_storage.Db.Ops
use segmented_memory_storage.Db.Logged.{perform, is_ok}

-- The calls that have an entry, and those that read.
pub data Call : Type 0 where
  changes : AofEntry → Call
  kv_get : (db key : Text) → Call
  kv_keys : (db : Text) → Call
  log_read : (group : Text) (id : ℕ) → Call
  log_read_range : (group : Text) (start end : ℕ) → Call
  log_list_groups : Call
  log_group_stats : (group : Text) → Call
  list_len : (key : Text) → Call

unfoldable pub call : Env → Call → DbAction (Unit {0})
call env (changes e) = perform env e
call env (kv_get db key) = Ops.kv_get env db key >> pure tt
call env (kv_keys db) = Ops.kv_keys env db >> pure tt
call env (log_read group id) = Ops.log_read env group id >> pure tt
call env (log_read_range group start end) = Ops.log_read_range env group start end >> pure tt
call env log_list_groups = Ops.log_list_groups env >> pure tt
call env (log_group_stats group) = Ops.log_group_stats env group >> pure tt
call env (list_len key) = Ops.list_len env key >> pure tt

-- What calls leave, each with what its surroundings answer; after an error or a panic of one the
-- others go on.
unfoldable pub calls : List (Env × Call) → Db → Db
calls [] d = d
calls (c ∷ cs) d = calls cs (call c.0 c.1 d).1

abbrev pub is_there : {A : Type 0} → Option A → Bool
is_there none = false
is_there (some a) = true

-- A change of a list goes well and has memory, and the length is asked of a list that there is;
-- every other call may end as it will.
abbrev pub list_well : Env → Call → Db → Bool
list_well env (changes e) d = if is_list e then env.available && is_ok (perform env e d).0 else true
list_well env (list_len key) d = is_there (HashMap.lookup key d.list.written)
list_well env _ d = true

unfoldable pub lists_well : List (Env × Call) → Db → Bool
lists_well [] d = true
lists_well (c ∷ cs) d = list_well c.0 c.1 d && lists_well cs (call c.0 c.1 d).1
