-- ===== src/Db/Calls.antt =====
-- How a method of `DB` calls a store and reports what it did (server/src/db/db.rs).
use segmented_memory_storage.Common.{none, some, [], ◌∷◌, ◌++◌}
use segmented_memory_storage.Common.Outcome.{Outcome, ok, err, crash, Action, modify}
use segmented_memory_storage.Kv.State.{KvStore}
use segmented_memory_storage.Groups.State.{GroupManager}
use segmented_memory_storage.SegList.State.{SegList}
use segmented_memory_storage.Aof.Entry.{AofEntry}
use segmented_memory_storage.Db.State.{Db, DbError}

abbrev pub DbAction : Type 0 → Type 0
DbAction = Action Db DbError

-- `map_err`
abbrev pub map_err : {E F A : Type 0} → (E → F) → Outcome E A → Outcome F A
map_err f (ok a) = ok a
map_err f (err e) = err (f e)
map_err f crash = crash

-- A call of one of the stores under its lock.
unfoldable pub on_kv : {E A : Type 0} → (E → DbError) → Action KvStore E A → DbAction A
on_kv f m d = let (r, s) = m d.kv_store in (map_err f r, record d { kv_store = s })

unfoldable pub on_groups : {E A : Type 0} → (E → DbError) → Action GroupManager E A → DbAction A
on_groups f m d = let (r, s) = m d.group_manager in (map_err f r, record d { group_manager = s })

unfoldable pub on_list : {E A : Type 0} → (E → DbError) → Action SegList E A → DbAction A
on_list f m d = let (r, s) = m d.list in (map_err f r, record d { list = s })

-- `AofWriter::write`
unfoldable pub write : AofEntry → DbAction (Unit {0})
write entry = modify (λ d. record d { aof = d.aof ++ entry ∷ [] })

-- The entry to the replication, if it is on.
unfoldable pub send : AofEntry → DbAction (Unit {0})
send entry = modify (λ d. record d {
  event_tx = elim d.event_tx [ none ↦ none | some sent ↦ some (sent ++ entry ∷ []) ];
})
