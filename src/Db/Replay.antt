-- ===== src/Db/Replay.antt =====
-- `load_and_apply` of server/src/db/db.rs: three tasks that apply the entries of one category each,
-- in the order that the scheduler gives them their turns.
use segmented_memory_storage.Common.{Bool, true, false, ◌&&◌, List, [], ◌∷◌}
use segmented_memory_storage.Common.Outcome.{Outcome, ok, err, crash}
use segmented_memory_storage.Aof.Entry.{AofEntry, EntryCategory, kv, log, list}
use segmented_memory_storage.Aof.Load.{AofEntries}
use segmented_memory_storage.Db.State.{Env, Db, DbError}
use segmented_memory_storage.Db.Apply.{apply_aof}

-- What a task has still to apply, or that it has panicked.
pub data Task : Type 0 where
  running : List AofEntry → Task
  panicked : Task

pub record Replay : Type 0 where
  pub db : Db
  pub h1 : Task
  pub h2 : Task
  pub h3 : Task

-- The task of a category, and with another in its place.
abbrev pub task : EntryCategory → Replay → Task
task kv x = x.h1
task list x = x.h2
task log x = x.h3

abbrev pub with_task : EntryCategory → Task → Replay → Replay
with_task kv t x = record x { h1 = t }
with_task list t x = record x { h2 = t }
with_task log t x = record x { h3 = t }

-- Where the tasks are spawned.
abbrev pub spawned : AofEntries → Db → Replay
spawned entries d = record {
  db = d;
  h1 = running entries.kv_entries;
  h2 = running entries.list_entries;
  h3 = running entries.log_entries;
}

-- What is left of a loop after one of its entries.
abbrev pub left : {A : Type 0} → Outcome DbError A → List AofEntry → Task
left (ok a) entries = running entries
left (err e) entries = running entries
left crash entries = panicked

-- One entry of a task.
unfoldable pub turn : Env → EntryCategory → Replay → Replay
turn env c x = elim (task c x) [
  | running es ↦ elim es [
    | [] ↦ x
    | e ∷ entries ↦
        let (r, d) = apply_aof env e x.db in with_task c (left r entries) (record x { db = d })
  ]
  | panicked ↦ x
]

unfoldable pub turns : Env → List EntryCategory → Replay → Replay
turns env [] x = x
turns env (c ∷ order) x = turns env order (turn env c x)

abbrev pub is_done : Task → Bool
is_done (running []) = true
is_done _ = false

-- All three tasks came to their end, as `join!` and the `?` behind it require.
abbrev pub is_joined : Replay → Bool
is_joined x = is_done x.h1 && (is_done x.h2 && is_done x.h3)
