-- ===== src/Db/Turns.antt =====
-- Whatever the turns of the three tasks, the stores end the same (server/src/db/db.rs).
use mathlib.Core.Path.{subst}
use segmented_memory_storage.Common.{◌⊎◌, inl, inr, ◌≡◌, refl, ap, ◌∙◌, List, [], ◌∷◌, All}
use segmented_memory_storage.Common.Outcome.{Outcome, ok, err, crash}
use segmented_memory_storage.Kv.State.{KvStore}
use segmented_memory_storage.Groups.State.{GroupManager}
use segmented_memory_storage.SegList.State.{SegList}
use segmented_memory_storage.Aof.Entry.{
  AofEntry, kv_set, kv_del, kv_flush, log_create_group, log_drop_group, log_add, log_add_range,
  log_remove, list_push, list_push_range, list_pop, list_pop_range, list_pop_count, list_flush,
  EntryCategory, kv, log, list, category,
}
use segmented_memory_storage.Db.State.{Env, Db, DbError}
use segmented_memory_storage.Db.Calls.{on_kv, on_groups, on_list}
use segmented_memory_storage.Db.Apply.{ignored, apply_aof}
use segmented_memory_storage.Db.Replay.{
  Task, running, panicked, Replay, task, with_task, left, turn, turns,
}

-- The store of a category.
abbrev pub StoreOf : EntryCategory → Type 0
StoreOf kv = KvStore
StoreOf list = SegList
StoreOf log = GroupManager

abbrev pub store : (c : EntryCategory) → Db → StoreOf c
store kv d = d.kv_store
store list d = d.list
store log d = d.group_manager

abbrev pub put_store : (c : EntryCategory) → StoreOf c → Db → Db
put_store kv s d = record d { kv_store = s }
put_store list s d = record d { list = s }
put_store log s d = record d { group_manager = s }

-- What an entry does to the store of a category; `d` stands for the rest of the database.
abbrev pub part :
    Env → Db → (c : EntryCategory) → AofEntry → StoreOf c → Outcome DbError (Unit {0}) × StoreOf c
part env d c e s = let (r, d') = apply_aof env e (put_store c s d) in (r, store c d')

-- An entry touches no store but that of its category.
apply_aof-part :
    (env : Env) (d₀ : Db) (e : AofEntry) (d : Db)
    → apply_aof env e d ≡ (
      (part env d₀ (category e) e (store (category e) d)).0,
      put_store (category e) (part env d₀ (category e) e (store (category e) d)).1 d,
    )
unfolding apply_aof ignored on_kv on_groups on_list
apply_aof-part env d₀ (kv_set db key val ttl) d = refl
apply_aof-part env d₀ (kv_del db key) d = refl
apply_aof-part env d₀ (kv_flush db) d = refl
apply_aof-part env d₀ (log_create_group name) d = refl
apply_aof-part env d₀ (log_drop_group name) d = refl
apply_aof-part env d₀ (log_add group timestamp payload) d = refl
apply_aof-part env d₀ (log_add_range group entries) d = refl
apply_aof-part env d₀ (log_remove group up_to_id) d = refl
apply_aof-part env d₀ (list_push key payload) d = refl
apply_aof-part env d₀ (list_push_range key items) d = refl
apply_aof-part env d₀ (list_pop key) d = refl
apply_aof-part env d₀ (list_pop_range key start end) d = refl
apply_aof-part env d₀ (list_pop_count key count) d = refl
apply_aof-part env d₀ (list_flush key) d = refl

-- A task run to its end on its store alone.
unfoldable pub finish : Env → Db → (c : EntryCategory) → Task → StoreOf c → Task × StoreOf c
finish env d c panicked s = (panicked, s)
finish env d c (running []) s = (running [], s)
finish env d c (running (e ∷ entries)) s =
    let rest = finish env d c (running entries) (part env d c e s).1 in
    elim (part env d c e s).0 [
      | ok a ↦ rest
      | err z ↦ rest
      | crash ↦ (panicked, (part env d c e s).1)
    ]

-- What the store of a category comes to when only its own task runs on.
abbrev pub ended : Env → Db → (c : EntryCategory) → Replay → Task × StoreOf c
ended env d c x = finish env d c (task c x) (store c x.db)

-- A task holds entries of its own category.
abbrev pub Own : EntryCategory → Task → Type 0
Own c (running es) = All (λ e. category e ≡ c) es
Own c panicked = Unit {0}

finish-left :
    (env : Env) (d : Db) (c : EntryCategory) (r : Outcome DbError (Unit {0}))
    (entries : List AofEntry) (s : StoreOf c)
    → finish env d c (left r entries) s ≡ elim r [
      | ok a ↦ finish env d c (running entries) s
      | err z ↦ finish env d c (running entries) s
      | crash ↦ (panicked, s)
    ]
unfolding finish
finish-left env d c (ok a) entries s = refl
finish-left env d c (err z) entries s = refl
finish-left env d c crash entries s = refl

pub apply_aof-part_of :
    (env : Env) (d₀ : Db) (c : EntryCategory) (e : AofEntry) (d : Db)
    → category e ≡ c
    → apply_aof env e d
      ≡ ((part env d₀ c e (store c d)).0, put_store c (part env d₀ c e (store c d)).1 d)
apply_aof-part_of env d₀ c e d h =
    subst
      (λ c.
        apply_aof env e d
        ≡ ((part env d₀ c e (store c d)).0, put_store c (part env d₀ c e (store c d)).1 d))
      h (apply_aof-part env d₀ e d)

-- A turn of a task that has an entry changes nothing of where the stores end.
pub ended-turn_entry :
    (env : Env) (d : Db) (c c' : EntryCategory) (e : AofEntry) (entries : List AofEntry)
    (x : Replay)
    → category e ≡ c'
    → task c' x ≡ running (e ∷ entries)
    → ended env d c (turn env c' x) ≡ ended env d c x
unfolding turn finish
ended-turn_entry env d kv kv e entries x own h =
    rw (h, apply_aof-part_of env d kv e x.db own)
      (finish-left env d kv (part env d kv e x.db.kv_store).0 entries
        (part env d kv e x.db.kv_store).1)
ended-turn_entry env d kv list e entries x own h = rw (h, apply_aof-part_of env d list e x.db own)
ended-turn_entry env d kv log e entries x own h = rw (h, apply_aof-part_of env d log e x.db own)
ended-turn_entry env d list kv e entries x own h = rw (h, apply_aof-part_of env d kv e x.db own)
ended-turn_entry env d list list e entries x own h =
    rw (h, apply_aof-part_of env d list e x.db own)
      (finish-left env d list (part env d list e x.db.list).0 entries
        (part env d list e x.db.list).1)
ended-turn_entry env d list log e entries x own h = rw (h, apply_aof-part_of env d log e x.db own)
ended-turn_entry env d log kv e entries x own h = rw (h, apply_aof-part_of env d kv e x.db own)
ended-turn_entry env d log list e entries x own h = rw (h, apply_aof-part_of env d list e x.db own)
ended-turn_entry env d log log e entries x own h =
    rw (h, apply_aof-part_of env d log e x.db own)
      (finish-left env d log (part env d log e x.db.group_manager).0 entries
        (part env d log e x.db.group_manager).1)

pub Task-cases :
    (t : Task)
    → (t ≡ panicked)
      ⊎ ((t ≡ running [])
          ⊎ ((e : AofEntry) × (entries : List AofEntry) × (t ≡ running (e ∷ entries))))
Task-cases panicked = inl refl
Task-cases (running []) = inr (inl refl)
Task-cases (running (e ∷ entries)) = inr (inr (e, entries, refl))

-- Each task of a replay holds entries of its own category.
abbrev pub OwnTasks : Replay → Type 0
OwnTasks x = (c : EntryCategory) → Own c (task c x)

pub turn-idle :
    (env : Env) (c : EntryCategory) (x : Replay)
    → (task c x ≡ panicked) ⊎ (task c x ≡ running [])
    → turn env c x ≡ x
unfolding turn
turn-idle env c x (inl h) = rw (turn, h)
turn-idle env c x (inr h) = rw (turn, h)

pub ended-turn :
    (env : Env) (d : Db) (c c' : EntryCategory) (x : Replay)
    → OwnTasks x
    → ended env d c (turn env c' x) ≡ ended env d c x
ended-turn env d c c' x own = elim (Task-cases (task c' x)) [
  | inl h ↦ ap (ended env d c) (turn-idle env c' x (inl h))
  | inr (inl h) ↦ ap (ended env d c) (turn-idle env c' x (inr h))
  | inr (inr (e, entries, h)) ↦
      ended-turn_entry env d c c' e entries x (subst (Own c') h (own c')).0 h
]

left-Own :
    {A : Type 0} (c : EntryCategory) (r : Outcome DbError A) (entries : List AofEntry)
    → All (λ e. category e ≡ c) entries
    → Own c (left r entries)
left-Own c (ok a) entries h = h
left-Own c (err z) entries h = h
left-Own c crash entries h = tt

with_task-OwnTasks :
    (c : EntryCategory) (t : Task) (x : Replay) → OwnTasks x → Own c t → OwnTasks (with_task c t x)
with_task-OwnTasks kv t x own h kv = h
with_task-OwnTasks kv t x own h list = own list
with_task-OwnTasks kv t x own h log = own log
with_task-OwnTasks list t x own h kv = own kv
with_task-OwnTasks list t x own h list = h
with_task-OwnTasks list t x own h log = own log
with_task-OwnTasks log t x own h kv = own kv
with_task-OwnTasks log t x own h list = own list
with_task-OwnTasks log t x own h log = h

with_db-OwnTasks : (d : Db) (x : Replay) → OwnTasks x → OwnTasks (record x { db = d })
with_db-OwnTasks d x own kv = own kv
with_db-OwnTasks d x own list = own list
with_db-OwnTasks d x own log = own log

pub turn-OwnTasks :
    (env : Env) (c : EntryCategory) (x : Replay) → OwnTasks x → OwnTasks (turn env c x)
unfolding turn
turn-OwnTasks env c x own = elim (Task-cases (task c x)) [
  | inl h ↦ rw (turn-idle env c x (inl h)) own
  | inr (inl h) ↦ rw (turn-idle env c x (inr h)) own
  | inr (inr (e, entries, h)) ↦
      rw (turn, h)
        (with_task-OwnTasks c (left (apply_aof env e x.db).0 entries)
          (record x { db = (apply_aof env e x.db).1 })
          (with_db-OwnTasks (apply_aof env e x.db).1 x own)
          (left-Own c (apply_aof env e x.db).0 entries (subst (Own c) h (own c)).1))
]

pub ended-turns :
    (env : Env) (d : Db) (c : EntryCategory) (order : List EntryCategory) (x : Replay)
    → OwnTasks x
    → ended env d c (turns env order x) ≡ ended env d c x
unfolding turns
ended-turns env d c [] x own = refl
ended-turns env d c (c' ∷ order) x own =
    ended-turns env d c order (turn env c' x) (turn-OwnTasks env c' x own)
    ∙ ended-turn env d c c' x own
