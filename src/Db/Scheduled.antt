-- ===== src/Db/Scheduled.antt =====
-- That the replay comes to its end (server/src/db/db.rs).
use segmented_memory_storage.Common.{
  ℕ, ◌+◌, ◌-◌, ◌≤◌, inl, inr, ◌≡◌, refl, ap, ◌∙◌, Bool, true, false, List, [], ◌∷◌, arith,
  Bool-cases, length, if◌then◌else◌,
}
use segmented_memory_storage.Common.Outcome.{Outcome, ok, err, crash}
use segmented_memory_storage.Aof.Entry.{AofEntry, EntryCategory, kv, log, list}
use segmented_memory_storage.Db.State.{Env, Db, DbError}
use segmented_memory_storage.Db.Apply.{apply_aof}
use segmented_memory_storage.Db.Replay.{
  Task, running, panicked, Replay, task, with_task, left, turn, turns,
}
use segmented_memory_storage.Db.Turns.{Task-cases, turn-idle}

-- How many entries a task has before it; a panicked one applies no more.
abbrev pub to_do : Task → ℕ
to_do (running es) = length es
to_do panicked = 0

abbrev pub same_category : EntryCategory → EntryCategory → Bool
same_category kv kv = true
same_category list list = true
same_category log log = true
same_category _ _ = false

-- How many turns an order gives to a category.
unfoldable pub turns_of : EntryCategory → List EntryCategory → ℕ
turns_of c [] = 0
turns_of c (c' ∷ order) = if same_category c c' then 1 + turns_of c order else turns_of c order

to_do-left :
    {A : Type 0} (r : Outcome DbError A) (es : List AofEntry) → to_do (left r es) ≤ length es
to_do-left (ok a) es = omega arith
to_do-left (err e) es = omega arith
to_do-left crash es = omega arith

task-with_task : (c : EntryCategory) (t : Task) (x : Replay) → task c (with_task c t x) ≡ t
task-with_task kv t x = refl
task-with_task list t x = refl
task-with_task log t x = refl

task-with_db : (c : EntryCategory) (d : Db) (x : Replay) → task c (record x { db = d }) ≡ task c x
task-with_db kv d x = refl
task-with_db list d x = refl
task-with_db log d x = refl

task-with_other :
    (c c' : EntryCategory) (t : Task) (x : Replay)
    → same_category c c' ≡ false
    → task c (with_task c' t x) ≡ task c x
task-with_other kv kv t x h = cc
task-with_other kv list t x h = refl
task-with_other kv log t x h = refl
task-with_other list kv t x h = refl
task-with_other list list t x h = cc
task-with_other list log t x h = refl
task-with_other log kv t x h = refl
task-with_other log list t x h = refl
task-with_other log log t x h = cc

pub same_category_eq : (c c' : EntryCategory) → same_category c c' ≡ true → c ≡ c'
same_category_eq kv kv h = refl
same_category_eq list list h = refl
same_category_eq log log h = refl
same_category_eq kv list h = cc
same_category_eq kv log h = cc
same_category_eq list kv h = cc
same_category_eq list log h = cc
same_category_eq log kv h = cc
same_category_eq log list h = cc

pub turn-entry :
    (env : Env) (c : EntryCategory) (e : AofEntry) (es : List AofEntry) (x : Replay)
    → task c x ≡ running (e ∷ es)
    → turn env c x
      ≡ with_task c (left (apply_aof env e x.db).0 es) (record x { db = (apply_aof env e x.db).1 })
unfolding turn
turn-entry env c e es x h = rw (turn, h)

-- A turn takes an entry off its own task, if that has one.
pub to_do-turn :
    (env : Env) (c : EntryCategory) (x : Replay)
    → to_do (task c (turn env c x)) ≤ to_do (task c x) - 1
to_do-turn env c x = elim (Task-cases (task c x)) [
  | inl h ↦ rw (turn-idle env c x (inl h), h) (omega arith)
  | inr (inl h) ↦ rw (turn-idle env c x (inr h), h) (omega arith)
  | inr (inr (e, es, h)) ↦
      rw
        (
          turn-entry env c e es x h,
          task-with_task c (left (apply_aof env e x.db).0 es)
              (record x { db = (apply_aof env e x.db).1 }),
          h,
        )
        (let k = to_do-left (apply_aof env e x.db).0 es in omega arith)
]

-- And touches no other.
pub task-turn :
    (env : Env) (c c' : EntryCategory) (x : Replay)
    → same_category c c' ≡ false
    → task c (turn env c' x) ≡ task c x
task-turn env c c' x o = elim (Task-cases (task c' x)) [
  | inl h ↦ ap (task c) (turn-idle env c' x (inl h))
  | inr (inl h) ↦ ap (task c) (turn-idle env c' x (inr h))
  | inr (inr (e, es, h)) ↦
      let d = (apply_aof env e x.db).1 in
      ap (task c) (turn-entry env c' e es x h)
      ∙ (task-with_other c c' (left (apply_aof env e x.db).0 es) (record x { db = d }) o
          ∙ task-with_db c d x)
]

-- A task that has had as many turns as it had entries has come to its end or has panicked.
pub to_do-turns :
    (env : Env) (c : EntryCategory) (order : List EntryCategory) (x : Replay)
    → to_do (task c x) ≤ turns_of c order
    → to_do (task c (turns env order x)) ≡ 0
unfolding turns turns_of
to_do-turns env c [] x h = omega arith
to_do-turns env c (c' ∷ order) x h =
    let due : to_do (task c x)
        ≤ (if same_category c c' then 1 + turns_of c order else turns_of c order) =
      h in
    elim (Bool-cases (same_category c c')) [
      | inl s ↦
          let k = to_do-turn env c x in
          let h' : to_do (task c x) ≤ 1 + turns_of c order = ground (arith, s, due) in
          to_do-turns env c order (turn env c' x) (rw (← same_category_eq c c' s) (omega arith))
      | inr o ↦
          to_do-turns env c order (turn env c' x)
            (rw (task-turn env c c' x o) (ground (arith, o, due)))
    ]
