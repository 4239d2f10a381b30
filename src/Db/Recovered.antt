-- ===== src/Db/Recovered.antt =====
-- The stores after a replay, and after a restart (server/src/db/db.rs).
use segmented_memory_storage.Common.{
  inl, inr, ◌≡◌, ◌≢◌, refl, ap, sym, ◌∙◌, true, false, List, [], ◌∷◌, All, select, Bool-cases, ◌≤◌,
  length, arith,
}
use segmented_memory_storage.Common.Outcome.{Outcome, ok, crash}
use segmented_memory_storage.Aof.Entry.{AofEntry, EntryCategory, kv, log, list, category}
use segmented_memory_storage.Aof.Loaded.{separated}
use segmented_memory_storage.Db.State.{Env, Db, DbError}
use segmented_memory_storage.Db.Apply.{apply_aof, apply_each}
use segmented_memory_storage.Db.Replay.{
  Task, running, panicked, Replay, task, spawned, turns, is_done, is_joined,
}
use segmented_memory_storage.Db.Turns.{StoreOf, store, finish, ended-turns, OwnTasks}
use segmented_memory_storage.Db.Sequence.{
  is_of, apply_aof-cases, finish-apply_aof_of, apply_each_ok, apply_each_crash, apply_each-finish,
}
use segmented_memory_storage.Db.Scheduled.{to_do, turns_of, to_do-turns}

-- The two databases hold the same in all three stores.
abbrev pub SameStores : Db → Db → Type 0
SameStores a b = (a.kv_store ≡ b.kv_store) × (a.list ≡ b.list) × (a.group_manager ≡ b.group_manager)

kv_of : (k : EntryCategory) → elim k [ kv ↦ true | _ ↦ false ] ≡ true → k ≡ kv
kv_of kv h = refl
kv_of list h = cc
kv_of log h = cc

list_of : (k : EntryCategory) → elim k [ list ↦ true | _ ↦ false ] ≡ true → k ≡ list
list_of kv h = cc
list_of list h = refl
list_of log h = cc

log_of : (k : EntryCategory) → elim k [ log ↦ true | _ ↦ false ] ≡ true → k ≡ log
log_of kv h = cc
log_of list h = cc
log_of log h = refl

pub category-is_of : (c : EntryCategory) (e : AofEntry) → is_of c e ≡ true → category e ≡ c
category-is_of kv e h = kv_of (category e) h
category-is_of list e h = list_of (category e) h
category-is_of log e h = log_of (category e) h

pub select_own :
    (c : EntryCategory) (es : List AofEntry) → All (λ e. category e ≡ c) (select (is_of c) es)
select_own c [] = tt
select_own c (e ∷ es) = elim (Bool-cases (is_of c e)) [
  | inl h ↦ rw h (category-is_of c e h, select_own c es)
  | inr h ↦ rw h (select_own c es)
]

done-running : (t : Task) → is_done t ≡ true → t ≡ running []
done-running (running []) h = refl
done-running (running (e ∷ es)) h = cc
done-running panicked h = cc

task_done : (c : EntryCategory) (x : Replay) → is_joined x ≡ true → task c x ≡ running []
task_done kv x h = done-running x.h1 (ground arith)
task_done list x h = done-running x.h2 (ground arith)
task_done log x h = done-running x.h3 (ground arith)

pub task-spawned :
    (c : EntryCategory) (es : List AofEntry) (d : Db)
    → task c (spawned (separated es) d) ≡ running (select (is_of c) es)
task-spawned kv es d = refl
task-spawned list es d = refl
task-spawned log es d = refl

-- In whatever order the three tasks get their turns: if all come to their end, then the entries
-- applied in the order of the file do not panic either, and leave the same in all three stores.
pub turns-apply_each :
    (env : Env) (order : List EntryCategory) (es : List AofEntry) (d : Db)
    → is_joined (turns env order (spawned (separated es) d)) ≡ true
    → ((apply_each env es d).0 ≡ ok tt)
      × SameStores (turns env order (spawned (separated es) d)).db (apply_each env es d).1
turns-apply_each env order es d h =
    let x = turns env order (spawned (separated es) d) in
    let own : OwnTasks (spawned (separated es) d) =
      λ c. rw (task-spawned c es d) (select_own c es) in
    let end : (c : EntryCategory)
        → finish env d c (running (select (is_of c) es)) (store c d) ≡ (running [], store c x.db) =
      λ c.
        ap (λ t. finish env d c t (store c d)) (sym (task-spawned c es d))
        ∙ (sym (ended-turns env d c order (spawned (separated es) d) own)
            ∙ (ap (λ t. finish env d c t (store c x.db)) (task_done c x h)
                ∙ unfold finish in refl)) in
    let rest = apply_each-finish env d es d (λ c. ap (λ y. y.0) (end c)) in
    let same : (c : EntryCategory) → store c x.db ≡ store c (apply_each env es d).1 =
      λ c. sym (rest.1 c ∙ ap (λ y. y.1) (end c)) in
    (rest.0, (same kv, same list, same log))

ok-crash : ◌≢◌ {A = Outcome DbError (Unit {0})} (ok tt) crash
ok-crash h = cc

-- Applied in order without a panic, the entries of each category are applied without one too.
apply_each-finish_ok :
    (env : Env) (d₀ : Db) (c : EntryCategory) (es : List AofEntry) (d : Db)
    → (apply_each env es d).0 ≡ ok tt
    → (finish env d₀ c (running (select (is_of c) es)) (store c d)).0 ≡ running []
unfolding finish
apply_each-finish_ok env d₀ c [] d h = refl
apply_each-finish_ok env d₀ c (e ∷ es) d h = elim (apply_aof-cases env e d) [
  | inl r ↦
      ap (λ x. x.0) (finish-apply_aof_of env d₀ c (category e) e es d refl r)
      ∙ apply_each-finish_ok env d₀ c es (apply_aof env e d).1
          (ap (λ x. x.0) (sym (apply_each_ok env e es d r)) ∙ h)
  | inr r ↦ absurd (ok-crash (sym h ∙ apply_each_crash env e es d r))
]

done_of :
    (env : Env) (d : Db) (c : EntryCategory) (t : Task) (s : StoreOf c)
    → to_do t ≡ 0
    → (finish env d c t s).0 ≡ running []
    → is_done t ≡ true
unfolding finish
done_of env d c (running []) s h k = refl
done_of env d c (running (e ∷ es)) s h k = absurd (omega arith)
done_of env d c panicked s h k = cc

-- With enough turns for each task, all three come to their end.
pub turns-is_joined :
    (env : Env) (order : List EntryCategory) (es : List AofEntry) (d : Db)
    → (apply_each env es d).0 ≡ ok tt
    → ((c : EntryCategory) → length (select (is_of c) es) ≤ turns_of c order)
    → is_joined (turns env order (spawned (separated es) d)) ≡ true
turns-is_joined env order es d h enough =
    let x = turns env order (spawned (separated es) d) in
    let own : OwnTasks (spawned (separated es) d) =
      λ c. rw (task-spawned c es d) (select_own c es) in
    let done : (c : EntryCategory) → is_done (task c x) ≡ true = λ c.
      done_of env d c (task c x) (store c x.db)
        (to_do-turns env c order (spawned (separated es) d) (rw (task-spawned c es d) (enough c)))
        (ap (λ y. y.0) (ended-turns env d c order (spawned (separated es) d) own)
          ∙ (ap (λ t. (finish env d c t (store c d)).0) (task-spawned c es d)
              ∙ apply_each-finish_ok env d c es d h)) in
    rw (done kv, done list) (done log)
