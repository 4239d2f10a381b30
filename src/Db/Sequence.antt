-- ===== src/Db/Sequence.antt =====
-- Entries applied in order, against each category on its own (server/src/db/db.rs).
use segmented_memory_storage.Common.{
  ◌⊎◌, inl, inr, ◌≡◌, ◌≢◌, refl, ap, sym, ◌∙◌, Bool, true, false, List, [], ◌∷◌, arith, select,
}
use segmented_memory_storage.Common.Outcome.{Outcome, ok, err, crash}
use segmented_memory_storage.Aof.Entry.{
  AofEntry, kv_set, kv_del, kv_flush, log_create_group, log_drop_group, log_add, log_add_range,
  log_remove, list_push, list_push_range, list_pop, list_pop_range, list_pop_count, list_flush,
  EntryCategory, kv, log, list, category, is_kv, is_list, is_log,
}
use segmented_memory_storage.Db.State.{Env, Db, DbError}
use segmented_memory_storage.Db.Calls.{DbAction}
use segmented_memory_storage.Db.Apply.{forgotten, ignored, apply_aof, apply_each}
use segmented_memory_storage.Db.Replay.{running, panicked}
use segmented_memory_storage.Db.Turns.{StoreOf, store, part, apply_aof-part_of, finish}

-- The entries of a category.
abbrev pub is_of : EntryCategory → AofEntry → Bool
is_of kv = is_kv
is_of list = is_list
is_of log = is_log

forgotten-cases :
    {A : Type 0} (r : Outcome DbError A) → (forgotten r ≡ ok tt) ⊎ (forgotten r ≡ crash)
forgotten-cases (ok a) = inl refl
forgotten-cases (err e) = inl refl
forgotten-cases crash = inr refl

ignored-cases :
    {A : Type 0} (m : DbAction A) (d : Db) → ((ignored m d).0 ≡ ok tt) ⊎ ((ignored m d).0 ≡ crash)
unfolding ignored
ignored-cases m d = forgotten-cases (m d).0

pub apply_aof-cases :
    (env : Env) (e : AofEntry) (d : Db)
    → ((apply_aof env e d).0 ≡ ok tt) ⊎ ((apply_aof env e d).0 ≡ crash)
unfolding apply_aof
apply_aof-cases env (kv_set db key val ttl) d = ignored-cases _ d
apply_aof-cases env (kv_del db key) d = ignored-cases _ d
apply_aof-cases env (kv_flush db) d = ignored-cases _ d
apply_aof-cases env (log_create_group name) d = ignored-cases _ d
apply_aof-cases env (log_drop_group name) d = ignored-cases _ d
apply_aof-cases env (log_add group timestamp payload) d = ignored-cases _ d
apply_aof-cases env (log_add_range group entries) d = ignored-cases _ d
apply_aof-cases env (log_remove group up_to_id) d = ignored-cases _ d
apply_aof-cases env (list_push key payload) d = ignored-cases _ d
apply_aof-cases env (list_push_range key items) d = ignored-cases _ d
apply_aof-cases env (list_pop key) d = ignored-cases _ d
apply_aof-cases env (list_pop_range key start end) d = ignored-cases _ d
apply_aof-cases env (list_pop_count key count) d = ignored-cases _ d
apply_aof-cases env (list_flush key) d = ignored-cases _ d

is_of-category :
    (c k : EntryCategory) (e : AofEntry)
    → category e ≡ k
    → is_of c e ≡ elim c [
      | kv ↦ elim k [ kv ↦ true | _ ↦ false ]
      | list ↦ elim k [ list ↦ true | _ ↦ false ]
      | log ↦ elim k [ log ↦ true | _ ↦ false ]
    ]
is_of-category kv k e h = ap (λ j. elim j as (λ _. Bool) [ kv ↦ true | _ ↦ false ]) h
is_of-category list k e h = ap (λ j. elim j as (λ _. Bool) [ list ↦ true | _ ↦ false ]) h
is_of-category log k e h = ap (λ j. elim j as (λ _. Bool) [ log ↦ true | _ ↦ false ]) h

pub is_of_own : (k : EntryCategory) (e : AofEntry) → category e ≡ k → is_of k e ≡ true
is_of_own kv e h = is_of-category kv kv e h
is_of_own list e h = is_of-category list list e h
is_of_own log e h = is_of-category log log e h

part_ok :
    (env : Env) (d₀ : Db) (k : EntryCategory) (e : AofEntry) (d : Db)
    → category e ≡ k
    → (apply_aof env e d).0 ≡ ok tt
    → (part env d₀ k e (store k d)).0 ≡ ok tt
part_ok env d₀ k e d own h = sym (ap (λ x. x.0) (apply_aof-part_of env d₀ k e d own)) ∙ h

finish-ok :
    (env : Env) (d₀ : Db) (k : EntryCategory) (e : AofEntry) (es : List AofEntry) (s : StoreOf k)
    → (part env d₀ k e s).0 ≡ ok tt
    → finish env d₀ k (running (e ∷ es)) s ≡ finish env d₀ k (running es) (part env d₀ k e s).1
unfolding finish
finish-ok env d₀ k e es s h = rw (finish, h)

finish-panicked :
    (env : Env) (d₀ : Db) (k : EntryCategory) (e : AofEntry) (es : List AofEntry) (s : StoreOf k)
    → (part env d₀ k e s).0 ≡ crash
    → (finish env d₀ k (running (e ∷ es)) s).0 ≡ panicked
unfolding finish
finish-panicked env d₀ k e es s h = rw (finish, h)

pub finish-apply_aof_of :
    (env : Env) (d₀ : Db) (c k : EntryCategory) (e : AofEntry) (es : List AofEntry) (d : Db)
    → category e ≡ k
    → (apply_aof env e d).0 ≡ ok tt
    → finish env d₀ c (running (select (is_of c) (e ∷ es))) (store c d)
      ≡ finish env d₀ c (running (select (is_of c) es)) (store c (apply_aof env e d).1)
unfolding finish
finish-apply_aof_of env d₀ kv kv e es d own h =
    rw (is_of-category kv kv e own, apply_aof-part_of env d₀ kv e d own)
      (finish-ok env d₀ kv e (select (is_of kv) es) (store kv d) (part_ok env d₀ kv e d own h))
finish-apply_aof_of env d₀ kv list e es d own h =
    rw (is_of-category kv list e own, apply_aof-part_of env d₀ list e d own)
finish-apply_aof_of env d₀ kv log e es d own h =
    rw (is_of-category kv log e own, apply_aof-part_of env d₀ log e d own)
finish-apply_aof_of env d₀ list kv e es d own h =
    rw (is_of-category list kv e own, apply_aof-part_of env d₀ kv e d own)
finish-apply_aof_of env d₀ list list e es d own h =
    rw (is_of-category list list e own, apply_aof-part_of env d₀ list e d own)
      (finish-ok env d₀ list e (select (is_of list) es) (store list d)
        (part_ok env d₀ list e d own h))
finish-apply_aof_of env d₀ list log e es d own h =
    rw (is_of-category list log e own, apply_aof-part_of env d₀ log e d own)
finish-apply_aof_of env d₀ log kv e es d own h =
    rw (is_of-category log kv e own, apply_aof-part_of env d₀ kv e d own)
finish-apply_aof_of env d₀ log list e es d own h =
    rw (is_of-category log list e own, apply_aof-part_of env d₀ list e d own)
finish-apply_aof_of env d₀ log log e es d own h =
    rw (is_of-category log log e own, apply_aof-part_of env d₀ log e d own)
      (finish-ok env d₀ log e (select (is_of log) es) (store log d) (part_ok env d₀ log e d own h))

finish-crash :
    (env : Env) (d₀ : Db) (k : EntryCategory) (e : AofEntry) (es : List AofEntry) (d : Db)
    → category e ≡ k
    → (apply_aof env e d).0 ≡ crash
    → (finish env d₀ k (running (select (is_of k) (e ∷ es))) (store k d)).0 ≡ panicked
finish-crash env d₀ k e es d own h = rw (is_of_own k e own) (
    finish-panicked env d₀ k e (select (is_of k) es) (store k d)
      (sym (ap (λ x. x.0) (apply_aof-part_of env d₀ k e d own)) ∙ h))

pub apply_each_ok :
    (env : Env) (e : AofEntry) (es : List AofEntry) (d : Db)
    → (apply_aof env e d).0 ≡ ok tt
    → apply_each env (e ∷ es) d ≡ apply_each env es (apply_aof env e d).1
unfolding apply_each
apply_each_ok env e es d h = ground (arith, h)

pub apply_each_crash :
    (env : Env) (e : AofEntry) (es : List AofEntry) (d : Db)
    → (apply_aof env e d).0 ≡ crash
    → (apply_each env (e ∷ es) d).0 ≡ crash
unfolding apply_each
apply_each_crash env e es d h = ground (arith, h)

running-panicked : {es : List AofEntry} → running es ≢ panicked
running-panicked h = cc

-- Applied in order on one thread, where no task of one category alone panics.
pub apply_each-finish :
    (env : Env) (d₀ : Db) (es : List AofEntry) (d : Db)
    → ((c : EntryCategory)
        → (finish env d₀ c (running (select (is_of c) es)) (store c d)).0 ≡ running [])
    → ((apply_each env es d).0 ≡ ok tt)
      × ((c : EntryCategory)
          → store c (apply_each env es d).1
            ≡ (finish env d₀ c (running (select (is_of c) es)) (store c d)).1)
apply_each-finish env d₀ [] d h = (unfold apply_each in refl, λ c. unfold apply_each finish in refl)
apply_each-finish env d₀ (e ∷ es) d h = elim (apply_aof-cases env e d) [
  | inl r ↦
      let step = λ (c : EntryCategory). finish-apply_aof_of env d₀ c (category e) e es d refl r in
      let rest =
        apply_each-finish env d₀ es (apply_aof env e d).1
          (λ c. sym (ap (λ x. x.0) (step c)) ∙ h c) in
      let next = apply_each_ok env e es d r in
      (
        ap (λ x. x.0) next ∙ rest.0,
        λ c. ap (λ x. store c x.1) next ∙ (rest.1 c ∙ sym (ap (λ x. x.1) (step c))),
      )
  | inr r ↦
      absurd
        (running-panicked (sym (h (category e)) ∙ finish-crash env d₀ (category e) e es d refl r))
]
