-- ===== src/Db/Logged.antt =====
-- What the calls of the database write into the append-only file (server/src/db/db.rs).
use segmented_memory_storage.Common.{
  ◌≡◌, refl, Bool, true, false, Option, none, some, List, [], ◌∷◌, ◌++◌, if◌then◌else◌,
}
use segmented_memory_storage.Common.Outcome.{Outcome, ok, err, crash, Action, pure, ◌>>=◌, ◌>>◌}
use segmented_memory_storage.Aof.Entry.{
  AofEntry, kv_set, kv_del, kv_flush, log_create_group, log_drop_group, log_add, log_add_range,
  log_remove, list_push, list_push_range, list_pop, list_pop_range, list_pop_count, list_flush,
}
use segmented_memory_storage.Db.State
use segmented_memory_storage.Db.State.{Env, Db, DbError}
use segmented_memory_storage.Db.Calls.{DbAction, on_kv, on_groups, on_list, write, send}
use segmented_memory_storage.Kv
use segmented_memory_storage.Kv.State.{KvStore}
use segmented_memory_storage.Groups.State.{GroupManager}
use segmented_memory_storage.SegList.State.{SegList}
use segmented_memory_storage.Groups
use segmented_memory_storage.SegList
use segmented_memory_storage.Db.Ops
use segmented_memory_storage.Db.Ops.{report}
use segmented_memory_storage.Db.Apply.{forgotten, ignored, apply_aof}

-- The method that logs an entry, as a client calls it.
unfoldable pub perform : Env → AofEntry → DbAction (Unit {0})
perform env (kv_set db key val ttl) = Ops.kv_set env db key val ttl
perform env (kv_del db key) = Ops.kv_del env db key
perform env (kv_flush db) = Ops.kv_flush env db
perform env (log_create_group name) = Ops.log_create_group env name
perform env (log_drop_group name) = Ops.log_drop_group env name
perform env (log_add group timestamp payload) = Ops.log_add env group timestamp payload >> pure tt
perform env (log_add_range group entries) = Ops.log_add_range env group entries >> pure tt
perform env (log_remove group up_to_id) = Ops.log_remove env group up_to_id
perform env (list_push key payload) = Ops.list_push env key payload
perform env (list_push_range key items) = Ops.list_push_range env key items
perform env (list_pop key) = Ops.list_pop env key >> pure tt
perform env (list_pop_range key start end) = Ops.list_pop_range env key start end >> pure tt
perform env (list_pop_count key count) = Ops.list_pop_count env key count >> pure tt
perform env (list_flush key) = Ops.list_flush env key

abbrev pub is_kv_flush : AofEntry → Bool
is_kv_flush (kv_flush _) = true
is_kv_flush _ = false

abbrev pub is_ok : {E A : Type 0} → Outcome E A → Bool
is_ok (ok a) = true
is_ok (err e) = false
is_ok crash = false

-- The entry behind the others, if the call went well.
abbrev pub logged : {A : Type 0} → AofEntry → Outcome DbError A → List AofEntry → List AofEntry
logged e r es = if is_ok r then es ++ e ∷ [] else es

-- The same for what the replication has, if it is on.
abbrev pub sent :
    {A : Type 0} → AofEntry → Outcome DbError A → Option (List AofEntry) → Option (List AofEntry)
sent e r es = if is_ok r then elim es [ none ↦ none | some xs ↦ some (xs ++ e ∷ []) ] else es

-- What became of the database after a call, `x`, against its entry applied, `y`.
abbrev WithLog :
    AofEntry → Outcome DbError (Unit {0}) × Db → Outcome DbError (Unit {0}) × Db → Type 0
WithLog e x y =
    (x.1 ≡ record y.1 { aof = logged e x.0 y.1.aof; event_tx = sent e x.0 y.1.event_tx })
    × (y.0 ≡ forgotten x.0)

-- An action whose entry is reported after it, without a value and with one.
report-WithLog :
    {A : Type 0} (e : AofEntry) (r : Outcome DbError A) (d : Db)
    → WithLog e (((λ _. (r, d)) >> report e) d) (forgotten r, d)
unfolding report write send
report-WithLog e (ok a) d = (refl, refl)
report-WithLog e (err z) d = (refl, refl)
report-WithLog e crash d = (refl, refl)

report_value-WithLog :
    {A : Type 0} (e : AofEntry) (r : Outcome DbError A) (d : Db)
    → WithLog e ((((λ _. (r, d)) >>= λ a. report e >> pure a) >> pure tt) d) (forgotten r, d)
unfolding report write send
report_value-WithLog e (ok a) d = (refl, refl)
report_value-WithLog e (err z) d = (refl, refl)
report_value-WithLog e crash d = (refl, refl)

kv-WithLog :
    {E : Type 0} (f : E → DbError) (m : Action KvStore E (Unit {0})) (e : AofEntry) (d : Db)
    → WithLog e ((on_kv f m >> report e) d) (ignored (on_kv f m) d)
kv-WithLog f m e d = unfold ignored in report-WithLog e (on_kv f m d).0 (on_kv f m d).1

group-WithLog :
    {E : Type 0} (f : E → DbError) (m : Action GroupManager E (Unit {0})) (e : AofEntry) (d : Db)
    → WithLog e ((on_groups f m >> report e) d) (ignored (on_groups f m) d)
group-WithLog f m e d = unfold ignored in report-WithLog e (on_groups f m d).0 (on_groups f m d).1

list-WithLog :
    {E : Type 0} (f : E → DbError) (m : Action SegList E (Unit {0})) (e : AofEntry) (d : Db)
    → WithLog e ((on_list f m >> report e) d) (ignored (on_list f m) d)
list-WithLog f m e d = unfold ignored in report-WithLog e (on_list f m d).0 (on_list f m d).1

group_value-WithLog :
    {E A : Type 0} (f : E → DbError) (m : Action GroupManager E A) (e : AofEntry) (d : Db)
    → WithLog e
        (((on_groups f m >>= λ a. report e >> pure a) >> pure tt) d)
        (ignored (on_groups f m) d)
group_value-WithLog f m e d =
    unfold ignored in report_value-WithLog e (on_groups f m d).0 (on_groups f m d).1

list_value-WithLog :
    {E A : Type 0} (f : E → DbError) (m : Action SegList E A) (e : AofEntry) (d : Db)
    → WithLog e (((on_list f m >>= λ a. report e >> pure a) >> pure tt) d) (ignored (on_list f m) d)
list_value-WithLog f m e d =
    unfold ignored in report_value-WithLog e (on_list f m d).0 (on_list f m d).1

-- Every call but `kv_flush` does to the stores what its entry does when it is applied, and the
-- entry is in the file and with the replication just if the call went well; applying it panics just
-- if the call does.
pub perform-apply_aof :
    (env : Env) (e : AofEntry) (d : Db)
    → is_kv_flush e ≡ false
    → ((perform env e d).1 ≡ record (apply_aof env e d).1 {
      aof = logged e (perform env e d).0 d.aof;
      event_tx = sent e (perform env e d).0 d.event_tx;
    })
      × ((apply_aof env e d).0 ≡ forgotten (perform env e d).0)
unfolding perform apply_aof
perform-apply_aof env (kv_set db key val ttl) d h =
    unfold Ops.kv_set on_kv ignored in
    kv-WithLog State.kv_set_error
      (λ s. (ok tt, Kv.Ops.set env.iter env.now env.now' db key val ttl s)) (kv_set db key val ttl)
      d
perform-apply_aof env (kv_del db key) d h =
    unfold Ops.kv_del on_kv ignored in
    kv-WithLog State.kv_del_error (Kv.Ops.del db key) (kv_del db key) d
perform-apply_aof env (kv_flush db) d h = cc
perform-apply_aof env (log_create_group name) d h =
    unfold Ops.log_create_group on_groups ignored in
    group-WithLog State.log_create_group_error (Groups.Ops.create_group env.available name)
      (log_create_group name) d
perform-apply_aof env (log_drop_group name) d h =
    unfold Ops.log_drop_group on_groups ignored in
    group-WithLog State.log_drop_group_error (Groups.Ops.drop_group name) (log_drop_group name) d
perform-apply_aof env (log_add group timestamp payload) d h =
    unfold Ops.log_add on_groups ignored in
    group_value-WithLog State.log_append_error
      (Groups.Ops.add env.build_key env.instant env.available group timestamp payload)
      (log_add group timestamp payload) d
perform-apply_aof env (log_add_range group entries) d h =
    unfold Ops.log_add_range on_groups ignored in
    group_value-WithLog State.log_append_range_error
      (Groups.Ops.add_range env.build_key env.instant env.available group entries)
      (log_add_range group entries) d
perform-apply_aof env (log_remove group up_to_id) d h =
    unfold Ops.log_remove on_groups ignored in
    group-WithLog State.log_remove_error
      (Groups.Ops.remove env.build_key env.instant group up_to_id) (log_remove group up_to_id) d
perform-apply_aof env (list_push key payload) d h =
    unfold Ops.list_push on_list ignored in
    list-WithLog State.list_push_error (SegList.Ops.push env.available key payload)
      (list_push key payload) d
perform-apply_aof env (list_push_range key items) d h =
    unfold Ops.list_push_range on_list ignored in
    list-WithLog State.list_push_range_error (SegList.Ops.push_range env.available key items)
      (list_push_range key items) d
perform-apply_aof env (list_pop key) d h =
    unfold Ops.list_pop on_list ignored in
    list_value-WithLog State.list_pop_error (SegList.Ops.pop key) (list_pop key) d
perform-apply_aof env (list_pop_range key start end) d h =
    unfold Ops.list_pop_range on_list ignored in
    list_value-WithLog State.list_pop_range_error (SegList.Ops.pop_range key start end)
      (list_pop_range key start end) d
perform-apply_aof env (list_pop_count key count) d h =
    unfold Ops.list_pop_count on_list ignored in
    list_value-WithLog State.list_pop_count_error (SegList.Ops.pop_count key count)
      (list_pop_count key count) d
perform-apply_aof env (list_flush key) d h =
    unfold Ops.list_flush on_list ignored in
    list-WithLog State.list_flush_error (SegList.Ops.flush key) (list_flush key) d
