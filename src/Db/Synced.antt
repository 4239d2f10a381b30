-- ===== src/Db/Synced.antt =====
-- What a follower takes of the entries of its master (`DB::apply_aof` of server/src/db/db.rs).
use segmented_memory_storage.Common.{◌≡◌, refl, ap, ◌∙◌, List, [], ◌∷◌, select}
use segmented_memory_storage.Common.Outcome.{Outcome, ok, err, crash, ◌>>◌}
use segmented_memory_storage.Aof.Entry.{
  AofEntry, kv_set, kv_del, kv_flush, log_create_group, log_drop_group, log_add, log_add_range,
  log_remove, list_push, list_push_range, list_pop, list_pop_range, list_pop_count, list_flush,
  is_kv,
}
use segmented_memory_storage.Db.State.{Env, Db, DbError}
use segmented_memory_storage.Db.Calls.{DbAction, on_kv}
use segmented_memory_storage.Db.Apply.{ignored, apply_aof, apply_each, apply_synced, sync_each}

-- The entries of a master are, to a follower, those of its keys, applied in order as in a replay.
sync_each-select :
    (env : Env) (es : List AofEntry) → sync_each env es ≡ apply_each env (select is_kv es)
unfolding sync_each apply_each apply_synced apply_aof
sync_each-select env [] = refl
sync_each-select env (kv_set db key val ttl ∷ es) =
    ap (λ k. apply_aof env (kv_set db key val ttl) >> k) (sync_each-select env es)
sync_each-select env (kv_del db key ∷ es) =
    ap (λ k. apply_aof env (kv_del db key) >> k) (sync_each-select env es)
sync_each-select env (kv_flush db ∷ es) =
    ap (λ k. apply_aof env (kv_flush db) >> k) (sync_each-select env es)
sync_each-select env (log_create_group name ∷ es) = sync_each-select env es
sync_each-select env (log_drop_group name ∷ es) = sync_each-select env es
sync_each-select env (log_add group timestamp payload ∷ es) = sync_each-select env es
sync_each-select env (log_add_range group entries ∷ es) = sync_each-select env es
sync_each-select env (log_remove group up_to_id ∷ es) = sync_each-select env es
sync_each-select env (list_push key payload ∷ es) = sync_each-select env es
sync_each-select env (list_push_range key items ∷ es) = sync_each-select env es
sync_each-select env (list_pop key ∷ es) = sync_each-select env es
sync_each-select env (list_pop_range key start end ∷ es) = sync_each-select env es
sync_each-select env (list_pop_count key count ∷ es) = sync_each-select env es
sync_each-select env (list_flush key ∷ es) = sync_each-select env es

-- What a call of the keys does not touch.
abbrev pub Others : Db → Db → Type 0
Others a b = (a.list ≡ b.list) × (a.group_manager ≡ b.group_manager) × (a.aof ≡ b.aof)

then-Others :
    (r : Outcome DbError (Unit {0})) (d d₀ : Db) (k : DbAction (Unit {0}))
    → Others (k d).1 d₀
    → Others d d₀
    → Others (((λ _. (r, d)) >> k) d).1 d₀
then-Others (ok a) d d₀ k h g = h
then-Others (err e) d d₀ k h g = g
then-Others crash d d₀ k h g = g

apply_synced-Others : (env : Env) (e : AofEntry) (d : Db) → Others (apply_synced env e d).1 d
unfolding apply_synced ignored on_kv
apply_synced-Others env (kv_set db key val ttl) d = (refl, refl, refl)
apply_synced-Others env (kv_del db key) d = (refl, refl, refl)
apply_synced-Others env (kv_flush db) d = (refl, refl, refl)
apply_synced-Others env (log_create_group name) d = (refl, refl, refl)
apply_synced-Others env (log_drop_group name) d = (refl, refl, refl)
apply_synced-Others env (log_add group timestamp payload) d = (refl, refl, refl)
apply_synced-Others env (log_add_range group entries) d = (refl, refl, refl)
apply_synced-Others env (log_remove group up_to_id) d = (refl, refl, refl)
apply_synced-Others env (list_push key payload) d = (refl, refl, refl)
apply_synced-Others env (list_push_range key items) d = (refl, refl, refl)
apply_synced-Others env (list_pop key) d = (refl, refl, refl)
apply_synced-Others env (list_pop_range key start end) d = (refl, refl, refl)
apply_synced-Others env (list_pop_count key count) d = (refl, refl, refl)
apply_synced-Others env (list_flush key) d = (refl, refl, refl)

sync_each-Others' : (env : Env) (es : List AofEntry) (d : Db) → Others (sync_each env es d).1 d
unfolding sync_each
sync_each-Others' env [] d = (refl, refl, refl)
sync_each-Others' env (e ∷ es) d =
    let d' = (apply_synced env e d).1 in
    let h = apply_synced-Others env e d in
    let k = sync_each-Others' env es d' in
    then-Others (apply_synced env e d).0 d' d (sync_each env es) (k.0 ∙ h.0, k.1 ∙ h.1, k.2 ∙ h.2) h

-- A follower that is sent entries applies those of its keys in order, as a replay does, and takes
-- nothing of the others: its lists, its groups and its file are what they were.
pub sync_each-Others :
    (env : Env) (es : List AofEntry) (d : Db)
    → (sync_each env es d ≡ apply_each env (select is_kv es) d) × Others (sync_each env es d).1 d
sync_each-Others env es d = (ap (λ k. k d) (sync_each-select env es), sync_each-Others' env es d)
