-- ===== src/Db/Apply.antt =====
-- Entries applied to the stores: from the file at the start, and from a master (server/src/db/db.rs).
use segmented_memory_storage.Common.{List, [], ◌∷◌}
use segmented_memory_storage.Common.Outcome.{Outcome, ok, err, crash, pure, ◌>>◌}
use segmented_memory_storage.Kv
use segmented_memory_storage.Groups
use segmented_memory_storage.SegList
use segmented_memory_storage.Aof.Entry.{
  AofEntry, kv_set, kv_del, kv_flush, log_create_group, log_drop_group, log_add, log_add_range,
  log_remove, list_push, list_push_range, list_pop, list_pop_range, list_pop_count, list_flush,
}
use segmented_memory_storage.Db.State.{
  Env, DbError, log_create_group_error, log_drop_group_error, log_append_error,
  log_append_range_error, log_remove_error, kv_del_error, kv_set_error, kv_flush_error,
  list_push_error, list_push_range_error, list_pop_error, list_pop_range_error,
  list_pop_count_error, list_flush_error,
}
use segmented_memory_storage.Db.Calls.{DbAction, on_kv, on_groups, on_list}

-- `let _ = ...`: an error is forgotten, a panic is not.
abbrev pub forgotten : {A : Type 0} → Outcome DbError A → Outcome DbError (Unit {0})
forgotten (ok a) = ok tt
forgotten (err e) = ok tt
forgotten crash = crash

unfoldable pub ignored : {A : Type 0} → DbAction A → DbAction (Unit {0})
ignored m d = let (r, d') = m d in (forgotten r, d')

module _ (env : Env) where
  -- The function `apply_aof`, on one entry.
  unfoldable pub apply_aof : AofEntry → DbAction (Unit {0})
  apply_aof (kv_set db key val ttl) =
      ignored
        (on_kv kv_set_error (λ s. (ok tt, Kv.Ops.set env.iter env.now env.now' db key val ttl s)))
  apply_aof (kv_del db key) = ignored (on_kv kv_del_error (Kv.Ops.del db key))
  apply_aof (kv_flush db) = ignored (on_kv kv_flush_error (λ s. (ok tt, Kv.Ops.flush db s)))
  apply_aof (log_create_group name) =
      ignored (on_groups log_create_group_error (Groups.Ops.create_group env.available name))
  apply_aof (log_drop_group name) =
      ignored (on_groups log_drop_group_error (Groups.Ops.drop_group name))
  apply_aof (log_add group timestamp payload) = ignored (
      on_groups log_append_error
        (Groups.Ops.add env.build_key env.instant env.available group timestamp payload))
  apply_aof (log_add_range group entries) = ignored (
      on_groups log_append_range_error
        (Groups.Ops.add_range env.build_key env.instant env.available group entries))
  apply_aof (log_remove group up_to_id) =
      ignored
        (on_groups log_remove_error (Groups.Ops.remove env.build_key env.instant group up_to_id))
  apply_aof (list_push key payload) =
      ignored (on_list list_push_error (SegList.Ops.push env.available key payload))
  apply_aof (list_push_range key items) =
      ignored (on_list list_push_range_error (SegList.Ops.push_range env.available key items))
  apply_aof (list_pop key) = ignored (on_list list_pop_error (SegList.Ops.pop key))
  apply_aof (list_pop_range key start end) =
      ignored (on_list list_pop_range_error (SegList.Ops.pop_range key start end))
  apply_aof (list_pop_count key count) =
      ignored (on_list list_pop_count_error (SegList.Ops.pop_count key count))
  apply_aof (list_flush key) = ignored (on_list list_flush_error (SegList.Ops.flush key))

  -- The loop of one of the three tasks.
  unfoldable pub apply_each : List AofEntry → DbAction (Unit {0})
  apply_each [] = pure tt
  apply_each (e ∷ entries) = apply_aof e >> apply_each entries

  -- The method `DB::apply_aof`, on one entry. The calls of the groups and the lists are futures
  -- that nothing waits for, so that they are dropped before they do anything.
  unfoldable pub apply_synced : AofEntry → DbAction (Unit {0})
  apply_synced (kv_set db key val ttl) =
      ignored
        (on_kv kv_set_error (λ s. (ok tt, Kv.Ops.set env.iter env.now env.now' db key val ttl s)))
  apply_synced (kv_del db key) = ignored (on_kv kv_del_error (Kv.Ops.del db key))
  apply_synced (kv_flush db) = ignored (on_kv kv_flush_error (λ s. (ok tt, Kv.Ops.flush db s)))
  apply_synced (log_create_group name) = pure tt
  apply_synced (log_drop_group name) = pure tt
  apply_synced (log_add group timestamp payload) = pure tt
  apply_synced (log_add_range group entries) = pure tt
  apply_synced (log_remove group up_to_id) = pure tt
  apply_synced (list_push key payload) = pure tt
  apply_synced (list_push_range key items) = pure tt
  apply_synced (list_pop key) = pure tt
  apply_synced (list_pop_range key start end) = pure tt
  apply_synced (list_pop_count key count) = pure tt
  apply_synced (list_flush key) = pure tt

  unfoldable pub sync_each : List AofEntry → DbAction (Unit {0})
  sync_each [] = pure tt
  sync_each (e ∷ entries) = apply_synced e >> sync_each entries
