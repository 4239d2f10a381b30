-- ===== src/Db/Ops.antt =====
-- The methods of `DB` (server/src/db/db.rs).
use segmented_memory_storage.Common.{ℕ, Option, List}
use segmented_memory_storage.Common.Outcome.{ok, pure, gets, ◌>>=◌, ◌>>◌}
use segmented_memory_storage.Common.Texts.{Text}
use segmented_memory_storage.Kv
use segmented_memory_storage.Kv.State.{DbEntry}
use segmented_memory_storage.Groups
use segmented_memory_storage.Groups.State.{GroupStats}
use segmented_memory_storage.SegList
use segmented_memory_storage.Aof.Entry
use segmented_memory_storage.Db.State.{
  Env, log_create_group_error, log_drop_group_error, log_append_error, log_append_range_error,
  log_read_error, log_read_range_error, log_remove_error, log_group_stats_error, kv_del_error,
  kv_set_error, kv_get_error, kv_keys_error, kv_flush_error, list_push_error, list_push_range_error,
  list_pop_error, list_pop_range_error, list_pop_count_error, list_len_error, list_flush_error,
}
use segmented_memory_storage.Db.Calls.{DbAction, on_kv, on_groups, on_list, write, send}

-- The entry to the file and to the replication.
unfoldable pub report : Entry.AofEntry → DbAction (Unit {0})
report entry = write entry >> send entry

module _ (env : Env) where
  unfoldable pub kv_set : Text → Text → List ℕ → ℕ → DbAction (Unit {0})
  kv_set db key val ttl =
      on_kv kv_set_error (λ s. (ok tt, Kv.Ops.set env.iter env.now env.now' db key val ttl s))
      >> report (Entry.kv_set db key val ttl)

  unfoldable pub kv_get : Text → Text → DbAction (Option DbEntry)
  kv_get db key =
      on_kv kv_get_error (λ s. let (r, s') = Kv.Ops.get env.now env.now' db key s in (ok r, s'))

  unfoldable pub kv_del : Text → Text → DbAction (Unit {0})
  kv_del db key = on_kv kv_del_error (Kv.Ops.del db key) >> report (Entry.kv_del db key)

  unfoldable pub kv_keys : Text → DbAction (List Text)
  kv_keys db = on_kv kv_keys_error (gets (Kv.Ops.keys env.iter db))

  -- The flush goes to the replication only.
  unfoldable pub kv_flush : Text → DbAction (Unit {0})
  kv_flush db = on_kv kv_flush_error (λ s. (ok tt, Kv.Ops.flush db s)) >> send (Entry.kv_flush db)

  unfoldable pub log_create_group : Text → DbAction (Unit {0})
  log_create_group name =
      on_groups log_create_group_error (Groups.Ops.create_group env.available name)
      >> report (Entry.log_create_group name)

  unfoldable pub log_drop_group : Text → DbAction (Unit {0})
  log_drop_group name =
      on_groups log_drop_group_error (Groups.Ops.drop_group name)
      >> report (Entry.log_drop_group name)

  unfoldable pub log_add : Text → ℕ → List ℕ → DbAction ℕ
  log_add group timestamp payload = do
    id ←
        on_groups log_append_error
          (Groups.Ops.add env.build_key env.instant env.available group timestamp payload)
    report (Entry.log_add group timestamp payload)
    pure id

  unfoldable pub log_add_range : Text → List (ℕ × List ℕ) → DbAction (ℕ × ℕ)
  log_add_range group entries = do
    result ←
        on_groups log_append_range_error
          (Groups.Ops.add_range env.build_key env.instant env.available group entries)
    report (Entry.log_add_range group entries)
    pure result

  unfoldable pub log_read : Text → ℕ → DbAction (ℕ × ℕ × List ℕ)
  log_read group id = on_groups log_read_error (Groups.Ops.read env.build_key env.instant group id)

  unfoldable pub log_read_range : Text → ℕ → ℕ → DbAction (List (ℕ × ℕ × List ℕ))
  log_read_range group start end =
      on_groups log_read_range_error
        (Groups.Ops.read_range env.build_key env.instant group start end)

  unfoldable pub log_remove : Text → ℕ → DbAction (Unit {0})
  log_remove group up_to_id =
      on_groups log_remove_error (Groups.Ops.remove env.build_key env.instant group up_to_id)
      >> report (Entry.log_remove group up_to_id)

  unfoldable pub log_list_groups : DbAction (List Text)
  log_list_groups = gets (λ d. Groups.Ops.list_groups env.iter_groups d.group_manager)

  unfoldable pub log_group_stats : Text → DbAction GroupStats
  log_group_stats group = on_groups log_group_stats_error (λ s. (Groups.Ops.group_stats group s, s))

  unfoldable pub list_push : Text → List ℕ → DbAction (Unit {0})
  list_push key payload =
      on_list list_push_error (SegList.Ops.push env.available key payload)
      >> report (Entry.list_push key payload)

  unfoldable pub list_push_range : Text → List (List ℕ) → DbAction (Unit {0})
  list_push_range key items =
      on_list list_push_range_error (SegList.Ops.push_range env.available key items)
      >> report (Entry.list_push_range key items)

  unfoldable pub list_pop : Text → DbAction (List ℕ)
  list_pop key = do
    data' ← on_list list_pop_error (SegList.Ops.pop key)
    report (Entry.list_pop key)
    pure data'

  unfoldable pub list_pop_range : Text → ℕ → ℕ → DbAction (List (List ℕ))
  list_pop_range key start end = do
    data' ← on_list list_pop_range_error (SegList.Ops.pop_range key start end)
    report (Entry.list_pop_range key start end)
    pure data'

  unfoldable pub list_pop_count : Text → ℕ → DbAction (List (List ℕ))
  list_pop_count key count = do
    data' ← on_list list_pop_count_error (SegList.Ops.pop_count key count)
    report (Entry.list_pop_count key count)
    pure data'

  unfoldable pub list_len : Text → DbAction ℕ
  list_len key = on_list list_len_error (SegList.Ops.list_len key)

  unfoldable pub list_flush : Text → DbAction (Unit {0})
  list_flush key = on_list list_flush_error (SegList.Ops.flush key) >> report (Entry.list_flush key)
