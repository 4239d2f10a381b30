-- ===== src/Server/Handle.antt =====
-- `handle_command`, and what a connection does with a frame (server/src/server/server.rs).
use segmented_memory_storage.Common.{
  ℕ, ◌*◌, ◌%◌, ◌^◌, Option, none, some, List, [], ◌∷◌, ◌++◌, map, if◌then◌else◌,
}
use segmented_memory_storage.Common.Outcome.{Outcome, ok, err, crash, Action}
use segmented_memory_storage.Common.Texts.{Text, codes}
use segmented_memory_storage.Common.Utf8.{is_utf8}
use segmented_memory_storage.Kv.State.{DbEntry}
use segmented_memory_storage.Groups.State.{GroupStats}
use segmented_memory_storage.Aof.Entry.{AofEntry}
use segmented_memory_storage.Aof.Base64.{from_base64}
use segmented_memory_storage.Proto.Command.{
  Command, create_group, drop_group, add, add_range, read, read_range, remove, list_groups,
  group_stats, set_key, get_key, del_key, keys, flush, l_push, l_push_range, l_pop, l_pop_range,
  l_pop_count, l_len, l_flush, start_pipeline, end_pipeline, ha_register_follower, ha_heart_beat,
  ha_sync_entries,
}
use segmented_memory_storage.Proto.Parse.{parse_command}
use segmented_memory_storage.Proto.Responses
use segmented_memory_storage.Proto.Responses.{ResponseBuilder}
use segmented_memory_storage.Db.State.{Env, Db}
use segmented_memory_storage.Db.Calls.{DbAction}
use segmented_memory_storage.Db.Ops
use segmented_memory_storage.Db.Apply
use segmented_memory_storage.Pipeline.Manager
use segmented_memory_storage.Pipeline.Manager.{PipelineManager}
use segmented_memory_storage.Ha.State.{HaManager, Network}
use segmented_memory_storage.Ha
use segmented_memory_storage.Server.Messages.{db_message, parse_message}

pub record Server : Type 0 where
  pub db : Db
  pub pipeline_manager : PipelineManager
  pub ha_manager : HaManager

-- A handler gives the bytes of its response, or panics.
abbrev pub Handler : Type 0
Handler = ResponseBuilder → Server → Option (List ℕ) × Server

-- What a result becomes.
abbrev pub response :
    {E A : Type 0}
    → (E → Text)
    → (A → ResponseBuilder → ResponseBuilder)
    → ResponseBuilder
    → Outcome E A
    → Option (List ℕ)
response message respond rb (ok a) = some ((respond a rb).buf)
response message respond rb (err e) = some ((Responses.error (message e) rb).buf)
response message respond rb crash = none

-- A call of the database, under its lock.
unfoldable pub ask : {A : Type 0} → DbAction A → (A → ResponseBuilder → ResponseBuilder) → Handler
ask m respond rb s = let (r, d) = m s.db in (response db_message respond rb r, record s { db = d })

unfoldable pub ask_ha :
    Action HaManager Text (Unit {0}) → (ResponseBuilder → ResponseBuilder) → Handler
ask_ha m respond rb s =
    let (r, h) = m s.ha_manager in
    (response (λ e. e) (λ _. respond) rb r, record s { ha_manager = h })

-- The answer to a get: no bytes where there is no entry.
abbrev pub ok_entry_bytes : Option DbEntry → ResponseBuilder → ResponseBuilder
ok_entry_bytes none = Responses.ok_empty
ok_entry_bytes (some entry) = Responses.ok_bytes entry.val

abbrev pub ok_group_stats : GroupStats → ResponseBuilder → ResponseBuilder
ok_group_stats stats = Responses.ok_stats stats.total_entries stats.total_segments stats.next_id

module _ (from_slice : List ℕ → Option AofEntry) where
  -- The loop over the entries of a sync: what is no UTF-8 or no entry panics.
  unfoldable pub decoded : List (List ℕ) → Option (List AofEntry)
  decoded [] = some []
  decoded (raw ∷ entries) =
      let rest = decoded entries in
      if is_utf8 raw
      then elim (from_base64 from_slice raw) [
        | none ↦ none
        | some e ↦ elim rest [ none ↦ none | some es ↦ some (e ∷ es) ]
      ]
      else none

module _ (from_slice : List ℕ → Option AofEntry) (env : Env) (net : Network) where
  unfoldable pub handle_command : Command → Handler
  handle_command (create_group name) = ask (Ops.log_create_group env name) (λ _. Responses.ok_empty)
  handle_command (drop_group name) = ask (Ops.log_drop_group env name) (λ _. Responses.ok_empty)
  handle_command (add group timestamp payload) =
      ask (Ops.log_add env group timestamp payload) Responses.ok_u64
  handle_command (add_range group entries) =
      ask (Ops.log_add_range env group entries) (λ r. Responses.ok_u64_pair r.0 r.1)
  handle_command (read group id) =
      ask (Ops.log_read env group id) (λ e. Responses.ok_entry e.0 e.1 e.2)
  handle_command (read_range group start end) =
      ask (Ops.log_read_range env group start end)
        (λ es. Responses.ok_entries (map (λ e. (e.0, (e.1, e.2))) es))
  handle_command (remove group up_to_id) =
      ask (Ops.log_remove env group up_to_id) (λ _. Responses.ok_empty)
  handle_command list_groups = ask (Ops.log_list_groups env) Responses.ok_group_list
  handle_command (group_stats group) = ask (Ops.log_group_stats env group) ok_group_stats
  handle_command (set_key db key val ttl_secs) =
      ask (Ops.kv_set env db key val (ttl_secs * 1000 % 2 ^ 64)) (λ _. Responses.ok_empty)
  handle_command (get_key db key) = ask (Ops.kv_get env db key) ok_entry_bytes
  handle_command (del_key db key) = ask (Ops.kv_del env db key) (λ _. Responses.ok_empty)
  handle_command (keys db) = ask (Ops.kv_keys env db) Responses.ok_string_list
  handle_command (flush db) = ask (Ops.kv_flush env db) (λ _. Responses.ok_empty)
  handle_command (l_push key val) = ask (Ops.list_push env key val) (λ _. Responses.ok_empty)
  handle_command (l_push_range key vals) =
      ask (Ops.list_push_range env key vals) (λ _. Responses.ok_empty)
  handle_command (l_pop key) = ask (Ops.list_pop env key) Responses.ok_bytes
  handle_command (l_pop_range key start end) =
      ask (Ops.list_pop_range env key start end) Responses.ok_bytes_list
  handle_command (l_pop_count key count) =
      ask (Ops.list_pop_count env key count) Responses.ok_bytes_list
  handle_command (l_len key) = ask (Ops.list_len env key) Responses.ok_u64
  handle_command (l_flush key) = ask (Ops.list_flush env key) (λ _. Responses.ok_empty)
  handle_command start_pipeline = λ rb s.
      let (id, m) = Manager.start s.pipeline_manager in
      (some ((Responses.ok_u64 id rb).buf), record s { pipeline_manager = m })
  handle_command (end_pipeline id) = λ rb s. (some ((Responses.ok_empty rb).buf), s)
  handle_command (ha_register_follower addr) =
      ask_ha (Ha.Ops.register_follower net addr) Responses.ok_empty
  handle_command ha_heart_beat = ask_ha Ha.Ops.ack_heartbeat (Responses.ok_bytes (codes "ACK"))
  handle_command (ha_sync_entries entries) = elim (decoded from_slice entries) [
    | none ↦ λ rb s. (none, s)
    | some es ↦ ask (Apply.sync_each env es) (λ _. Responses.ok_empty)
  ]

  -- A frame of a connection: the response to its command, or to its error.
  unfoldable pub serve : List ℕ → Handler
  serve frame rb s = elim (parse_command frame) [
    | ok cmd ↦ handle_command cmd rb s
    | err e ↦ (some ((Responses.error (codes "parse error: " ++ parse_message e) rb).buf), s)
    | crash ↦ (none, s)
  ]
