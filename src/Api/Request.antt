-- ===== src/Api/Request.antt =====
-- A request that the router hands to a handler (client/src/api/router.rs, handlers.rs).
use segmented_memory_storage.Common.{ℕ, List}
use segmented_memory_storage.Common.Texts.{Text}
use segmented_memory_storage.Api.Json.{Value, Fields}
use segmented_memory_storage.Api.Http.{Conn, Handler}
use segmented_memory_storage.Api.Payload.{Libs}
use segmented_memory_storage.Api.GroupHandlers
use segmented_memory_storage.Api.KvHandlers
use segmented_memory_storage.Api.ListHandlers

-- The parts of the path and the body, as axum reads them.
pub data Request : Type 0 where
  create_group : Text → Request
  list_groups : Request
  drop_group : Text → Request
  group_stats : Text → Request
  add_entry : Text → Fields → Request
  add_range_entries : Text → List Fields → Request
  read_entry : Text → ℕ → Request
  read_range_entries : Text → ℕ → ℕ → Request
  drop_entries : Text → ℕ → Request
  kv_set : Text → Text → Value → Request
  kv_get : Text → Text → Request
  kv_del : Text → Text → Request
  kv_keys : Text → Request
  kv_flush : Text → Request
  list_push : Text → Value → Request
  list_push_range : Text → Value → Request
  list_pop : Text → Request
  list_pop_range : Text → Value → Request
  list_pop_count : Text → Value → Request
  list_len : Text → Request
  list_flush : Text → Request
  health : Request

-- `now` gives the readings of the clock in a call, `digits` writes a number.
module _ {S : Type 0} (conn : Conn S) (lib : Libs) (now : ℕ → ℕ) (digits : ℕ → Text) where
  unfoldable pub handle : Request → Handler S
  handle (create_group name) = GroupHandlers.create_group conn lib name
  handle list_groups = GroupHandlers.list_groups conn lib
  handle (drop_group name) = GroupHandlers.drop_group conn lib name
  handle (group_stats name) = GroupHandlers.group_stats conn lib name
  handle (add_entry name req) = GroupHandlers.add_entry conn lib (now 0) name req
  handle (add_range_entries name req) = GroupHandlers.add_range_entries conn lib now name req
  handle (read_entry name id) = GroupHandlers.read_entry conn lib name id
  handle (read_range_entries name start_id end_id) =
      GroupHandlers.read_range_entries conn lib name start_id end_id
  handle (drop_entries group upto_id) = GroupHandlers.drop_entries conn lib digits group upto_id
  handle (kv_set db key req) = KvHandlers.kv_set conn lib db key req
  handle (kv_get db key) = KvHandlers.kv_get conn lib db key
  handle (kv_del db key) = KvHandlers.kv_del conn lib db key
  handle (kv_keys db) = KvHandlers.kv_keys conn lib db
  handle (kv_flush db) = KvHandlers.kv_flush conn lib db
  handle (list_push key req) = ListHandlers.list_push conn lib key req
  handle (list_push_range key req) = ListHandlers.list_push_range conn lib key req
  handle (list_pop key) = ListHandlers.list_pop conn lib key
  handle (list_pop_range key req) = ListHandlers.list_pop_range conn lib key req
  handle (list_pop_count key req) = ListHandlers.list_pop_count conn lib key req
  handle (list_len key) = ListHandlers.list_len conn lib key
  handle (list_flush key) = ListHandlers.list_flush conn lib key
  handle health = ListHandlers.health
