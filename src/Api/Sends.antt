-- ===== src/Api/Sends.antt =====
-- What each request sends to the server, and which are refused before (client/src/api/handlers.rs).
use segmented_memory_storage.Common.{ℕ, ◌%◌, ◌^◌, ◌≡◌, none, some, List}
use segmented_memory_storage.Common.Optional.{◌>>=◌}
use segmented_memory_storage.Common.Texts.{Text, codes}
use segmented_memory_storage.Client.Frames
use segmented_memory_storage.Api.Json.{Value, Fields, get, as_u64, as_str, as_strings}
use segmented_memory_storage.Api.Payload.{Libs, encode_payload_b64}
use segmented_memory_storage.Api.GroupHandlers.{stamped}
use segmented_memory_storage.Api.KvHandlers.{or_zero}
use segmented_memory_storage.Api.Request.{Request}

-- A request and the frame that it sends. The bodies have the fields that are asked for.
pub data Sends (lib : Libs) (now : ℕ → ℕ) : Request → List ℕ → Type 0 where
  create_group :
      (name : Text) → Sends lib now (Request.create_group name) (Frames.create_group name)
  list_groups : Sends lib now Request.list_groups Frames.list_groups
  drop_group : (name : Text) → Sends lib now (Request.drop_group name) (Frames.drop_group name)
  group_stats : (name : Text) → Sends lib now (Request.group_stats name) (Frames.group_stats name)
  add_entry :
      (name : Text) (req : Fields)
      → Sends lib now
          (Request.add_entry name req)
          (Frames.add name (now 0) (encode_payload_b64 lib req))
  add_range_entries :
      (name : Text) (req : List Fields)
      → Sends lib now
          (Request.add_range_entries name req)
          (Frames.add_range name (stamped lib now req))
  read_entry :
      (name : Text) (id : ℕ) → Sends lib now (Request.read_entry name id) (Frames.read name id)
  read_range_entries :
      (name : Text) (start end : ℕ)
      → Sends lib now (Request.read_range_entries name start end) (Frames.read_range name start end)
  drop_entries :
      (group : Text) (upto_id : ℕ)
      → Sends lib now (Request.drop_entries group upto_id) (Frames.remove group upto_id)
  kv_set :
      (db key : Text) (req val : Value)
      → get (codes "val") req ≡ some val
      → Sends lib now
          (Request.kv_set db key req)
          (Frames.kv_set db key (lib.to_vec val) (or_zero (get (codes "ttl") req >>= as_u64)))
  kv_get : (db key : Text) → Sends lib now (Request.kv_get db key) (Frames.kv_get db key)
  kv_del : (db key : Text) → Sends lib now (Request.kv_del db key) (Frames.kv_del db key)
  kv_keys : (db : Text) → Sends lib now (Request.kv_keys db) (Frames.kv_keys db)
  kv_flush : (db : Text) → Sends lib now (Request.kv_flush db) (Frames.kv_flush db)
  list_push :
      (key : Text) (req : Value) (val : Text)
      → (get (codes "val") req >>= as_str) ≡ some val
      → Sends lib now (Request.list_push key req) (Frames.l_push key val)
  list_push_range :
      (key : Text) (req : Value) (vals : List Text)
      → (get (codes "vals") req >>= as_strings) ≡ some vals
      → Sends lib now (Request.list_push_range key req) (Frames.l_push_range key vals)
  list_pop : (key : Text) → Sends lib now (Request.list_pop key) (Frames.l_pop key)
  list_pop_range :
      (key : Text) (req : Value) (start end : ℕ)
      → (get (codes "start") req >>= as_u64) ≡ some start
      → (get (codes "end") req >>= as_u64) ≡ some end
      → Sends lib now
          (Request.list_pop_range key req)
          (Frames.l_pop_range key (start % 2 ^ 32) (end % 2 ^ 32))
  list_pop_count :
      (key : Text) (req : Value) (count : ℕ)
      → (get (codes "count") req >>= as_u64) ≡ some count
      → Sends lib now (Request.list_pop_count key req) (Frames.l_pop_count key (count % 2 ^ 32))
  list_len : (key : Text) → Sends lib now (Request.list_len key) (Frames.l_len key)
  list_flush : (key : Text) → Sends lib now (Request.list_flush key) (Frames.l_flush key)

-- A request whose body lacks a field that is asked for, and the message for it.
pub data Lacks : Request → Text → Type 0 where
  val :
      (db key : Text) (req : Value)
      → get (codes "val") req ≡ none
      → Lacks (Request.kv_set db key req) (codes "missing val")
  pushed :
      (key : Text) (req : Value)
      → (get (codes "val") req >>= as_str) ≡ none
      → Lacks (Request.list_push key req) (codes "missing val")
  vals :
      (key : Text) (req : Value)
      → (get (codes "vals") req >>= as_strings) ≡ none
      → Lacks (Request.list_push_range key req) (codes "missing vals")
  start :
      (key : Text) (req : Value)
      → (get (codes "start") req >>= as_u64) ≡ none
      → Lacks (Request.list_pop_range key req) (codes "missing start")
  end :
      (key : Text) (req : Value) (start : ℕ)
      → (get (codes "start") req >>= as_u64) ≡ some start
      → (get (codes "end") req >>= as_u64) ≡ none
      → Lacks (Request.list_pop_range key req) (codes "missing end")
  count :
      (key : Text) (req : Value)
      → (get (codes "count") req >>= as_u64) ≡ none
      → Lacks (Request.list_pop_count key req) (codes "missing count")
