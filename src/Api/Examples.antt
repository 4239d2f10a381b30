-- ===== src/Api/Examples.antt =====
-- Requests to the front end, by themselves and before an empty server (client/src/api/handlers.rs).
use segmented_memory_storage.Common.{
  ℕ, ◌≡◌, ◌≢◌, refl, true, Option, none, some, List, [], ◌∷◌, inr, arith,
}
use segmented_memory_storage.Common.Outcome.{ok, err}
use segmented_memory_storage.Common.Texts.{Text, codes, text_eq}
use segmented_memory_storage.Common.Utf8.{is_utf8}
use segmented_memory_storage.Segment.{zeroed}
use segmented_memory_storage.Kv
use segmented_memory_storage.Groups
use segmented_memory_storage.Aof.Entry.{AofEntry}
use segmented_memory_storage.Pipeline.Manager
use segmented_memory_storage.Proto.Reads.{IsStr}
use segmented_memory_storage.Proto.Responses.{ResponseBuilder, error}
use segmented_memory_storage.Client.Frames
use segmented_memory_storage.Client.Replies.{check_status, kv_get_reply}
use segmented_memory_storage.Client.Misrouted.{list_frames_misrouted}
use segmented_memory_storage.Proto.Parse.{parse_command}
use segmented_memory_storage.Proto.Command.{unknown_tag}
use segmented_memory_storage.Common.Bytes.{to_le_bytes}
use segmented_memory_storage.Server.Messages.{parse_message}
use segmented_memory_storage.Db.State.{Env}
use segmented_memory_storage.Ha.State.{Network}
use segmented_memory_storage.Ha
use segmented_memory_storage.Server.Handle.{Server, serve}
use segmented_memory_storage.Api.Json.{Value, null, end, one, get, get_field, as_u64}
use segmented_memory_storage.Api.Http.{Conn, failed, okay}
use segmented_memory_storage.Api.Payload.{Libs}
use segmented_memory_storage.Api.KvHandlers.{status, kv_set, kv_get}
use segmented_memory_storage.Api.ListHandlers.{list_pop}
use segmented_memory_storage.Api.Request
use segmented_memory_storage.Api.Request.{handle}
use segmented_memory_storage.Api.Sends.{Sends}
use segmented_memory_storage.Api.Wire.{wire, send_recv}
use segmented_memory_storage.Api.Served.{handle-error, kv_set-kv_get_json}
use segmented_memory_storage.Api.Stored.{replied, kv_set-kv_get_sent}
use segmented_memory_storage.Api.Unpopped.{list_pop-register_follower}

abbrev env : Env
env = record {
  now = 100;
  now' = 101;
  iter = λ m. m;
  instant = 0;
  iter_groups = λ m. m;
  build_key = λ name id. id;
  available = true;
}

abbrev net : Network
net = record {
  heartbeat_follower = λ addr. ok tt;
  sync_follower = λ addr events. ok tt;
  get_aof_copy = ok [];
}

abbrev server : Server
server = record {
  db = record {
    kv_store = Kv.Ops.new;
    group_manager = Groups.Ops.new;
    list = record {
      written = [];
      free_segs = [];
      memory = record { heap = λ _. zeroed; allocated = 0 };
    };
    aof = [];
    event_tx = none;
  };
  pipeline_manager = Manager.new;
  ha_manager = Ha.Ops.new;
}

abbrev rb : ResponseBuilder
rb = record { buf = [] }

abbrev key : Text
key = 107 ∷ []

key-IsStr : IsStr key
unfolding is_utf8
key-IsStr = record { fits = omega arith; utf8 = refl }

abbrev unreadable : List ℕ → Option AofEntry
unreadable bs = none

-- Libraries that write and read one value, `null` as one byte.
abbrev lib : Libs
lib = record {
  to_string = λ fields. [];
  fields_from_slice = λ bytes. some end;
  to_vec = λ v. 110 ∷ [];
  value_from_slice = λ bytes. some null;
  base64_encode = λ bytes. bytes;
  base64_decode = λ s. some s;
  encode_all = λ bytes. bytes;
  decode_all = λ bytes. some bytes;
  from_utf8_lossy = λ bytes. bytes;
  local_time = λ t. none;
}

abbrev body : Value
body = one (codes "val") null

val_there : get (codes "val") body ≡ some null
unfolding get get_field text_eq
val_there = refl

abbrev offline : Conn Server
offline = record (wire unreadable net rb env) { acquire = λ s. (err (codes "pool closed"), s) }

abbrev now : ℕ → ℕ
now i = 7

abbrev digits : ℕ → Text
digits n = codes "7"

pops-ne-health : Request.list_pop key ≢ Request.health
pops-ne-health e = cc

-- The server does not know the tag that the client sends for the length of a list.
abbrev unknown : Text
unknown = codes "parse error: unknown command tag"

parse_len : parse_command (Frames.l_len key) ≡ err unknown_tag
unfolding to_le_bytes
parse_len = (list_frames_misrouted key 0 0 [] key-IsStr).1.1.0

serve-unknown :
    serve unreadable env net (Frames.l_len key) rb server ≡ (some ((error unknown rb).buf), server)
unfolding serve parse_message
serve-unknown = rw (serve, parse_len) refl

handle-error_example :
    handle (wire unreadable net rb env) lib now digits (Request.list_len key) server
    ≡ (some (failed 400 unknown), server)
unfolding to_le_bytes
handle-error_example =
    handle-error unreadable net rb lib env now digits (Request.list_len key) (Frames.l_len key)
      unknown server server (Sends.list_len key) (omega arith) serve-unknown refl (omega arith)
      (omega arith)

kv_set-kv_get_json_example :
    let after = kv_set (wire unreadable net rb env) lib key key body server in
    (after.0 ≡ some (okay (status (codes "ok"))))
    × ((kv_get (wire unreadable net rb env) lib key key after.1).0
        ≡ some (okay (one (codes "val") null)))
unfolding get get_field text_eq as_u64
kv_set-kv_get_json_example =
    kv_set-kv_get_json unreadable net rb lib env env key key body null server val_there refl refl
      (omega arith) key-IsStr key-IsStr (omega arith) refl

list_pop-register_follower_example :
    let after = (list_pop (wire unreadable net rb env) lib key server).1 in
    (after ≡ record server { ha_manager = (Ha.Ops.register_follower net key server.ha_manager).1 })
    × (after.db ≡ server.db)
list_pop-register_follower_example =
    list_pop-register_follower unreadable net rb lib env key server key-IsStr

-- A second of life, and a get in the last millisecond of it.
abbrev in_time : Env
in_time = record env { now = 1100 }

kv_set-kv_get_sent_example :
    let first = send_recv unreadable net rb env (Frames.kv_set key key (5 ∷ []) 1) server in
    let second = send_recv unreadable net rb in_time (Frames.kv_get key key) first.1 in
    (replied (check_status lib.from_utf8_lossy) first.0 ≡ ok tt)
    × (replied (kv_get_reply lib.from_utf8_lossy) second.0 ≡ ok (some (5 ∷ [])))
kv_set-kv_get_sent_example =
    kv_set-kv_get_sent unreadable net rb lib.from_utf8_lossy env in_time key key (5 ∷ []) 1 server
      key-IsStr key-IsStr (omega arith) refl (omega arith) (inr (omega arith, omega arith))
