-- ===== src/Server/Examples.antt =====
-- A server with nothing in its stores (server/src/server/server.rs).
use segmented_memory_storage.Common.{
  inr, ℕ, ◌≡◌, refl, true, Option, none, some, List, [], ◌∷◌, arith,
}
use segmented_memory_storage.Common.Outcome.{ok}
use segmented_memory_storage.Common.Texts.{Text}
use segmented_memory_storage.Common.Utf8.{is_utf8}
use segmented_memory_storage.Segment.{zeroed}
use segmented_memory_storage.Kv
use segmented_memory_storage.Groups
use segmented_memory_storage.Aof.Entry.{AofEntry, kv_flush}
use segmented_memory_storage.Aof.Base64.{to_base64, encode}
use segmented_memory_storage.Pipeline.Manager
use segmented_memory_storage.Proto.Reads.{IsStr}
use segmented_memory_storage.Proto.Responses.{ResponseBuilder, ok_empty, ok_bytes}
use segmented_memory_storage.Client.Frames
use segmented_memory_storage.Db.State.{Env}
use segmented_memory_storage.Db.Apply.{apply_each}
use segmented_memory_storage.Db.Synced.{Others}
use segmented_memory_storage.Ha.State.{Network}
use segmented_memory_storage.Ha
use segmented_memory_storage.Server.Handle.{Server, handle_command, serve}
use segmented_memory_storage.Server.Queued.{l_push-l_pop}
use segmented_memory_storage.SegList.View.{assign, Represents}
use segmented_memory_storage.Proto.Command
use segmented_memory_storage.Common.HashMap
use segmented_memory_storage.Server.Replicated.{serve-sync_follower}

abbrev env : Env
env = record {
  now = 100;
  now' = 101;
  iter = λ m. m;
  instant = 0;
  iter_groups = λ m. m;
  build_key = λ name id. id;
  available = true;
}

abbrev later : Env
later = record env { now = 4000 }

abbrev net : Network
net = record {
  heartbeat_follower = λ addr. ok tt;
  sync_follower = λ addr events. ok tt;
  get_aof_copy = ok [];
}

abbrev server : Server
server = record {
  db = record {
    kv_store = Kv.Ops.new;
    group_manager = Groups.Ops.new;
    list = record {
      written = [];
      free_segs = [];
      memory = record { heap = λ _. zeroed; allocated = 0 };
    };
    aof = [];
    event_tx = none;
  };
  pipeline_manager = Manager.new;
  ha_manager = Ha.Ops.new;
}

abbrev rb : ResponseBuilder
rb = record { buf = [] }

abbrev key : Text
key = 107 ∷ []

key-IsStr : IsStr key
unfolding is_utf8
key-IsStr = record { fits = omega arith; utf8 = refl }

abbrev unchanged : List ℕ → List ℕ
unchanged s = s

abbrev flush : AofEntry
flush = kv_flush key

abbrev to_vec : AofEntry → List ℕ
to_vec e = 1 ∷ 200 ∷ 3 ∷ []

abbrev from_slice : List ℕ → Option AofEntry
from_slice bs = some flush

serve-sync_follower_example :
    let frame = Frames.sync_follower (to_base64 to_vec flush ∷ []) in
    let after = (serve from_slice env net frame rb server).1.db in
    (after ≡ (apply_each env (flush ∷ []) server.db).1) × Others after server.db
unfolding to_base64 encode
serve-sync_follower_example =
    serve-sync_follower to_vec from_slice net env (flush ∷ []) rb server
      (((omega arith, (omega arith, (omega arith, tt))), refl), tt) (omega arith) (omega arith, tt)

no_lists-Represents : Represents server.db.list (λ k. none)
unfolding HashMap.lookup
no_lists-Represents = record { owned = λ p. ground arith; holds = λ k. tt }

l_push-l_pop_example :
    let x = handle_command from_slice env net (Command.l_push key (5 ∷ [])) rb server in
    let y = handle_command from_slice env net (Command.l_pop key) rb x.1 in
    (x.0 ≡ some ((ok_empty rb).buf))
    × (y.0 ≡ some ((ok_bytes (5 ∷ []) rb).buf))
    × Represents y.1.db.list (assign key [] (assign key ((5 ∷ []) ∷ []) (λ k. none)))
l_push-l_pop_example =
    l_push-l_pop from_slice net env rb server (λ k. none) key (5 ∷ []) (5 ∷ []) []
      no_lists-Represents (omega arith) (inr refl) refl
