-- ===== src/Db/Examples.antt =====
-- A database with one entry of each category (server/src/db/db.rs), and a printer that tells the
-- three apart.
use segmented_memory_storage.Common.{
  ◌≡◌, refl, true, Option, none, some, List, [], ◌∷◌, ◌==◌, arith, if◌then◌else◌,
}
use segmented_memory_storage.Common.Bytes.{to_le_bytes, from_le_bytes}
use segmented_memory_storage.Common.HashMap
use segmented_memory_storage.Common.Outcome.{ok}
use segmented_memory_storage.Common.Texts.{Text, text_eq}
use segmented_memory_storage.Segment.{zeroed, copy_to, copy_from}
use segmented_memory_storage.SegList
use segmented_memory_storage.SegList.State.{SegList}
use segmented_memory_storage.Groups
use segmented_memory_storage.SegLog
use segmented_memory_storage.Lru
use segmented_memory_storage.Kv
use segmented_memory_storage.Aof.Entry.{
  AofEntry, kv_set, log_create_group, list_push, EntryCategory, kv, log, list, category,
}
use segmented_memory_storage.Aof.Load.{aof_worker, load_aof_separated, read_line}
use segmented_memory_storage.Aof.Loaded.{separated}
use segmented_memory_storage.Db.State.{Env, Db}
use segmented_memory_storage.Db.Calls.{on_kv, on_groups, on_list, write, send}
use segmented_memory_storage.Db.Ops
use segmented_memory_storage.Db.Apply.{ignored, apply_aof, apply_each, apply_synced, sync_each}
use segmented_memory_storage.Db.Replay.{running, spawned, turn, turns}
use segmented_memory_storage.Db.Scheduled.{turns_of}
use segmented_memory_storage.Db.Logged.{perform, logged, sent, perform-apply_aof}
use segmented_memory_storage.Db.Recovered.{SameStores, turns-apply_each}
use segmented_memory_storage.Db.Restart.{perform_each}
use segmented_memory_storage.Db.Client.{Call, changes, call, calls, lists_well}
use segmented_memory_storage.Db.Client
use segmented_memory_storage.Db.Lists.{turns_at, restart-lists}

program : Unit {0}
unfolding call calls lists_well turns_at Ops.kv_get Ops.list_len Kv.Ops.get Kv.Database.get
    SegList.Ops.list_len on_kv on_groups on_list write send ignored apply_aof apply_each
    apply_synced sync_each turn turns perform perform_each turns_of Ops.report Ops.kv_set
    Ops.kv_flush Ops.log_create_group Ops.list_push Kv.Ops.set Kv.Ops.flush Kv.Database.set
    Kv.Database.flush Groups.Ops.create_group SegLog.Ops.new Lru.Ops.new SegList.Ops.push
    SegList.Ops.push_segment SegList.Ops.write_payload copy_to copy_from to_le_bytes from_le_bytes
    text_eq HashMap.lookup HashMap.insert read_line
program = tt

abbrev env : Env
env = record {
  now = 100;
  now' = 101;
  iter = λ m. m;
  instant = 0;
  iter_groups = λ m. m;
  build_key = λ name id. id;
  available = true;
}

-- Four free segments, and nothing in the stores.
abbrev blank : SegList
blank = record {
  written = [];
  free_segs = 0 ∷ 1 ∷ 2 ∷ 3 ∷ [];
  memory = record { heap = λ _. zeroed; allocated = 4 };
}

abbrev empty : Db
empty = record {
  kv_store = Kv.Ops.new;
  group_manager = Groups.Ops.new;
  list = blank;
  aof = [];
  event_tx = none;
}

abbrev key : Text
key = 107 ∷ []

abbrev set_key : AofEntry
set_key = kv_set key key (5 ∷ []) 0

abbrev push_key : AofEntry
push_key = list_push key (7 ∷ [])

abbrev create : AofEntry
create = log_create_group key

abbrev entries : List AofEntry
entries = push_key ∷ set_key ∷ create ∷ []

abbrev order : List EntryCategory
order = log ∷ kv ∷ kv ∷ list ∷ []

abbrev print : AofEntry → Text
print e = elim (category e) [ kv ↦ 49 ∷ [] | list ↦ 50 ∷ [] | log ↦ 51 ∷ [] ]

abbrev parse : Text → Option AofEntry
parse [] = none
parse (c ∷ line) =
    if c == 49
    then some set_key
    else if c == 50
    then some push_key
    else if c == 51
    then some create
    else none

abbrev trim : Text → Text
trim line = line

perform-apply_aof_example :
    ((perform env set_key empty).1 ≡ record (apply_aof env set_key empty).1 {
      aof = logged set_key (perform env set_key empty).0 [];
      event_tx = sent set_key (perform env set_key empty).0 none;
    })
    × ((apply_aof env set_key empty).0 ≡ ok tt)
unfolding program
perform-apply_aof_example = perform-apply_aof env set_key empty refl

turns-apply_each_example :
    ((apply_each env entries empty).0 ≡ ok tt)
    × SameStores
        (turns env order (spawned (separated entries) empty)).db
        (apply_each env entries empty).1
unfolding program
turns-apply_each_example = turns-apply_each env order entries empty refl

-- A change of the lists between calls on the other stores and reads, at different times.
abbrev later : Env
later = record env { now = 4000; now' = 4001; instant = 9 }

abbrev called : List (Env × Call)
called =
    (env, changes set_key)
    ∷ (later, changes push_key)
    ∷ (env, Client.kv_get key key)
    ∷ (later, Client.list_len key)
    ∷ []

abbrev replayed : List (Env × EntryCategory)
replayed = (later, list) ∷ (env, kv) ∷ []

restart-lists_example :
    let file = aof_worker print (set_key ∷ push_key ∷ []) [] in
    let x = turns_at replayed (spawned (load_aof_separated trim parse file) empty) in
    (x.h2 ≡ running []) × (x.db.list ≡ (calls called empty).list)
unfolding program
restart-lists_example =
    restart-lists trim parse print called replayed empty empty refl refl refl (refl, (refl, tt))
      (refl, (refl, tt)) (omega arith)
