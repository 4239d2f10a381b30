-- ===== src/Kv/Ops.antt =====
-- The methods of `KvStore` (server/src/db/kv.rs). A call takes the readings of the clock and the
-- order of the map as those of one database do.
use segmented_memory_storage.Common.{
  ℕ, ◌+◌, ◌%◌, ◌^◌, Option, none, some, List, [], leb, ◌==◌, length, if◌then◌else◌,
}
use segmented_memory_storage.Common.HashMap
use segmented_memory_storage.Common.HashMap.{HashMap}
use segmented_memory_storage.Common.Outcome.{ok, err, Action}
use segmented_memory_storage.Common.Texts.{Text}
use segmented_memory_storage.Kv.State.{DbEntry, Db, KvStore, KvError, already_exists}
use segmented_memory_storage.Kv.Database

-- `get_db_mut`: the database, new if it is not there, and the store with it put back.
abbrev pub get_db : Text → KvStore → Db
get_db db s = elim (HashMap.lookup db s.dbs) [ none ↦ Database.new db | some d ↦ d ]

abbrev pub put_db : Text → Db → KvStore → KvStore
put_db db d s = record s { dbs = HashMap.insert db d s.dbs }

abbrev pub new : KvStore
new = record { dbs = [] }

unfoldable pub get : ℕ → ℕ → Text → Text → KvStore → Option DbEntry × KvStore
get now now' db key s = let (r, d) = Database.get now now' key (get_db db s) in (r, put_db db d s)

unfoldable pub del : Text → Text → Action KvStore KvError (Unit {0})
del db key s = let (r, d) = Database.del key (get_db db s) in (r, put_db db d s)

unfoldable pub flush : Text → KvStore → KvStore
flush db s = put_db db (Database.flush (get_db db s)) s

unfoldable pub create_db : Text → Action KvStore KvError (Unit {0})
create_db id s = elim (HashMap.lookup id s.dbs) [
  | none ↦ (ok tt, put_db id (Database.new id) s)
  | some d ↦ (err (already_exists id), s)
]

-- The entry that `set` makes.
abbrev pub fresh : ℕ → ℕ → List ℕ → ℕ → DbEntry
fresh now now' val ttl = record {
  val = val;
  ttl = if ttl == 0 then 0 else (now + ttl) % 2 ^ 64;
  used_count = 0;
  last_used = now';
}

module _ (iter : HashMap DbEntry → List (Text × DbEntry)) where
  unfoldable pub keys : Text → KvStore → List Text
  keys db s = elim (HashMap.lookup db s.dbs) [ none ↦ [] | some d ↦ Database.keys iter d ]

  -- Room is made before the entry goes in.
  abbrev pub roomy : Db → Db
  roomy d = if leb 1024 (length d.entries) then Database.expire_least_used iter d else d

  unfoldable pub set : ℕ → ℕ → Text → Text → List ℕ → ℕ → KvStore → KvStore
  set now now' db key val ttl s =
      put_db db (Database.set key (fresh now now' val ttl) (roomy (get_db db s))) s
