-- ===== src/Kv/Database.antt =====
-- The methods of one database, `DB` (server/src/db/kv.rs). A call takes what the clock says at each
-- of its readings, as the 64 bits of an `i64`, and `iter`, the order in which the map is gone through.
use Prim.Native.Nat.{max, min}
use segmented_memory_storage.Common.{
  ℕ, ◌+◌, ◌/◌, ◌%◌, ◌^◌, Bool, false, ◌&&◌, ◌||◌, Option, none, some, List, [], ◌∷◌, map, ltb, ◌==◌,
  length, take, if◌then◌else◌,
}
use segmented_memory_storage.Common.HashMap
use segmented_memory_storage.Common.HashMap.{HashMap}
use segmented_memory_storage.Common.Outcome.{ok, err, Action}
use segmented_memory_storage.Common.Texts.{Text}
use segmented_memory_storage.Kv.State.{DbEntry, Db, KvError, not_found}

-- `<` on `i64`, by the bits.
abbrev pub i64_lt : ℕ → ℕ → Bool
i64_lt a b = ltb ((a + 2 ^ 63) % 2 ^ 64) ((b + 2 ^ 63) % 2 ^ 64)

abbrev pub new : Text → Db
new id = record { id = id; entries = [] }

unfoldable pub set : Text → DbEntry → Db → Db
set key entry d = record d { entries = HashMap.insert key entry d.entries }

abbrev pub expired : ℕ → DbEntry → Bool
expired now e = if e.ttl == 0 then false else i64_lt e.ttl now

abbrev pub used : ℕ → DbEntry → DbEntry
used now e = record e { used_count = (e.used_count + 1) % 2 ^ 64; last_used = now }

unfoldable pub get : ℕ → ℕ → Text → Db → Option DbEntry × Db
get now now' key d = elim (HashMap.lookup key d.entries) [
  | none ↦ (none, d)
  | some e ↦
      if expired now e
      then (none, record d { entries = HashMap.remove key d.entries })
      else (some (used now' e), record d { entries = HashMap.insert key (used now' e) d.entries })
]

unfoldable pub del : Text → Action Db KvError (Unit {0})
del key d = elim (HashMap.lookup key d.entries) [
  | none ↦ (err (not_found key), d)
  | some e ↦ (ok tt, record d { entries = HashMap.remove key d.entries })
]

unfoldable pub flush : Db → Db
flush d = record d { entries = [] }

-- How `candidates` are compared: by use, then by the time of the last use.
abbrev pub used_less : Text × DbEntry → Text × DbEntry → Bool
used_less a b =
    ltb a.1.used_count b.1.used_count
    || (a.1.used_count == b.1.used_count && i64_lt a.1.last_used b.1.last_used)

-- `sort_by`, which keeps equal elements in order.
abbrev pub insert_sorted : Text × DbEntry → List (Text × DbEntry) → List (Text × DbEntry)
insert_sorted a [] = a ∷ []
insert_sorted a (b ∷ bs) = if used_less b a then b ∷ insert_sorted a bs else a ∷ b ∷ bs

abbrev pub sort_used : List (Text × DbEntry) → List (Text × DbEntry)
sort_used [] = []
sort_used (a ∷ bs) = insert_sorted a (sort_used bs)

-- The loop of `expire_least_used`.
unfoldable pub remove_each : List (Text × DbEntry) → HashMap DbEntry → HashMap DbEntry
remove_each [] m = m
remove_each (c ∷ cs) m = remove_each cs (HashMap.remove c.0 m)

module _ (iter : HashMap DbEntry → List (Text × DbEntry)) where
  abbrev pub keys : Db → List Text
  keys d = map (λ e. e.0) (iter d.entries)

  -- What `expire_least_used` removes.
  abbrev pub chosen : ℕ → Db → List (Text × DbEntry)
  chosen sample_size d =
      let candidates = sort_used (take sample_size (iter d.entries)) in
      let remove_count = max (sample_size / 4) 1 in take remove_count candidates

  unfoldable pub expire_least_used : Db → Db
  expire_least_used d =
      let sample_size = min (max (length d.entries / 5) 16) (length d.entries) in
      if sample_size == 0
      then d
      else record d { entries = remove_each (chosen sample_size d) d.entries }
