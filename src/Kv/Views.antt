-- ===== src/Kv/Views.antt =====
-- What the store holds under each key of each database, behind every call (server/src/db/kv.rs).
use segmented_memory_storage.Common.{
  ℕ, ◌+◌, ◌/◌, ◌%◌, ◌^◌, ◌<◌, ◌≡◌, refl, ap, ◌∙◌, ◌⊎◌, inl, inr, true, false, ◌&&◌, ◌||◌, ltb, leb,
  ◌==◌, Option, none, some, List, [], ◌∷◌, arith, length, if◌then◌else◌, Option-cases,
}
use Prim.Native.Nat.{min, max}
use segmented_memory_storage.Common.HashMap
use segmented_memory_storage.Common.HashMap.{HashMap, lookup-insert, lookup-remove}
use segmented_memory_storage.Common.Outcome.{ok, err}
use segmented_memory_storage.Common.Texts.{Text, text_eq, eq_of_text_eq}
use segmented_memory_storage.Kv.State.{DbEntry, Db, KvStore, not_found, already_exists}
use segmented_memory_storage.Kv.Database
use segmented_memory_storage.Kv.Database.{
  i64_lt, expired, used, remove_each, chosen, expire_least_used,
}
use segmented_memory_storage.Kv.Ops.{get_db, put_db, fresh, roomy, get, set, del, flush, create_db}

abbrev pub view : Text → Text → KvStore → Option DbEntry
view db key s = elim (HashMap.lookup db s.dbs) [
  | none ↦ none
  | some d ↦ HashMap.lookup key d.entries
]

-- A change at one key of one database.
abbrev pub changed : Text → Text → Option DbEntry → KvStore → Text → Text → Option DbEntry
changed db key e s db' key' = if text_eq db db' && text_eq key key' then e else view db' key' s

get_db-view :
    (db key : Text) (s : KvStore) → HashMap.lookup key (get_db db s).entries ≡ view db key s
unfolding HashMap.lookup
get_db-view db key s = ground arith

view-put_db :
    (db : Text) (d : Db) (s : KvStore) (db' key' : Text)
    → view db' key' (put_db db d s)
      ≡ (if text_eq db db' then HashMap.lookup key' d.entries else view db' key' s)
view-put_db db d s db' key' = ground (arith, lookup-insert db db' d s.dbs)

-- What a `get` returns: an entry whose deadline has passed is gone.
abbrev pub live : ℕ → ℕ → Option DbEntry → Option DbEntry
live now now' none = none
live now now' (some e) = if expired now e then none else some (used now' e)

Database-get :
    (now now' : ℕ) (key k : Text) (d : Db)
    → ((Database.get now now' key d).0 ≡ live now now' (HashMap.lookup key d.entries))
      × (HashMap.lookup k (Database.get now now' key d).1.entries ≡ (
          if text_eq key k
          then live now now' (HashMap.lookup key d.entries)
          else HashMap.lookup k d.entries))
unfolding Database.get
Database-get now now' key k d = elim (Option-cases (HashMap.lookup key d.entries)) [
  | inl e ↦ (ground (arith, e), ground (arith, e, eq_of_text_eq key k))
  | inr (v, e) ↦ (
    ground (arith, e),
    ground (arith, e, lookup-insert key k (used now' v) d.entries, lookup-remove key k d.entries),
  )
]

-- A change of one database, seen from the store.
put_db-changed :
    (db key : Text) (d : Db) (v : Option DbEntry) (s : KvStore) (db' key' : Text)
    → HashMap.lookup key' d.entries ≡ (if text_eq key key' then v else view db key' s)
    → view db' key' (put_db db d s) ≡ changed db key v s db' key'
put_db-changed db key d v s db' key' h =
    ground (arith, view-put_db db d s db' key', eq_of_text_eq db db', h)

pub get-live :
    (now now' : ℕ) (db key : Text) (s : KvStore) (db' key' : Text)
    → ((get now now' db key s).0 ≡ live now now' (view db key s))
      × (view db' key' (get now now' db key s).1
          ≡ changed db key (live now now' (view db key s)) s db' key')
unfolding get
get-live now now' db key s db' key' =
    let (r, h) = Database-get now now' key key' (get_db db s) in
    (
      r ∙ ap (live now now') (get_db-view db key s),
      put_db-changed db key (Database.get now now' key (get_db db s)).1
          (live now now' (view db key s)) s db' key'
          (ground (arith, h, get_db-view db key s, get_db-view db key' s)),
    )

-- An entry that has been read once more.
abbrev pub counted : ℕ → DbEntry → DbEntry
counted now e = record {
  val = e.val;
  ttl = e.ttl;
  used_count = (e.used_count + 1) % 2 ^ 64;
  last_used = now;
}

-- What is left of an entry after a read: all of it where there is no deadline or it is not behind
-- the time of the read.
abbrev pub after_read : ℕ → ℕ → Option DbEntry → Option DbEntry
after_read now now' none = none
after_read now now' (some e) = if e.ttl == 0 || leb now e.ttl then some (counted now' e) else none

-- No time is before 1970, where an `i64` would be negative.
abbrev pub Positive : ℕ → Option DbEntry → Type 0
Positive now none = Unit
Positive now (some e) = (now < 2 ^ 63) × (e.ttl < 2 ^ 63)

live-after_read :
    (now now' : ℕ) (o : Option DbEntry) → Positive now o → live now now' o ≡ after_read now now' o
live-after_read now now' none h = refl
live-after_read now now' (some e) h =
    let at_now : (now + 2 ^ 63) % 2 ^ 64 ≡ now + 2 ^ 63 = omega (arith, h.0) in
    let at_ttl : (e.ttl + 2 ^ 63) % 2 ^ 64 ≡ e.ttl + 2 ^ 63 = omega (arith, h.1) in
    let less : i64_lt e.ttl now ≡ ltb (e.ttl + 2 ^ 63) (now + 2 ^ 63) =
      ap (λ x. ltb x ((now + 2 ^ 63) % 2 ^ 64)) at_ttl ∙ ap (ltb (e.ttl + 2 ^ 63)) at_now in
    ap (λ t. if (if e.ttl == 0 then false else t) then none else some (used now' e)) less
    ∙ ground arith

-- `get` returns the value of a key that has no deadline or one that is not behind the clock, with
-- its use counted and the time of it noted, and that is what stays under the key; under a key whose
-- deadline has passed nothing is returned or left; no other key of any database changes. The clock
-- and the deadline are not before 1970.
pub get-view :
    (now now' : ℕ) (db key : Text) (s : KvStore) (db' key' : Text)
    → Positive now (view db key s)
    → ((get now now' db key s).0 ≡ after_read now now' (view db key s))
      × (view db' key' (get now now' db key s).1
          ≡ changed db key (after_read now now' (view db key s)) s db' key')
get-view now now' db key s db' key' h =
    let same = live-after_read now now' (view db key s) h in
    let g = get-live now now' db key s db' key' in
    (g.0 ∙ same, g.1 ∙ ap (λ o. changed db key o s db' key') same)

-- `del` of a key that is there removes it; otherwise it reports the key, and nothing changes. No other
-- key changes.
pub del-view :
    (db key : Text) (s : KvStore) (db' key' : Text)
    → ((del db key s).0 ≡ elim (view db key s) [ none ↦ err (not_found key) | some e ↦ ok tt ])
      × (view db' key' (del db key s).1 ≡ changed db key none s db' key')
unfolding del Database.del
del-view db key s db' key' = elim (Option-cases (HashMap.lookup key (get_db db s).entries)) [
  | inl e ↦ (
    ground (arith, e, get_db-view db key s),
    put_db-changed db key (Database.del key (get_db db s)).1 none s db' key'
        (ground (arith, e, get_db-view db key s, get_db-view db key' s, eq_of_text_eq key key')),
  )
  | inr (v, e) ↦ (
    ground (arith, e, get_db-view db key s),
    put_db-changed db key (Database.del key (get_db db s)).1 none s db' key'
        (ground (arith, e, lookup-remove key key' (get_db db s).entries, get_db-view db key' s)),
  )
]

-- `flush` empties one database.
pub flush-view :
    (db : Text) (s : KvStore) (db' key' : Text)
    → view db' key' (flush db s) ≡ (if text_eq db db' then none else view db' key' s)
unfolding flush Database.flush HashMap.lookup
flush-view db s db' key' = ground (arith, view-put_db db (Database.flush (get_db db s)) s db' key')

-- `create_db` is refused for a database that is there, and leaves every key as it was.
pub create_db-view :
    (id : Text) (s : KvStore) (db' key' : Text)
    → ((create_db id s).0
        ≡ elim (HashMap.lookup id s.dbs) [ none ↦ ok tt | some d ↦ err (already_exists id) ])
      × (view db' key' (create_db id s).1 ≡ view db' key' s)
unfolding create_db HashMap.lookup
create_db-view id s db' key' = elim (Option-cases (HashMap.lookup id s.dbs)) [
  | inl e ↦ (
    ground (arith, e),
    ground (arith, e, view-put_db id (Database.new id) s db' key', eq_of_text_eq id db'),
  )
  | inr (d, e) ↦ (ground (arith, e), ground (arith, e))
]

lookup-remove_each :
    (cs : List (Text × DbEntry)) (key : Text) (m : HashMap DbEntry)
    → (HashMap.lookup key (remove_each cs m) ≡ HashMap.lookup key m)
      ⊎ (HashMap.lookup key (remove_each cs m) ≡ none)
unfolding remove_each
lookup-remove_each [] key m = inl refl
lookup-remove_each (c ∷ cs) key m =
    ground (arith, lookup-remove c.0 key m, lookup-remove_each cs key (HashMap.remove c.0 m))

module _ (iter : HashMap DbEntry → List (Text × DbEntry)) where
  lookup-roomy :
      (key : Text) (d : Db)
      → (HashMap.lookup key (roomy iter d).entries ≡ HashMap.lookup key d.entries)
        ⊎ (HashMap.lookup key (roomy iter d).entries ≡ none)
  unfolding expire_least_used
  lookup-roomy key d =
      let sample_size = min (max (length d.entries / 5) 16) (length d.entries) in
      ground (arith, lookup-remove_each (chosen iter sample_size d) key d.entries)

  -- `set` puts the new entry in place. No other database changes; another key of the same one either
  -- keeps its entry or has been evicted to make room.
  pub set-view :
      (now now' : ℕ) (db key : Text) (val : List ℕ) (ttl : ℕ) (s : KvStore) (db' key' : Text)
      → (view db' key' (set iter now now' db key val ttl s)
          ≡ changed db key (some (fresh now now' val ttl)) s db' key')
        ⊎ ((text_eq db db' ≡ true)
            × ((text_eq key key' ≡ false)
                × (view db' key' (set iter now now' db key val ttl s) ≡ none)))
  unfolding set Database.set
  set-view now now' db key val ttl s db' key' = ground (
    arith,
    view-put_db db (Database.set key (fresh now now' val ttl) (roomy iter (get_db db s))) s db'
        key',
    lookup-insert key key' (fresh now now' val ttl) (roomy iter (get_db db s)).entries,
    lookup-roomy key' (get_db db s),
    get_db-view db key' s,
    eq_of_text_eq db db',
  )

  -- With less than 1024 entries in the database nothing is evicted.
  pub set-view_below :
      (now now' : ℕ) (db key : Text) (val : List ℕ) (ttl : ℕ) (s : KvStore) (db' key' : Text)
      → length (get_db db s).entries < 1024
      → view db' key' (set iter now now' db key val ttl s)
        ≡ changed db key (some (fresh now now' val ttl)) s db' key'
  unfolding set Database.set
  set-view_below now now' db key val ttl s db' key' h =
      put_db-changed db key (Database.set key (fresh now now' val ttl) (roomy iter (get_db db s)))
        (some (fresh now now' val ttl)) s db' key'
        (ground (
          arith,
          h,
          lookup-insert key key' (fresh now now' val ttl) (get_db db s).entries,
          get_db-view db key' s,
        ))
