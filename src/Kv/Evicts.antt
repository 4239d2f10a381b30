-- ===== src/Kv/Evicts.antt =====
-- How `set` keeps a database from growing, and what it evicts (server/src/db/kv.rs).
use Prim.Native.Nat.{min, max}
use segmented_memory_storage.Common.{
  ℕ, zero, suc, ◌/◌, ◌≤◌, ◌<◌, ◌≡◌, refl, false, some, List, [], ◌∷◌, arith, length, take,
  length-take, All, ◌==◌, ne→==,
}
use segmented_memory_storage.Common.HashMap
use segmented_memory_storage.Common.HashMap.{
  HashMap, lookup-insert, length-insert, length-remove, length-remove_there,
}
use segmented_memory_storage.Common.Texts.{Text, eq_of_text_eq}
use segmented_memory_storage.Kv.State.{DbEntry, Db, KvStore}
use segmented_memory_storage.Kv.Database
use segmented_memory_storage.Kv.Database.{
  used_less, insert_sorted, sort_used, remove_each, chosen, expire_least_used,
}
use segmented_memory_storage.Kv.LeastUsed.{All-insert_sorted}
use segmented_memory_storage.Kv.Ops.{get_db, fresh, roomy, set}

-- `es` are the entries of a map, each of them once.
pub record IsIter (es : List (Text × DbEntry)) (m : HashMap DbEntry) : Type 0 where
  pub lists : length es ≡ length m
  pub there : All (λ e. HashMap.lookup e.0 m ≡ some e.1) es

length-insert_sorted :
    (a : Text × DbEntry) (bs : List (Text × DbEntry))
    → length (insert_sorted a bs) ≡ suc (length bs)
length-insert_sorted a [] = refl
length-insert_sorted a (b ∷ bs) = ground (arith, length-insert_sorted a bs)

length-sort_used : (xs : List (Text × DbEntry)) → length (sort_used xs) ≡ length xs
length-sort_used [] = refl
length-sort_used (x ∷ xs) =
    omega (arith, length-insert_sorted x (sort_used xs), length-sort_used xs)

module _ (P : Text × DbEntry → Type 0) where
  All-sort_used : (xs : List (Text × DbEntry)) → All P xs → All P (sort_used xs)
  All-sort_used [] h = tt
  All-sort_used (x ∷ xs) h = All-insert_sorted P x (sort_used xs) h.0 (All-sort_used xs h.1)

  All-take : (n : ℕ) (xs : List (Text × DbEntry)) → All P xs → All P (take n xs)
  All-take zero xs h = tt
  All-take (suc n) [] h = tt
  All-take (suc n) (x ∷ xs) h = (h.0, All-take n xs h.1)

length-remove_each :
    (cs : List (Text × DbEntry)) (m : HashMap DbEntry) → length (remove_each cs m) ≤ length m
unfolding remove_each
length-remove_each [] m = omega arith
length-remove_each (c ∷ cs) m =
    omega (arith, length-remove_each cs (HashMap.remove c.0 m), length-remove c.0 m)

remove_each_less :
    (cs : List (Text × DbEntry)) (m : HashMap DbEntry)
    → 0 < length cs
    → All (λ e. HashMap.lookup e.0 m ≡ some e.1) cs
    → length (remove_each cs m) < length m
unfolding remove_each
remove_each_less [] m h k = absurd (omega arith)
remove_each_less (c ∷ cs) m h k =
    omega (arith, length-remove_each cs (HashMap.remove c.0 m), length-remove_there c.0 m c.1 k.0)

module _ (iter : HashMap DbEntry → List (Text × DbEntry)) where
  expire_less :
      (d : Db)
      → IsIter (iter d.entries) d.entries
      → 0 < length d.entries
      → length (expire_least_used iter d).entries < length d.entries
  unfolding expire_least_used
  expire_less d fair h =
      let n = length d.entries in
      let sample_size = min (max (n / 5) 16) n in
      let sample = take sample_size (iter d.entries) in
      let less =
        remove_each_less (chosen iter sample_size d) d.entries
          (omega (
            arith,
            length-take (max (sample_size / 4) 1) (sort_used sample),
            length-sort_used sample,
            length-take sample_size (iter d.entries),
            fair.lists,
          ))
          (All-take _ (max (sample_size / 4) 1) (sort_used sample)
            (All-sort_used _ sample (All-take _ sample_size (iter d.entries) fair.there))) in
      let some_sample : (sample_size == 0) ≡ false = ne→== sample_size 0 (λ e. omega arith) in
      rw some_sample less

  -- A database of at most 1024 entries has at most 1024 after any `set`, if the sample is taken of its
  -- entries.
  pub set-bound :
      (now now' : ℕ) (db key : Text) (val : List ℕ) (ttl : ℕ) (s : KvStore) (db' : Text)
      → IsIter (iter (get_db db s).entries) (get_db db s).entries
      → length (get_db db' s).entries ≤ 1024
      → length (get_db db' (set iter now now' db key val ttl s)).entries ≤ 1024
  unfolding set Database.set
  set-bound now now' db key val ttl s db' fair h = ground (
    arith,
    lookup-insert db db' (Database.set key (fresh now now' val ttl) (roomy iter (get_db db s)))
        s.dbs,
    length-insert key (fresh now now' val ttl) (roomy iter (get_db db s)).entries,
    expire_less (get_db db s) fair,
    eq_of_text_eq db db',
  )
