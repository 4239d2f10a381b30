-- ===== src/Kv/Examples.antt =====
-- A small store (server/src/db/kv.rs).
use segmented_memory_storage.Common.{
  ◌≤◌, ◌≡◌, refl, ◌⊎◌, true, false, none, some, List, [], ◌∷◌, arith, length, take,
}
use segmented_memory_storage.Common.HashMap
use segmented_memory_storage.Common.HashMap.{HashMap}
use segmented_memory_storage.Common.Texts.{Text, text_eq}
use segmented_memory_storage.Kv.State.{DbEntry, KvStore}
use segmented_memory_storage.Kv.Database
use segmented_memory_storage.Kv.Database.{sort_used}
use segmented_memory_storage.Kv.Ops.{new, get_db, fresh, get, set}
use segmented_memory_storage.Kv.Views.{view, changed, get-view, set-view}
use segmented_memory_storage.Kv.Evicts.{IsIter, set-bound}

program : Unit {0}
unfolding get set Database.get Database.set text_eq HashMap.lookup HashMap.insert HashMap.remove
program = tt

abbrev db : Text
db = 100 ∷ []

abbrev key : Text
key = 107 ∷ []

abbrev other : Text
other = 111 ∷ []

-- The order of the map itself.
abbrev in_order : HashMap DbEntry → List (Text × DbEntry)
in_order m = m

-- A key with a deadline at 150 and one with none.
abbrev filled : KvStore
filled = set in_order 101 101 db other (9 ∷ []) 0 (set in_order 100 100 db key (5 ∷ 6 ∷ []) 50 new)

get_in_time :
    (get 140 141 db key filled).0
    ≡ some (record { val = 5 ∷ 6 ∷ []; ttl = 150; used_count = 1; last_used = 141 })
unfolding program
get_in_time = refl

get_late : (get 151 151 db key filled).0 ≡ none
unfolding program
get_late = refl

get-view_example :
    ((get 140 141 db key filled).0
      ≡ some (record { val = 5 ∷ 6 ∷ []; ttl = 150; used_count = 1; last_used = 141 }))
    × (view db key (get 140 141 db key filled).1
        ≡ some (record { val = 5 ∷ 6 ∷ []; ttl = 150; used_count = 1; last_used = 141 }))
unfolding program
get-view_example = get-view 140 141 db key filled db key (omega arith)

set-view_example :
    (view db other (set in_order 120 120 db key (7 ∷ []) 0 filled)
      ≡ changed db key (some (fresh 120 120 (7 ∷ []) 0)) filled db other)
    ⊎ ((text_eq db db ≡ true)
        × ((text_eq key other ≡ false)
            × (view db other (set in_order 120 120 db key (7 ∷ []) 0 filled) ≡ none)))
set-view_example = set-view in_order 120 120 db key (7 ∷ []) 0 filled db other

-- The entries of `filled`.
filled-IsIter : IsIter (in_order (get_db db filled).entries) (get_db db filled).entries
unfolding program
filled-IsIter = record { lists = refl; there = (refl, (refl, tt)) }

set-bound_example :
    length (get_db db (set in_order 120 120 db key (7 ∷ []) 0 filled)).entries ≤ 1024
unfolding program
set-bound_example =
    set-bound in_order 120 120 db key (7 ∷ []) 0 filled db filled-IsIter (omega arith)

abbrev sample : List (Text × DbEntry)
sample = take 2 (get_db db filled).entries
