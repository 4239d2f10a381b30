-- ===== src/Lru/Examples.antt =====
-- A cache of two entries that live for 30 (server/src/db/lru.rs).
use segmented_memory_storage.Common.{ℕ, ◌≡◌, refl, none, some, [], ◌∷◌, List, arith}
use segmented_memory_storage.Common.BTreeMap
use segmented_memory_storage.Common.Outcome.{ok, ◌>>◌}
use segmented_memory_storage.Lru.State.{null, Lru}
use segmented_memory_storage.Lru.Links.{Node}
use segmented_memory_storage.Lru.Refines.{get-Result, remove-Result}
use segmented_memory_storage.Lru.Recent.{got, removed, inserted, item}
use segmented_memory_storage.Lru.Represented.{Represents}
use segmented_memory_storage.Lru.Added.{Result}
use segmented_memory_storage.Lru.Inserts.{insert-Result}
use segmented_memory_storage.Lru.Runs.{
  Call, insert_at, get_at, remove_key, answers, answers-listed_answers,
}
use segmented_memory_storage.Lru.Ops.{
  new, alloc_slot, detach, attach_front, insert_again, forget, evict_tail, insert, remove_at,
  remove, touch, get,
}

program : Unit {0}
unfolding new alloc_slot detach attach_front insert_again forget evict_tail insert remove_at remove
    touch get BTreeMap.insert BTreeMap.remove
program = tt

-- The key that was used last stays, and the other one makes room.
evicts_oldest :
    ((insert {V = ℕ} 0 1 10 >> (insert 0 2 20 >> (get 5 1 >> (insert 6 3 30 >> get 7 2))))
      (new 2 30)).0
    ≡ ok none
unfolding program
evicts_oldest = refl

keeps_used :
    ((insert {V = ℕ} 0 1 10 >> (insert 0 2 20 >> (get 5 1 >> (insert 6 3 30 >> get 7 1))))
      (new 2 30)).0
    ≡ ok (some 10)
unfolding program
keeps_used = refl

get_expired : ((insert {V = ℕ} 0 1 10 >> get 31 1) (new 2 30)).0 ≡ ok none
unfolding program
get_expired = refl

-- Calls with an eviction, an entry whose deadline has passed, and a removal.
abbrev calls : List (Call ℕ)
calls =
    insert_at 0 1 10
    ∷ insert_at 0 2 20
    ∷ get_at 5 1
    ∷ insert_at 6 3 30
    ∷ get_at 7 2
    ∷ remove_key 1
    ∷ get_at 40 3
    ∷ []

answers-listed_answers_example :
    answers calls (new 2 30)
    ≡ ok none ∷ ok none ∷ ok (some 10) ∷ ok none ∷ ok none ∷ ok (some 10) ∷ ok none ∷ []
answers-listed_answers_example = answers-listed_answers 2 30 calls (omega arith) (omega arith)

-- A full cache of one entry.
abbrev one_node : Node ℕ
one_node = record { idx = 0; key = 1; value = 10; expires_at = 30 }

abbrev one : Lru ℕ
one = record {
  map = (1, 0) ∷ [];
  reverse = some 1 ∷ [];
  entries = some (record { value = 10; expires_at = 30; prev = null; next = null }) ∷ [];
  free = [];
  head = 0;
  tail = 0;
  ttl = 30;
  cap = 1;
}

one-Represents : Represents one (one_node ∷ [])
one-Represents = record {
  zip = record { behind = tt; ahead = (refl, tt); head_is = refl; tail_is = refl };
  named = (refl, tt);
  mapped = λ k. ground arith;
  ordered = (tt, tt);
  keys_once = λ k. ground arith;
  map_size = refl;
  slots_once = λ i. ground arith;
  free_there = λ i h. refl;
  sizes = refl;
  reverse_size = refl;
  few = omega arith;
  cap_fits = omega arith;
}

insert-Result_example :
    Result one
      (insert 5 2 20 one)
      tt
      (inserted 1 (record { key = 2; value = 20; expires_at = 35 }) (item one_node ∷ []))
insert-Result_example = insert-Result one (one_node ∷ []) 5 2 20 one-Represents (omega arith)

get-Result_example :
    Result one (get 5 1 one) (got 5 1 (item one_node ∷ [])).0 (got 5 1 (item one_node ∷ [])).1
get-Result_example = get-Result one (one_node ∷ []) 5 1 one-Represents

remove-Result_example :
    Result one (remove 1 one) (removed 1 (item one_node ∷ [])).0 (removed 1 (item one_node ∷ [])).1
remove-Result_example = remove-Result one (one_node ∷ []) 1 one-Represents
