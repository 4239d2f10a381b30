-- ===== src/Lru/Methods.antt =====
-- The methods of `LRU` against the entries in the order of use (server/src/db/lru.rs).
use mathlib.Core.List.{reverse_aux}
use segmented_memory_storage.Common.{
  ℕ, Bool, ◌+◌, ◌≡◌, refl, ap, sym, ◌∙◌, Option, none, some, List, ◌∷◌, ltb, if◌then◌else◌,
  Bool-cases, inl, inr,
}
use segmented_memory_storage.Common.BTreeMap
use segmented_memory_storage.Common.Outcome.{bind_ok, ok, pure, ◌>>◌}
use segmented_memory_storage.Lru.State.{Entry, Lru}
use segmented_memory_storage.Lru.Ops.{Method, slot_at, insert, remove, touch, get}
use segmented_memory_storage.Lru.Links.{Node, first, cell}
use segmented_memory_storage.Lru.Attached.{with_front}
use segmented_memory_storage.Lru.Detached.{without_node}
use segmented_memory_storage.Lru.Recent.{
  Item, find, without, room_for, inserted, removed_of, removed, got_of, got, item, items,
  without_middle, slot_of_middle, slot_of_self,
}
use segmented_memory_storage.Lru.Represented.{Represents, key_alone}
use segmented_memory_storage.Lru.Used.{
  slot_at_lem, place-Zip, front, touch_lem, touch-Represents, again, insert_again_lem,
  again-Represents,
}
use segmented_memory_storage.Lru.Freed.{freed, remove_at_lem, removed-Represents}
use segmented_memory_storage.Lru.Added.{Result}

module _ {V : Type 0} where
  -- The methods on a node in the middle.
  module _ (l : Lru V) (n : Node V) (back fwd : List (Node V))
      (r : Represents l (reverse_aux back (n ∷ fwd)))
      (found : find n.key (items (reverse_aux back (n ∷ fwd))) ≡ some (item n)) where
    abbrev whole : List (Item V)
    whole = items (reverse_aux back (n ∷ fwd))

    map_there : BTreeMap.lookup n.key l.map ≡ some n.idx
    map_there =
        r.mapped n.key
        ∙ slot_of_middle n.key n back fwd (key_alone l n back fwd r).0
        ∙ slot_of_self n (reverse_aux back fwd)

    rest_is : items (reverse_aux back fwd) ≡ without n.key whole
    rest_is =
        sym (without_middle n back fwd (key_alone l n back fwd r).0 (key_alone l n back fwd r).1)

    pub insert_there :
        (now : ℕ) (value : V)
        → Result l
            (insert now n.key value l)
            tt
            (inserted l.cap (record { key = n.key; value = value; expires_at = now + l.ttl }) whole)
    unfolding insert again with_front without_node
    insert_there now value = record {
      after = again l n back fwd r value (now + l.ttl);
      nodes = record n { value = value; expires_at = now + l.ttl } ∷ reverse_aux back fwd;
      ends = rw (insert, map_there) refl ∙ insert_again_lem l n back fwd r value (now + l.ttl);
      holds = again-Represents l n back fwd r value (now + l.ttl);
      stands =
          ap (λ xs. record { key = n.key; value = value; expires_at = now + l.ttl } ∷ xs)
            (rest_is ∙ sym (ap (λ o. room_for l.cap o n.key whole) found));
      same_cap = refl;
      same_ttl = refl;
    }

    remove_ends : remove n.key l ≡ (ok (some n.value), freed l n back fwd r)
    unfolding remove
    remove_ends = rw (remove, map_there) refl ∙ remove_at_lem l n back fwd r

    removed_is : removed n.key whole ≡ (some n.value, without n.key whole)
    removed_is = ap (λ o. removed_of o n.key whole) found

    pub remove_there : Result l (remove n.key l) (removed n.key whole).0 (removed n.key whole).1
    unfolding freed without_node
    remove_there = record {
      after = freed l n back fwd r;
      nodes = reverse_aux back fwd;
      ends = remove_ends ∙ ap (λ p. (ok p.0, freed l n back fwd r)) (sym removed_is);
      holds = removed-Represents l n back fwd r;
      stands = rest_is ∙ ap (λ p. p.1) (sym removed_is);
      same_cap = refl;
      same_ttl = refl;
    }

    -- A get: of an entry whose deadline has passed, and of any other.
    pub get_there :
        (now : ℕ) → Result l (get now n.key l) (got now n.key whole).0 (got now n.key whole).1
    unfolding get freed front with_front without_node
    get_there now =
        let next : Option (Entry V) → Method V (Option V) = λ slot. elim slot [
          | none ↦ pure none
          | some e ↦ if ltb e.expires_at now then remove n.key >> pure none else touch n.idx
        ] in
        let reached : get now n.key l ≡ next (cell n (first back) (first fwd)) l =
          rw (get, map_there) refl
          ∙ bind_ok (slot_at n.idx) next l (cell n (first back) (first fwd)) l
              (slot_at_lem n.idx l _ (place-Zip l n back fwd r).ahead.0) in
        let got_is = ap (λ o. got_of now o n.key whole) found in
        let outcome : Bool → Option V × List (Item V) = λ t.
          if t then (none, without n.key whole) else (some n.value, item n ∷ without n.key whole) in
        elim (Bool-cases (ltb n.expires_at now)) [
          | inl expired ↦ record {
            after = freed l n back fwd r;
            nodes = reverse_aux back fwd;
            ends =
                reached
                ∙ ap (λ t. (if t then remove n.key >> pure none else touch n.idx) l) expired
                ∙ bind_ok (remove n.key) (λ _. pure none) l (some n.value) (freed l n back fwd r)
                    remove_ends
                ∙ ap (λ p. (ok p.0, freed l n back fwd r)) (sym (got_is ∙ ap outcome expired));
            holds = removed-Represents l n back fwd r;
            stands = rest_is ∙ ap (λ p. p.1) (sym (got_is ∙ ap outcome expired));
            same_cap = refl;
            same_ttl = refl;
          }
          | inr live ↦ record {
            after = front l n back fwd r;
            nodes = n ∷ reverse_aux back fwd;
            ends =
                reached
                ∙ ap (λ t. (if t then remove n.key >> pure none else touch n.idx) l) live
                ∙ touch_lem l n back fwd r
                ∙ ap (λ p. (ok p.0, front l n back fwd r)) (sym (got_is ∙ ap outcome live));
            holds = touch-Represents l n back fwd r;
            stands =
                ap (λ xs. item n ∷ xs) rest_is ∙ ap (λ p. p.1) (sym (got_is ∙ ap outcome live));
            same_cap = refl;
            same_ttl = refl;
          }
        ]
