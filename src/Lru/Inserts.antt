-- ===== src/Lru/Inserts.antt =====
-- `insert` puts an entry in front, and a full cache loses its last (server/src/db/lru.rs).
use mathlib.Core.List.{reverse_aux}
use mathlib.Core.Path.{subst}
use segmented_memory_storage.Common.{
  ℕ, ◌+◌, ◌≤◌, ◌<◌, ◌≡◌, refl, ap, sym, ◌∙◌, Bool, true, false, none, List, [], ◌∷◌, arith, length,
  ◌==◌, if◌then◌else◌, Bool-cases, Option-cases, inl, inr, ==_iff,
}
use segmented_memory_storage.Common.BTreeMap
use segmented_memory_storage.Common.Outcome.{bind_ok, pure, ◌>>◌}
use segmented_memory_storage.Lru.State.{null, Lru}
use segmented_memory_storage.Lru.Ops.{new, evict_tail, insert}
use segmented_memory_storage.Lru.Links.{Node}
use segmented_memory_storage.Lru.Detached.{without_node}
use segmented_memory_storage.Lru.Recent.{
  Item, but_last, room_for, inserted, item, items, slot_of, length-items, length-reverse_aux,
  times-reverse_aux, slot_of_absent, absent_of_slot_of, find_absent,
}
use segmented_memory_storage.Lru.Represented.{Represents}
use segmented_memory_storage.Lru.Freed.{freed, removed-Represents, evict_tail_lem}
use segmented_memory_storage.Lru.Added.{Result, adds, stores, adds-Result}
use segmented_memory_storage.Lru.Methods.{insert_there}
use segmented_memory_storage.Lru.Refines.{at_place}

module _ {V : Type 0} where
  -- The last of some nodes, and what is in front of it.
  record Last (es : List (Node V)) : Type 0 where
    back : List (Node V)
    node : Node V
    split : es ≡ reverse_aux back (node ∷ [])

  Last-reverse_aux :
      (es back : List (Node V)) (n : Node V) (fwd : List (Node V))
      → es ≡ reverse_aux back (n ∷ fwd)
      → Last es
  Last-reverse_aux es back n [] h = record { back = back; node = n; split = h }
  Last-reverse_aux es back n (m ∷ fwd) h = Last-reverse_aux es (n ∷ back) m fwd h

  Last-of_some : (es : List (Node V)) → 0 < length es → Last es
  Last-of_some [] h = absurd (omega (arith, h))
  Last-of_some (n ∷ es) h = Last-reverse_aux (n ∷ es) [] n es refl

  but_last-reverse_aux :
      (back : List (Node V)) (m : Node V) (fs gs : List (Node V))
      → but_last (items (m ∷ fs)) ≡ items gs
      → but_last (items (reverse_aux back (m ∷ fs))) ≡ items (reverse_aux back gs)
  but_last-reverse_aux [] m fs gs h = h
  but_last-reverse_aux (b ∷ back) m fs gs h =
      but_last-reverse_aux back b (m ∷ fs) (b ∷ gs) (ap (λ xs. item b ∷ xs) h)

  insert_absent :
      (now key : ℕ) (value : V) (l : Lru V) (full : Bool)
      → BTreeMap.lookup key l.map ≡ none
      → (length l.map == l.cap) ≡ full
      → insert now key value l
        ≡ ((if full then evict_tail else pure tt) >> adds key value (now + l.ttl)) l
  unfolding insert adds stores
  insert_absent now key value l full h size =
      rw (insert, h) refl
      ∙ ap (λ t. ((if t then evict_tail else pure tt) >> adds key value (now + l.ttl)) l) size

  module _ (now key : ℕ) (value : V) (l : Lru V) where
    abbrev fresh : Item V
    fresh = record { key = key; value = value; expires_at = now + l.ttl }

    insert_few :
        (es : List (Node V))
        → Represents l es
        → slot_of key es ≡ none
        → (length l.map == l.cap) ≡ false
        → length es < l.cap
        → Result l (insert now key value l) tt (fresh ∷ items es)
    insert_few es r absent few room =
        let a = adds-Result l es key value (now + l.ttl) r absent room in
        record {
          after = a.after;
          nodes = a.nodes;
          ends = insert_absent now key value l false (r.mapped key ∙ absent) few ∙ a.ends;
          holds = a.holds;
          stands = a.stands;
          same_cap = a.same_cap;
          same_ttl = a.same_ttl;
        }

    absent_without :
        (n : Node V) (back : List (Node V))
        → slot_of key (reverse_aux back (n ∷ [])) ≡ none
        → slot_of key (reverse_aux back []) ≡ none
    absent_without n back absent = slot_of_absent key (reverse_aux back []) (
        omega (
          arith,
          absent_of_slot_of key (reverse_aux back (n ∷ [])) absent,
          times-reverse_aux (λ m. m.key) key back (n ∷ []),
          times-reverse_aux (λ m. m.key) key back [],
        ))

    insert_full :
        (n : Node V) (back : List (Node V))
        → Represents l (reverse_aux back (n ∷ []))
        → slot_of key (reverse_aux back (n ∷ [])) ≡ none
        → (length l.map == l.cap) ≡ true
        → length (reverse_aux back []) < l.cap
        → Result l
            (insert now key value l)
            tt
            (fresh ∷ but_last (items (reverse_aux back (n ∷ []))))
    unfolding freed without_node
    insert_full n back r absent full room =
        let l1 = freed l n back [] r in
        let a =
          adds-Result l1 (reverse_aux back []) key value (now + l.ttl)
            (removed-Represents l n back [] r) (absent_without n back absent) room in
        record {
          after = a.after;
          nodes = a.nodes;
          ends =
              insert_absent now key value l true (r.mapped key ∙ absent) full
              ∙ bind_ok evict_tail (λ _. adds key value (now + l.ttl)) l tt l1
                  (evict_tail_lem l n back r)
              ∙ a.ends;
          holds = a.holds;
          stands = a.stands ∙ ap (λ xs. fresh ∷ xs) (sym (but_last-reverse_aux back n [] [] refl));
          same_cap = a.same_cap;
          same_ttl = a.same_ttl;
        }

    insert_new :
        (es : List (Node V))
        → Represents l es
        → slot_of key es ≡ none
        → 0 < l.cap
        → Result l
            (insert now key value l)
            tt
            (fresh ∷ (if length (items es) == l.cap then but_last (items es) else items es))
    insert_new es r absent positive =
        let size : length (items es) ≡ length l.map = length-items es ∙ sym r.map_size in
        let test = ap (λ n. n == l.cap) size in
        elim (Bool-cases (length l.map == l.cap)) [
          | inl full ↦
              let n_full : length l.map ≡ l.cap = (==_iff (length l.map) l.cap).0 full in
              let some_left : 0 < length es = omega (arith, positive, n_full, r.map_size) in
              let e = Last-of_some es some_left in
              let smaller : length (reverse_aux e.back []) < l.cap = omega (
                arith,
                n_full,
                r.map_size,
                ap length e.split,
                length-reverse_aux e.back (e.node ∷ []),
                length-reverse_aux e.back [],
              ) in
              subst (λ xs. Result l (insert now key value l) tt (fresh ∷ xs))
                (ap (λ fs. but_last (items fs)) (sym e.split)
                  ∙ sym (ap (λ t. if t then but_last (items es) else items es) (test ∙ full)))
                (insert_full e.node e.back (subst (λ fs. Represents l fs) e.split r)
                  (ap (slot_of key) (sym e.split) ∙ absent) full smaller)
          | inr few ↦
              subst (λ xs. Result l (insert now key value l) tt (fresh ∷ xs))
                (sym (ap (λ t. if t then but_last (items es) else items es) (test ∙ few)))
                (insert_few es r absent few (ground (arith, few, r.map_size, r.sizes, r.few)))
        ]

  -- An insert into a cache that holds some entries in an order of use, and has a capacity, goes well
  -- and puts the entry in front, with its deadline `ttl` after now, in place of the one under its key;
  -- where there is none, and the cache is full, the entry that was used least recently goes.
  pub insert-Result :
      (l : Lru V) (es : List (Node V)) (now key : ℕ) (value : V)
      → Represents l es
      → 0 < l.cap
      → Result l (insert now key value l) tt (
          inserted l.cap (record { key = key; value = value; expires_at = now + l.ttl }) (items es))
  insert-Result l es now key value r positive = elim (Option-cases (slot_of key es)) [
    | inl absent ↦
        subst
          (λ o. Result l (insert now key value l) tt (
            record { key = key; value = value; expires_at = now + l.ttl }
            ∷ room_for l.cap o key (items es)))
          (sym (find_absent key es absent)) (insert_new now key value l es r absent positive)
    | inr (i, there) ↦
        at_place l key i es (λ k. insert now k value l) (λ k xs. tt)
          (λ k xs. inserted l.cap (record { key = k; value = value; expires_at = now + l.ttl }) xs)
          r there (λ n back fwd r' found. insert_there l n back fwd r' found now value)
  ]

  -- A cache as new holds nothing.
  pub new-Represents : (cap ttl : ℕ) → cap ≤ null → Represents (new {V = V} cap ttl) []
  unfolding new
  new-Represents cap ttl h = record {
    zip = record { behind = tt; ahead = tt; head_is = refl; tail_is = refl };
    named = tt;
    mapped = λ k. refl;
    ordered = tt;
    keys_once = λ k. omega arith;
    map_size = refl;
    slots_once = λ i. omega arith;
    free_there = λ i h. refl;
    sizes = refl;
    reverse_size = refl;
    few = omega arith;
    cap_fits = h;
  }
