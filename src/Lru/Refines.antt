-- ===== src/Lru/Refines.antt =====
-- A cache is its entries in the order of use (server/src/db/lru.rs).
use mathlib.Core.List.{reverse_aux}
use mathlib.Core.Path.{subst}
use segmented_memory_storage.Common.{
  ℕ, ◌≡◌, refl, ap, sym, ◌∙◌, some, List, ◌∷◌, Option-cases, inl, inr,
}
use segmented_memory_storage.Common.Outcome.{Outcome, ok}
use segmented_memory_storage.Lru.State.{Lru}
use segmented_memory_storage.Lru.Ops.{remove, get}
use segmented_memory_storage.Lru.Links.{Node}
use segmented_memory_storage.Lru.Recent.{
  Item, find, removed_of, removed, got_of, got, item, items, slot_of, find_absent, Place-slot_of,
}
use segmented_memory_storage.Lru.Represented.{Represents}
use segmented_memory_storage.Lru.Added.{Result}
use segmented_memory_storage.Lru.Methods.{remove_there, get_there}

module _ {V : Type 0} where
  -- A call on a node in the middle, at the place of its key.
  pub at_place :
      {A : Type 0} (l : Lru V) (k i : ℕ) (es : List (Node V))
      (call : ℕ → Outcome (Unit {0}) A × Lru V) (a : ℕ → List (Item V) → A)
      (xs : ℕ → List (Item V) → List (Item V))
      → Represents l es
      → slot_of k es ≡ some i
      → ((n : Node V) (back fwd : List (Node V))
          → Represents l (reverse_aux back (n ∷ fwd))
          → find n.key (items (reverse_aux back (n ∷ fwd))) ≡ some (item n)
          → Result l
              (call n.key)
              (a n.key (items (reverse_aux back (n ∷ fwd))))
              (xs n.key (items (reverse_aux back (n ∷ fwd)))))
      → Result l (call k) (a k (items es)) (xs k (items es))
  at_place l k i es call a xs r h f =
      let p = Place-slot_of k i es h in
      let found = subst (λ fs. find k (items fs) ≡ some (item p.node)) p.split p.found in
      subst (λ fs. Result l (call k) (a k (items fs)) (xs k (items fs))) (sym p.split)
        (subst
          (λ j.
            Result l (call j) (a j (items (reverse_aux p.back (p.node ∷ p.fwd))))
              (xs j (items (reverse_aux p.back (p.node ∷ p.fwd)))))
          p.key_is
          (f p.node p.back p.fwd (subst (λ fs. Represents l fs) p.split r) (
            subst (λ j. find j (items (reverse_aux p.back (p.node ∷ p.fwd))) ≡ some (item p.node))
              (sym p.key_is) found)))

  -- A get from a cache that holds some entries in an order of use returns the value of a key whose
  -- deadline has not passed, and its entry is the one used last from then on; an entry whose deadline
  -- has passed is dropped; where there is none nothing changes.
  pub get-Result :
      (l : Lru V) (es : List (Node V)) (now key : ℕ)
      → Represents l es
      → Result l (get now key l) (got now key (items es)).0 (got now key (items es)).1
  unfolding get
  get-Result l es now key r = elim (Option-cases (slot_of key es)) [
    | inl absent ↦ record {
      after = l;
      nodes = es;
      ends =
          rw (get, r.mapped key ∙ absent) refl
          ∙ ap (λ o. (ok (got_of now o key (items es)).0, l)) (sym (find_absent key es absent));
      holds = r;
      stands = ap (λ o. (got_of now o key (items es)).1) (sym (find_absent key es absent));
      same_cap = refl;
      same_ttl = refl;
    }
    | inr (i, there) ↦
        at_place l key i es (λ k. get now k l) (λ k xs. (got now k xs).0) (λ k xs. (got now k xs).1)
          r there (λ n back fwd r' found. get_there l n back fwd r' found now)
  ]

  -- A removal from a cache that holds some entries in an order of use returns the value of the key, if
  -- there is one, and only its entry is gone; the others keep their order.
  pub remove-Result :
      (l : Lru V) (es : List (Node V)) (key : ℕ)
      → Represents l es
      → Result l (remove key l) (removed key (items es)).0 (removed key (items es)).1
  unfolding remove
  remove-Result l es key r = elim (Option-cases (slot_of key es)) [
    | inl absent ↦ record {
      after = l;
      nodes = es;
      ends =
          rw (remove, r.mapped key ∙ absent) refl
          ∙ ap (λ o. (ok (removed_of o key (items es)).0, l)) (sym (find_absent key es absent));
      holds = r;
      stands = ap (λ o. (removed_of o key (items es)).1) (sym (find_absent key es absent));
      same_cap = refl;
      same_ttl = refl;
    }
    | inr (i, there) ↦
        at_place l key i es (λ k. remove k l) (λ k xs. (removed k xs).0) (λ k xs. (removed k xs).1)
          r there (λ n back fwd r' found. remove_there l n back fwd r' found)
  ]
