-- ===== src/Lru/Added.antt =====
-- `insert` under a key that is not there, where there is room (server/src/db/lru.rs).
use segmented_memory_storage.Common.{
  ℕ, ◌≤◌, ◌<◌, ◌≡◌, refl, ap, sym, ◌∙◌, none, some, List, [], ◌∷◌, arith, length, times, times_self,
  ◌==◌, if◌then◌else◌, Bool-cases, inl, inr, ==_iff,
}
use segmented_memory_storage.Common.BTreeMap
use segmented_memory_storage.Common.BTreeMap.Ordered.{
  Ordered, insert-Ordered, lookup-insert, length-insert_new,
}
use segmented_memory_storage.Common.Outcome.{Outcome, bind_ok, ok, modify, ◌>>=◌, ◌>>◌}
use mathlib.Core.Path.{subst}
use segmented_memory_storage.Lru.State.{null, Lru}
use segmented_memory_storage.Lru.Ops.{Method, alloc_slot, attach_front}
use segmented_memory_storage.Lru.Links.{Node, idxs, keys, Zip}
use segmented_memory_storage.Lru.Attached.{
  with_front, attach_front-with_front, with_front-Zip, length-with_front,
}
use segmented_memory_storage.Lru.Recent.{Item, items, slot_of, absent_of_slot_of}
use segmented_memory_storage.Lru.Represented.{Represents}
use segmented_memory_storage.Lru.Allocated.{Allocated, allocates}

-- A call that goes well with `a`, after which the cache stands for `xs`.
pub record Result {V A : Type 0} (l : Lru V) (call : Outcome (Unit {0}) A × Lru V) (a : A)
    (xs : List (Item V)) : Type 0 where
  pub after : Lru V
  pub nodes : List (Node V)
  pub ends : call ≡ (ok a, after)
  pub holds : Represents after nodes
  pub stands : items nodes ≡ xs
  pub same_cap : after.cap ≡ l.cap
  pub same_ttl : after.ttl ≡ l.ttl

times-absent : (k j : ℕ) (js : List ℕ) → times k js ≤ 1 → times j js ≡ 0 → times k (j ∷ js) ≤ 1
times-absent k j js h absent = elim (Bool-cases (k == j)) [
  | inl same ↦ rw same (omega (arith, ap (λ x. times x js) ((==_iff k j).0 same), absent))
  | inr other ↦ rw other (omega (arith, h))
]

module _ {V : Type 0} where
  -- The slot is in `map` and in front.
  unfoldable pub stores : ℕ → ℕ → Method V (Unit {0})
  stores key idx =
      modify (λ l'. record l' { map = BTreeMap.insert key idx l'.map }) >> attach_front idx

  module _ (l l1 : Lru V) (n : Node V) (es : List (Node V)) (r : Represents l es)
      (a : Allocated l es n l1) (absent : slot_of n.key es ≡ none) where
    abbrev mapped_to : Lru V
    mapped_to = record l1 { map = BTreeMap.insert n.key n.idx l1.map }

    mapped-Zip : Zip mapped_to [] es
    mapped-Zip = record {
      behind = tt;
      ahead = a.zip.ahead;
      head_is = a.zip.head_is;
      tail_is = a.zip.tail_is;
    }

    pub added : Lru V
    added = with_front mapped_to n es

    alone : times n.idx (idxs es) ≡ 0
    alone = omega (arith, a.slots_once n.idx, times_self n.idx (idxs es))

    fits : length l1.entries ≤ null
    fits = omega (arith, a.few, r.cap_fits)

    length-added : length added.entries ≡ length l1.entries
    unfolding added
    length-added = length-with_front mapped_to n es null null mapped-Zip a.slot alone

    stores_lem : stores n.key n.idx l1 ≡ (ok tt, added)
    unfolding stores added
    stores_lem = attach_front-with_front mapped_to n es null null mapped-Zip a.slot alone fits

    mapped_added :
        (k : ℕ) → BTreeMap.lookup k (BTreeMap.insert n.key n.idx l1.map) ≡ slot_of k (n ∷ es)
    mapped_added k =
        lookup-insert n.key k n.idx l1.map
        ∙ ap (λ m. if n.key == k then some n.idx else BTreeMap.lookup k m) a.same_map
        ∙ ground (arith, r.mapped k)

    added-Represents : Represents added (n ∷ es)
    unfolding added with_front
    added-Represents = record {
      zip =
          with_front-Zip mapped_to n es null null mapped-Zip a.slot alone
            (λ x. omega (arith, r.slots_once x));
      named = (a.name, a.named);
      mapped = mapped_added;
      ordered =
          insert-Ordered n.key n.idx l1.map (subst (λ m. Ordered m) (sym a.same_map) r.ordered);
      keys_once =
          λ k. times-absent k n.key (keys es) (r.keys_once k) (absent_of_slot_of n.key es absent);
      map_size =
          length-insert_new n.key n.idx l1.map
            (ap (BTreeMap.lookup n.key) a.same_map ∙ r.mapped n.key ∙ absent)
          ∙ omega (arith, ap length a.same_map, r.map_size);
      slots_once = a.slots_once;
      free_there = λ i h. a.free_there i (omega (arith, h, length-added));
      sizes = omega (arith, a.sizes, length-added);
      reverse_size = omega (arith, a.reverse_size, length-added);
      few = omega (arith, a.few, a.same_cap, length-added);
      cap_fits = omega (arith, a.same_cap, r.cap_fits);
    }

  -- The part of `insert` behind the eviction.
  unfoldable pub adds : ℕ → V → ℕ → Method V (Unit {0})
  adds key value expires_at =
      alloc_slot key (record { value = value; expires_at = expires_at; prev = null; next = null })
      >>= stores key

  pub adds-Result :
      (l : Lru V) (es : List (Node V)) (key : ℕ) (value : V) (expires_at : ℕ)
      → Represents l es
      → slot_of key es ≡ none
      → length es < l.cap
      → Result l
          (adds key value expires_at l)
          tt
          (record { key = key; value = value; expires_at = expires_at } ∷ items es)
  unfolding adds added with_front
  adds-Result l es key value expires_at r absent room =
      let s = allocates l es key value expires_at r room in
      let n : Node V = record { idx = s.idx; key = key; value = value; expires_at = expires_at } in
      record {
        after = added l s.after n es r s.allocated absent;
        nodes = n ∷ es;
        ends =
            bind_ok
              (alloc_slot key
                (record { value = value; expires_at = expires_at; prev = null; next = null }))
              (stores key) l s.idx s.after s.ends
            ∙ stores_lem l s.after n es r s.allocated absent;
        holds = added-Represents l s.after n es r s.allocated absent;
        stands = refl;
        same_cap = s.allocated.same_cap;
        same_ttl = s.allocated.same_ttl;
      }
