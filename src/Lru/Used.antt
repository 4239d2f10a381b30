-- ===== src/Lru/Used.antt =====
-- What goes to the front of a cache: `touch`, in a `get`, and `insert` under a key that is there
-- (server/src/db/lru.rs).
use mathlib.Core.List.{reverse_aux}
use segmented_memory_storage.Common.{
  ℕ, ◌≤◌, ◌≡◌, refl, ap, ◌∙◌, Option, none, some, List, [], ◌∷◌, arith, length, get_elem?, set,
  times, get_elem?-set_self, lt_of_get_elem?, length-set,
}
use segmented_memory_storage.Common.Outcome.{or_crash, bind_ok, ok, pure, ◌>>=◌, ◌>>◌}
use segmented_memory_storage.Lru.State.{null, Entry, Lru}
use segmented_memory_storage.Lru.Ops.{slot_at, update, detach, attach_front, insert_again, touch}
use segmented_memory_storage.Lru.Links.{
  Node, first, idxs, cell, Zip, Zip-reverse_aux, Zip-reverse_aux_inv,
}
use segmented_memory_storage.Lru.Detached.{
  update_lem, without_node, length-without_node, detach-without_node, without_node-Zip,
  without_node_slot,
}
use segmented_memory_storage.Lru.Attached.{
  with_front, attach_front-with_front, with_front-Zip, length-with_front,
}
use segmented_memory_storage.Lru.Recent.{times-reverse_aux}
use segmented_memory_storage.Lru.Represented.{
  Represents, Zip-set, slots_apart, slot_alone, used-Represents,
}

module _ {V : Type 0} where
  pub slot_at_lem :
      (idx : ℕ) (l : Lru V) (c : Option (Entry V))
      → get_elem? l.entries idx ≡ some c
      → slot_at idx l ≡ (ok c, l)
  slot_at_lem idx l c h = ap (λ o. or_crash o l) h

  module _ (l : Lru V) (n : Node V) (back fwd : List (Node V))
      (r : Represents l (reverse_aux back (n ∷ fwd))) where
    abbrev rest : List (Node V)
    rest = reverse_aux back fwd

    abbrev taken : Lru V
    taken = without_node l back fwd

    pub place-Zip : Zip l back (n ∷ fwd)
    place-Zip = Zip-reverse_aux_inv l back (n ∷ fwd) r.zip

    pub entries_fit : length l.entries ≤ null
    entries_fit = omega (arith, r.few, r.cap_fits)

    pub rest_once : (x : ℕ) → times x (idxs (reverse_aux back fwd)) ≤ 1
    rest_once x = omega (
      arith,
      r.slots_once x,
      times-reverse_aux (λ m. m.idx) x back (n ∷ fwd),
      times-reverse_aux (λ m. m.idx) x back fwd,
    )

    pub not_in_rest : times n.idx (idxs (reverse_aux back fwd)) ≡ 0
    not_in_rest = omega (
      arith,
      times-reverse_aux (λ m. m.idx) n.idx back fwd,
      (slot_alone l n back fwd r).0,
      (slot_alone l n back fwd r).1,
    )

    pub detach-taken : detach n.idx l ≡ (ok tt, without_node l back fwd)
    detach-taken =
        detach-without_node l n back fwd place-Zip (slots_apart l n back fwd r) entries_fit

    pub taken-Zip : Zip (without_node l back fwd) [] (reverse_aux back fwd)
    taken-Zip =
        Zip-reverse_aux taken back fwd
          (without_node-Zip l n back fwd place-Zip (slots_apart l n back fwd r))

    pub taken_slot :
        get_elem? (without_node l back fwd).entries n.idx ≡ some (cell n (first back) (first fwd))
    taken_slot = without_node_slot l n back fwd place-Zip (slots_apart l n back fwd r)

    -- The slots while the node is in none of the links.
    taken_fit : length taken.entries ≤ null
    taken_fit = omega (arith, length-without_node l back fwd, entries_fit)

    unfoldable pub front : Lru V
    front = with_front taken n rest

    pub touch_lem : touch n.idx l ≡ (ok (some n.value), front)
    unfolding touch front
    touch_lem =
        let zip =
          with_front-Zip taken n rest (first back) (first fwd) taken-Zip taken_slot not_in_rest
            rest_once in
        let last =
          λ (slot : Option (Entry V)). pure (elim slot [ none ↦ none | some e ↦ some e.value ]) in
        bind_ok (detach n.idx) (λ _. attach_front n.idx >> (slot_at n.idx >>= last)) l tt taken
          detach-taken
        ∙ bind_ok (attach_front n.idx) (λ _. slot_at n.idx >>= last) taken tt front
            (attach_front-with_front taken n rest (first back) (first fwd) taken-Zip taken_slot
              not_in_rest taken_fit)
        ∙ bind_ok (slot_at n.idx) last front (cell n null (first rest)) front
            (slot_at_lem n.idx front _ zip.ahead.0)

    pub touch-Represents : Represents front (n ∷ reverse_aux back fwd)
    unfolding front with_front without_node
    touch-Represents =
        used-Represents l n back fwd r n.value n.expires_at _ _ _
          (length-with_front taken n rest (first back) (first fwd) taken-Zip taken_slot not_in_rest
            ∙ length-without_node l back fwd)
          (with_front-Zip taken n rest (first back) (first fwd) taken-Zip taken_slot not_in_rest
            rest_once)

    -- `insert` under a key that is there, with a new value and deadline.
    module _ (value : V) (expires_at : ℕ) where
      abbrev renewed : Node V
      renewed = record n { value = value; expires_at = expires_at }

      abbrev written : Lru V
      written = record taken { entries = set taken.entries n.idx (cell renewed null null) }

      unfoldable pub again : Lru V
      again = with_front written renewed rest

      written-Zip : Zip written [] rest
      written-Zip = Zip-set taken n.idx (cell renewed null null) [] rest refl not_in_rest taken-Zip

      written_slot : get_elem? written.entries n.idx ≡ some (cell renewed null null)
      written_slot =
          get_elem?-set_self taken.entries n.idx (cell renewed null null)
            (lt_of_get_elem? taken.entries n.idx _ taken_slot)

      length-written : length written.entries ≡ length l.entries
      length-written =
          length-set taken.entries n.idx (cell renewed null null) ∙ length-without_node l back fwd

      pub insert_again_lem : insert_again n.idx expires_at value l ≡ (ok tt, again)
      unfolding insert_again again
      insert_again_lem =
          let renew = λ (e : Entry V). record e {
            value = value;
            expires_at = expires_at;
            prev = null;
            next = null;
          } in
          bind_ok (detach n.idx) (λ _. update n.idx renew >> attach_front n.idx) l tt taken
            detach-taken
          ∙ bind_ok (update n.idx renew) (λ _. attach_front n.idx) taken tt written
              (update_lem n.idx renew taken _ taken_slot)
          ∙ attach_front-with_front written renewed rest null null written-Zip written_slot
              not_in_rest (omega (arith, length-written, entries_fit))

      pub again-Represents : Represents again (renewed ∷ reverse_aux back fwd)
      unfolding again with_front without_node
      again-Represents =
          used-Represents l n back fwd r value expires_at _ _ _
            (length-with_front written renewed rest null null written-Zip written_slot not_in_rest
              ∙ length-written)
            (with_front-Zip written renewed rest null null written-Zip written_slot not_in_rest
              rest_once)
