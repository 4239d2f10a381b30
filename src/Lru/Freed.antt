-- ===== src/Lru/Freed.antt =====
-- What leaves a cache: `remove`, and the eviction of a full one (server/src/db/lru.rs).
use mathlib.Core.List.{reverse_aux}
use segmented_memory_storage.Common.{
  ℕ, ◌<◌, ◌≡◌, refl, ap, ◌∙◌, false, Option, none, some, List, [], ◌∷◌, arith, length, get_elem?,
  set, lt_of_get_elem?, length-set, ◌==◌, ne→==, if◌then◌else◌,
}
use segmented_memory_storage.Common.BTreeMap
use segmented_memory_storage.Common.Outcome.{or_crash, bind_ok, ok, pure, modify, ◌>>=◌, ◌>>◌}
use segmented_memory_storage.Lru.State.{null, Entry, Lru}
use segmented_memory_storage.Lru.Ops.{
  Method, slot_at, put_slot, put_reverse, detach, remove_at, forget, evict_tail,
}
use segmented_memory_storage.Lru.Links.{Node, first, cell, Zip, Zip-reverse_aux}
use segmented_memory_storage.Lru.Detached.{
  without_node, length-without_node, detach-without_node, without_node-Zip, without_node_slot,
}
use segmented_memory_storage.Lru.Represented.{
  Represents, Zip-set, Named-reverse_aux, slots_apart, freed-Represents,
}
use segmented_memory_storage.Lru.Used.{
  slot_at_lem, place-Zip, entries_fit, not_in_rest, detach-taken, taken_slot,
}

module _ {V : Type 0} where
  pub put_slot_lem :
      (idx : ℕ) (slot c : Option (Entry V)) (l : Lru V)
      → get_elem? l.entries idx ≡ some c
      → put_slot idx slot l ≡ (ok tt, record l { entries = set l.entries idx slot })
  put_slot_lem idx slot c l h =
      bind_ok (slot_at idx) (λ _. modify (λ x. record x { entries = set x.entries idx slot })) l c l
        (slot_at_lem idx l c h)

  pub put_reverse_lem :
      (idx : ℕ) (key old : Option ℕ) (l : Lru V)
      → get_elem? l.reverse idx ≡ some old
      → put_reverse idx key l ≡ (ok tt, record l { reverse = set l.reverse idx key })
  put_reverse_lem idx key old l h =
      bind_ok (λ x. or_crash (get_elem? x.reverse idx) x)
        (λ _. modify (λ x. record x { reverse = set x.reverse idx key })) l old l
        (ap (λ o. or_crash o l) h)

  module _ (l : Lru V) (n : Node V) (back fwd : List (Node V))
      (r : Represents l (reverse_aux back (n ∷ fwd))) where
    abbrev rest : List (Node V)
    rest = reverse_aux back fwd

    -- Once its key is out of `map`.
    abbrev unmapped : Lru V
    unmapped = record l { map = BTreeMap.remove n.key l.map }

    unmapped-Zip : Zip unmapped back (n ∷ fwd)
    unmapped-Zip =
        let z = place-Zip l n back fwd r in
        record { behind = z.behind; ahead = z.ahead; head_is = z.head_is; tail_is = z.tail_is }

    abbrev taken : Lru V
    taken = without_node unmapped back fwd

    unfoldable pub freed : Lru V
    unfolding without_node
    freed = record taken {
      reverse = set l.reverse n.idx none;
      entries = set taken.entries n.idx none;
      free = n.idx ∷ l.free;
    }

    unmapped_slot : get_elem? taken.entries n.idx ≡ some (cell n (first back) (first fwd))
    unmapped_slot = without_node_slot unmapped n back fwd unmapped-Zip (slots_apart l n back fwd r)

    name_there : get_elem? taken.reverse n.idx ≡ some (some n.key)
    unfolding without_node
    name_there = (Named-reverse_aux l n back fwd r).1.0

    pub remove_at_lem : remove_at n.idx unmapped ≡ (ok (some n.value), freed)
    unfolding remove_at freed without_node
    remove_at_lem =
        let unnamed : Lru V = record taken { reverse = set taken.reverse n.idx none } in
        let emptied : Lru V = record unnamed { entries = set unnamed.entries n.idx none } in
        let last : Option (Entry V) → Method V (Option V) = λ slot.
          put_slot n.idx none >> elim slot [
            | none ↦ pure none
            | some entry ↦
                modify (λ x. record x { free = n.idx ∷ x.free }) >> pure (some entry.value)
          ] in
        bind_ok (detach n.idx) (λ _. put_reverse n.idx none >> (slot_at n.idx >>= last)) unmapped tt
          taken
          (detach-without_node unmapped n back fwd unmapped-Zip (slots_apart l n back fwd r)
            (entries_fit l n back fwd r))
        ∙ bind_ok (put_reverse n.idx none) (λ _. slot_at n.idx >>= last) taken tt unnamed
            (put_reverse_lem n.idx none (some n.key) taken name_there)
        ∙ bind_ok (slot_at n.idx) last unnamed (cell n (first back) (first fwd)) unnamed
            (slot_at_lem n.idx unnamed _ unmapped_slot)
        ∙ bind_ok (put_slot n.idx none)
            (λ _. modify (λ x. record x { free = n.idx ∷ x.free }) >> pure (some n.value)) unnamed
            tt emptied (put_slot_lem n.idx none _ unnamed unmapped_slot)

    pub removed-Represents : Represents freed (reverse_aux back fwd)
    unfolding freed without_node
    removed-Represents =
        let z =
          Zip-reverse_aux taken back fwd
            (without_node-Zip unmapped n back fwd unmapped-Zip (slots_apart l n back fwd r)) in
        let z' = Zip-set taken n.idx none [] rest refl (not_in_rest l n back fwd r) z in
        freed-Represents l n back fwd r (set taken.entries n.idx none) _ _
          (length-set taken.entries n.idx none ∙ length-without_node unmapped back fwd)
          (lt_of_get_elem? l.entries n.idx _ (place-Zip l n back fwd r).ahead.0)
          (record { behind = tt; ahead = z'.ahead; head_is = z'.head_is; tail_is = z'.tail_is })

  -- The eviction of the node that is last.
  evicts : ℕ → Method V (Unit {0})
  evicts evict = do
    detach evict
    modify (forget evict)
    put_slot evict none
    put_reverse evict none
    modify (λ l'. record l' { free = evict ∷ l'.free })

  forget_lem :
      (idx key : ℕ) (l : Lru V)
      → get_elem? l.reverse idx ≡ some (some key)
      → forget idx l ≡ record l { map = BTreeMap.remove key l.map }
  unfolding forget
  forget_lem idx key l h = rw (forget, h) refl

  module _ (l : Lru V) (n : Node V) (back : List (Node V))
      (r : Represents l (reverse_aux back (n ∷ []))) where
    evicts_lem : evicts n.idx l ≡ (ok tt, freed l n back [] r)
    unfolding evicts freed without_node
    evicts_lem =
        let gone : Lru V = without_node l back [] in
        let forgotten : Lru V = record gone { map = BTreeMap.remove n.key gone.map } in
        let emptied : Lru V = record forgotten { entries = set gone.entries n.idx none } in
        let unnamed : Lru V = record emptied { reverse = set l.reverse n.idx none } in
        let free : Method V (Unit {0}) = modify (λ x. record x { free = n.idx ∷ x.free }) in
        bind_ok (detach n.idx)
          (λ _. modify (forget n.idx) >> (put_slot n.idx none >> (put_reverse n.idx none >> free)))
          l tt gone (detach-taken l n back [] r)
        ∙ ap (λ x. (put_slot n.idx none >> (put_reverse n.idx none >> free)) x)
            (forget_lem n.idx n.key gone (Named-reverse_aux l n back [] r).1.0)
        ∙ bind_ok (put_slot n.idx none) (λ _. put_reverse n.idx none >> free) forgotten tt emptied
            (put_slot_lem n.idx none _ forgotten (taken_slot l n back [] r))
        ∙ bind_ok (put_reverse n.idx none) (λ _. free) emptied tt unnamed
            (put_reverse_lem n.idx none (some n.key) emptied (Named-reverse_aux l n back [] r).1.0)

    pub evict_tail_lem : evict_tail l ≡ (ok tt, freed l n back [] r)
    unfolding evict_tail evicts
    evict_tail_lem =
        let z = place-Zip l n back [] r in
        let inside : n.idx < length l.entries = lt_of_get_elem? l.entries n.idx _ z.ahead.0 in
        let slot : (n.idx == null) ≡ false =
          ne→== n.idx null (λ e. omega (arith, inside, entries_fit l n back [] r)) in
        ap (λ evict. (if evict == null then pure tt else evicts evict) l) z.tail_is
        ∙ ap (λ t. (if t then pure tt else evicts n.idx) l) slot
        ∙ evicts_lem
