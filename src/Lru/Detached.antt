-- ===== src/Lru/Detached.antt =====
-- `detach` takes a node out of the links (server/src/db/lru.rs).
use segmented_memory_storage.Common.{
  times_self, ℕ, ◌+◌, ◌≤◌, ◌≡◌, refl, ap, sym, ◌∙◌, false, Option, some, List, [], ◌∷◌, arith,
  length, get_elem?, set, times, get_elem?-set_self, get_elem?-set_ne, ne_of_times, lt_of_get_elem?,
  length-set, ◌==◌, ne→==, if◌then◌else◌,
}
use segmented_memory_storage.Common.Outcome.{or_crash, bind_ok, ok, modify, ◌>>◌}
use segmented_memory_storage.Lru.State.{null, Entry, Lru}
use segmented_memory_storage.Lru.Ops.{Method, slot_at, update, entry_at, detach}
use segmented_memory_storage.Lru.Links.{
  Node, first, last_of, idxs, cell, Ahead, Behind, Ahead-set, Behind-set, Zip,
}

module _ {V : Type 0} where
  -- The slots once the neighbours are linked to one another, and the ends.
  abbrev pub joined_back : List (Node V) → ℕ → List (Option (Entry V)) → List (Option (Entry V))
  joined_back [] next ents = ents
  joined_back (b ∷ back) next ents = set ents b.idx (cell b (first back) next)

  abbrev pub joined_fwd : List (Node V) → ℕ → List (Option (Entry V)) → List (Option (Entry V))
  joined_fwd [] prev ents = ents
  joined_fwd (m ∷ fwd) prev ents = set ents m.idx (cell m prev (first fwd))

  unfoldable pub without_node : Lru V → List (Node V) → List (Node V) → Lru V
  without_node l back fwd = record l {
    entries = joined_fwd fwd (first back) (joined_back back (first fwd) l.entries);
    head = last_of (first fwd) back;
    tail = last_of (first back) fwd;
  }

  entry_at_lem :
      (idx : ℕ) (l : Lru V) (e : Entry V)
      → get_elem? l.entries idx ≡ some (some e)
      → entry_at idx l ≡ (ok e, l)
  entry_at_lem idx l e h = bind_ok (slot_at idx) or_crash l (some e) l (ap (λ o. or_crash o l) h)

  -- `update` of a slot that holds an entry.
  pub update_lem :
      (idx : ℕ) (f : Entry V → Entry V) (l : Lru V) (e : Entry V)
      → get_elem? l.entries idx ≡ some (some e)
      → update idx f l ≡ (ok tt, record l { entries = set l.entries idx (some (f e)) })
  update_lem idx f l e h =
      bind_ok (entry_at idx)
        (λ x. modify (λ l'. record l' { entries = set l'.entries idx (some (f x)) })) l e l
        (entry_at_lem idx l e h)

  relink_prev : Entry V → Method V (Unit {0})
  relink_prev e =
      if e.prev == null
      then modify (λ l. record l { head = e.next })
      else update e.prev (λ p. record p { next = e.next })

  relink_next : Entry V → Method V (Unit {0})
  relink_next e =
      if e.next == null
      then modify (λ l. record l { tail = e.prev })
      else update e.next (λ n. record n { prev = e.prev })

  detach_lem :
      (idx : ℕ) (l l1 l2 : Lru V) (e : Entry V)
      → get_elem? l.entries idx ≡ some (some e)
      → relink_prev e l ≡ (ok tt, l1)
      → relink_next e l1 ≡ (ok tt, l2)
      → detach idx l ≡ (ok tt, l2)
  unfolding detach relink_prev relink_next
  detach_lem idx l l1 l2 e h a b =
      bind_ok (entry_at idx) (λ x. relink_prev x >> relink_next x) l e l (entry_at_lem idx l e h)
      ∙ bind_ok (relink_prev e) (λ _. relink_next e) l tt l1 a
      ∙ b

  -- The node in front, if there is one, is linked to what follows.
  relink_prev_lem :
      (l : Lru V) (n : Node V) (back fwd : List (Node V))
      → Zip l back (n ∷ fwd)
      → length l.entries ≤ null
      → relink_prev
          (record {
            value = n.value;
            expires_at = n.expires_at;
            prev = first back;
            next = first fwd;
          })
          l
        ≡ (
          ok tt,
          record l {
            entries = joined_back back (first fwd) l.entries;
            head = last_of (first fwd) back;
          },
        )
  unfolding relink_prev
  relink_prev_lem l n [] fwd z h = refl
  relink_prev_lem l n (b ∷ back) fwd z h =
      let there : get_elem? l.entries b.idx ≡ some (cell b (first back) n.idx) = z.behind.0 in
      let slot : (b.idx == null) ≡ false =
        ne→== b.idx null
          (λ e. omega (arith, lt_of_get_elem? l.entries b.idx (cell b (first back) n.idx) there)) in
      let relinked : List (Option (Entry V)) =
        set l.entries b.idx (cell b (first back) (first fwd)) in
      ap
        (λ t.
          (if t
              then modify (λ x. record x { head = first fwd })
              else update b.idx (λ p. record p { next = first fwd }))
            l)
        slot
      ∙ update_lem b.idx (λ p. record p { next = first fwd }) l _ there
      ∙ ap (λ h. (ok tt, record l { entries = relinked; head = h })) z.head_is

  -- The node behind, if there is one, is linked to what is in front.
  relink_next_lem :
      (l : Lru V) (n : Node V) (back fwd : List (Node V))
      → Ahead l.entries n.idx fwd
      → l.tail ≡ last_of n.idx fwd
      → length l.entries ≤ null
      → relink_next
          (record {
            value = n.value;
            expires_at = n.expires_at;
            prev = first back;
            next = first fwd;
          })
          l
        ≡ (
          ok tt,
          record l {
            entries = joined_fwd fwd (first back) l.entries;
            tail = last_of (first back) fwd;
          },
        )
  unfolding relink_next
  relink_next_lem l n back [] z t h = refl
  relink_next_lem l n back (m ∷ fwd) z t h =
      let there : get_elem? l.entries m.idx ≡ some (cell m n.idx (first fwd)) = z.0 in
      let slot : (m.idx == null) ≡ false =
        ne→== m.idx null
          (λ e. omega (arith, lt_of_get_elem? l.entries m.idx (cell m n.idx (first fwd)) there)) in
      let relinked : List (Option (Entry V)) =
        set l.entries m.idx (cell m (first back) (first fwd)) in
      ap
        (λ c.
          (if c
              then modify (λ x. record x { tail = first back })
              else update m.idx (λ p. record p { prev = first back }))
            l)
        slot
      ∙ update_lem m.idx (λ p. record p { prev = first back }) l _ there
      ∙ ap (λ e. (ok tt, record l { entries = relinked; tail = e })) t

  joined_back-Ahead :
      (ents : List (Option (Entry V))) (back : List (Node V)) (q p : ℕ) (ns : List (Node V))
      → ((x : ℕ) → times x (idxs back) + times x (idxs ns) ≤ 1)
      → Ahead ents p ns
      → Ahead (joined_back back q ents) p ns
  joined_back-Ahead ents [] q p ns h a = a
  joined_back-Ahead ents (b ∷ back) q p ns h a =
      Ahead-set ents b.idx p _ ns (omega (arith, h b.idx, times_self b.idx (idxs back))) a

  joined_back-Behind :
      (ents : List (Option (Entry V))) (back : List (Node V)) (q q' : ℕ)
      → ((x : ℕ) → times x (idxs back) ≤ 1)
      → Behind ents q back
      → Behind (joined_back back q' ents) q' back
  joined_back-Behind ents [] q q' h a = tt
  joined_back-Behind ents (b ∷ back) q q' h a = (
    get_elem?-set_self ents b.idx (cell b (first back) q') (lt_of_get_elem? ents b.idx _ a.0),
    Behind-set ents b.idx b.idx (cell b (first back) q') back
        (omega (arith, h b.idx, times_self b.idx (idxs back))) a.1,
  )

  joined_fwd-Behind :
      (ents : List (Option (Entry V))) (fwd : List (Node V)) (p q : ℕ) (ns : List (Node V))
      → ((x : ℕ) → times x (idxs ns) + times x (idxs fwd) ≤ 1)
      → Behind ents q ns
      → Behind (joined_fwd fwd p ents) q ns
  joined_fwd-Behind ents [] p q ns h a = a
  joined_fwd-Behind ents (m ∷ fwd) p q ns h a =
      Behind-set ents m.idx q _ ns (omega (arith, h m.idx, times_self m.idx (idxs fwd))) a

  pub joined_fwd-Ahead :
      (ents : List (Option (Entry V))) (fwd : List (Node V)) (p p' : ℕ)
      → ((x : ℕ) → times x (idxs fwd) ≤ 1)
      → Ahead ents p fwd
      → Ahead (joined_fwd fwd p' ents) p' fwd
  joined_fwd-Ahead ents [] p p' h a = tt
  joined_fwd-Ahead ents (m ∷ fwd) p p' h a = (
    get_elem?-set_self ents m.idx (cell m p' (first fwd)) (lt_of_get_elem? ents m.idx _ a.0),
    Ahead-set ents m.idx m.idx (cell m p' (first fwd)) fwd
        (omega (arith, h m.idx, times_self m.idx (idxs fwd))) a.1,
  )

  -- A slot that is not a neighbour's keeps what it holds.
  pub joined_fwd_elsewhere :
      (ents : List (Option (Entry V))) (fwd : List (Node V)) (p i : ℕ)
      → times i (idxs fwd) ≡ 0
      → get_elem? (joined_fwd fwd p ents) i ≡ get_elem? ents i
  joined_fwd_elsewhere ents [] p i h = refl
  joined_fwd_elsewhere ents (m ∷ fwd) p i h =
      get_elem?-set_ne ents m.idx i _ (λ e. ne_of_times i m.idx (idxs fwd) h (sym e))

  joined_back_elsewhere :
      (ents : List (Option (Entry V))) (back : List (Node V)) (q i : ℕ)
      → times i (idxs back) ≡ 0
      → get_elem? (joined_back back q ents) i ≡ get_elem? ents i
  joined_back_elsewhere ents [] q i h = refl
  joined_back_elsewhere ents (b ∷ back) q i h =
      get_elem?-set_ne ents b.idx i _ (λ e. ne_of_times i b.idx (idxs back) h (sym e))

  length-joined_back :
      (back : List (Node V)) (q : ℕ) (ents : List (Option (Entry V)))
      → length (joined_back back q ents) ≡ length ents
  length-joined_back [] q ents = refl
  length-joined_back (b ∷ back) q ents = length-set ents b.idx _

  pub length-joined_fwd :
      (fwd : List (Node V)) (p : ℕ) (ents : List (Option (Entry V)))
      → length (joined_fwd fwd p ents) ≡ length ents
  length-joined_fwd [] p ents = refl
  length-joined_fwd (m ∷ fwd) p ents = length-set ents m.idx _

  pub length-without_node :
      (l : Lru V) (back fwd : List (Node V))
      → length (without_node l back fwd).entries ≡ length l.entries
  unfolding without_node
  length-without_node l back fwd =
      length-joined_fwd fwd (first back) (joined_back back (first fwd) l.entries)
      ∙ length-joined_back back (first fwd) l.entries

  module _ (l : Lru V) (n : Node V) (back fwd : List (Node V)) (z : Zip l back (n ∷ fwd))
      (apart : (x : ℕ) → times x (idxs back) + times x (idxs (n ∷ fwd)) ≤ 1) where
    pub detach-without_node :
        length l.entries ≤ null → detach n.idx l ≡ (ok tt, without_node l back fwd)
    unfolding without_node
    detach-without_node short =
        detach_lem n.idx l _ _ _ z.ahead.0 (relink_prev_lem l n back fwd z short) (
          relink_next_lem _ n back fwd
            (joined_back-Ahead l.entries back (first fwd) n.idx fwd (λ x. omega (arith, apart x))
              z.ahead.1)
            z.tail_is (omega (arith, length-joined_back back (first fwd) l.entries)))

    -- What is left is linked as before, without the node.
    pub without_node-Zip : Zip (without_node l back fwd) back fwd
    unfolding without_node
    without_node-Zip =
        let linked = joined_back back (first fwd) l.entries in
        record {
          behind =
              joined_fwd-Behind linked fwd (first back) (first fwd) back
                (λ x. omega (arith, apart x))
                (joined_back-Behind l.entries back n.idx (first fwd) (λ x. omega (arith, apart x))
                  z.behind);
          ahead =
              joined_fwd-Ahead linked fwd n.idx (first back) (λ x. omega (arith, apart x))
                (joined_back-Ahead l.entries back (first fwd) n.idx fwd
                  (λ x. omega (arith, apart x)) z.ahead.1);
          head_is = refl;
          tail_is = refl;
        }

    -- The node's own slot keeps what it holds.
    pub without_node_slot :
        get_elem? (without_node l back fwd).entries n.idx ≡ some (cell n (first back) (first fwd))
    unfolding without_node
    without_node_slot =
        let alone = times_self n.idx (idxs fwd) in
        joined_fwd_elsewhere (joined_back back (first fwd) l.entries) fwd (first back) n.idx
          (omega (arith, apart n.idx, alone))
        ∙ joined_back_elsewhere l.entries back (first fwd) n.idx (omega (arith, apart n.idx, alone))
        ∙ z.ahead.0
