-- ===== src/Lru/Attached.antt =====
-- `attach_front` puts a slot in front of the links (server/src/db/lru.rs).
use segmented_memory_storage.Common.{
  ℕ, ◌≤◌, ◌≡◌, refl, ap, ◌∙◌, false, Option, some, List, [], ◌∷◌, arith, length, get_elem?, set,
  times, get_elem?-set_self, lt_of_get_elem?, length-set, ◌==◌, ne→==, if◌then◌else◌,
}
use segmented_memory_storage.Common.Outcome.{bind_ok, ok, modify, ◌>>◌}
use segmented_memory_storage.Lru.State.{null, Entry, Lru}
use segmented_memory_storage.Lru.Ops.{Method, update, attach_front}
use segmented_memory_storage.Lru.Links.{Node, first, last_of, idxs, cell, Ahead, Ahead-set, Zip}
use segmented_memory_storage.Lru.Detached.{
  update_lem, joined_fwd, joined_fwd-Ahead, joined_fwd_elsewhere, length-joined_fwd,
}

module _ {V : Type 0} where
  unfoldable pub with_front : Lru V → Node V → List (Node V) → Lru V
  with_front l n es = record l {
    entries = joined_fwd es n.idx (set l.entries n.idx (cell n null (first es)));
    head = n.idx;
    tail = last_of n.idx es;
  }

  -- The old head, if there is one, is linked to the new.
  link_head : ℕ → ℕ → Method V (Unit {0})
  link_head head idx =
      if head == null
      then modify (λ l. record l { tail = idx })
      else update head (λ h. record h { prev = idx })

  link_head_lem :
      (l : Lru V) (idx : ℕ) (es : List (Node V))
      → Ahead l.entries null es
      → l.tail ≡ last_of null es
      → length l.entries ≤ null
      → link_head (first es) idx l
        ≡ (ok tt, record l { entries = joined_fwd es idx l.entries; tail = last_of idx es })
  unfolding link_head
  link_head_lem l idx [] a t h = refl
  link_head_lem l idx (m ∷ es) a t h =
      let slot : (m.idx == null) ≡ false =
        ne→== m.idx null
          (λ e. omega (arith, lt_of_get_elem? l.entries m.idx (cell m null (first es)) a.0)) in
      let linked : List (Option (Entry V)) = set l.entries m.idx (cell m idx (first es)) in
      ap
        (λ c.
          (if c
              then modify (λ x. record x { tail = idx })
              else update m.idx (λ x. record x { prev = idx }))
            l)
        slot
      ∙ update_lem m.idx (λ x. record x { prev = idx }) l _ a.0
      ∙ ap (λ e. (ok tt, record l { entries = linked; tail = e })) t

  module _ (l : Lru V) (n : Node V) (es : List (Node V)) (prev next : ℕ) (z : Zip l [] es)
      (there : get_elem? l.entries n.idx ≡ some (cell n prev next))
      (apart : times n.idx (idxs es) ≡ 0) where
    pub attach_front-with_front :
        length l.entries ≤ null → attach_front n.idx l ≡ (ok tt, with_front l n es)
    unfolding attach_front with_front link_head
    attach_front-with_front short =
        let ents = set l.entries n.idx (cell n null (first es)) in
        let l1 : Lru V = record l { entries = ents } in
        ap
          (λ h.
            (update n.idx (λ e. record e { prev = null; next = h })
                >> (link_head h n.idx >> modify (λ x. record x { head = n.idx })))
              l)
          z.head_is
        ∙ bind_ok (update n.idx (λ e. record e { prev = null; next = first es }))
            (λ _. link_head (first es) n.idx >> modify (λ x. record x { head = n.idx })) l tt l1
            (update_lem n.idx (λ e. record e { prev = null; next = first es }) l _ there)
        ∙ bind_ok (link_head (first es) n.idx) (λ _. modify (λ x. record x { head = n.idx })) l1 tt
            _
            (link_head_lem l1 n.idx es (Ahead-set l.entries n.idx null _ es apart z.ahead) z.tail_is
              (omega (arith, length-set l.entries n.idx (cell n null (first es)))))

    pub with_front-Zip : ((x : ℕ) → times x (idxs es) ≤ 1) → Zip (with_front l n es) [] (n ∷ es)
    unfolding with_front
    with_front-Zip once =
        let ents = set l.entries n.idx (cell n null (first es)) in
        record {
          behind = tt;
          ahead = (
            joined_fwd_elsewhere ents es n.idx n.idx apart
                ∙ get_elem?-set_self l.entries n.idx (cell n null (first es))
                    (lt_of_get_elem? l.entries n.idx _ there),
            joined_fwd-Ahead ents es null n.idx once
                (Ahead-set l.entries n.idx null _ es apart z.ahead),
          );
          head_is = refl;
          tail_is = refl;
        }

    pub length-with_front : length (with_front l n es).entries ≡ length l.entries
    unfolding with_front
    length-with_front =
        length-joined_fwd es n.idx (set l.entries n.idx (cell n null (first es)))
        ∙ length-set l.entries n.idx (cell n null (first es))
