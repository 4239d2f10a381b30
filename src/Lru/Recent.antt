-- ===== src/Lru/Recent.antt =====
-- What a cache stands for: its entries in the order of use, the latest first (server/src/db/lru.rs).
use mathlib.Core.List.{reverse_aux}
use segmented_memory_storage.Common.{
  ℕ, suc, ◌+◌, ◌≡◌, refl, ap, sym, ◌∙◌, Option, none, some, List, [], ◌∷◌, arith, length, times,
  times_tail, All, ◌==◌, ltb, if◌then◌else◌, Bool-cases, inl, inr,
}
use segmented_memory_storage.Lru.Links.{Node, marks, keys}

pub record Item (V : Type 0) : Type 0 where
  pub key : ℕ
  pub value : V
  pub expires_at : ℕ

pub length-reverse_aux :
    {A : Type 0} (back fwd : List A) → length (reverse_aux back fwd) ≡ length back + length fwd
length-reverse_aux [] fwd = omega arith
length-reverse_aux (b ∷ back) fwd = omega (arith, length-reverse_aux back (b ∷ fwd))

module _ {V : Type 0} where
  abbrev pub find : ℕ → List (Item V) → Option (Item V)
  find k [] = none
  find k (x ∷ xs) = if k == x.key then some x else find k xs

  abbrev pub without : ℕ → List (Item V) → List (Item V)
  without k [] = []
  without k (x ∷ xs) = if k == x.key then without k xs else x ∷ without k xs

  -- All but the one used least recently.
  abbrev pub but_last : List (Item V) → List (Item V)
  but_last [] = []
  but_last (x ∷ []) = []
  but_last (x ∷ y ∷ xs) = x ∷ but_last (y ∷ xs)

  -- A cache of `cap` entries after `insert`, `get` and `remove`.
  abbrev pub room_for : ℕ → Option (Item V) → ℕ → List (Item V) → List (Item V)
  room_for cap (some x) k xs = without k xs
  room_for cap none k xs = if length xs == cap then but_last xs else xs

  abbrev pub inserted : ℕ → Item V → List (Item V) → List (Item V)
  inserted cap x xs = x ∷ room_for cap (find x.key xs) x.key xs

  abbrev pub removed_of : Option (Item V) → ℕ → List (Item V) → Option V × List (Item V)
  removed_of none k xs = (none, xs)
  removed_of (some x) k xs = (some x.value, without k xs)

  abbrev pub removed : ℕ → List (Item V) → Option V × List (Item V)
  removed k xs = removed_of (find k xs) k xs

  abbrev pub got_of : ℕ → Option (Item V) → ℕ → List (Item V) → Option V × List (Item V)
  got_of now none k xs = (none, xs)
  got_of now (some x) k xs =
      if ltb x.expires_at now then (none, without k xs) else (some x.value, x ∷ without k xs)

  abbrev pub got : ℕ → ℕ → List (Item V) → Option V × List (Item V)
  got now k xs = got_of now (find k xs) k xs

  abbrev pub item : Node V → Item V
  item n = record { key = n.key; value = n.value; expires_at = n.expires_at }

  abbrev pub items : List (Node V) → List (Item V)
  items [] = []
  items (n ∷ ns) = item n ∷ items ns

  abbrev pub slot_of : ℕ → List (Node V) → Option ℕ
  slot_of k [] = none
  slot_of k (n ∷ ns) = if k == n.key then some n.idx else slot_of k ns

  pub length-items : (ns : List (Node V)) → length (items ns) ≡ length ns
  length-items [] = refl
  length-items (n ∷ ns) = ap suc (length-items ns)

  pub times-reverse_aux :
      (f : Node V → ℕ) (x : ℕ) (back fwd : List (Node V))
      → times x (marks f (reverse_aux back fwd)) ≡ times x (marks f back) + times x (marks f fwd)
  times-reverse_aux f x [] fwd = omega arith
  times-reverse_aux f x (b ∷ back) fwd = omega (arith, times-reverse_aux f x back (b ∷ fwd))

  pub All-reverse_aux :
      (P : Node V → Type 0) (back fwd : List (Node V))
      → All P back
      → All P fwd
      → All P (reverse_aux back fwd)
  All-reverse_aux P [] fwd a b = b
  All-reverse_aux P (n ∷ back) fwd a b = All-reverse_aux P back (n ∷ fwd) a.1 (a.0, b)

  pub All-reverse_aux_inv :
      (P : Node V → Type 0) (back fwd : List (Node V))
      → All P (reverse_aux back fwd)
      → All P back × All P fwd
  All-reverse_aux_inv P [] fwd a = (tt, a)
  All-reverse_aux_inv P (n ∷ back) fwd a =
      let (b, c) = All-reverse_aux_inv P back (n ∷ fwd) a in ((c.0, b), c.1)

  items-reverse_aux :
      (back fwd : List (Node V))
      → items (reverse_aux back fwd) ≡ reverse_aux (items back) (items fwd)
  items-reverse_aux [] fwd = refl
  items-reverse_aux (b ∷ back) fwd = items-reverse_aux back (b ∷ fwd)

  without-reverse_aux :
      (k : ℕ) (xs ys : List (Item V))
      → without k (reverse_aux xs ys) ≡ reverse_aux (without k xs) (without k ys)
  without-reverse_aux k [] ys = refl
  without-reverse_aux k (x ∷ xs) ys = elim (Bool-cases (k == x.key)) [
    | inl same ↦ without-reverse_aux k xs (x ∷ ys) ∙ rw same refl
    | inr other ↦ without-reverse_aux k xs (x ∷ ys) ∙ rw other refl
  ]

  without_absent :
      (k : ℕ) (ns : List (Node V)) → times k (keys ns) ≡ 0 → without k (items ns) ≡ items ns
  without_absent k [] h = refl
  without_absent k (n ∷ ns) h = ground (arith, h, without_absent k ns)

  -- A node taken out of the middle, whose key no other has.
  pub without_middle :
      (n : Node V) (back fwd : List (Node V))
      → times n.key (keys back) ≡ 0
      → times n.key (keys fwd) ≡ 0
      → without n.key (items (reverse_aux back (n ∷ fwd))) ≡ items (reverse_aux back fwd)
  without_middle n back fwd h h' =
      let rest : without n.key (item n ∷ items fwd) ≡ items fwd =
        ground (arith, without_absent n.key fwd h') in
      ap (without n.key) (items-reverse_aux back (n ∷ fwd))
      ∙ without-reverse_aux n.key (items back) (item n ∷ items fwd)
      ∙ ap (λ xs. reverse_aux xs (without n.key (item n ∷ items fwd))) (without_absent n.key back h)
      ∙ ap (λ xs. reverse_aux (items back) xs) rest
      ∙ sym (items-reverse_aux back fwd)

  slot_of-reverse_aux :
      (k : ℕ) (back xs ys : List (Node V))
      → slot_of k xs ≡ slot_of k ys
      → slot_of k (reverse_aux back xs) ≡ slot_of k (reverse_aux back ys)
  slot_of-reverse_aux k [] xs ys h = h
  slot_of-reverse_aux k (b ∷ back) xs ys h =
      slot_of-reverse_aux k back (b ∷ xs) (b ∷ ys)
        (ap (λ o. if k == b.key then some b.idx else o) h)

  -- Where no key is twice, a node in the middle is found as if it were the first.
  pub slot_of_middle :
      (k : ℕ) (n : Node V) (back fwd : List (Node V))
      → times n.key (keys back) ≡ 0
      → slot_of k (reverse_aux back (n ∷ fwd)) ≡ slot_of k (n ∷ reverse_aux back fwd)
  slot_of_middle k n [] fwd h = refl
  slot_of_middle k n (b ∷ back) fwd h =
      slot_of-reverse_aux k back (b ∷ n ∷ fwd) (n ∷ b ∷ fwd) (ground (arith, h))
      ∙ slot_of_middle k n back (b ∷ fwd) (times_tail n.key b.key (keys back) h)

  pub slot_of_self : (n : Node V) (ns : List (Node V)) → slot_of n.key (n ∷ ns) ≡ some n.idx
  slot_of_self n ns = ground arith

  pub slot_of_absent : (k : ℕ) (ns : List (Node V)) → times k (keys ns) ≡ 0 → slot_of k ns ≡ none
  slot_of_absent k [] h = refl
  slot_of_absent k (n ∷ ns) h = ground (arith, h, slot_of_absent k ns)

  pub absent_of_slot_of : (k : ℕ) (ns : List (Node V)) → slot_of k ns ≡ none → times k (keys ns) ≡ 0
  absent_of_slot_of k [] h = refl
  absent_of_slot_of k (n ∷ ns) h = ground (arith, h, absent_of_slot_of k ns)

  pub find_absent : (k : ℕ) (ns : List (Node V)) → slot_of k ns ≡ none → find k (items ns) ≡ none
  find_absent k [] h = refl
  find_absent k (n ∷ ns) h = ground (arith, h, find_absent k ns)

  -- The place of the node under a key.
  pub record Place (k i : ℕ) (es fs : List (Node V)) : Type 0 where
    pub back : List (Node V)
    pub node : Node V
    pub fwd : List (Node V)
    pub split : es ≡ reverse_aux back (node ∷ fwd)
    pub key_is : node.key ≡ k
    pub idx_is : node.idx ≡ i
    pub found : find k (items fs) ≡ some (item node)

  place :
      (k i : ℕ) (back fs es : List (Node V))
      → es ≡ reverse_aux back fs
      → slot_of k fs ≡ some i
      → Place k i es fs
  place k i back [] es s h = cc
  place k i back (n ∷ fs) es s h = elim (Bool-cases (k == n.key)) [
    | inl same ↦ record {
      back = back;
      node = n;
      fwd = fs;
      split = s;
      key_is = ground (arith, same);
      idx_is = ground (arith, same, h);
      found = rw same refl;
    }
    | inr other ↦
        let p = place k i (n ∷ back) fs es s (ground (arith, other, h)) in
        record {
          back = p.back;
          node = p.node;
          fwd = p.fwd;
          split = p.split;
          key_is = p.key_is;
          idx_is = p.idx_is;
          found = rw other p.found;
        }
  ]

  pub Place-slot_of : (k i : ℕ) (es : List (Node V)) → slot_of k es ≡ some i → Place k i es es
  Place-slot_of k i es h = place k i [] es es refl h
