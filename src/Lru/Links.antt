-- ===== src/Lru/Links.antt =====
-- The list that the links of a cache spell out (server/src/db/lru.rs).
use mathlib.Core.List.{reverse_aux}
use segmented_memory_storage.Common.{
  ℕ, ◌≡◌, ◌∙◌, Option, some, List, [], ◌∷◌, get_elem?, set, times, get_elem?-set_ne, ne_of_times,
  times_tail,
}
use segmented_memory_storage.Lru.State.{null, Entry, Lru}

-- An entry with its slot and its key.
pub record Node (V : Type 0) : Type 0 where
  pub idx : ℕ
  pub key : ℕ
  pub value : V
  pub expires_at : ℕ

module _ {V : Type 0} where
  abbrev pub first : List (Node V) → ℕ
  first [] = null
  first (n ∷ ns) = n.idx

  abbrev pub last_of : ℕ → List (Node V) → ℕ
  last_of p [] = p
  last_of p (n ∷ ns) = last_of n.idx ns

  abbrev pub marks : (Node V → ℕ) → List (Node V) → List ℕ
  marks f [] = []
  marks f (n ∷ ns) = f n ∷ marks f ns

  abbrev pub idxs : List (Node V) → List ℕ
  idxs ns = marks (λ n. n.idx) ns

  abbrev pub keys : List (Node V) → List ℕ
  keys ns = marks (λ n. n.key) ns

  abbrev pub cell : Node V → ℕ → ℕ → Option (Entry V)
  cell n prev next =
      some (record { value = n.value; expires_at = n.expires_at; prev = prev; next = next })

  -- The nodes from one on, and those from one back, in the slots; `p` and `q` are the neighbours at
  -- the near end.
  abbrev pub Ahead : List (Option (Entry V)) → ℕ → List (Node V) → Type 0
  Ahead ents p [] = Unit
  Ahead ents p (n ∷ ns) = (get_elem? ents n.idx ≡ some (cell n p (first ns))) × Ahead ents n.idx ns

  abbrev pub Behind : List (Option (Entry V)) → ℕ → List (Node V) → Type 0
  Behind ents q [] = Unit
  Behind ents q (n ∷ ns) =
      (get_elem? ents n.idx ≡ some (cell n (first ns) q)) × Behind ents n.idx ns

  pub Ahead-set :
      (ents : List (Option (Entry V))) (i p : ℕ) (c : Option (Entry V)) (ns : List (Node V))
      → times i (idxs ns) ≡ 0
      → Ahead ents p ns
      → Ahead (set ents i c) p ns
  Ahead-set ents i p c [] h a = tt
  Ahead-set ents i p c (n ∷ ns) h a = (
    get_elem?-set_ne ents i n.idx c (ne_of_times i n.idx (idxs ns) h) ∙ a.0,
    Ahead-set ents i n.idx c ns (times_tail i n.idx (idxs ns) h) a.1,
  )

  pub Behind-set :
      (ents : List (Option (Entry V))) (i q : ℕ) (c : Option (Entry V)) (ns : List (Node V))
      → times i (idxs ns) ≡ 0
      → Behind ents q ns
      → Behind (set ents i c) q ns
  Behind-set ents i q c [] h a = tt
  Behind-set ents i q c (n ∷ ns) h a = (
    get_elem?-set_ne ents i n.idx c (ne_of_times i n.idx (idxs ns) h) ∙ a.0,
    Behind-set ents i n.idx c ns (times_tail i n.idx (idxs ns) h) a.1,
  )

  -- The links around a place: the nodes before it, the nearest first, and those behind it.
  pub record Zip (l : Lru V) (back fwd : List (Node V)) : Type 0 where
    pub behind : Behind l.entries (first fwd) back
    pub ahead : Ahead l.entries (first back) fwd
    pub head_is : l.head ≡ last_of (first fwd) back
    pub tail_is : l.tail ≡ last_of (first back) fwd

  pub shift :
      (l : Lru V) (n : Node V) (back fwd : List (Node V))
      → Zip l back (n ∷ fwd)
      → Zip l (n ∷ back) fwd
  shift l n back fwd z = record {
    behind = (z.ahead.0, z.behind);
    ahead = z.ahead.1;
    head_is = z.head_is;
    tail_is = z.tail_is;
  }

  -- From the front.
  pub Zip-reverse_aux :
      (l : Lru V) (back fwd : List (Node V)) → Zip l back fwd → Zip l [] (reverse_aux back fwd)
  Zip-reverse_aux l [] fwd z = z
  Zip-reverse_aux l (b ∷ back) fwd z = Zip-reverse_aux l back (b ∷ fwd) (record {
    behind = z.behind.1;
    ahead = (z.behind.0, z.ahead);
    head_is = z.head_is;
    tail_is = z.tail_is;
  })

  pub Zip-reverse_aux_inv :
      (l : Lru V) (back fwd : List (Node V)) → Zip l [] (reverse_aux back fwd) → Zip l back fwd
  Zip-reverse_aux_inv l [] fwd z = z
  Zip-reverse_aux_inv l (b ∷ back) fwd z =
      shift l b back fwd (Zip-reverse_aux_inv l back (b ∷ fwd) z)
