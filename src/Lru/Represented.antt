-- ===== src/Lru/Represented.antt =====
-- When a cache holds entries in an order of use, and what keeps that up (server/src/db/lru.rs).
use mathlib.Core.List.{reverse_aux}
use segmented_memory_storage.Common.{
  ℕ, ◌+◌, ◌≤◌, ◌<◌, ◌≡◌, ap, ◌∙◌, Option, none, some, List, [], ◌∷◌, arith, length, get_elem?, set,
  times, times_self, times_tail, ne_of_times, get_elem?-set_ne, length-set, All, ◌==◌,
  if◌then◌else◌,
}
use segmented_memory_storage.Common.BTreeMap
use segmented_memory_storage.Common.BTreeMap.Ordered.{
  Ordered, remove-Ordered, lookup-remove, length-remove_there,
}
use segmented_memory_storage.Lru.State.{null, Entry, Lru}
use segmented_memory_storage.Lru.Links.{Node, first, idxs, keys, Ahead-set, Behind-set, Zip}
use segmented_memory_storage.Lru.Recent.{
  slot_of, length-reverse_aux, times-reverse_aux, All-reverse_aux, All-reverse_aux_inv,
  slot_of_middle, slot_of_absent,
}

module _ {V : Type 0} where
  abbrev pub Named : List (Option ℕ) → List (Node V) → Type 0
  Named reverse es = All (λ n. get_elem? reverse n.idx ≡ some (some n.key)) es

  -- The links spell the nodes from the one used last; `reverse` and `map` lead from slots to keys and
  -- back; and each slot is a node's or free, but not both.
  pub record Represents (l : Lru V) (es : List (Node V)) : Type 0 where
    pub zip : Zip l [] es
    pub named : Named l.reverse es
    pub mapped : (k : ℕ) → BTreeMap.lookup k l.map ≡ slot_of k es
    pub ordered : Ordered l.map
    pub keys_once : (k : ℕ) → times k (keys es) ≤ 1
    pub map_size : length l.map ≡ length es
    pub slots_once : (i : ℕ) → times i (idxs es) + times i l.free ≤ 1
    pub free_there : (i : ℕ) → length l.entries ≤ i → times i l.free ≡ 0
    pub sizes : length l.entries ≡ length es + length l.free
    pub reverse_size : length l.reverse ≡ length l.entries
    pub few : length l.entries ≤ l.cap
    pub cap_fits : l.cap ≤ null

  pub Zip-set :
      (l : Lru V) (i : ℕ) (c : Option (Entry V)) (back fwd : List (Node V))
      → times i (idxs back) ≡ 0
      → times i (idxs fwd) ≡ 0
      → Zip l back fwd
      → Zip (record l { entries = set l.entries i c }) back fwd
  Zip-set l i c back fwd h h' z = record {
    behind = Behind-set l.entries i (first fwd) c back h z.behind;
    ahead = Ahead-set l.entries i (first back) c fwd h' z.ahead;
    head_is = z.head_is;
    tail_is = z.tail_is;
  }

  pub Named-set :
      (reverse : List (Option ℕ)) (i : ℕ) (o : Option ℕ) (ns : List (Node V))
      → times i (idxs ns) ≡ 0
      → Named reverse ns
      → Named (set reverse i o) ns
  Named-set reverse i o [] h a = tt
  Named-set reverse i o (n ∷ ns) h a = (
    get_elem?-set_ne reverse i n.idx o (ne_of_times i n.idx (idxs ns) h) ∙ a.0,
    Named-set reverse i o ns (times_tail i n.idx (idxs ns) h) a.1,
  )

  -- A node in the middle, and how often its key and its slot are elsewhere.
  module _ (l : Lru V) (n : Node V) (back fwd : List (Node V))
      (r : Represents l (reverse_aux back (n ∷ fwd))) where
    pub key_alone : (times n.key (keys back) ≡ 0) × (times n.key (keys fwd) ≡ 0)
    key_alone =
        let whole = times-reverse_aux (λ m. m.key) n.key back (n ∷ fwd) in
        let own = times_self n.key (keys fwd) in
        (omega (arith, r.keys_once n.key, whole, own), omega (arith, r.keys_once n.key, whole, own))

    pub slots_apart : (x : ℕ) → times x (idxs back) + times x (idxs (n ∷ fwd)) ≤ 1
    slots_apart x = omega (arith, r.slots_once x, times-reverse_aux (λ m. m.idx) x back (n ∷ fwd))

    pub slot_alone : (times n.idx (idxs back) ≡ 0) × (times n.idx (idxs fwd) ≡ 0)
    slot_alone =
        let own = times_self n.idx (idxs fwd) in
        (omega (arith, slots_apart n.idx, own), omega (arith, slots_apart n.idx, own))

    pub Named-reverse_aux : Named l.reverse back × Named l.reverse (n ∷ fwd)
    Named-reverse_aux =
        All-reverse_aux_inv (λ m. get_elem? l.reverse m.idx ≡ some (some m.key)) back (n ∷ fwd)
          r.named

    -- A node that is used goes to the front, with a value and a deadline that may be new.
    pub used-Represents :
        (value : V) (expires_at : ℕ) (ents : List (Option (Entry V))) (head tail : ℕ)
        → let l' = record l { entries = ents; head = head; tail = tail } in
          let es = record n { value = value; expires_at = expires_at } ∷ reverse_aux back fwd in
          length ents ≡ length l.entries → Zip l' [] es → Represents l' es
    used-Represents value expires_at ents head tail same z = record {
      zip = z;
      named = (
        Named-reverse_aux.1.0,
        All-reverse_aux (λ m. get_elem? l.reverse m.idx ≡ some (some m.key)) back fwd
            Named-reverse_aux.0 Named-reverse_aux.1.1,
      );
      mapped = λ k. r.mapped k ∙ slot_of_middle k n back fwd key_alone.0;
      ordered = r.ordered;
      keys_once = λ k. omega (
        arith,
        r.keys_once k,
        times-reverse_aux (λ m. m.key) k back (n ∷ fwd),
        times-reverse_aux (λ m. m.key) k back fwd,
      );
      map_size =
          omega (arith, r.map_size, length-reverse_aux back (n ∷ fwd), length-reverse_aux back fwd);
      slots_once = λ i. omega (
        arith,
        r.slots_once i,
        times-reverse_aux (λ m. m.idx) i back (n ∷ fwd),
        times-reverse_aux (λ m. m.idx) i back fwd,
      );
      free_there = λ i h. r.free_there i (omega (arith, h, same));
      sizes =
          omega
            (arith, r.sizes, same, length-reverse_aux back (n ∷ fwd), length-reverse_aux back fwd);
      reverse_size = omega (arith, r.reverse_size, same);
      few = omega (arith, r.few, same);
      cap_fits = r.cap_fits;
    }

    slot_of_rest :
        (k : ℕ)
        → (if n.key == k then none else slot_of k (reverse_aux back (n ∷ fwd)))
          ≡ slot_of k (reverse_aux back fwd)
    slot_of_rest k =
        let middle = slot_of_middle k n back fwd key_alone.0 in
        let absent = slot_of_absent n.key (reverse_aux back fwd) (
          omega (arith, times-reverse_aux (λ m. m.key) n.key back fwd, key_alone.0, key_alone.1)) in
        ground (arith, middle, absent)

    -- A node that is taken out, whose slot is free from then on.
    pub freed-Represents :
        (ents : List (Option (Entry V))) (head tail : ℕ)
        → let l' = record l {
          map = BTreeMap.remove n.key l.map;
          reverse = set l.reverse n.idx none;
          entries = ents;
          free = n.idx ∷ l.free;
          head = head;
          tail = tail;
        } in
          length ents ≡ length l.entries
          → n.idx < length l.entries
          → Zip l' [] (reverse_aux back fwd)
          → Represents l' (reverse_aux back fwd)
    freed-Represents ents head tail same inside z =
        let keys_whole = λ (k : ℕ). times-reverse_aux (λ m. m.key) k back (n ∷ fwd) in
        let keys_rest = λ (k : ℕ). times-reverse_aux (λ m. m.key) k back fwd in
        let there : BTreeMap.lookup n.key l.map ≡ some n.idx =
          r.mapped n.key ∙ slot_of_middle n.key n back fwd key_alone.0 ∙ ground arith in
        record {
          zip = z;
          named =
              All-reverse_aux (λ m. get_elem? (set l.reverse n.idx none) m.idx ≡ some (some m.key))
                back fwd (Named-set l.reverse n.idx none back slot_alone.0 Named-reverse_aux.0)
                (Named-set l.reverse n.idx none fwd slot_alone.1 Named-reverse_aux.1.1);
          mapped = λ k.
              lookup-remove n.key k l.map r.ordered
              ∙ ap (λ o. if n.key == k then none else o) (r.mapped k)
              ∙ slot_of_rest k;
          ordered = remove-Ordered n.key l.map r.ordered;
          keys_once = λ k. omega (arith, r.keys_once k, keys_whole k, keys_rest k);
          map_size = omega (
            arith,
            r.map_size,
            length-remove_there n.key n.idx l.map there,
            length-reverse_aux back (n ∷ fwd),
            length-reverse_aux back fwd,
          );
          slots_once = λ i. omega (
            arith,
            r.slots_once i,
            times-reverse_aux (λ m. m.idx) i back (n ∷ fwd),
            times-reverse_aux (λ m. m.idx) i back fwd,
          );
          free_there = λ i h. ground (arith, r.free_there i, h, same, inside);
          sizes = omega (
            arith,
            r.sizes,
            same,
            length-reverse_aux back (n ∷ fwd),
            length-reverse_aux back fwd,
          );
          reverse_size = omega (arith, length-set l.reverse n.idx none, r.reverse_size, same);
          few = omega (arith, r.few, same);
          cap_fits = r.cap_fits;
        }
