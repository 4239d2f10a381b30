-- ===== src/Lru/Allocated.antt =====
-- The slot of a new entry (`alloc_slot`, server/src/db/lru.rs).
use segmented_memory_storage.Common.{
  ℕ, zero, suc, ◌+◌, ◌≤◌, ◌<◌, ◌≡◌, refl, ap, sym, ◌∙◌, Option, none, some, List, [], ◌∷◌, ◌++◌,
  arith, length, get_elem?, set, times, times_self, get_elem?-set_self, get_elem?_of_lt,
  lt_of_get_elem?, length-set, length-append, ◌==◌, Bool-cases, inl, inr, ==_iff, dec_lt,
}
use segmented_memory_storage.Common.Outcome.{bind_ok, ok, pure, ◌>>◌}
use segmented_memory_storage.Lru.State.{null, Entry, Lru}
use segmented_memory_storage.Lru.Ops.{put_slot, put_reverse, alloc_slot}
use segmented_memory_storage.Lru.Links.{Node, first, idxs, cell, Ahead, Ahead-set, Zip}
use segmented_memory_storage.Lru.Represented.{Represents, Named, Named-set}
use segmented_memory_storage.Lru.Freed.{put_slot_lem, put_reverse_lem}

get_elem?-append_left :
    {A : Type 0} (xs ys : List A) (i : ℕ) (v : A)
    → get_elem? xs i ≡ some v
    → get_elem? (xs ++ ys) i ≡ some v
get_elem?-append_left [] ys i v h = cc
get_elem?-append_left (x ∷ xs) ys zero v h = h
get_elem?-append_left (x ∷ xs) ys (suc i) v h = get_elem?-append_left xs ys i v h

get_elem?-append_length :
    {A : Type 0} (xs : List A) (v : A) → get_elem? (xs ++ v ∷ []) (length xs) ≡ some v
get_elem?-append_length [] v = refl
get_elem?-append_length (x ∷ xs) v = get_elem?-append_length xs v

-- A slot behind all others is nobody's.
times-new :
    (i n : ℕ) (js : List ℕ) → times i js ≤ 1 → (n ≤ i → times i js ≡ 0) → times i (n ∷ js) ≤ 1
times-new i n js h above = elim (Bool-cases (i == n)) [
  | inl same ↦ rw same (omega (arith, above (omega (arith, (==_iff i n).0 same))))
  | inr other ↦ rw other (omega (arith, h))
]

free_inside : (n idx : ℕ) (free : List ℕ) → ((i : ℕ) → n ≤ i → times i (idx ∷ free) ≡ 0) → idx < n
free_inside n idx free h = elim (dec_lt idx n) [
  | yes p ↦ p
  | no p ↦ absurd (omega (arith, h idx (omega (arith, p)), times_self idx free))
]

module _ {V : Type 0} where
  Ahead-append :
      (ents more : List (Option (Entry V))) (p : ℕ) (ns : List (Node V))
      → Ahead ents p ns
      → Ahead (ents ++ more) p ns
  Ahead-append ents more p [] a = tt
  Ahead-append ents more p (n ∷ ns) a = (
    get_elem?-append_left ents more n.idx (cell n p (first ns)) a.0,
    Ahead-append ents more n.idx ns a.1,
  )

  Named-append :
      (reverse more : List (Option ℕ)) (ns : List (Node V))
      → Named reverse ns
      → Named (reverse ++ more) ns
  Named-append reverse more [] a = tt
  Named-append reverse more (n ∷ ns) a =
      (get_elem?-append_left reverse more n.idx (some n.key) a.0, Named-append reverse more ns a.1)

  Ahead-below :
      (ents : List (Option (Entry V))) (p i : ℕ) (ns : List (Node V))
      → Ahead ents p ns
      → length ents ≤ i
      → times i (idxs ns) ≡ 0
  Ahead-below ents p i [] a h = refl
  Ahead-below ents p i (n ∷ ns) a h = ground (
    arith,
    h,
    lt_of_get_elem? ents n.idx (cell n p (first ns)) a.0,
    Ahead-below ents n.idx i ns a.1 h,
  )

  -- A slot that holds the new node in none of the links.
  pub record Allocated (l : Lru V) (es : List (Node V)) (n : Node V) (l' : Lru V) : Type 0 where
    pub zip : Zip l' [] es
    pub slot : get_elem? l'.entries n.idx ≡ some (cell n null null)
    pub name : get_elem? l'.reverse n.idx ≡ some (some n.key)
    pub named : Named l'.reverse es
    pub slots_once : (i : ℕ) → times i (n.idx ∷ idxs es) + times i l'.free ≤ 1
    pub free_there : (i : ℕ) → length l'.entries ≤ i → times i l'.free ≡ 0
    pub sizes : length l'.entries ≡ suc (length es) + length l'.free
    pub reverse_size : length l'.reverse ≡ length l'.entries
    pub few : length l'.entries ≤ l.cap
    pub same_map : l'.map ≡ l.map
    pub same_cap : l'.cap ≡ l.cap
    pub same_ttl : l'.ttl ≡ l.ttl

  -- The result of `alloc_slot`.
  pub record Allocates (l : Lru V) (es : List (Node V)) (key : ℕ) (value : V) (expires_at : ℕ)
      : Type 0 where
    pub idx : ℕ
    pub after : Lru V
    pub ends :
        alloc_slot key
          (record { value = value; expires_at = expires_at; prev = null; next = null })
          l
        ≡ (ok idx, after)
    pub allocated :
        Allocated l es
          (record { idx = idx; key = key; value = value; expires_at = expires_at })
          after

  alloc_slot_new :
      (key : ℕ) (entry : Entry V) (l : Lru V)
      → l.free ≡ []
      → alloc_slot key entry l ≡ (
        ok (length l.entries),
        record l { entries = l.entries ++ some entry ∷ []; reverse = l.reverse ++ some key ∷ [] },
      )
  unfolding alloc_slot
  alloc_slot_new key entry l h = ground (arith, h)

  alloc_new :
      (l : Lru V) (es : List (Node V)) (key : ℕ) (value : V) (expires_at : ℕ)
      → l.free ≡ []
      → Represents l es
      → length es < l.cap
      → Allocates l es key value expires_at
  unfolding alloc_slot
  alloc_new l es key value expires_at empty r room =
      let idx = length l.entries in
      let n : Node V = record { idx = idx; key = key; value = value; expires_at = expires_at } in
      let after : Lru V = record l {
        entries = l.entries ++ cell n null null ∷ [];
        reverse = l.reverse ++ some key ∷ [];
      } in
      let longer = length-append l.entries (cell n null null ∷ []) in
      let longer' = length-append l.reverse (some key ∷ []) in
      let none_free : length l.free ≡ 0 = ap length empty in
      record {
        idx = idx;
        after = after;
        ends = alloc_slot_new key _ l empty;
        allocated = record {
          zip = record {
            behind = tt;
            ahead = Ahead-append l.entries (cell n null null ∷ []) null es r.zip.ahead;
            head_is = r.zip.head_is;
            tail_is = r.zip.tail_is;
          };
          slot = get_elem?-append_length l.entries (cell n null null);
          name =
              ap (get_elem? (l.reverse ++ some key ∷ [])) (sym r.reverse_size)
              ∙ get_elem?-append_length l.reverse (some key);
          named = Named-append l.reverse (some key ∷ []) es r.named;
          slots_once = λ i. omega (
            arith,
            times-new i idx (idxs es) (omega (arith, r.slots_once i))
                (Ahead-below l.entries null i es r.zip.ahead),
            ap (times i) empty,
          );
          free_there = λ i h. ap (times i) empty;
          sizes = omega (arith, r.sizes, longer, none_free);
          reverse_size = omega (arith, r.reverse_size, longer, longer');
          few = omega (arith, r.sizes, longer, none_free, room);
          same_map = refl;
          same_cap = refl;
          same_ttl = refl;
        };
      }

  alloc_slot_free :
      (key : ℕ) (entry : Entry V) (idx : ℕ) (free : List ℕ) (l : Lru V)
      → l.free ≡ idx ∷ free
      → alloc_slot key entry l
        ≡ (put_slot idx (some entry) >> (put_reverse idx (some key) >> pure idx))
            (record l { free = free })
  unfolding alloc_slot
  alloc_slot_free key entry idx free l h = rw (alloc_slot, h) refl

  alloc_old :
      (l : Lru V) (es : List (Node V)) (key : ℕ) (value : V) (expires_at idx : ℕ) (free : List ℕ)
      → l.free ≡ idx ∷ free
      → Represents l es
      → Allocates l es key value expires_at
  unfolding alloc_slot
  alloc_old l es key value expires_at idx free some_free r =
      let n : Node V = record { idx = idx; key = key; value = value; expires_at = expires_at } in
      let popped : Lru V = record l { free = free } in
      let placed : Lru V = record popped { entries = set l.entries idx (cell n null null) } in
      let after : Lru V = record placed { reverse = set l.reverse idx (some key) } in
      let counted = λ (i : ℕ). ap (times i) some_free in
      let own = times_self idx free in
      let apart : times idx (idxs es) ≡ 0 = omega (arith, r.slots_once idx, counted idx, own) in
      let inside : idx < length l.entries =
        free_inside (length l.entries) idx free (λ i h. sym (counted i) ∙ r.free_there i h) in
      let size : length l.free ≡ suc (length free) = ap length some_free in
      let slots = length-set l.entries idx (cell n null null) in
      let there = get_elem?_of_lt l.entries idx none inside in
      let named = get_elem?_of_lt l.reverse idx none (omega (arith, inside, r.reverse_size)) in
      record {
        idx = idx;
        after = after;
        ends =
            alloc_slot_free key _ idx free l some_free
            ∙ bind_ok (put_slot idx (cell n null null))
                (λ _. put_reverse idx (some key) >> pure idx) popped tt placed
                (put_slot_lem idx (cell n null null) _ popped there)
            ∙ bind_ok (put_reverse idx (some key)) (λ _. pure idx) placed tt after
                (put_reverse_lem idx (some key) _ placed named);
        allocated = record {
          zip = record {
            behind = tt;
            ahead = Ahead-set l.entries idx null (cell n null null) es apart r.zip.ahead;
            head_is = r.zip.head_is;
            tail_is = r.zip.tail_is;
          };
          slot = get_elem?-set_self l.entries idx (cell n null null) inside;
          name =
              get_elem?-set_self l.reverse idx (some key) (omega (arith, inside, r.reverse_size));
          named = Named-set l.reverse idx (some key) es apart r.named;
          slots_once = λ i. omega (arith, r.slots_once i, counted i);
          free_there = λ i h. omega (arith, r.free_there i (omega (arith, h, slots)), counted i);
          sizes = omega (arith, r.sizes, slots, size);
          reverse_size = omega (arith, r.reverse_size, slots, length-set l.reverse idx (some key));
          few = omega (arith, r.few, slots);
          same_map = refl;
          same_cap = refl;
          same_ttl = refl;
        };
      }

  allocate :
      (l : Lru V) (es : List (Node V)) (key : ℕ) (value : V) (expires_at : ℕ) (free : List ℕ)
      → l.free ≡ free
      → Represents l es
      → length es < l.cap
      → Allocates l es key value expires_at
  allocate l es key value expires_at [] h r room = alloc_new l es key value expires_at h r room
  allocate l es key value expires_at (idx ∷ free) h r room =
      alloc_old l es key value expires_at idx free h r

  pub allocates :
      (l : Lru V) (es : List (Node V)) (key : ℕ) (value : V) (expires_at : ℕ)
      → Represents l es
      → length es < l.cap
      → Allocates l es key value expires_at
  allocates l es key value expires_at r room = allocate l es key value expires_at l.free refl r room
