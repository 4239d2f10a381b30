-- ===== src/Groups/Backed.antt =====
-- When what a cache holds is what the log of its group holds (server/src/db/groups.rs).
use mathlib.Core.Option.{some-injective}
use mathlib.Core.Path.{subst}
use segmented_memory_storage.Common.{
  ℕ, ◌+◌, ◌≤◌, ◌<◌, ◌≡◌, refl, ap, sym, ◌∙◌, Bool, Option, none, some, List, [], ◌∷◌, ◌++◌, arith,
  length, times, map, All, ltb, ◌==◌, if◌then◌else◌, Bool-cases, inl, inr, ==_iff,
}
use segmented_memory_storage.Common.BTreeMap.{BTreeMap}
use segmented_memory_storage.Common.Texts.{Text}
use segmented_memory_storage.Segment.{Segment}
use segmented_memory_storage.SegLog.State.{LogEntry, EntryLoc}
use segmented_memory_storage.SegLog.Stored.{
  Entry, Stored, Stored-le, address, find_id, ids_from, ids_below,
}
use segmented_memory_storage.Lru.Recent.{
  Item, find, without, but_last, room_for, inserted, removed_of, removed, got_of, got,
}
use segmented_memory_storage.Groups.Ops.{row}

module _ {V : Type 0} (P : Item V → Type 0) where
  All-without : (k : ℕ) (xs : List (Item V)) → All P xs → All P (without k xs)
  All-without k [] a = tt
  All-without k (x ∷ xs) a = elim (Bool-cases (k == x.key)) [
    | inl same ↦ rw same (All-without k xs a.1)
    | inr other ↦ rw other (a.0, All-without k xs a.1)
  ]

  All-but_last : (xs : List (Item V)) → All P xs → All P (but_last xs)
  All-but_last [] a = tt
  All-but_last (x ∷ []) a = tt
  All-but_last (x ∷ y ∷ xs) a = (a.0, All-but_last (y ∷ xs) a.1)

  All-find : (k : ℕ) (xs : List (Item V)) (x : Item V) → All P xs → find k xs ≡ some x → P x
  All-find k [] x a h = cc
  All-find k (y ∷ xs) x a h = elim (Bool-cases (k == y.key)) [
    | inl same ↦
        let is : some y ≡ some x = sym (ap (λ t. if t then some y else find k xs) same) ∙ h in
        subst P (some-injective y x is) a.0
    | inr other ↦ All-find k xs x a.1 (sym (ap (λ t. if t then some y else find k xs) other) ∙ h)
  ]

  All-room_for :
      (cap k : ℕ) (o : Option (Item V)) (xs : List (Item V))
      → All P xs
      → All P (room_for cap o k xs)
  All-room_for cap k none xs a = elim (Bool-cases (length xs == cap)) [
    | inl full ↦ rw full (All-but_last xs a)
    | inr few ↦ rw few a
  ]
  All-room_for cap k (some y) xs a = All-without k xs a

  pub All-inserted :
      (cap : ℕ) (x : Item V) (xs : List (Item V)) → P x → All P xs → All P (inserted cap x xs)
  All-inserted cap x xs p a = (p, All-room_for cap x.key (find x.key xs) xs a)

  All-removed_of :
      (k : ℕ) (o : Option (Item V)) (xs : List (Item V)) → All P xs → All P (removed_of o k xs).1
  All-removed_of k none xs a = a
  All-removed_of k (some x) xs a = All-without k xs a

  pub All-removed : (k : ℕ) (xs : List (Item V)) → All P xs → All P (removed k xs).1
  All-removed k xs a = All-removed_of k (find k xs) xs a

  All-got_of :
      (now k : ℕ) (o : Option (Item V)) (xs : List (Item V))
      → find k xs ≡ o
      → All P xs
      → All P (got_of now o k xs).1
  All-got_of now k none xs h a = a
  All-got_of now k (some x) xs h a = elim (Bool-cases (ltb x.expires_at now)) [
    | inl expired ↦ rw expired (All-without k xs a)
    | inr live ↦ rw live (All-find k xs x a h, All-without k xs a)
  ]

  pub All-got : (now k : ℕ) (xs : List (Item V)) → All P xs → All P (got now k xs).1
  All-got now k xs a = All-got_of now k (find k xs) xs refl a

  -- What a get returns is the value of an item.
  pub record Hit (k : ℕ) (v : V) : Type 0 where
    pub hit : Item V
    pub key_is : hit.key ≡ k
    pub value_is : hit.value ≡ v
    pub holds : P hit

  find_key : (k : ℕ) (xs : List (Item V)) (x : Item V) → find k xs ≡ some x → x.key ≡ k
  find_key k [] x h = cc
  find_key k (y ∷ xs) x h = elim (Bool-cases (k == y.key)) [
    | inl same ↦
        let is : some y ≡ some x = sym (ap (λ t. if t then some y else find k xs) same) ∙ h in
        ap (λ z. z.key) (sym (some-injective y x is)) ∙ sym ((==_iff k y.key).0 same)
    | inr other ↦ find_key k xs x (sym (ap (λ t. if t then some y else find k xs) other) ∙ h)
  ]

  got_of-Hit :
      (now k : ℕ) (v : V) (o : Option (Item V)) (xs : List (Item V))
      → find k xs ≡ o
      → All P xs
      → (got_of now o k xs).0 ≡ some v
      → Hit k v
  got_of-Hit now k v none xs h a g = cc
  got_of-Hit now k v (some x) xs h a g =
      let outcome : Bool → Option V × List (Item V) =
        λ t. if t then (none, without k xs) else (some x.value, x ∷ without k xs) in
      elim (Bool-cases (ltb x.expires_at now)) [
        | inl expired ↦ let gone : none ≡ some v = sym (ap (λ t. (outcome t).0) expired) ∙ g in cc
        | inr live ↦
            let is : some x.value ≡ some v = sym (ap (λ t. (outcome t).0) live) ∙ g in
            record {
              hit = x;
              key_is = find_key k xs x h;
              value_is = some-injective x.value v is;
              holds = All-find k xs x a h;
            }
      ]

  pub got-Hit :
      (now k : ℕ) (v : V) (xs : List (Item V)) → All P xs → (got now k xs).0 ≡ some v → Hit k v
  got-Hit now k v xs a g = got_of-Hit now k v (find k xs) xs refl a g

pub All-both :
    {A : Type 0} (P Q : A → Type 0) (xs : List A) → All P xs → All Q xs → All (λ x. P x × Q x) xs
All-both P Q [] a b = tt
All-both P Q (x ∷ xs) a b = ((a.0, b.0), All-both P Q xs a.1 b.1)

-- The ids of a log are below its next one.
pub find_id_below :
    (segs : List Segment) (id a id' a' : ℕ) (m : BTreeMap EntryLoc) (es : List Entry) (k : ℕ)
    (e : Entry)
    → Stored segs id a id' a' m es
    → find_id k es ≡ some e
    → k < id'
find_id_below segs id a id' a' m [] k e h f = cc
find_id_below segs id a id' a' [] (g ∷ es) k e h f = absurd h
find_id_below segs id a id' a' (p ∷ m) (g ∷ es) k e h f =
    let b = Stored-le segs (g.0 + 1) (address p.1 + p.1.len) id' a' m es h.4 in
    elim (Bool-cases (k == g.0)) [
      | inl same ↦ omega (arith, b, (==_iff k g.0).0 same)
      | inr other ↦
          find_id_below segs (g.0 + 1) (address p.1 + p.1.len) id' a' m es k e h.4
            (sym (ap (λ t. if t then some g else find_id k es) other) ∙ f)
    ]

pub find_id-append :
    (k : ℕ) (e f : Entry) (es : List Entry)
    → find_id k es ≡ some e
    → find_id k (es ++ f ∷ []) ≡ some e
find_id-append k e f [] h = cc
find_id-append k e f (g ∷ es) h = ground (arith, h, find_id-append k e f es)

pub find_id-append_new :
    (k : ℕ) (f : Entry) (es : List Entry)
    → find_id k es ≡ none
    → k ≡ f.0
    → find_id k (es ++ f ∷ []) ≡ some f
find_id-append_new k f [] h q = ground (arith, q)
find_id-append_new k f (g ∷ es) h q = ground (arith, h, find_id-append_new k f es)

pub find_id-ids_from :
    (k cutoff : ℕ) (es : List Entry) → cutoff ≤ k → find_id k (ids_from cutoff es) ≡ find_id k es
find_id-ids_from k cutoff [] h = refl
find_id-ids_from k cutoff (g ∷ es) h = ground (arith, h, find_id-ids_from k cutoff es h)

pub times-ids_below :
    (k cutoff : ℕ) (e : Entry) (es : List Entry)
    → k < cutoff
    → find_id k es ≡ some e
    → 0 < times k (map (λ f. f.0) (ids_below cutoff es))
times-ids_below k cutoff e [] h f = cc
times-ids_below k cutoff e (g ∷ es) h f = ground (arith, h, f, times-ids_below k cutoff e es h)

module _ (build_key : Text → ℕ → ℕ) (name : Text) where
  -- An item stands for an entry of the log, under the key of its id.
  abbrev pub Backed : List Entry → Item LogEntry → Type 0
  Backed es x = (x.key ≡ build_key name x.value.id) × (find_id x.value.id es ≡ some (row x.value))

  -- The items that are left when the keys of some ids are removed.
  abbrev pub dropped : List ℕ → List (Item LogEntry) → List (Item LogEntry)
  dropped [] xs = xs
  dropped (id ∷ ids) xs = dropped ids (removed (build_key name id) xs).1
