-- ===== src/Lru/Runs.antt =====
-- Calls of `LRU` one after another (server/src/db/lru.rs), against a list in the order of use.
use segmented_memory_storage.Common.{
  ℕ, ◌+◌, ◌≤◌, ◌<◌, ◌≡◌, refl, ap, ◌∙◌, Option, none, List, [], ◌∷◌, arith,
}
use segmented_memory_storage.Common.Outcome.{Outcome, bind_ok, ok, pure, ◌>>◌}
use segmented_memory_storage.Lru.State.{null, Lru}
use segmented_memory_storage.Lru.Ops.{Method, new, insert, remove, get}
use segmented_memory_storage.Lru.Links.{Node}
use segmented_memory_storage.Lru.Recent.{Item, inserted, removed, got, items}
use segmented_memory_storage.Lru.Represented.{Represents}
use segmented_memory_storage.Lru.Added.{Result}
use segmented_memory_storage.Lru.Refines.{get-Result, remove-Result}
use segmented_memory_storage.Lru.Inserts.{insert-Result, new-Represents}

-- A call of a method, with what the clock says in it.
pub data Call (V : Type 0) : Type 0 where
  insert_at : ℕ → ℕ → V → Call V
  get_at : ℕ → ℕ → Call V
  remove_key : ℕ → Call V

module _ {V : Type 0} where
  abbrev pub perform : Call V → Method V (Option V)
  perform (insert_at now key value) = insert now key value >> pure none
  perform (get_at now key) = get now key
  perform (remove_key key) = remove key

  -- What the calls return, one after another.
  abbrev pub answers : List (Call V) → Lru V → List (Outcome (Unit {0}) (Option V))
  answers [] l = []
  answers (c ∷ cs) l = let (a, l') = perform c l in a ∷ answers cs l'

  -- The same of a list in the order of use, with the entry used last in front.
  abbrev pub listed : ℕ → ℕ → Call V → List (Item V) → Option V × List (Item V)
  listed cap ttl (insert_at now key value) xs =
      (none, inserted cap (record { key = key; value = value; expires_at = now + ttl }) xs)
  listed cap ttl (get_at now key) xs = got now key xs
  listed cap ttl (remove_key key) xs = removed key xs

  abbrev pub listed_answers :
      ℕ → ℕ → List (Call V) → List (Item V) → List (Outcome (Unit {0}) (Option V))
  listed_answers cap ttl [] xs = []
  listed_answers cap ttl (c ∷ cs) xs =
      let (a, xs') = listed cap ttl c xs in ok a ∷ listed_answers cap ttl cs xs'

  perform-Result :
      (l : Lru V) (es : List (Node V)) (c : Call V)
      → Represents l es
      → 0 < l.cap
      → Result l
          (perform c l)
          (listed l.cap l.ttl c (items es)).0
          (listed l.cap l.ttl c (items es)).1
  perform-Result l es (insert_at now key value) r positive =
      let i = insert-Result l es now key value r positive in
      record {
        after = i.after;
        nodes = i.nodes;
        ends = bind_ok (insert now key value) (λ _. pure none) l tt i.after i.ends;
        holds = i.holds;
        stands = i.stands;
        same_cap = i.same_cap;
        same_ttl = i.same_ttl;
      }
  perform-Result l es (get_at now key) r positive = get-Result l es now key r
  perform-Result l es (remove_key key) r positive = remove-Result l es key r

  answers_from :
      (cap ttl : ℕ) (cs : List (Call V)) (l : Lru V) (es : List (Node V)) (xs : List (Item V))
      → Represents l es
      → items es ≡ xs
      → l.cap ≡ cap
      → l.ttl ≡ ttl
      → 0 < cap
      → answers cs l ≡ listed_answers cap ttl cs xs
  answers_from cap ttl [] l es xs r stands same_cap same_ttl positive = refl
  answers_from cap ttl (c ∷ cs) l es xs r stands same_cap same_ttl positive =
      let p = perform-Result l es c r (omega (arith, positive, same_cap)) in
      let same : listed l.cap l.ttl c (items es) ≡ listed cap ttl c xs =
        ap (λ n. listed n l.ttl c (items es)) same_cap
        ∙ ap (λ n. listed cap n c (items es)) same_ttl
        ∙ ap (listed cap ttl c) stands in
      ap (λ q. q.0 ∷ answers cs q.1) p.ends
      ∙ ap (λ q. ok q.0 ∷ answers cs p.after) same
      ∙ ap (λ zs. ok (listed cap ttl c xs).0 ∷ zs)
          (answers_from cap ttl cs p.after p.nodes (listed cap ttl c xs).1 p.holds
            (p.stands ∙ ap (λ q. q.1) same) (p.same_cap ∙ same_cap) (p.same_ttl ∙ same_ttl)
            positive)

  -- Whatever is called on a new cache, every call returns, none panics, and the values are those of a
  -- list in the order of use: the capacity is at least 1 and less than 2^64.
  pub answers-listed_answers :
      (cap ttl : ℕ) (cs : List (Call V))
      → 0 < cap
      → cap ≤ null
      → answers cs (new cap ttl) ≡ listed_answers cap ttl cs []
  unfolding new
  answers-listed_answers cap ttl cs positive fits =
      answers_from cap ttl cs (new cap ttl) [] [] (new-Represents cap ttl fits) refl refl refl
        positive
