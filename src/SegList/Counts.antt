-- ===== src/SegList/Counts.antt =====
-- `pop_count` (server/src/db/seg_list.rs): its loop runs once more than the count.
use segmented_memory_storage.Common.{
  ℕ, zero, suc, ◌≤◌, ◌≡◌, refl, sym, inr, some, List, [], ◌∷◌, ◌++◌, arith, length,
}
use mathlib.Core.Path.{subst}
use segmented_memory_storage.Common.Outcome.{ok, err}
use segmented_memory_storage.Common.Texts.{Text}
use segmented_memory_storage.SegList.State.{SegList, key_not_found}
use segmented_memory_storage.SegList.Ops.{pop_times, pop_count}
use segmented_memory_storage.SegList.View.{
  Queues, assign, assign_self, assign_twice, assign_same, Represents,
}
use segmented_memory_storage.SegList.Pops.{pop-Represents, pop_nothing}

module _ (key : Text) where
  -- As many pops as there are items in front.
  pop_times-Represents :
      (front back : List (List ℕ)) (s : SegList) (q : Queues)
      → Represents s q
      → q key ≡ some (front ++ back)
      → (s' : SegList) × (pop_times (length front) key s ≡ (ok front, s'))
        × Represents s' (assign key back q)
  unfolding pop_times
  pop_times-Represents [] back s q r e =
      (s, refl, subst (λ w. Represents s w) (sym (assign_same key back q e)) r)
  pop_times-Represents (x ∷ front) back s q r e =
      let (s1, popped, r1) = pop-Represents s q r key x (front ++ back) e in
      let (s2, rest, r2) =
        pop_times-Represents front back s1 (assign key (front ++ back) q) r1
          (assign_self key (front ++ back) q) in
      (
        s2,
        ground (arith, popped, rest),
        subst (λ w. Represents s2 w) (assign_twice key back (front ++ back) q) r2,
      )

  -- More pops than there are items: the last one fails, and all items are gone.
  pop_times_exhausted :
      (xs : List (List ℕ)) (n : ℕ) (s : SegList) (q : Queues)
      → Represents s q
      → q key ≡ some xs
      → length xs ≤ n
      → (s' : SegList) × (pop_times (suc n) key s ≡ (err key_not_found, s'))
        × Represents s' (assign key [] q)
  unfolding pop_times
  pop_times_exhausted [] n s q r e h = (
    s,
    ground (arith, pop_nothing s q r key (inr e)),
    subst (λ w. Represents s w) (sym (assign_same key [] q e)) r,
  )
  pop_times_exhausted (x ∷ xs) zero s q r e h = absurd (omega arith)
  pop_times_exhausted (x ∷ xs) (suc n) s q r e h =
      let (s1, popped, r1) = pop-Represents s q r key x xs e in
      let (s2, failed, r2) =
        pop_times_exhausted xs n s1 (assign key xs q) r1 (assign_self key xs q) (omega arith) in
      (
        s2,
        ground (arith, popped, failed),
        subst (λ w. Represents s2 w) (assign_twice key [] xs q) r2,
      )

  -- `pop_count` with a count of `n` returns and removes the `n + 1` oldest items, where there are so
  -- many.
  pub pop_count-Represents :
      (x : List ℕ) (front back : List (List ℕ)) (s : SegList) (q : Queues)
      → Represents s q
      → q key ≡ some (x ∷ (front ++ back))
      → (s' : SegList) × (pop_count key (length front) s ≡ (ok (x ∷ front), s'))
        × Represents s' (assign key back q)
  unfolding pop_count
  pop_count-Represents x front back s q r e = pop_times-Represents (x ∷ front) back s q r e

  -- `pop_count` with a count of all the items that there are, or of more, fails, and the items are
  -- lost: the queue is empty behind it.
  pub pop_count_exhausted :
      (xs : List (List ℕ)) (n : ℕ) (s : SegList) (q : Queues)
      → Represents s q
      → q key ≡ some xs
      → length xs ≤ n
      → (s' : SegList) × (pop_count key n s ≡ (err key_not_found, s'))
        × Represents s' (assign key [] q)
  unfolding pop_count
  pop_count_exhausted xs n s q r e h = pop_times_exhausted xs n s q r e h
