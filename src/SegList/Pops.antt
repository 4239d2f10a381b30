-- ===== src/SegList/Pops.antt =====
-- `pop`, `pop_count`, `pop_range` and `flush` (server/src/db/seg_list.rs) against the queues.
use segmented_memory_storage.Common.{
  ℕ, zero, suc, ◌+◌, ◌-◌, ◌≤◌, ◌<◌, ◌≡◌, refl, sym, ap, ◌∙◌, ◌⊎◌, inl, inr, Option, none, some,
  List, [], ◌∷◌, ◌++◌, arith, length, take, drop, le→ltb, lt→ltb, take-append-drop,
}
use segmented_memory_storage.Common.HashMap
use segmented_memory_storage.Common.Outcome.{ok, err, crash}
use segmented_memory_storage.Common.Texts.{Text}
use segmented_memory_storage.Segment.{Segment}
use segmented_memory_storage.SegList.State.{Pointer, SegList, key_not_found, out_of_range}
use segmented_memory_storage.SegList.Ops.{pop_first, pop, drain_range, pop_range, flush, zero_all}
use segmented_memory_storage.SegList.Owned.{count, count-append}
use segmented_memory_storage.SegList.View.{
  Queues, assign, HoldsAll, HoldsEntry, Represents, HoldsAll-append, HoldsAll-length, HoldsAll-take,
  HoldsAll-drop,
}
use segmented_memory_storage.SegList.Carried.{
  freed, detach-Carries, freed-Carries, release-freed, Carries-Represents, release_all-Represents,
  zero_all-Represents,
}

-- The list of segments under a key that has a queue, and none under another key.
entry_of :
    (heap : Pointer → Segment) (ops : Option (List Pointer)) (xs : List (List ℕ))
    → HoldsEntry heap ops (some xs)
    → (ps : List Pointer) × (ops ≡ some ps) × HoldsAll heap ps xs
entry_of heap none xs h = absurd h
entry_of heap (some ps) xs h = (ps, refl, h)

no_entry :
    (heap : Pointer → Segment) (ops : Option (List Pointer)) → HoldsEntry heap ops none → ops ≡ none
no_entry heap none h = refl
no_entry heap (some ps) h = absurd h

-- A list splits into what stays and what is taken.
count_split :
    (n : ℕ) (ps : List Pointer) (t : ℕ) → count t ps ≡ count t (take n ps) + count t (drop n ps)
count_split n ps t =
    ap (count t) (sym (take-append-drop n ps)) ∙ count-append t (take n ps) (drop n ps)

drop-drop : (m n : ℕ) (ps : List Pointer) → drop n (drop m ps) ≡ drop (m + n) ps
drop-drop zero n ps = let e : 0 + n ≡ n = omega arith in rw e
drop-drop (suc m) zero [] = let e : suc m + 0 ≡ suc (m + 0) = omega arith in rw e
drop-drop (suc m) (suc n) [] = let e : suc m + suc n ≡ suc (m + suc n) = omega arith in rw e
drop-drop (suc m) n (p ∷ ps) =
    let e : suc m + n ≡ suc (m + n) = omega arith in rw e (drop-drop m n ps)

count_parts :
    (start end : ℕ) (ps : List Pointer)
    → start ≤ end
    → (t : ℕ)
    → count t ps
      ≡ count t (take start ps ++ drop end ps) + count t (take (end - start) (drop start ps))
count_parts start end ps ordered t =
    let e : start + (end - start) ≡ end = omega arith in
    omega (
      arith,
      count_split start ps t,
      count_split (end - start) (drop start ps) t,
      count-append t (take start ps) (drop end ps),
      ap (count t) (drop-drop start (end - start) ps),
      ap (λ n. count t (drop n ps)) e,
    )

module _ (s : SegList) (q : Queues) (r : Represents s q) (key : Text) where
  found :
      (xs : List (List ℕ))
      → q key ≡ some xs
      → (ps : List Pointer) × (HashMap.lookup key s.written ≡ some ps)
        × HoldsAll s.memory.heap ps xs
  found xs e = entry_of s.memory.heap (HashMap.lookup key s.written) xs (rw e at (r.holds key))

  not_found : q key ≡ none → HashMap.lookup key s.written ≡ none
  not_found e = no_entry s.memory.heap (HashMap.lookup key s.written) (rw e at (r.holds key))

  -- `pop` returns the oldest item of the queue and removes it.
  pub pop-Represents :
      (x : List ℕ) (xs : List (List ℕ))
      → q key ≡ some (x ∷ xs)
      → (s' : SegList) × (pop key s ≡ (ok x, s')) × Represents s' (assign key xs q)
  unfolding pop pop_first
  pop-Represents x xs e = go (found (x ∷ xs) e)
    where
      go :
          (ps : List Pointer) × (HashMap.lookup key s.written ≡ some ps)
            × HoldsAll s.memory.heap ps (x ∷ xs)
          → (s' : SegList) × (pop key s ≡ (ok x, s')) × Represents s' (assign key xs q)
      go ([], looked, held) = absurd held
      go (p ∷ ps, looked, held) =
          let s1 = record s { written = HashMap.insert key ps s.written } in
          let c =
            detach-Carries s q key (p ∷ ps) ps (p ∷ []) xs (x ∷ []) r looked (λ t. omega arith)
              held.1 (held.0, tt) in
          (
            freed p s1,
            ground (arith, looked, release-freed s1 p [] x [] (assign key xs q) c),
            Carries-Represents (freed p s1) (assign key xs q)
                (freed-Carries s1 p [] x [] (assign key xs q) c),
          )

  -- An empty queue, or none, is reported, and nothing changes.
  pub pop_nothing : (q key ≡ none) ⊎ (q key ≡ some []) → pop key s ≡ (err key_not_found, s)
  unfolding pop pop_first
  pop_nothing (inl e) = rw (pop, not_found e)
  pop_nothing (inr e) = go (found [] e)
    where
      go :
          (ps : List Pointer) × (HashMap.lookup key s.written ≡ some ps)
            × HoldsAll s.memory.heap ps []
          → pop key s ≡ (err key_not_found, s)
      go ([], looked, held) = ground (arith, looked)
      go (p ∷ ps, looked, held) = absurd held

  -- `flush` empties the queue.
  pub flush-Represents :
      (xs : List (List ℕ))
      → q key ≡ some xs
      → (s' : SegList) × (flush key s ≡ (ok tt, s')) × Represents s' (assign key [] q)
  unfolding flush
  flush-Represents xs e =
      let (ps, looked, held) = found xs e in
      let s1 = record s { written = HashMap.insert key [] s.written } in
      let c = detach-Carries s q key ps [] ps [] xs r looked (λ t. omega arith) tt held in
      (zero_all ps s1, ground (arith, looked), zero_all-Represents ps s1 xs (assign key [] q) c)

  -- `pop_range` takes the items from `start` to before `end` out of the queue.
  pub pop_range-Represents :
      (start end : ℕ) (xs : List (List ℕ))
      → q key ≡ some xs
      → start ≤ end
      → end ≤ length xs
      → (s' : SegList) × (pop_range key start end s ≡ (ok (take (end - start) (drop start xs)), s'))
        × Represents s' (assign key (take start xs ++ drop end xs) q)
  unfolding pop_range drain_range
  pop_range-Represents start end xs e ordered within =
      let (ps, looked, held) = found xs e in
      let kept = take start ps ++ drop end ps in
      let hand = take (end - start) (drop start ps) in
      let s1 = record s { written = HashMap.insert key kept s.written } in
      let c =
        detach-Carries s q key ps kept hand (take start xs ++ drop end xs)
          (take (end - start) (drop start xs)) r looked (count_parts start end ps ordered)
          (HoldsAll-append s.memory.heap _ _ _ _ (HoldsAll-take s.memory.heap start ps xs held)
            (HoldsAll-drop s.memory.heap end ps xs held))
          (HoldsAll-take s.memory.heap (end - start) (drop start ps) (drop start xs)
            (HoldsAll-drop s.memory.heap start ps xs held)) in
      let (s', done, r') = release_all-Represents hand s1 _ _ c in
      (
        s',
        ground (
          arith,
          looked,
          done,
          le→ltb (length ps) end (omega (arith, HoldsAll-length s.memory.heap ps xs held)),
          le→ltb end start ordered,
        ),
        r',
      )

  -- A range that ends past the queue is refused, and the list does not change.
  pub pop_range_past_end :
      (start end : ℕ) (xs : List (List ℕ))
      → q key ≡ some xs
      → length xs < end
      → pop_range key start end s ≡ (err out_of_range, s)
  unfolding pop_range drain_range
  pop_range_past_end start end xs e past =
      let (ps, looked, held) = found xs e in
      ground (
        arith,
        looked,
        lt→ltb (length ps) end (omega (arith, HoldsAll-length s.memory.heap ps xs held)),
      )

  -- A range within the queue that ends before it starts panics.
  pub pop_range_backwards :
      (start end : ℕ) (xs : List (List ℕ))
      → q key ≡ some xs
      → end ≤ length xs
      → end < start
      → pop_range key start end s ≡ (crash, s)
  unfolding pop_range drain_range
  pop_range_backwards start end xs e within backwards =
      let (ps, looked, held) = found xs e in
      ground (
        arith,
        looked,
        le→ltb (length ps) end (omega (arith, HoldsAll-length s.memory.heap ps xs held)),
        lt→ltb end start backwards,
      )
