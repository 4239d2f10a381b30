-- ===== src/SegList/Pushes.antt =====
-- `push` and `len` (server/src/db/seg_list.rs) against the queues.
use segmented_memory_storage.Common.{
  ℕ, ◌+◌, ◌/◌, ◌≤◌, ◌<◌, ◌≡◌, refl, ap, ◌⊎◌, inl, inr, Bool, true, Option, none, some, List, [],
  ◌∷◌, ◌++◌, arith, length, ◌==◌, eq→==, ne→==, Bool-cases,
}
use segmented_memory_storage.Common.HashMap
use segmented_memory_storage.Common.Outcome.{ok, err}
use segmented_memory_storage.Common.Texts.{Text}
use segmented_memory_storage.Segment.{Segment, segment_size, header_size, put_at}
use segmented_memory_storage.SegList.State.{Pointer, SegList, entry_too_large}
use segmented_memory_storage.SegList.Ops.{
  write_heap, entry_or_new, push_segment, push, grow_segs, initial_space, list_len,
}
use segmented_memory_storage.SegList.Grows.{grown, length-grown, grown-Represents, grow_segs-grown}
use segmented_memory_storage.SegList.Owned.{
  count, count_written, count_entry, count_entry-le, count-append, count_written-insert,
}
use segmented_memory_storage.SegList.Payload.{len_bytes, write_payload-put_at, put_at-HoldsPayload}
use segmented_memory_storage.SegList.View.{
  Queues, assign, queue, HoldsAll, HoldsEntry, Represents, HoldsEntry-frame, HoldsAll-append,
  HoldsAll-length,
}
use segmented_memory_storage.SegList.Carried.{HoldsEntry-insert}

abbrev fresh_segs : ℕ
fresh_segs = initial_space / segment_size

-- A key without a list counts as one with an empty list.
HoldsEntry_or_new :
    (heap : Pointer → Segment) (ops : Option (List Pointer)) (oxs : Option (List (List ℕ)))
    → HoldsEntry heap ops oxs
    → HoldsAll heap (elim ops [ none ↦ [] | some ps ↦ ps ]) (elim oxs [ none ↦ [] | some xs ↦ xs ])
HoldsEntry_or_new heap none none h = tt
HoldsEntry_or_new heap none (some xs) h = absurd h
HoldsEntry_or_new heap (some ps) none h = absurd h
HoldsEntry_or_new heap (some ps) (some xs) h = h

count-entry_or_new :
    (p : ℕ) (ops : Option (List Pointer))
    → count p (elim ops [ none ↦ [] | some ps ↦ ps ]) ≡ count_entry p ops
count-entry_or_new p none = refl
count-entry_or_new p (some ps) = refl

module _ (s : SegList) (q : Queues) (r : Represents s q) where
  -- `list_len` counts the items of the queue, and makes an empty one under a new key.
  pub list_len-Represents :
      (key : Text)
      → (s' : SegList) × (list_len key s ≡ (ok (length (queue key q)), s'))
        × Represents s' (assign key (queue key q) q)
  unfolding list_len
  list_len-Represents key =
      let segs = entry_or_new key s in
      let held =
        HoldsEntry_or_new s.memory.heap (HashMap.lookup key s.written) (q key) (r.holds key) in
      (
        record s { written = HashMap.insert key segs s.written },
        ground (arith, HoldsAll-length s.memory.heap segs (queue key q) held),
        record {
          owned = λ p. omega (
            arith,
            r.owned p,
            count_written-insert p key segs s.written,
            count-entry_or_new p (HashMap.lookup key s.written),
          );
          holds = HoldsEntry-insert s.memory.heap s.written q key segs (queue key q) r.holds held;
        },
      )

  -- The state behind the copies of `push`.
  abbrev pushed : Text → List ℕ → Pointer → List Pointer → SegList
  pushed key payload p rest = record s {
    free_segs = rest;
    memory = write_heap p (put_at (s.memory.heap p) 16 (len_bytes payload ++ payload)) s.memory;
    written = HashMap.insert key (entry_or_new key s ++ p ∷ []) s.written;
  }

  push_segment-pushed :
      (key : Text) (payload : List ℕ) (p : Pointer) (rest : List Pointer)
      → s.free_segs ≡ p ∷ rest
      → header_size + length payload ≤ segment_size
      → push_segment key payload s ≡ (ok tt, pushed key payload p rest)
  unfolding push_segment
  push_segment-pushed key payload p rest e fits =
      ground (arith, e, write_payload-put_at (s.memory.heap p) payload fits)

  pushed-Represents :
      (key : Text) (payload : List ℕ) (p : Pointer) (rest : List Pointer)
      → s.free_segs ≡ p ∷ rest
      → header_size + length payload ≤ segment_size
      → Represents (pushed key payload p rest) (assign key (queue key q ++ payload ∷ []) q)
  pushed-Represents key payload p rest e fits = record {
    owned = λ t. omega (
      arith,
      r.owned t,
      ap (count t) e,
      count_written-insert t key (segs ++ p ∷ []) s.written,
      count-append t segs (p ∷ []),
      count-entry_or_new t (HashMap.lookup key s.written),
    );
    holds =
        HoldsEntry-insert heap' s.written q key (segs ++ p ∷ []) (queue key q ++ payload ∷ [])
          framed
          (HoldsAll-append heap' segs (p ∷ []) (queue key q) (payload ∷ [])
            (HoldsEntry_or_new heap' (HashMap.lookup key s.written) (q key) (framed key))
            (rw (eq→== p p refl) (put_at-HoldsPayload (s.memory.heap p) payload fits), tt));
  }
    where
      segs : List Pointer
      segs = entry_or_new key s

      heap' : Pointer → Segment
      heap' = (pushed key payload p rest).memory.heap

      unheld : count_written p s.written ≡ 0
      unheld = ground (arith, r.owned p, ap (count p) e)

      framed : (k : Text) → HoldsEntry heap' (HashMap.lookup k s.written) (q k)
      framed k =
          HoldsEntry-frame s.memory.heap heap' (HashMap.lookup k s.written) (q k)
            (λ t inside. rw (
              ne→== t p (λ same. absurd (
                omega (
                  arith,
                  unheld,
                  ap (λ u. count_entry u (HashMap.lookup k s.written)) same,
                  count_entry-le p k s.written,
                  inside,
                )))))
            (r.holds k)

push_segment-Represents :
    (s : SegList) (q : Queues) (key : Text) (payload : List ℕ)
    → Represents s q
    → header_size + length payload ≤ segment_size
    → 0 < length s.free_segs
    → (s' : SegList) × (push_segment key payload s ≡ (ok tt, s'))
      × Represents s' (assign key (queue key q ++ payload ∷ []) q)
push_segment-Represents s q key payload r fits some_free = go s.free_segs refl
  where
    go :
        (free : List Pointer)
        → s.free_segs ≡ free
        → (s' : SegList) × (push_segment key payload s ≡ (ok tt, s'))
          × Represents s' (assign key (queue key q ++ payload ∷ []) q)
    go [] e = absurd (omega (arith, ap length e))
    go (p ∷ rest) e = (
      pushed s q r key payload p rest,
      push_segment-pushed s q r key payload p rest e fits,
      pushed-Represents s q r key payload p rest e fits,
    )

-- Behind the first step of `push` and of `push_range` a segment is free.
pub ready :
    (s : SegList) (q : Queues)
    → Represents s q
    → (s' : SegList) × (grow_segs true s ≡ (ok tt, s'))
      × Represents s' q
      × (0 < length s'.free_segs)
ready s q r = (
  grown fresh_segs s,
  grow_segs-grown s,
  grown-Represents fresh_segs s q r,
  omega (arith, length-grown fresh_segs s),
)

-- `push` puts the payload behind the others under its key, if it fits a segment and one is free or
-- can be had.
pub push-Represents :
    (available : Bool) (s : SegList) (q : Queues) (key : Text) (payload : List ℕ)
    → Represents s q
    → header_size + length payload ≤ segment_size
    → (0 < length s.free_segs) ⊎ (available ≡ true)
    → (s' : SegList) × (push available key payload s ≡ (ok tt, s'))
      × Represents s' (assign key (queue key q ++ payload ∷ []) q)
unfolding push
push-Represents available s q key payload r fits room =
    elim (Bool-cases (length s.free_segs == 0)) [
      | inl empty ↦
          let (s1, grew, r1, some_free) = ready s q r in
          let (s2, done, r2) = push_segment-Represents s1 q key payload r1 fits some_free in
          let can : available ≡ true = ground arith in (s2, rw can (ground (arith, grew, done)), r2)
      | inr free ↦
          let (s2, done, r2) = push_segment-Represents s q key payload r fits (ground arith) in
          (s2, ground (arith, done), r2)
    ]

-- A payload that does not fit a segment is refused; no queue changes, though segments may have been
-- added.
pub push_too_large :
    (available : Bool) (s : SegList) (q : Queues) (key : Text) (payload : List ℕ)
    → Represents s q
    → segment_size < header_size + length payload
    → (0 < length s.free_segs) ⊎ (available ≡ true)
    → (s' : SegList) × (push available key payload s ≡ (err entry_too_large, s')) × Represents s' q
unfolding push
push_too_large available s q key payload r large room =
    elim (Bool-cases (length s.free_segs == 0)) [
      | inl empty ↦
          let (s1, grew, r1, some_free) = ready s q r in
          let can : available ≡ true = ground arith in (s1, rw can (ground (arith, grew)), r1)
      | inr free ↦ (s, ground arith, r)
    ]
