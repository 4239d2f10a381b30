-- ===== src/SegList/Batches.antt =====
-- `push_range` (server/src/db/seg_list.rs) against the queues.
use segmented_memory_storage.Common.{
  ℕ, ◌+◌, ◌≤◌, ◌<◌, ◌≡◌, refl, inl, inr, true, List, [], ◌∷◌, ◌++◌, arith, length, ltb, Bool-cases,
  All,
}
use mathlib.Core.List.{append-nil, append_assoc}
use segmented_memory_storage.Common.Outcome.{ok}
use segmented_memory_storage.Common.Texts.{Text}
use segmented_memory_storage.Segment.{segment_size, header_size}
use segmented_memory_storage.SegList.State.{SegList}
use segmented_memory_storage.SegList.Ops.{push_each, push_range}
use segmented_memory_storage.SegList.View.{
  Queues, assign, queue, assign_twice, queue-assign, Represents,
}
use segmented_memory_storage.SegList.Pushes.{ready, push-Represents}

-- What `push_range` asks of its items.
abbrev pub AllFit : List (List ℕ) → Type 0
AllFit = All (λ item. header_size + length item ≤ segment_size)

push_each-Represents :
    (items : List (List ℕ)) (old : List (List ℕ)) (s : SegList) (q : Queues) (key : Text)
    → Represents s (assign key old q)
    → AllFit items
    → (s' : SegList) × (push_each true key items s ≡ (ok tt, s'))
      × Represents s' (assign key (old ++ items) q)
unfolding push_each
push_each-Represents [] old s q key r fit = (s, refl, rw (append-nil old) r)
push_each-Represents (item ∷ items) old s q key r fit =
    let (s1, pushed_one, r1) =
      push-Represents true s (assign key old q) key item r fit.0 (inr refl) in
    let r1' : Represents s1 (assign key (old ++ item ∷ []) q) =
      rw (queue-assign key old q, assign_twice key (old ++ item ∷ []) old q) at r1 in
    let (s2, rest, r2) = push_each-Represents items (old ++ item ∷ []) s1 q key r1' fit.1 in
    (s2, ground (arith, pushed_one, rest), rw (append_assoc old (item ∷ []) items) at r2)

push_some-Represents :
    (items : List (List ℕ)) (s : SegList) (q : Queues) (key : Text)
    → Represents s q
    → 0 < length items
    → AllFit items
    → (s' : SegList) × (push_each true key items s ≡ (ok tt, s'))
      × Represents s' (assign key (queue key q ++ items) q)
unfolding push_each
push_some-Represents [] s q key r some_item fit = absurd (omega arith)
push_some-Represents (item ∷ items) s q key r some_item fit =
    let (s1, pushed_one, r1) = push-Represents true s q key item r fit.0 (inr refl) in
    let (s2, rest, r2) = push_each-Represents items (queue key q ++ item ∷ []) s1 q key r1 fit.1 in
    (s2, ground (arith, pushed_one, rest), rw (append_assoc (queue key q) (item ∷ []) items) at r2)

-- Where memory is always to be had, `push_range` puts a batch of at least one item, each of which fits
-- a segment, behind the others under its key, in order.
pub push_range-Represents :
    (items : List (List ℕ)) (s : SegList) (q : Queues) (key : Text)
    → Represents s q
    → 0 < length items
    → AllFit items
    → (s' : SegList) × (push_range true key items s ≡ (ok tt, s'))
      × Represents s' (assign key (queue key q ++ items) q)
unfolding push_range
push_range-Represents items s q key r some_item fit =
    elim (Bool-cases (ltb (length s.free_segs) (length items))) [
      | inl few ↦
          let (s1, grew, r1, _) = ready s q r in
          let (s2, done, r2) = push_some-Represents items s1 q key r1 some_item fit in
          (s2, ground (arith, grew, done), r2)
      | inr enough ↦
          let (s2, done, r2) = push_some-Represents items s q key r some_item fit in
          (s2, ground (arith, done), r2)
    ]
