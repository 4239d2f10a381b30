-- ===== src/SegList/Examples.antt =====
-- A small list, and the theorems on it (server/src/db/seg_list.rs).
use segmented_memory_storage.Common.{
  ℕ, zero, suc, ap, ◌≡◌, refl, sym, inl, true, false, none, some, List, [], ◌∷◌, ◌++◌, arith,
  length, take, drop,
}
use segmented_memory_storage.Common.Bytes.{to_le_bytes, from_le_bytes}
use mathlib.Core.Path.{subst}
use segmented_memory_storage.Common.HashMap
use segmented_memory_storage.Common.Outcome.{ok}
use segmented_memory_storage.Common.Texts.{Text, text_eq}
use segmented_memory_storage.Segment.{zeroed, copy_to, copy_from}
use segmented_memory_storage.SegList.State.{SegList}
use segmented_memory_storage.SegList.Ops.{
  push_segment, push, push_each, push_range, pop_first, pop, pop_times, pop_count, release,
  release_all, drain_range, pop_range, list_len, zero_all, flush, write_payload, read_payload,
}
use segmented_memory_storage.SegList.View.{Queues, assign, queue, Represents}
use segmented_memory_storage.SegList.Pops.{pop-Represents, pop_range-Represents}
use segmented_memory_storage.SegList.Counts.{pop_count-Represents}
use segmented_memory_storage.SegList.Pushes.{push-Represents}
use segmented_memory_storage.SegList.Batches.{push_range-Represents}

program : Unit {0}
unfolding push_segment push push_each push_range pop_first pop pop_times pop_count release
    release_all drain_range pop_range list_len zero_all flush write_payload read_payload copy_to
    copy_from to_le_bytes from_le_bytes text_eq HashMap.lookup HashMap.insert
program = tt

abbrev key : Text
key = 107 ∷ []

-- Four free segments and no queue.
abbrev blank : SegList
blank = record {
  written = [];
  free_segs = 0 ∷ 1 ∷ 2 ∷ 3 ∷ [];
  memory = record { heap = λ _. zeroed; allocated = 4 };
}

abbrev no_queues : Queues
no_queues = λ k. none

blank-Represents : Represents blank no_queues
unfolding HashMap.lookup
blank-Represents = record { owned = λ p. ground arith; holds = λ k. tt }

abbrev items : List (List ℕ)
items = (5 ∷ 6 ∷ []) ∷ [] ∷ (7 ∷ []) ∷ []

abbrev filled : SegList
filled = (push_range true key items blank).1

-- The queue behind the pushes.
abbrev queued : Queues
queued = assign key items no_queues

filled-Represents : Represents filled queued
filled-Represents =
    let (s', done, r) =
      push_range-Represents items blank no_queues key blank-Represents (omega arith)
        (omega arith) in
    subst (λ w. Represents w.1 queued) (sym done) r

queued-items : queued key ≡ some items
unfolding text_eq
queued-items = refl

pop_oldest : (pop key filled).0 ≡ ok (5 ∷ 6 ∷ [])
unfolding program
pop_oldest = refl

-- A count of one pops two items.
pop_count_two : (pop_count key 1 filled).0 ≡ ok ((5 ∷ 6 ∷ []) ∷ [] ∷ [])
unfolding program
pop_count_two = refl

push-Represents_example :
    (s' : SegList) × (push false key (9 ∷ []) filled ≡ (ok tt, s'))
    × Represents s' (assign key (queue key queued ++ (9 ∷ []) ∷ []) queued)
unfolding program
push-Represents_example =
    push-Represents false filled queued key (9 ∷ []) filled-Represents (omega arith)
      (inl (omega arith))

push_range-Represents_example :
    (s' : SegList) × (push_range true key items blank ≡ (ok tt, s'))
    × Represents s' (assign key (queue key no_queues ++ items) no_queues)
push_range-Represents_example =
    push_range-Represents items blank no_queues key blank-Represents (omega arith) (omega arith)

pop-Represents_example :
    (s' : SegList) × (pop key filled ≡ (ok (5 ∷ 6 ∷ []), s'))
    × Represents s' (assign key ([] ∷ (7 ∷ []) ∷ []) queued)
pop-Represents_example =
    pop-Represents filled queued filled-Represents key (5 ∷ 6 ∷ []) ([] ∷ (7 ∷ []) ∷ [])
      queued-items

pop_count-Represents_example :
    (s' : SegList) × (pop_count key 1 filled ≡ (ok ((5 ∷ 6 ∷ []) ∷ [] ∷ []), s'))
    × Represents s' (assign key ((7 ∷ []) ∷ []) queued)
pop_count-Represents_example =
    pop_count-Represents key (5 ∷ 6 ∷ []) ([] ∷ []) ((7 ∷ []) ∷ []) filled queued filled-Represents
      queued-items

pop_range-Represents_example :
    (s' : SegList) × (pop_range key 1 2 filled ≡ (ok (take 1 (drop 1 items)), s'))
    × Represents s' (assign key (take 1 items ++ drop 2 items) queued)
pop_range-Represents_example =
    pop_range-Represents filled queued filled-Represents key 1 2 items queued-items (omega arith)
      (omega arith)

-- A payload of `n` zeros.
zeros : ℕ → List ℕ
zeros zero = []
zeros (suc n) = 0 ∷ zeros n

length-zeros : (n : ℕ) → length (zeros n) ≡ n
unfolding zeros
length-zeros zero = refl
length-zeros (suc n) = ap suc (length-zeros n)
