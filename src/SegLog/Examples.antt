-- ===== src/SegLog/Examples.antt =====
-- A small log, and the theorems on it (server/src/db/seg_log.rs).
use segmented_memory_storage.Common.{
  ℕ, zero, suc, ap, ◌+◌, ◌≡◌, refl, inl, true, false, List, [], ◌∷◌, ◌++◌, arith, ltb,
  if◌then◌else◌, map, length,
}
use segmented_memory_storage.Common.BTreeMap
use segmented_memory_storage.Common.Bytes.{to_le_bytes, from_le_bytes}
use segmented_memory_storage.Common.Outcome.{ok, err, crash}
use segmented_memory_storage.Segment.{zeroed, copy_to, copy_from}
use segmented_memory_storage.SegLog.Entry.{write_entry, read_entry}
use segmented_memory_storage.SegLog.State.{SegLog, allocation_failed, entry_not_found}
use segmented_memory_storage.SegLog.Ops.{
  allocate_seg, roll_over, store, append, read_at, read, read_all, read_range, trim, remove_ids,
  zero_segments, zero_dead, get_raw_entry_slice,
}
use segmented_memory_storage.SegLog.Stored.{
  Entry, Represents, find_id, ids_between, ids_from, ids_below,
}
use segmented_memory_storage.SegLog.Append.{append-Represents}
use segmented_memory_storage.SegLog.Read.{found, read-find_id, read_range-ids_between}
use segmented_memory_storage.SegLog.Trim.{trim-Represents}
use segmented_memory_storage.SegLog.Failure.{ends, append_failed_allocation}
use segmented_memory_storage.SegLog.History.{Call, run, notes, run-Represents}

program : Unit {0}
unfolding allocate_seg roll_over store append read_at read read_all read_range trim remove_ids
    zero_segments zero_dead get_raw_entry_slice write_entry read_entry copy_to copy_from to_le_bytes
    from_le_bytes BTreeMap.insert BTreeMap.remove run
program = tt

-- A log with two segments, of which nothing is written.
abbrev blank : SegLog
blank = record {
  segs = zeroed ∷ zeroed ∷ [];
  active_seg = 0;
  write_cursor = 0;
  idx = [];
  next_id = 1;
  entry_count = 0;
  lock_write = false;
}

blank-Represents : Represents blank []
blank-Represents = record {
  active = omega arith;
  cursor = omega arith;
  unlocked = refl;
  counted = refl;
  id_left = omega arith;
  stored = omega arith;
}

abbrev calls : List Call
calls = Call.add 100 (7 ∷ 8 ∷ []) ∷ Call.add 200 [] ∷ Call.add 300 (9 ∷ []) ∷ []

abbrev entries : List Entry
entries = (1, 100, 7 ∷ 8 ∷ []) ∷ (2, 200, []) ∷ (3, 300, 9 ∷ []) ∷ []

abbrev filled : SegLog
filled = run calls blank

filled-Represents : Represents filled entries
filled-Represents =
    run-Represents calls blank [] blank-Represents (omega arith) (omega arith) (omega arith)

read_second : read filled 2 ≡ ok (2, 200, [])
unfolding program
read_second = refl

read_behind_trim : read (trim 3 filled).1 2 ≡ err entry_not_found
unfolding program
read_behind_trim = refl

append-Represents_example :
    (s' : SegLog) × (append false 400 (5 ∷ []) filled ≡ (ok filled.next_id, s'))
    × Represents s' (entries ++ (filled.next_id, 400, 5 ∷ []) ∷ [])
    × (s'.next_id ≡ filled.next_id + 1)
unfolding program
append-Represents_example =
    append-Represents filled entries filled-Represents false 400 (5 ∷ []) (omega arith)
      (inl (omega arith)) (omega arith) (omega arith)

read-find_id_example : read filled 2 ≡ found (find_id 2 entries)
read-find_id_example = read-find_id filled entries filled-Represents 2

read_range-ids_between_example :
    read_range filled 2 9 ≡ (if ltb 9 2 then crash else ok (ids_between 2 9 entries))
read_range-ids_between_example = read_range-ids_between filled entries filled-Represents 2 9

trim-Represents_example :
    (s' : SegLog) × (trim 3 filled ≡ (ok (map (λ e. e.0) (ids_below 3 entries)), s'))
    × Represents s' (ids_from 3 entries)
    × (s'.next_id ≡ filled.next_id)
    × (length s'.segs ≡ length filled.segs)
trim-Represents_example = trim-Represents filled entries filled-Represents 3

run-Represents_example : Represents (run calls blank) (notes calls (1, [])).1
run-Represents_example =
    run-Represents calls blank [] blank-Represents (omega arith) (omega arith) (omega arith)

-- The last segment is full.
abbrev full : SegLog
full = record blank { active_seg = 1; write_cursor = 65536 }

full-Represents : Represents full []
full-Represents = record {
  active = omega arith;
  cursor = omega arith;
  unlocked = refl;
  counted = refl;
  id_left = omega arith;
  stored = omega arith;
}

append_failed_allocation_example :
    (s' : SegLog) × (append false 5 (1 ∷ []) full ≡ (err allocation_failed, s'))
    × (ends ((true, 6, []) ∷ (false, 7, 2 ∷ []) ∷ []) s' ≡ crash ∷ crash ∷ [])
append_failed_allocation_example =
    append_failed_allocation full [] full-Represents 5 (1 ∷ [])
      ((true, 6, []) ∷ (false, 7, 2 ∷ []) ∷ []) (omega arith) (omega arith) (omega arith)
      (omega arith) (omega arith)

-- A payload of `n` zeros.
zeros : ℕ → List ℕ
zeros zero = []
zeros (suc n) = 0 ∷ zeros n

length-zeros : (n : ℕ) → length (zeros n) ≡ n
unfolding zeros
length-zeros zero = refl
length-zeros (suc n) = ap suc (length-zeros n)
