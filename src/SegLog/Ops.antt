-- ===== src/SegLog/Ops.antt =====
-- The methods of `SegLog` (server/src/db/seg_log.rs), line by line. Integers of 64 bits wrap, as in
-- the release build. `available` says whether `alloc_zeroed` returns a segment.
use segmented_memory_storage.Common.{
  ℕ, zero, suc, ◌+◌, ◌-◌, ◌%◌, ◌^◌, Bool, false, Option, none, some, List, [], ◌∷◌, ◌++◌, map, ltb,
  leb, length, get_elem?, set, if◌then◌else◌,
}
use segmented_memory_storage.Common.BTreeMap
use segmented_memory_storage.Common.Outcome.{Outcome, ok, err, crash, Action, throw, ◌>>◌}
use segmented_memory_storage.Segment.{Segment, zeroed, segment_size, header_size, copy_from}
use segmented_memory_storage.SegLog.Entry.{write_entry, read_entry}
use segmented_memory_storage.SegLog.State.{
  SegLog, EntryLoc, LogError, entry_too_large, entry_not_found, allocation_failed,
  max_segments_reached, write_lock_unavailable, initial_segments, max_segments,
}

zeroed_segments : ℕ → List Segment
zeroed_segments zero = []
zeroed_segments (suc n) = zeroed ∷ zeroed_segments n

-- `SegLog::new`, which panics if a segment cannot be allocated.
unfoldable pub new : Bool → Outcome LogError SegLog
unfolding zeroed_segments
new available =
    if available
    then ok (record {
      segs = zeroed_segments initial_segments;
      active_seg = 0;
      write_cursor = 0;
      idx = [];
      next_id = 1;
      entry_count = 0;
      lock_write = false;
    })
    else crash

unfoldable pub allocate_seg : Bool → Action SegLog LogError (Unit {0})
allocate_seg available s =
    if leb max_segments (length s.segs)
    then (err max_segments_reached, s)
    else (if available
        then (ok tt, record s { segs = s.segs ++ zeroed ∷ [] })
        else (err allocation_failed, s))

-- `append` where the entry does not fit the active segment: the next one becomes active.
unfoldable pub roll_over : Bool → ℕ → Action SegLog LogError (Unit {0})
unfolding allocate_seg
roll_over available total s =
    let rolled = record s { active_seg = s.active_seg + 1; write_cursor = 0 } in
    if ltb segment_size (s.write_cursor + total)
    then (if leb (length rolled.segs) rolled.active_seg
        then allocate_seg available rolled
        else (ok tt, rolled))
    else (ok tt, s)

-- `append` from the lock on. The guard is released at the return.
unfoldable pub store : ℕ → List ℕ → ℕ → Action SegLog LogError ℕ
store timestamp payload total s =
    if s.lock_write
    then (err write_lock_unavailable, s)
    else (elim (get_elem? s.segs s.active_seg) [
      | none ↦ (crash, s)
      | some seg ↦ elim (write_entry seg s.write_cursor s.next_id timestamp payload) [
        | none ↦ (crash, s)
        | some seg' ↦ (
          ok s.next_id,
          record s {
            segs = set s.segs s.active_seg seg';
            idx =
                BTreeMap.insert s.next_id
                  (record { segment_idx = s.active_seg; offset = s.write_cursor; len = total })
                  s.idx;
            write_cursor = s.write_cursor + total;
            next_id = (s.next_id + 1) % 2 ^ 64;
            entry_count = (s.entry_count + 1) % 2 ^ 64;
          },
        )
      ]
    ])

unfoldable pub append : Bool → ℕ → List ℕ → Action SegLog LogError ℕ
append available timestamp payload =
    let total = header_size + length payload in
    if ltb segment_size total
    then throw entry_too_large
    else (roll_over available total >> store timestamp payload total)

-- The rest of `read` and of `get_raw_entry_slice`, once the index has the entry.
unfoldable pub read_at : SegLog → EntryLoc → Outcome LogError (ℕ × ℕ × List ℕ)
read_at s loc = elim (get_elem? s.segs loc.segment_idx) [
  | none ↦ crash
  | some seg ↦ elim (read_entry seg loc.offset) [ none ↦ crash | some e ↦ ok e ]
]

unfoldable pub read : SegLog → ℕ → Outcome LogError (ℕ × ℕ × List ℕ)
unfolding read_at
read s entry_id = elim (BTreeMap.lookup entry_id s.idx) [
  | none ↦ err entry_not_found
  | some loc ↦ read_at s loc
]

-- `self.read(id).ok()` for each id: the errors are left out, a panic is not.
abbrev pub collect_read :
    Outcome LogError (ℕ × ℕ × List ℕ)
    → Outcome LogError (List (ℕ × ℕ × List ℕ))
    → Outcome LogError (List (ℕ × ℕ × List ℕ))
collect_read (ok e) (ok es) = ok (e ∷ es)
collect_read (err _) rest = rest
collect_read _ _ = crash

unfoldable pub read_all : SegLog → List ℕ → Outcome LogError (List (ℕ × ℕ × List ℕ))
unfolding read
read_all s [] = ok []
read_all s (id ∷ ids) = collect_read (read s id) (read_all s ids)

-- `BTreeMap::range` panics where the start is behind the end.
unfoldable pub read_range : SegLog → ℕ → ℕ → Outcome LogError (List (ℕ × ℕ × List ℕ))
unfolding read_all
read_range s start end =
    if ltb end start
    then crash
    else read_all s (map (λ e. e.0) (BTreeMap.range_inclusive start end s.idx))

-- The first loop of `trim`.
unfoldable pub remove_ids : List ℕ → SegLog → SegLog
remove_ids [] s = s
remove_ids (id ∷ ids) s = remove_ids ids (record s {
  idx = BTreeMap.remove id s.idx;
  entry_count = (s.entry_count + 2 ^ 64 - 1) % 2 ^ 64;
})

-- The second loop of `trim`: `n` segments from `seg_idx` on are zeroed; `none` is a panic.
unfoldable pub zero_segments : ℕ → ℕ → List Segment → Option (List Segment)
zero_segments seg_idx zero segs = some segs
zero_segments seg_idx (suc n) segs = elim (get_elem? segs seg_idx) [
  | none ↦ none
  | some _ ↦ zero_segments (seg_idx + 1) n (set segs seg_idx zeroed)
]

-- `trim` behind its first loop: segments in front of the first live entry are zeroed.
unfoldable pub zero_dead : List ℕ → Action SegLog LogError (List ℕ)
unfolding zero_segments
zero_dead to_remove s = elim s.idx [
  | [] ↦ (ok to_remove, s)
  | (first ∷ _) ↦ elim (zero_segments 0 first.1.segment_idx s.segs) [
    | none ↦ (crash, s)
    | some segs ↦ (ok to_remove, record s { segs = segs })
  ]
]

unfoldable pub trim : ℕ → Action SegLog LogError (List ℕ)
unfolding remove_ids zero_dead
trim cutoff_id s =
    let to_remove = map (λ e. e.0) (BTreeMap.range_below cutoff_id s.idx) in
    zero_dead to_remove (remove_ids to_remove s)

unfoldable pub get_raw_entry_slice : SegLog → ℕ → Outcome LogError (List ℕ)
get_raw_entry_slice s entry_id = elim (BTreeMap.lookup entry_id s.idx) [
  | none ↦ err entry_not_found
  | some loc ↦ elim (get_elem? s.segs loc.segment_idx) [
    | none ↦ crash
    | some seg ↦ elim (copy_from seg loc.offset loc.len) [ none ↦ crash | some raw ↦ ok raw ]
  ]
]

pub total_entries : SegLog → ℕ
total_entries s = s.entry_count

pub total_segments : SegLog → ℕ
total_segments s = length s.segs

-- The method `next_id`.
pub get_next_id : SegLog → ℕ
get_next_id s = s.next_id
