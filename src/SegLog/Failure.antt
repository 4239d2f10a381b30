-- ===== src/SegLog/Failure.antt =====
-- What a failed allocation leaves behind in `append` (server/src/db/seg_log.rs): the active segment
-- has moved past the end of the vector.
use segmented_memory_storage.Common.{
  ℕ, ◌+◌, ◌≤◌, ◌<◌, ◌≡◌, refl, ap, ◌∙◌, Bool, false, List, [], ◌∷◌, All, arith, length,
  get_elem?_of_le,
}
use segmented_memory_storage.Common.Outcome.{Outcome, crash, err}
use segmented_memory_storage.Segment.{segment_size, header_size}
use segmented_memory_storage.SegLog.State.{SegLog, LogError, allocation_failed, max_segments}
use segmented_memory_storage.SegLog.Ops.{allocate_seg, roll_over, store, append}
use segmented_memory_storage.SegLog.Stored.{Entry, Represents}

-- Appends one after another, each with whether memory is to be had, and how each of them ends.
abbrev pub Appends : Type 0
Appends = List (Bool × ℕ × List ℕ)

abbrev pub ends : Appends → SegLog → List (Outcome LogError ℕ)
ends [] s = []
ends (a ∷ appends) s = let (r, s') = append a.0 a.1 a.2 s in r ∷ ends appends s'

abbrev pub all_crash : Appends → List (Outcome LogError ℕ)
all_crash [] = []
all_crash (a ∷ appends) = crash ∷ all_crash appends

abbrev pub FitsSegment : Bool × ℕ × List ℕ → Type 0
FitsSegment a = header_size + length a.2 ≤ segment_size

-- The active segment is past the end, and the cursor at the start of it.
record Lost (s : SegLog) : Type 0 where
  past : length s.segs ≤ s.active_seg
  at_start : s.write_cursor ≡ 0
  unlocked : s.lock_write ≡ false

append-Lost :
    (s : SegLog) (available : Bool) (ts : ℕ) (payload : List ℕ)
    → Lost s
    → header_size + length payload ≤ segment_size
    → append available ts payload s ≡ (crash, s)
unfolding append roll_over store
append-Lost s available ts payload l fits =
    ground (arith, get_elem?_of_le s.segs s.active_seg l.past, l.at_start, l.unlocked, fits)

ends-Lost :
    (appends : Appends) (s : SegLog)
    → Lost s
    → All FitsSegment appends
    → ends appends s ≡ all_crash appends
ends-Lost [] s l fits = refl
ends-Lost (a ∷ appends) s l fits =
    ap (λ p. p.0 ∷ ends appends p.1) (append-Lost s a.0 a.1 a.2 l fits.0)
    ∙ ap (λ rs. crash ∷ rs) (ends-Lost appends s l fits.1)

module _ (s : SegLog) (es : List Entry) (r : Represents s es) where
  abbrev past_end : SegLog
  past_end = record s { active_seg = s.active_seg + 1; write_cursor = 0 }

  -- With the last segment full and no memory for another, an append reports that the allocation
  -- failed; of the appends that follow, however many, each of an entry that fits a segment, every
  -- one panics, whether or not memory has become available again.
  pub append_failed_allocation :
      (ts : ℕ) (payload : List ℕ) (appends : Appends)
      → header_size + length payload ≤ segment_size
      → All FitsSegment appends
      → segment_size < s.write_cursor + (header_size + length payload)
      → length s.segs ≤ s.active_seg + 1
      → length s.segs < max_segments
      → (s' : SegLog) × (append false ts payload s ≡ (err allocation_failed, s'))
        × (ends appends s' ≡ all_crash appends)
  unfolding append roll_over allocate_seg
  append_failed_allocation ts payload appends small fit full last below = (
    past_end,
    ground arith,
    ends-Lost appends past_end (record { past = last; at_start = refl; unlocked = r.unlocked }) fit,
  )
