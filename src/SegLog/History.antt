-- ===== src/SegLog/History.antt =====
-- Any sequence of appends and trims on a log (server/src/db/seg_log.rs), against the same sequence
-- on a plain list of entries.
use segmented_memory_storage.Common.{
  ℕ, ◌+◌, ◌^◌, ◌≤◌, ◌<◌, ◌≡◌, refl, inr, true, List, [], ◌∷◌, ◌++◌, arith, length, leb,
  if◌then◌else◌, All, dec_lt, le→leb, lt→leb,
}
use mathlib.Core.Path.{subst}
use segmented_memory_storage.Common.Outcome.{ok}
use segmented_memory_storage.Segment.{segment_size, header_size}
use segmented_memory_storage.SegLog.State.{SegLog, max_segments}
use segmented_memory_storage.SegLog.Ops.{new, append, trim}
use segmented_memory_storage.SegLog.Stored.{Entry, Represents, ids_from}
use segmented_memory_storage.SegLog.Append.{append-Represents, append_too_large, append-segs}
use segmented_memory_storage.SegLog.Trim.{trim-Represents}

pub data Call : Type 0 where
  add : ℕ → List ℕ → Call
  cut : ℕ → Call

-- The calls one after the other; a caller that gets an error goes on.
unfoldable pub run : List Call → SegLog → SegLog
run [] s = s
run (add ts payload ∷ calls) s = run calls (append true ts payload s).1
run (cut cutoff ∷ calls) s = run calls (trim cutoff s).1

-- The next id and the entries, under the same calls.
abbrev pub note : ℕ × List Entry → Call → ℕ × List Entry
note (n, es) (add ts payload) =
    if leb (header_size + length payload) segment_size
    then (n + 1, es ++ (n, ts, payload) ∷ [])
    else (n, es)
note (n, es) (cut cutoff) = (n, ids_from cutoff es)

abbrev pub notes : List Call → ℕ × List Entry → ℕ × List Entry
notes [] h = h
notes (c ∷ calls) h = notes calls (note h c)

abbrev pub HasTimestamp : Call → Type 0
HasTimestamp (add ts payload) = ts < 2 ^ 64
HasTimestamp (cut cutoff) = Unit

-- One call.
pub record Keeps (s : SegLog) (s' : SegLog) (h : ℕ × List Entry) : Type 0 where
  pub represents : Represents s' h.1
  pub next : s'.next_id ≡ h.0
  pub few : length s'.segs ≤ length s.segs + 1
  pub near : s'.next_id ≤ s.next_id + 1

add-Keeps :
    (s : SegLog) (es : List Entry) (ts : ℕ) (payload : List ℕ)
    → Represents s es
    → ts < 2 ^ 64
    → s.next_id + 1 < 2 ^ 64
    → length s.segs < max_segments
    → Keeps s (append true ts payload s).1 (note (s.next_id, es) (add ts payload))
add-Keeps s es ts payload r hts left below =
    elim (dec_lt segment_size (header_size + length payload)) [
      | yes large ↦
          rw (append_too_large s es r true ts payload large, lt→leb _ _ large)
            (record { represents = r; next = refl; few = omega arith; near = omega arith })
      | no fits ↦
          let (s', done, r', next) =
            append-Represents s es r true ts payload (omega arith) (inr (inr (refl, below))) hts
              left in
          rw (le→leb (header_size + length payload) segment_size (omega arith)) (record {
            represents = rw done r';
            next = rw done next;
            few = append-segs s true ts payload;
            near = rw done (omega (arith, next));
          })
    ]

cut-Keeps :
    (s : SegLog) (es : List Entry) (cutoff : ℕ)
    → Represents s es
    → Keeps s (trim cutoff s).1 (note (s.next_id, es) (cut cutoff))
cut-Keeps s es cutoff r =
    let (s', done, r', next, few) = trim-Represents s es r cutoff in
    record {
      represents = rw done r';
      next = rw done next;
      few = rw done (omega (arith, few));
      near = rw done (omega (arith, next));
    }

-- After any calls the log holds what the same calls leave of a plain list. Every append of an entry
-- that fits a segment has succeeded, as long as memory, segments and ids last.
pub run-Represents :
    (calls : List Call) (s : SegLog) (es : List Entry)
    → Represents s es
    → All HasTimestamp calls
    → s.next_id + length calls < 2 ^ 64
    → length s.segs + length calls ≤ max_segments
    → Represents (run calls s) (notes calls (s.next_id, es)).1
unfolding run
run-Represents [] s es r h left below = r
run-Represents (add ts payload ∷ calls) s es r h left below =
    let k = add-Keeps s es ts payload r h.0 (omega arith) (omega arith) in
    let s' = (append true ts payload s).1 in
    let h' = note (s.next_id, es) (add ts payload) in
    subst (λ n. Represents (run calls s') (notes calls (n, h'.1)).1) k.next
      (run-Represents calls s' h'.1 k.represents h.1 (omega (arith, k.near)) (omega (arith, k.few)))
run-Represents (cut cutoff ∷ calls) s es r h left below =
    let k = cut-Keeps s es cutoff r in
    let s' = (trim cutoff s).1 in
    let h' = note (s.next_id, es) (cut cutoff) in
    subst (λ n. Represents (run calls s') (notes calls (n, h'.1)).1) k.next
      (run-Represents calls s' h'.1 k.represents h.1 (omega (arith, k.near)) (omega (arith, k.few)))

-- A new log holds nothing, and its first id is 1.
pub new-Represents :
    (s : SegLog) × (new true ≡ ok s) × Represents s [] × (s.next_id ≡ 1) × (length s.segs ≡ 8)
unfolding new
new-Represents = (
  _,
  refl,
  record {
    active = omega arith;
    cursor = omega arith;
    unlocked = refl;
    counted = refl;
    id_left = omega arith;
    stored = omega arith;
  },
  refl,
  refl,
)
