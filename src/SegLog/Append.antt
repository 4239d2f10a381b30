-- ===== src/SegLog/Append.antt =====
-- `append` (server/src/db/seg_log.rs) adds one entry to what the log holds, or reports why it does
-- not.
use segmented_memory_storage.Common.{
  ℕ, ◌+◌, ◌*◌, ◌^◌, ◌≤◌, ◌<◌, ◌≡◌, refl, ◌⊎◌, Bool, true, List, [], ◌∷◌, ◌++◌, arith, length,
  length-append, length-set, dec_lt,
}
use mathlib.Core.Path.{subst}
use segmented_memory_storage.Common.Outcome.{ok, err}
use segmented_memory_storage.Segment.{zeroed, segment_size, header_size}
use segmented_memory_storage.SegLog.State.{SegLog, entry_too_large, max_segments}
use segmented_memory_storage.SegLog.Ops.{allocate_seg, roll_over, store, append}
use segmented_memory_storage.SegLog.Stored.{Entry, Represents, Stored_mono, Stored-segs}
use segmented_memory_storage.SegLog.Placed.{Holds-append, stored, store-stored, stored-Represents}

-- There is room for `total` bytes: in the active segment, in the next one, or in one that can be
-- allocated.
abbrev pub HasRoom : Bool → ℕ → SegLog → Type 0
HasRoom available total s =
    (s.write_cursor + total ≤ segment_size)
    ⊎ (s.active_seg + 1 < length s.segs)
    ⊎ ((available ≡ true) × (length s.segs < max_segments))

-- The two states that `roll_over` can move to.
abbrev next_active : SegLog → SegLog
next_active s = record s { active_seg = s.active_seg + 1; write_cursor = 0 }

abbrev grown : SegLog → SegLog
grown s = record s { active_seg = s.active_seg + 1; write_cursor = 0; segs = s.segs ++ zeroed ∷ [] }

module _ (s : SegLog) (es : List Entry) (r : Represents s es) where
  next_active-Represents : s.active_seg + 1 < length s.segs → Represents (next_active s) es
  next_active-Represents h = record {
    active = h;
    cursor = omega arith;
    unlocked = r.unlocked;
    counted = r.counted;
    id_left = r.id_left;
    stored =
        Stored_mono s.segs 0 0 s.next_id (s.active_seg * segment_size + s.write_cursor) s.idx es 0 0
          s.next_id ((s.active_seg + 1) * segment_size + 0) (omega arith) (omega arith)
          (omega arith) (omega (arith, r.cursor)) r.stored;
  }

  grown-Represents : length s.segs ≤ s.active_seg + 1 → Represents (grown s) es
  grown-Represents h = record {
    active = omega (arith, r.active, length-append s.segs (zeroed ∷ []));
    cursor = omega arith;
    unlocked = r.unlocked;
    counted = r.counted;
    id_left = r.id_left;
    stored =
        Stored_mono (grown s).segs 0 0 s.next_id (s.active_seg * segment_size + s.write_cursor)
          s.idx es 0 0 s.next_id ((s.active_seg + 1) * segment_size + 0) (omega arith) (omega arith)
          (omega arith) (omega (arith, r.cursor))
          (Stored-segs s.segs (grown s).segs 0 0 0 s.next_id
            (s.active_seg * segment_size + s.write_cursor) s.idx es
            (λ l f _ _ held. Holds-append s.segs (zeroed ∷ []) l f held) (omega arith) r.stored);
  }

  roll_over-Represents :
      (available : Bool) (total : ℕ)
      → total ≤ segment_size
      → HasRoom available total s
      → (s' : SegLog) × (roll_over available total s ≡ (ok tt, s'))
        × Represents s' es
        × (s'.write_cursor + total ≤ segment_size)
        × (s'.next_id ≡ s.next_id)
  unfolding roll_over allocate_seg
  roll_over-Represents available total small room =
      elim (dec_lt segment_size (s.write_cursor + total)) [
        | no fits ↦ (s, ground arith, r, omega arith, refl)
        | yes full ↦ elim (dec_lt (s.active_seg + 1) (length s.segs)) [
          | yes next ↦
              (next_active s, ground arith, next_active-Represents next, small_at_zero, refl)
          | no last ↦ (grown s, ground arith, grown-Represents (omega arith), small_at_zero, refl)
        ]
      ]
    where
      small_at_zero : 0 + total ≤ segment_size
      small_at_zero = omega arith

  -- An append of an entry that fits a segment, with room for it and an id left, succeeds: it returns
  -- the next id, and the log then holds what it held with the entry behind.
  pub append-Represents :
      (available : Bool) (ts : ℕ) (payload : List ℕ)
      → header_size + length payload ≤ segment_size
      → HasRoom available (header_size + length payload) s
      → ts < 2 ^ 64
      → s.next_id + 1 < 2 ^ 64
      → (s' : SegLog) × (append available ts payload s ≡ (ok s.next_id, s'))
        × Represents s' (es ++ (s.next_id, ts, payload) ∷ [])
        × (s'.next_id ≡ s.next_id + 1)
  unfolding append
  append-Represents available ts payload small room hts left =
      let total = header_size + length payload in
      let (s1, rolled, r1, fits, same) = roll_over-Represents available total small room in
      (
        stored s1 ts payload,
        ground (arith, rolled, store-stored s1 es r1 ts payload fits),
        subst (λ n. Represents (stored s1 ts payload) (es ++ (n, ts, payload) ∷ [])) same
            (stored-Represents s1 es r1 ts payload fits hts (omega arith)),
        omega arith,
      )

  -- An entry larger than a segment is refused, and nothing changes.
  pub append_too_large :
      (available : Bool) (ts : ℕ) (payload : List ℕ)
      → segment_size < header_size + length payload
      → append available ts payload s ≡ (err entry_too_large, s)
  unfolding append
  append_too_large available ts payload h = ground arith

module _ (s : SegLog) where
  roll_over-segs :
      (available : Bool) (total : ℕ)
      → length (roll_over available total s).1.segs ≤ length s.segs + 1
  unfolding roll_over allocate_seg
  roll_over-segs available total = ground (arith, length-append s.segs (zeroed ∷ []))

  store-segs :
      (ts : ℕ) (payload : List ℕ) (total : ℕ)
      → length (store ts payload total s).1.segs ≡ length s.segs
  unfolding store
  store-segs ts payload total = grind (arith, length-set)

-- An append allocates one segment at most.
pub append-segs :
    (s : SegLog) (available : Bool) (ts : ℕ) (payload : List ℕ)
    → length (append available ts payload s).1.segs ≤ length s.segs + 1
unfolding append
append-segs s available ts payload =
    let total = header_size + length payload in
    ground (
      arith,
      roll_over-segs s available total,
      store-segs (roll_over available total s).1 ts payload total,
    )
