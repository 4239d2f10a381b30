-- ===== src/SegLog/Stored.antt =====
-- What it is for the index and the segments of a log to hold a sequence of entries: the
-- specification that the methods of server/src/db/seg_log.rs are held to.
use segmented_memory_storage.Common.{
  ℕ, ◌+◌, ◌*◌, ◌^◌, ◌≤◌, ◌<◌, ◌≡◌, sym, le→ltb, ne→==, false, Option, none, some, List, [], ◌∷◌,
  ◌++◌, arith, length, get_or, ltb, leb, ◌==◌, if◌then◌else◌, select, ◌&&◌,
}
use segmented_memory_storage.Common.BTreeMap
use segmented_memory_storage.Common.BTreeMap.{BTreeMap}
use segmented_memory_storage.Segment.{Segment, zeroed, segment_size, header_size, bytes_at}
use segmented_memory_storage.SegLog.Layout.{entry_bytes}
use segmented_memory_storage.SegLog.State.{SegLog, EntryLoc}

-- Id, timestamp and payload.
abbrev pub Entry : Type 0
Entry = ℕ × ℕ × List ℕ

-- Places in the segments, counted through.
abbrev pub address : EntryLoc → ℕ
address loc = loc.segment_idx * segment_size + loc.offset

-- The bytes of an entry lie where its location says, inside one segment.
pub record Holds (segs : List Segment) (loc : EntryLoc) (e : Entry) : Type 0 where
  pub placed : loc.segment_idx < length segs
  pub sized : loc.len ≡ header_size + length e.2
  pub within : loc.offset + loc.len ≤ segment_size
  pub id_fits : e.0 < 2 ^ 64
  pub timestamp_fits : e.1 < 2 ^ 64
  pub bytes :
      bytes_at (get_or segs loc.segment_idx zeroed) loc.offset loc.len ≡ entry_bytes e.0 e.1 e.2

-- The index lists the entries with ids and places that go up, from `id` and `a` to below `id'` and
-- `a'`, and no two places overlap.
abbrev pub Stored : List Segment → ℕ → ℕ → ℕ → ℕ → BTreeMap EntryLoc → List Entry → Type 0
Stored segs id a id' a' [] [] = (id ≤ id') × (a ≤ a')
Stored segs id a id' a' [] (e ∷ es) = ⊥
Stored segs id a id' a' (p ∷ m) [] = ⊥
Stored segs id a id' a' (p ∷ m) (e ∷ es) =
    (id ≤ e.0)
    × (p.0 ≡ e.0)
    × (a ≤ address p.1)
    × Holds segs p.1 e
    × Stored segs (e.0 + 1) (address p.1 + p.1.len) id' a' m es

-- The log `s` holds the entries `es`, oldest first.
pub record Represents (s : SegLog) (es : List Entry) : Type 0 where
  pub active : s.active_seg < length s.segs
  pub cursor : s.write_cursor ≤ segment_size
  pub unlocked : s.lock_write ≡ false
  pub counted : s.entry_count ≡ length es
  pub id_left : s.next_id < 2 ^ 64
  pub stored : Stored s.segs 0 0 s.next_id (s.active_seg * segment_size + s.write_cursor) s.idx es

-- The specification's lookup, and its two ways to cut a log.
abbrev pub find_id : ℕ → List Entry → Option Entry
find_id id [] = none
find_id id (e ∷ es) = if id == e.0 then some e else find_id id es

abbrev pub ids_between : ℕ → ℕ → List Entry → List Entry
ids_between lo hi = select (λ e. leb lo e.0 && leb e.0 hi)

abbrev pub ids_from : ℕ → List Entry → List Entry
ids_from cutoff = select (λ e. leb cutoff e.0)

abbrev pub ids_below : ℕ → List Entry → List Entry
ids_below cutoff = select (λ e. ltb e.0 cutoff)

module _ (segs : List Segment) where
  pub Stored-le :
      (id a id' a' : ℕ) (m : BTreeMap EntryLoc) (es : List Entry)
      → Stored segs id a id' a' m es
      → (id + length es ≤ id') × (a ≤ a')
  Stored-le id a id' a' [] [] h = omega arith
  Stored-le id a id' a' [] (e ∷ es) h = absurd h
  Stored-le id a id' a' (p ∷ m) [] h = absurd h
  Stored-le id a id' a' (p ∷ m) (e ∷ es) h =
      omega (arith, Stored-le (e.0 + 1) (address p.1 + p.1.len) id' a' m es h.4)

  -- The lower bounds may be lowered, the upper ones raised.
  pub Stored_mono :
      (id a id' a' : ℕ) (m : BTreeMap EntryLoc) (es : List Entry) (lo b hi c : ℕ)
      → lo ≤ id
      → b ≤ a
      → id' ≤ hi
      → a' ≤ c
      → Stored segs id a id' a' m es
      → Stored segs lo b hi c m es
  Stored_mono id a id' a' [] [] lo b hi c h1 h2 h3 h4 h = omega arith
  Stored_mono id a id' a' [] (e ∷ es) lo b hi c h1 h2 h3 h4 h = h
  Stored_mono id a id' a' (p ∷ m) [] lo b hi c h1 h2 h3 h4 h = h
  Stored_mono id a id' a' (p ∷ m) (e ∷ es) lo b hi c h1 h2 h3 h4 h = (
    omega arith,
    h.1,
    omega arith,
    h.3,
    Stored_mono (e.0 + 1) (address p.1 + p.1.len) id' a' m es (e.0 + 1) (address p.1 + p.1.len) hi c
        (omega arith) (omega arith) h3 h4 h.4,
  )

  -- A new entry behind all others.
  pub Stored-insert :
      (id a id' a' : ℕ) (m : BTreeMap EntryLoc) (es : List Entry) (loc : EntryLoc) (e : Entry)
      → e.0 ≡ id'
      → a' ≤ address loc
      → Holds segs loc e
      → Stored segs id a id' a' m es
      → Stored segs id a
          (e.0 + 1)
          (address loc + loc.len)
          (BTreeMap.insert id' loc m)
          (es ++ e ∷ [])
  unfolding BTreeMap.insert
  Stored-insert id a id' a' [] [] loc e q r k h =
      (omega arith, sym q, omega arith, k, (omega arith, omega arith))
  Stored-insert id a id' a' [] (f ∷ es) loc e q r k h = absurd h
  Stored-insert id a id' a' (p ∷ m) [] loc e q r k h = absurd h
  Stored-insert id a id' a' (p ∷ m) (f ∷ es) loc e q r k h =
      let b = Stored-le (f.0 + 1) (address p.1 + p.1.len) id' a' m es h.4 in
      rw (le→ltb id' p.0 (omega arith), ne→== id' p.0 (omega arith))
        (
          h.0,
          h.1,
          h.2,
          h.3,
          Stored-insert (f.0 + 1) (address p.1 + p.1.len) id' a' m es loc e q r k h.4,
        )

-- Other segments that hold the same entries in the range of places `base` to `a'`.
pub Stored-segs :
    (segs segs' : List Segment) (base id a id' a' : ℕ) (m : BTreeMap EntryLoc) (es : List Entry)
    → ((loc : EntryLoc) (e : Entry)
        → base ≤ address loc
        → address loc + loc.len ≤ a'
        → Holds segs loc e
        → Holds segs' loc e)
    → base ≤ a
    → Stored segs id a id' a' m es
    → Stored segs' id a id' a' m es
Stored-segs segs segs' base id a id' a' [] [] keep b h = h
Stored-segs segs segs' base id a id' a' [] (e ∷ es) keep b h = h
Stored-segs segs segs' base id a id' a' (p ∷ m) [] keep b h = h
Stored-segs segs segs' base id a id' a' (p ∷ m) (e ∷ es) keep b h =
    let q = Stored-le segs (e.0 + 1) (address p.1 + p.1.len) id' a' m es h.4 in
    (
      h.0,
      h.1,
      h.2,
      keep p.1 e (omega arith) (omega arith) h.3,
      Stored-segs segs segs' base (e.0 + 1) (address p.1 + p.1.len) id' a' m es keep (omega arith)
          h.4,
    )
