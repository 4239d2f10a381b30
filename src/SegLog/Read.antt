-- ===== src/SegLog/Read.antt =====
-- The reading methods (server/src/db/seg_log.rs) agree with the entries that the log holds, and
-- never leave their segments.
use segmented_memory_storage.Common.{
  ℕ, ◌+◌, ◌*◌, ◌≤◌, ◌≡◌, refl, sym, ap, ◌∙◌, Option, none, some, List, [], ◌∷◌, arith, get_or,
  get_elem?_of_lt, leb, ltb, ◌&&◌, map, select, if◌then◌else◌, ℕ_discrete, eq→==, ne→==, All,
  All-imp, All-select, map-select,
}
use mathlib.Core.Path.{ap₂}
use segmented_memory_storage.Common.BTreeMap
use segmented_memory_storage.Common.BTreeMap.{BTreeMap}
use segmented_memory_storage.Common.Outcome.{Outcome, ok, err, crash}
use segmented_memory_storage.Segment.{Segment, zeroed, segment_size, copy_from_within}
use segmented_memory_storage.SegLog.Layout.{entry_bytes, read_entry-entry_bytes}
use segmented_memory_storage.SegLog.State.{SegLog, EntryLoc, LogError, entry_not_found}
use segmented_memory_storage.SegLog.Ops.{read_at, read, read_all, read_range, get_raw_entry_slice}
use segmented_memory_storage.SegLog.Stored.{
  Entry, Holds, Stored, Represents, address, find_id, ids_between,
}

-- What a lookup answers.
abbrev pub found : Option Entry → Outcome LogError Entry
found none = err entry_not_found
found (some e) = ok e

abbrev pub found_bytes : Option Entry → Outcome LogError (List ℕ)
found_bytes none = err entry_not_found
found_bytes (some e) = ok (entry_bytes e.0 e.1 e.2)

read_at-Holds :
    (s : SegLog) (loc : EntryLoc) (e : Entry) → Holds s.segs loc e → read_at s loc ≡ ok e
unfolding read_at
read_at-Holds s loc e h = ground (
  arith,
  get_elem?_of_lt s.segs loc.segment_idx zeroed h.placed,
  read_entry-entry_bytes (get_or s.segs loc.segment_idx zeroed) loc.offset e.0 e.1 e.2 h.id_fits
      h.timestamp_fits (omega (arith, h.sized, h.within)) (rw (← h.sized) h.bytes),
)

-- The index and the entries agree on every id.
data Agree (segs : List Segment) : Option EntryLoc → Option Entry → Type 0 where
  neither : Agree segs none none
  both : (loc : EntryLoc) (e : Entry) → Holds segs loc e → Agree segs (some loc) (some e)

Stored-Agree :
    (segs : List Segment) (id a id' a' : ℕ) (m : BTreeMap EntryLoc) (es : List Entry) (k : ℕ)
    → Stored segs id a id' a' m es
    → Agree segs (BTreeMap.lookup k m) (find_id k es)
Stored-Agree segs id a id' a' [] [] k h = neither
Stored-Agree segs id a id' a' [] (e ∷ es) k h = absurd h
Stored-Agree segs id a id' a' (p ∷ m) [] k h = absurd h
Stored-Agree segs id a id' a' (p ∷ m) (e ∷ es) k h = rw h.1 (elim (ℕ_discrete k e.0) [
  | yes q ↦ rw (eq→== k e.0 q) (both p.1 e h.3)
  | no q ↦
      rw (ne→== k e.0 q) (Stored-Agree segs (e.0 + 1) (address p.1 + p.1.len) id' a' m es k h.4)
])

module _ (s : SegLog) where
  Agree-read :
      (k : ℕ) (ol : Option EntryLoc) (oe : Option Entry)
      → BTreeMap.lookup k s.idx ≡ ol
      → Agree s.segs ol oe
      → read s k ≡ found oe
  unfolding read
  Agree-read k none none q neither = rw (read, q)
  Agree-read k none (some e) q h = elim h [ ]
  Agree-read k (some loc) none q h = elim h [ ]
  Agree-read k (some loc) (some e) q (both _ _ h) = rw (read, q) (read_at-Holds s loc e h)

  Agree-raw :
      (k : ℕ) (ol : Option EntryLoc) (oe : Option Entry)
      → BTreeMap.lookup k s.idx ≡ ol
      → Agree s.segs ol oe
      → get_raw_entry_slice s k ≡ found_bytes oe
  unfolding get_raw_entry_slice
  Agree-raw k none none q neither = rw (get_raw_entry_slice, q)
  Agree-raw k none (some e) q h = elim h [ ]
  Agree-raw k (some loc) none q h = elim h [ ]
  Agree-raw k (some loc) (some e) q (both _ _ h) = ground (
    arith,
    get_elem?_of_lt s.segs loc.segment_idx zeroed h.placed,
    copy_from_within (get_or s.segs loc.segment_idx zeroed) loc.offset loc.len h.within,
    h.bytes,
  )

-- The keys of the index are the ids of the entries, which go up.
Stored-keys :
    (segs : List Segment) (id a id' a' : ℕ) (m : BTreeMap EntryLoc) (es : List Entry)
    → Stored segs id a id' a' m es
    → map (λ p. p.0) m ≡ map (λ e. e.0) es
Stored-keys segs id a id' a' [] [] h = refl
Stored-keys segs id a id' a' [] (e ∷ es) h = absurd h
Stored-keys segs id a id' a' (p ∷ m) [] h = absurd h
Stored-keys segs id a id' a' (p ∷ m) (e ∷ es) h =
    ap₂ ◌∷◌ h.1 (Stored-keys segs (e.0 + 1) (address p.1 + p.1.len) id' a' m es h.4)

Stored_found :
    (segs : List Segment) (id a id' a' : ℕ) (m : BTreeMap EntryLoc) (es : List Entry)
    → Stored segs id a id' a' m es
    → All (λ f. (id ≤ f.0) × (find_id f.0 es ≡ some f)) es
Stored_found segs id a id' a' [] [] h = tt
Stored_found segs id a id' a' [] (e ∷ es) h = absurd h
Stored_found segs id a id' a' (p ∷ m) [] h = absurd h
Stored_found segs id a id' a' (p ∷ m) (e ∷ es) h = (
  (h.0, rw (eq→== e.0 e.0 refl)),
  All-imp es (λ f k. (omega arith, rw (ne→== f.0 e.0 (omega arith)) k.1))
      (Stored_found segs (e.0 + 1) (address p.1 + p.1.len) id' a' m es h.4),
)

read_all-ok :
    (s : SegLog) (fs : List Entry)
    → All (λ f. read s f.0 ≡ ok f) fs
    → read_all s (map (λ f. f.0) fs) ≡ ok fs
unfolding read_all
read_all-ok s [] h = refl
read_all-ok s (f ∷ fs) h = rw (h.0, read_all-ok s fs h.1)

module _ (s : SegLog) (es : List Entry) (r : Represents s es) where
  agree : (k : ℕ) → Agree s.segs (BTreeMap.lookup k s.idx) (find_id k es)
  agree k =
      Stored-Agree s.segs 0 0 s.next_id (s.active_seg * segment_size + s.write_cursor) s.idx es k
        r.stored

  -- `read` returns the entry with the id, or reports that there is none; it never panics.
  pub read-find_id : (k : ℕ) → read s k ≡ found (find_id k es)
  read-find_id k = Agree-read s k _ _ refl (agree k)

  -- The raw slice is the entry's bytes.
  pub get_raw_entry_slice-find_id : (k : ℕ) → get_raw_entry_slice s k ≡ found_bytes (find_id k es)
  get_raw_entry_slice-find_id k = Agree-raw s k _ _ refl (agree k)

  -- `read_range` returns, in order, the entries whose ids lie in the range; a range that ends before
  -- it starts panics.
  pub read_range-ids_between :
      (start end : ℕ)
      → read_range s start end ≡ (if ltb end start then crash else ok (ids_between start end es))
  unfolding read_range
  read_range-ids_between start end =
      let in_range = λ (k : ℕ). leb start k && leb k end in
      let same : map (λ p. p.0) (BTreeMap.range_inclusive start end s.idx)
          ≡ map (λ e. e.0) (ids_between start end es) =
        map-select (λ p. p.0) in_range s.idx
        ∙ ap (select in_range) (
            Stored-keys s.segs 0 0 s.next_id (s.active_seg * segment_size + s.write_cursor) s.idx es
              r.stored)
        ∙ sym (map-select (λ e. e.0) in_range es) in
      let readable : All (λ f. read s f.0 ≡ ok f) es =
        All-imp es (λ f k. read-find_id f.0 ∙ ap found k.1)
          (Stored_found s.segs 0 0 s.next_id (s.active_seg * segment_size + s.write_cursor) s.idx es
            r.stored) in
      ap (λ o. if ltb end start then crash else o)
        (ap (read_all s) same
          ∙ read_all-ok s (ids_between start end es) (All-select _ (λ e. in_range e.0) es readable))
