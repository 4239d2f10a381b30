-- ===== src/SegLog/Trim.antt =====
-- `trim` (server/src/db/seg_log.rs) forgets the entries below the cutoff and no other, and the
-- segments that it zeroes hold none of those that stay.
use segmented_memory_storage.Common.{
  ℕ, zero, suc, ◌+◌, ◌-◌, ◌*◌, ◌%◌, ◌^◌, ◌≤◌, ◌<◌, ◌≡◌, refl, sym, ◌∙◌, some, List, [], ◌∷◌, arith,
  length, length-set, get_or, get_or-set_ne, get_elem?_of_lt, set, le→ltb, lt→ltb, lt→leb, le→leb,
  dec_lt, map,
}
use mathlib.Core.Path.{ap₂, subst}
use segmented_memory_storage.Common.BTreeMap
use segmented_memory_storage.Common.BTreeMap.{BTreeMap}
use segmented_memory_storage.Common.Outcome.{ok}
use segmented_memory_storage.Segment.{Segment, zeroed, segment_size}
use segmented_memory_storage.SegLog.State.{SegLog, EntryLoc}
use segmented_memory_storage.SegLog.Ops.{remove_ids, zero_segments, zero_dead, trim}
use segmented_memory_storage.SegLog.Stored.{
  Entry, Holds, Stored, Represents, address, ids_from, ids_below, Stored-le, Stored_mono,
  Stored-segs,
}

abbrev keys_below : ℕ → BTreeMap EntryLoc → List ℕ
keys_below cutoff m = map (λ e. e.0) (BTreeMap.range_below cutoff m)

remove_each : List ℕ → BTreeMap EntryLoc → BTreeMap EntryLoc
remove_each [] m = m
remove_each (id ∷ ids) m = remove_each ids (BTreeMap.remove id m)

module _ (segs : List Segment) (cutoff : ℕ) where
  -- From an id at the cutoff on, nothing is below it.
  keys_below_none :
      (id a id' a' : ℕ) (m : BTreeMap EntryLoc) (es : List Entry)
      → cutoff ≤ id
      → Stored segs id a id' a' m es
      → (keys_below cutoff m ≡ [])
        × (map (λ e. e.0) (ids_below cutoff es) ≡ [])
        × (ids_from cutoff es ≡ es)
  keys_below_none id a id' a' [] [] b h = (refl, refl, refl)
  keys_below_none id a id' a' [] (e ∷ es) b h = absurd h
  keys_below_none id a id' a' (p ∷ m) [] b h = absurd h
  keys_below_none id a id' a' (p ∷ m) (e ∷ es) b h = ground (
    arith,
    h.0,
    h.1,
    keys_below_none (e.0 + 1) (address p.1 + p.1.len) id' a' m es (omega arith) h.4,
  )

  -- The loop removes exactly the entries below the cutoff.
  Stored_cut :
      (id a id' a' : ℕ) (m : BTreeMap EntryLoc) (es : List Entry)
      → Stored segs id a id' a' m es
      → Stored segs id a id' a' (remove_each (keys_below cutoff m) m) (ids_from cutoff es)
        × (keys_below cutoff m ≡ map (λ e. e.0) (ids_below cutoff es))
        × (length (keys_below cutoff m) + length (ids_from cutoff es) ≡ length es)
  unfolding remove_each
  Stored_cut id a id' a' [] [] h = (h, refl, omega arith)
  Stored_cut id a id' a' [] (e ∷ es) h = absurd h
  Stored_cut id a id' a' (p ∷ m) [] h = absurd h
  Stored_cut id a id' a' (p ∷ m) (e ∷ es) h = elim (dec_lt e.0 cutoff) [
    | yes below ↦
        let (cut, ids, sizes) = Stored_cut (e.0 + 1) (address p.1 + p.1.len) id' a' m es h.4 in
        rw
          (lt→ltb p.0 cutoff (omega (arith, h.1)), lt→ltb e.0 cutoff below, lt→leb cutoff e.0 below)
          (
            subst
                (λ w.
                  Stored segs id a id' a' (remove_each (keys_below cutoff m) w)
                    (ids_from cutoff es))
                (sym (BTreeMap.remove_first p m))
                (Stored_mono segs (e.0 + 1) (address p.1 + p.1.len) id' a' _ _ id a id' a'
                  (omega (arith, h.0)) (omega (arith, h.2)) (omega arith) (omega arith) cut),
            ap₂ ◌∷◌ h.1 ids,
            omega (arith, sizes),
          )
    | no above ↦
        let (none_below, no_ids, all_stay) =
          keys_below_none (e.0 + 1) (address p.1 + p.1.len) id' a' m es (omega arith) h.4 in
        rw
          (
            le→ltb p.0 cutoff (omega (arith, h.1)),
            le→ltb e.0 cutoff (omega arith),
            le→leb cutoff e.0 (omega arith),
            none_below,
            no_ids,
            all_stay,
          )
          (h, refl, omega arith)
  ]

remove_ids-remove_each :
    (ids : List ℕ) (s : SegLog)
    → length ids ≤ s.entry_count
    → s.entry_count < 2 ^ 64
    → remove_ids ids s
      ≡ record s { idx = remove_each ids s.idx; entry_count = s.entry_count - length ids }
unfolding remove_ids remove_each
remove_ids-remove_each [] s h fits = let e : s.entry_count - 0 ≡ s.entry_count = omega arith in rw e
remove_ids-remove_each (id ∷ ids) s h fits =
    let one_less : (s.entry_count + 2 ^ 64 - 1) % 2 ^ 64 ≡ s.entry_count - 1 = omega arith in
    let rest : s.entry_count - 1 - length ids ≡ s.entry_count - suc (length ids) = omega arith in
    rw one_less (
      remove_ids-remove_each ids
        (record s { idx = BTreeMap.remove id s.idx; entry_count = s.entry_count - 1 }) (omega arith)
        (omega arith)
      ∙ rw rest)

-- Zeroing stays in the vector, and changes only the segments that it counts through.
zero_segments-ok :
    (i n : ℕ) (segs : List Segment)
    → i + n ≤ length segs
    → (segs' : List Segment) × (zero_segments i n segs ≡ some segs')
      × (length segs' ≡ length segs)
      × ((j : ℕ) → i + n ≤ j → get_or segs' j zeroed ≡ get_or segs j zeroed)
unfolding zero_segments
zero_segments-ok i zero segs h = (segs, refl, refl, λ j _. refl)
zero_segments-ok i (suc n) segs h =
    let (segs', done, same, kept) =
      zero_segments-ok (i + 1) n (set segs i zeroed) (omega (arith, length-set segs i zeroed)) in
    (
      segs',
      rw (zero_segments, get_elem?_of_lt segs i zeroed (omega arith)) done,
      same ∙ length-set segs i zeroed,
      λ j above. kept j (omega arith) ∙ get_or-set_ne segs i j zeroed zeroed (omega arith),
    )

Holds-zeroed :
    (segs segs' : List Segment) (i : ℕ) (loc : EntryLoc) (e : Entry)
    → length segs' ≡ length segs
    → ((j : ℕ) → i ≤ j → get_or segs' j zeroed ≡ get_or segs j zeroed)
    → i * segment_size ≤ address loc
    → Holds segs loc e
    → Holds segs' loc e
Holds-zeroed segs segs' i loc e same kept b h = record {
  placed = omega (arith, h.placed);
  sized = h.sized;
  within = h.within;
  id_fits = h.id_fits;
  timestamp_fits = h.timestamp_fits;
  bytes = rw (kept loc.segment_idx (omega (arith, h.sized, h.within))) h.bytes;
}

-- Zeroing the segments in front of the first entry keeps every entry.
zero_dead-Stored :
    (s : SegLog) (id a id' a' : ℕ) (m : BTreeMap EntryLoc) (es : List Entry) (ids : List ℕ)
    → s.idx ≡ m
    → a' ≤ length s.segs * segment_size
    → Stored s.segs id a id' a' m es
    → (segs' : List Segment) × (zero_dead ids s ≡ (ok ids, record s { segs = segs' }))
      × Stored segs' id a id' a' m es
      × (length segs' ≡ length s.segs)
unfolding zero_dead
zero_dead-Stored s id a id' a' [] [] ids q top h = (s.segs, ground arith, h, refl)
zero_dead-Stored s id a id' a' [] (e ∷ es) ids q top h = absurd h
zero_dead-Stored s id a id' a' (p ∷ m) [] ids q top h = absurd h
zero_dead-Stored s id a id' a' (p ∷ m) (e ∷ es) ids q top h =
    let first = p.1.segment_idx in
    let (segs', done, same, kept) = zero_segments-ok 0 first s.segs (omega (arith, h.3.placed)) in
    let keeps =
      λ (l : EntryLoc) (f : Entry) (b : first * segment_size ≤ address l) (held : Holds s.segs l f).
        Holds-zeroed s.segs segs' first l f same (λ j k. kept j (omega arith)) b held in
    (
      segs',
      ground arith,
      (
        h.0,
        h.1,
        h.2,
        keeps p.1 e (omega arith) h.3,
        Stored-segs s.segs segs' (first * segment_size) (e.0 + 1) (address p.1 + p.1.len) id' a' m
            es (λ l f b _ held. keeps l f b held) (omega arith) h.4,
      ),
      same,
    )

module _ (s : SegLog) (es : List Entry) (r : Represents s es) where
  -- `trim` returns the ids below the cutoff, and the log then holds the entries from the cutoff on.
  pub trim-Represents :
      (cutoff : ℕ)
      → (s' : SegLog) × (trim cutoff s ≡ (ok (map (λ e. e.0) (ids_below cutoff es)), s'))
        × Represents s' (ids_from cutoff es)
        × (s'.next_id ≡ s.next_id)
        × (length s'.segs ≡ length s.segs)
  unfolding trim
  trim-Represents cutoff =
      let top = s.active_seg * segment_size + s.write_cursor in
      let (cut, ids, sizes) = Stored_cut s.segs cutoff 0 0 s.next_id top s.idx es r.stored in
      let bound = Stored-le s.segs 0 0 s.next_id top s.idx es r.stored in
      let below = keys_below cutoff s.idx in
      let s1 = record s {
        idx = remove_each below s.idx;
        entry_count = s.entry_count - length below;
      } in
      let removed : remove_ids below s ≡ s1 =
        remove_ids-remove_each below s (omega (arith, r.counted, sizes))
          (omega (arith, r.counted, r.id_left, bound)) in
      let (segs', done, stored, same) =
        zero_dead-Stored s1 0 0 s.next_id top s1.idx (ids_from cutoff es) below refl
          (omega (arith, r.active, r.cursor)) cut in
      (
        record s1 { segs = segs' },
        rw (removed, ← ids) done,
        record {
          active = omega (arith, r.active, same);
          cursor = r.cursor;
          unlocked = r.unlocked;
          counted = omega (arith, r.counted, sizes);
          id_left = r.id_left;
          stored = stored;
        },
        refl,
        same,
      )
