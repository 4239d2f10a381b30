-- ===== src/SegLog/Placed.antt =====
-- The part of `append` that writes an entry into the active segment (server/src/db/seg_log.rs).
use segmented_memory_storage.Common.{
  ℕ, ◌+◌, ◌*◌, ◌%◌, ◌^◌, ◌≤◌, ◌<◌, ◌≡◌, refl, inl, List, [], ◌∷◌, ◌++◌, arith, length,
  length-append, length-set, get_or, set, get_elem?_of_lt, get_or-set_self, get_or-set_ne,
  get_or-append_left, ℕ_discrete,
}
use segmented_memory_storage.Common.BTreeMap
use segmented_memory_storage.Common.Outcome.{ok}
use segmented_memory_storage.Segment.{
  Segment, zeroed, segment_size, header_size, put_at, bytes_at-put_at_self, bytes_at-put_at_apart,
}
use segmented_memory_storage.SegLog.Layout.{
  entry_bytes, length-entry_bytes, write_entry-entry_bytes,
}
use segmented_memory_storage.SegLog.State.{SegLog, EntryLoc}
use segmented_memory_storage.SegLog.Ops.{store}
use segmented_memory_storage.SegLog.Stored.{
  Entry, Holds, Represents, address, Stored-le, Stored_mono, Stored-insert, Stored-segs,
}

pub Holds-append :
    (segs more : List Segment) (loc : EntryLoc) (e : Entry)
    → Holds segs loc e
    → Holds (segs ++ more) loc e
Holds-append segs more loc e h = record {
  placed = omega (arith, length-append segs more, h.placed);
  sized = h.sized;
  within = h.within;
  id_fits = h.id_fits;
  timestamp_fits = h.timestamp_fits;
  bytes = rw (get_or-append_left segs more loc.segment_idx zeroed h.placed) h.bytes;
}

-- A write at or behind the end of an entry keeps it.
Holds-set :
    (segs : List Segment) (i off : ℕ) (bs : List ℕ) (loc : EntryLoc) (e : Entry)
    → i < length segs
    → address loc + loc.len ≤ i * segment_size + off
    → Holds segs loc e
    → Holds (set segs i (put_at (get_or segs i zeroed) off bs)) loc e
Holds-set segs i off bs loc e hi apart h = record {
  placed = omega (arith, length-set segs i (put_at (get_or segs i zeroed) off bs), h.placed);
  sized = h.sized;
  within = h.within;
  id_fits = h.id_fits;
  timestamp_fits = h.timestamp_fits;
  bytes = elim (ℕ_discrete i loc.segment_idx) [
    | no other ↦ rw (get_or-set_ne segs i loc.segment_idx _ zeroed other) h.bytes
    | yes same ↦
        rw
          (
            ← same,
            get_or-set_self segs i _ zeroed hi,
            bytes_at-put_at_apart (get_or segs i zeroed) off loc.offset loc.len bs
                (inl (omega arith)),
          )
          (rw same h.bytes)
  ];
}

Holds-new :
    (segs : List Segment) (i off id ts : ℕ) (payload : List ℕ)
    → i < length segs
    → off + header_size + length payload ≤ segment_size
    → id < 2 ^ 64
    → ts < 2 ^ 64
    → Holds
        (set segs i (put_at (get_or segs i zeroed) off (entry_bytes id ts payload)))
        (record { segment_idx = i; offset = off; len = header_size + length payload })
        (id, ts, payload)
Holds-new segs i off id ts payload hi fits hid hts = record {
  placed =
      omega
        (arith, length-set segs i (put_at (get_or segs i zeroed) off (entry_bytes id ts payload)));
  sized = refl;
  within = omega arith;
  id_fits = hid;
  timestamp_fits = hts;
  bytes =
      rw (get_or-set_self segs i _ zeroed hi, ← length-entry_bytes id ts payload)
        (bytes_at-put_at_self (get_or segs i zeroed) off (entry_bytes id ts payload));
}

-- The log after `store` has written its entry.
abbrev pub stored : SegLog → ℕ → List ℕ → SegLog
stored s ts payload = record s {
  segs = set s.segs s.active_seg (
      put_at (get_or s.segs s.active_seg zeroed) s.write_cursor (entry_bytes s.next_id ts payload));
  idx =
      BTreeMap.insert s.next_id
        (record {
          segment_idx = s.active_seg;
          offset = s.write_cursor;
          len = header_size + length payload;
        })
        s.idx;
  write_cursor = s.write_cursor + (header_size + length payload);
  next_id = (s.next_id + 1) % 2 ^ 64;
  entry_count = (s.entry_count + 1) % 2 ^ 64;
}

module _ (s : SegLog) (es : List Entry) (r : Represents s es) (ts : ℕ) (payload : List ℕ) where
  -- `store` where the entry fits the active segment.
  pub store-stored :
      s.write_cursor + (header_size + length payload) ≤ segment_size
      → store ts payload (header_size + length payload) s ≡ (ok s.next_id, stored s ts payload)
  unfolding store
  store-stored fits = ground (
    arith,
    get_elem?_of_lt s.segs s.active_seg zeroed r.active,
    write_entry-entry_bytes (get_or s.segs s.active_seg zeroed) s.write_cursor s.next_id ts payload
        (omega arith),
  )

  pub stored-Represents :
      s.write_cursor + (header_size + length payload) ≤ segment_size
      → ts < 2 ^ 64
      → s.next_id + 1 < 2 ^ 64
      → Represents (stored s ts payload) (es ++ (s.next_id, ts, payload) ∷ [])
  stored-Represents fits hts left =
      let i = s.active_seg in
      let a = i * segment_size + s.write_cursor in
      let new = stored s ts payload in
      let loc : EntryLoc = record {
        segment_idx = i;
        offset = s.write_cursor;
        len = header_size + length payload;
      } in
      let e : Entry = (s.next_id, ts, payload) in
      let seg' =
        put_at (get_or s.segs i zeroed) s.write_cursor (entry_bytes s.next_id ts payload) in
      record {
        active = omega (arith, length-set s.segs i seg', r.active);
        cursor = fits;
        unlocked = r.unlocked;
        counted = omega (
          arith,
          r.counted,
          length-append es (e ∷ []),
          Stored-le s.segs 0 0 s.next_id a s.idx es r.stored,
        );
        id_left = omega arith;
        stored =
            Stored_mono new.segs 0 0 (s.next_id + 1) (address loc + loc.len) new.idx (es ++ e ∷ [])
              0 0 new.next_id (i * segment_size + new.write_cursor) (omega arith) (omega arith)
              (omega arith) (omega arith)
              (Stored-insert new.segs 0 0 s.next_id a s.idx es loc e refl (omega arith)
                (Holds-new s.segs i s.write_cursor s.next_id ts payload r.active (omega arith)
                  r.id_left hts)
                (Stored-segs s.segs new.segs 0 0 0 s.next_id a s.idx es
                  (λ l f _ below h. Holds-set s.segs i s.write_cursor _ l f r.active below h)
                  (omega arith) r.stored));
      }
