-- ===== src/SegLog/Layout.antt =====
-- The layout of an entry in memory as a list of bytes, and that `append` writes it and `read` reads
-- it (server/src/db/seg_log.rs).
use segmented_memory_storage.Common.{
  ℕ, ◌+◌, ◌%◌, ◌^◌, ◌≤◌, ◌<◌, ◌≡◌, refl, ap, ◌∙◌, some, List, [], ◌++◌, arith, length,
  length-append, ltb, [], ◌∷◌, lt→ltb, if◌then◌else◌,
}
use mathlib.Core.List.{append_assoc, append-nil}
use segmented_memory_storage.Common.Bytes.{
  to_le_bytes, length-to_le_bytes, from_le_bytes-to_le_bytes,
}
use segmented_memory_storage.Segment.{
  Segment, segment_size, header_size, bytes_at, put_at, copy_to, copy_from, copy_to_within,
  copy_from_within, put_at-append, bytes_at_split,
}
use segmented_memory_storage.SegLog.Entry.{write_entry, read_entry}

unfoldable pub entry_bytes : ℕ → ℕ → List ℕ → List ℕ
entry_bytes id timestamp payload =
    to_le_bytes 8 id
    ++ (to_le_bytes 8 timestamp ++ (to_le_bytes 4 (length payload % 2 ^ 32) ++ payload))

pub length-entry_bytes :
    (id ts : ℕ) (payload : List ℕ)
    → length (entry_bytes id ts payload) ≡ header_size + length payload
unfolding entry_bytes
length-entry_bytes id ts payload = simp (length-append, length-to_le_bytes) (omega arith)

-- A copy behind what an earlier copy wrote.
copy_to_behind :
    (seg : Segment) (dst k : ℕ) (written bytes : List ℕ)
    → length written ≡ k
    → dst + k + length bytes ≤ segment_size
    → copy_to (put_at seg dst written) (dst + k) bytes ≡ some (put_at seg dst (written ++ bytes))
copy_to_behind seg dst k written bytes e h =
    copy_to_within (put_at seg dst written) (dst + k) bytes h
    ∙ rw (← e) (ap some (put_at-append seg dst written bytes))

copy_payload :
    (seg : Segment) (dst : ℕ) (written payload : List ℕ)
    → length written ≡ header_size
    → dst + header_size + length payload ≤ segment_size
    → (if ltb 0 (length payload)
        then copy_to (put_at seg dst written) (dst + header_size) payload
        else some (put_at seg dst written))
      ≡ some (put_at seg dst (written ++ payload))
copy_payload seg dst written [] e h = rw append-nil
copy_payload seg dst written (b ∷ bs) e h =
    rw (lt→ltb 0 (length (b ∷ bs)) (omega arith))
      (copy_to_behind seg dst header_size written (b ∷ bs) e h)

-- The copies of `append` stay inside the segment and write the entry's bytes.
pub write_entry-entry_bytes :
    (seg : Segment) (dst id ts : ℕ) (payload : List ℕ)
    → dst + header_size + length payload ≤ segment_size
    → write_entry seg dst id ts payload ≡ some (put_at seg dst (entry_bytes id ts payload))
unfolding write_entry entry_bytes
write_entry-entry_bytes seg dst id ts payload h = rw (
  copy_to_within seg dst ids (omega (arith, length-to_le_bytes 8 id)),
  copy_to_behind seg dst 8 ids tss (length-to_le_bytes 8 id)
      (omega (arith, length-to_le_bytes 8 ts)),
  copy_to_behind seg dst 16 (ids ++ tss) lens sixteen
      (omega (arith, length-to_le_bytes 4 (length payload % 2 ^ 32))),
  copy_payload seg dst ((ids ++ tss) ++ lens) payload twenty h,
  append_assoc,
  append_assoc,
)
  where
    ids : List ℕ
    ids = to_le_bytes 8 id

    tss : List ℕ
    tss = to_le_bytes 8 ts

    lens : List ℕ
    lens = to_le_bytes 4 (length payload % 2 ^ 32)

    sixteen : length (ids ++ tss) ≡ 16
    sixteen = simp (length-append, length-to_le_bytes) (omega arith)

    twenty : length ((ids ++ tss) ++ lens) ≡ header_size
    twenty = simp (length-append, length-to_le_bytes) (omega arith)

read_payload :
    (seg : Segment) (at : ℕ) (payload : List ℕ)
    → at + length payload ≤ segment_size
    → bytes_at seg at (length payload) ≡ payload
    → (if ltb 0 (length payload) then copy_from seg at (length payload) else some []) ≡ some payload
read_payload seg at [] h e = refl
read_payload seg at (b ∷ bs) h e =
    rw (lt→ltb 0 (length (b ∷ bs)) (omega arith))
      (copy_from_within seg at (length (b ∷ bs)) h ∙ ap some e)

-- The four fields of an entry, each at its place.
pub record HasFields (seg : Segment) (src id ts : ℕ) (payload : List ℕ) : Type 0 where
  pub has_id : bytes_at seg src 8 ≡ to_le_bytes 8 id
  pub has_timestamp : bytes_at seg (src + 8) 8 ≡ to_le_bytes 8 ts
  pub has_len : bytes_at seg (src + 16) 4 ≡ to_le_bytes 4 (length payload % 2 ^ 32)
  pub has_payload : bytes_at seg (src + header_size) (length payload) ≡ payload

entry_bytes-HasFields :
    (seg : Segment) (src id ts : ℕ) (payload : List ℕ)
    → bytes_at seg src (header_size + length payload) ≡ entry_bytes id ts payload
    → HasFields seg src id ts payload
unfolding entry_bytes
entry_bytes-HasFields seg src id ts payload e =
    let n : ℕ = length payload in
    let q : header_size + n ≡ 8 + (8 + (4 + n)) = omega arith in
    let a : src + 8 + 8 ≡ src + 16 = omega arith in
    let b : src + 16 + 4 ≡ src + header_size = omega arith in
    let (p1, r1) =
      bytes_at_split seg src 8 (8 + (4 + n)) _ _ (length-to_le_bytes 8 id) (rw (← q) e) in
    let (p2, r2) = bytes_at_split seg (src + 8) 8 (4 + n) _ _ (length-to_le_bytes 8 ts) r1 in
    let (p3, r3) =
      bytes_at_split seg (src + 16) 4 n _ _ (length-to_le_bytes 4 (n % 2 ^ 32)) (rw (← a) r2) in
    record { has_id = p1; has_timestamp = p2; has_len = p3; has_payload = rw (← b) r3 }

-- `read` gives back the fields of an entry whose bytes lie at the place that it reads.
pub read_entry-entry_bytes :
    (seg : Segment) (src id ts : ℕ) (payload : List ℕ)
    → id < 2 ^ 64
    → ts < 2 ^ 64
    → src + header_size + length payload ≤ segment_size
    → bytes_at seg src (header_size + length payload) ≡ entry_bytes id ts payload
    → read_entry seg src ≡ some (id, ts, payload)
unfolding read_entry
read_entry-entry_bytes seg src id ts payload hid hts fits e =
    let f = entry_bytes-HasFields seg src id ts payload e in
    let len_fits : length payload % 2 ^ 32 ≡ length payload = omega arith in
    rw (
      copy_from_within seg src 8 (omega arith),
      copy_from_within seg (src + 8) 8 (omega arith),
      copy_from_within seg (src + 16) 4 (omega arith),
      f.has_id,
      f.has_timestamp,
      f.has_len,
      from_le_bytes-to_le_bytes 8 id hid,
      from_le_bytes-to_le_bytes 8 ts hts,
      len_fits,
      from_le_bytes-to_le_bytes 4 (length payload) (omega arith),
      read_payload seg (src + header_size) payload fits f.has_payload,
    )
