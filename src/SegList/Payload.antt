-- ===== src/SegList/Payload.antt =====
-- A payload in its segment (server/src/db/seg_list.rs): 16 bytes that stay unused, 4 of length, and
-- the payload.
use segmented_memory_storage.Common.{
  ℕ, ◌+◌, ◌%◌, ◌^◌, ◌≤◌, ◌≡◌, ap, ◌∙◌, some, List, [], ◌∷◌, ◌++◌, arith, length, length-append, ltb,
  lt→ltb, if◌then◌else◌,
}
use segmented_memory_storage.Common.Bytes.{
  to_le_bytes, length-to_le_bytes, from_le_bytes-to_le_bytes,
}
use mathlib.Core.List.{append-nil}
use mathlib.Core.Path.{subst}
use segmented_memory_storage.Segment.{
  Segment, segment_size, header_size, bytes_at, put_at, copy_to, copy_to_within, copy_from_within,
  put_at-append, bytes_at_split, bytes_at-put_at_self,
}
use segmented_memory_storage.SegList.Ops.{write_payload, read_payload}

abbrev pub len_bytes : List ℕ → List ℕ
len_bytes payload = to_le_bytes 4 (length payload % 2 ^ 32)

pub record HoldsPayload (seg : Segment) (payload : List ℕ) : Type 0 where
  pub fits : header_size + length payload ≤ segment_size
  pub has_len : bytes_at seg 16 4 ≡ len_bytes payload
  pub has_payload : bytes_at seg header_size (length payload) ≡ payload

write_tail :
    (seg : Segment) (payload : List ℕ)
    → header_size + length payload ≤ segment_size
    → (if ltb 0 (length payload)
        then copy_to (put_at seg 16 (len_bytes payload)) header_size payload
        else some (put_at seg 16 (len_bytes payload)))
      ≡ some (put_at seg 16 (len_bytes payload ++ payload))
write_tail seg [] h = rw append-nil
write_tail seg (b ∷ bs) h =
    let lens = len_bytes (b ∷ bs) in
    let four : 16 + length lens ≡ header_size =
      omega (arith, length-to_le_bytes 4 (length (b ∷ bs) % 2 ^ 32)) in
    rw (lt→ltb 0 (length (b ∷ bs)) (omega arith)) (
      copy_to_within (put_at seg 16 lens) header_size (b ∷ bs) h
      ∙ ap some (
          subst (λ n. put_at (put_at seg 16 lens) n (b ∷ bs) ≡ put_at seg 16 (lens ++ (b ∷ bs)))
            four (put_at-append seg 16 lens (b ∷ bs))))

-- The copies of `push` stay inside the segment.
pub write_payload-put_at :
    (seg : Segment) (payload : List ℕ)
    → header_size + length payload ≤ segment_size
    → write_payload seg payload ≡ some (put_at seg 16 (len_bytes payload ++ payload))
unfolding write_payload
write_payload-put_at seg payload h =
    rw
      (copy_to_within seg 16 (len_bytes payload)
        (omega (arith, length-to_le_bytes 4 (length payload % 2 ^ 32))))
      (write_tail seg payload h)

pub put_at-HoldsPayload :
    (seg : Segment) (payload : List ℕ)
    → header_size + length payload ≤ segment_size
    → HoldsPayload (put_at seg 16 (len_bytes payload ++ payload)) payload
put_at-HoldsPayload seg payload h =
    let lens = len_bytes payload in
    let sized : length (lens ++ payload) ≡ 4 + length payload =
      length-append lens payload ∙ omega (arith, length-to_le_bytes 4 (length payload % 2 ^ 32)) in
    let (has_len, has_payload) =
      bytes_at_split _ 16 4 (length payload) lens payload
        (length-to_le_bytes 4 (length payload % 2 ^ 32))
        (subst (λ n. bytes_at (put_at seg 16 (lens ++ payload)) 16 n ≡ lens ++ payload) sized
          (bytes_at-put_at_self seg 16 (lens ++ payload))) in
    record { fits = h; has_len = has_len; has_payload = has_payload }

-- `pop` reads back what `push` wrote.
pub read_payload-HoldsPayload :
    (seg : Segment) (payload : List ℕ) → HoldsPayload seg payload → read_payload seg ≡ some payload
unfolding read_payload
read_payload-HoldsPayload seg payload h =
    let small : length payload % 2 ^ 32 ≡ length payload = omega (arith, h.fits) in
    rw
      (
        copy_from_within seg 16 4 (omega arith),
        h.has_len,
        small,
        from_le_bytes-to_le_bytes 4 (length payload) (omega (arith, h.fits)),
        copy_from_within seg header_size (length payload) h.fits,
      )
      (ap some h.has_payload)
