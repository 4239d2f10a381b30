-- ===== src/Proto/Codec.antt =====
-- `LengthPrefixCodec`, which cuts the bytes of a connection into frames (server/src/server/codec.rs).
use segmented_memory_storage.Common.{
  ℕ, zero, suc, ◌+◌, ◌*◌, ◌^◌, ◌≤◌, ◌<◌, ◌≡◌, ◌≢◌, refl, ap, Option, none, some, List, [], ◌∷◌,
  ◌++◌, arith, length, take, drop, ltb, if◌then◌else◌, length-append, length-take, length-drop,
  dec_lt, take-append_length, drop-append_length,
}
use segmented_memory_storage.Common.Bytes.{
  to_le_bytes, from_le_bytes, length-to_le_bytes, from_le_bytes-to_le_bytes,
}
use segmented_memory_storage.Common.Outcome.{ok, err, Action}

abbrev pub max_frame_size : ℕ
max_frame_size = 16 * 1024 * 1024

-- The `InvalidData` error.
pub data DecodeError : Type 0 where
  frame_too_large : ℕ → DecodeError

-- The frame if it is there in full, and the bytes that stay in the buffer.
unfoldable pub decode : Action (List ℕ) DecodeError (Option (List ℕ))
decode src =
    let frame_len = from_le_bytes (take 4 src) in
    let total = 4 + frame_len in
    if ltb (length src) 4
    then (ok none, src)
    else (if ltb max_frame_size frame_len
        then (err (frame_too_large frame_len), src)
        else (if ltb (length src) total
            then (ok none, src)
            else (ok (some (take frame_len (drop 4 src))), drop frame_len (drop 4 src))))

-- `put_slice` of an item that carries its length already.
unfoldable pub encode : List ℕ → List ℕ → List ℕ
encode item dst = dst ++ item

-- The bytes of a frame on the wire.
abbrev pub framed : List ℕ → List ℕ
framed body = to_le_bytes 4 (length body) ++ body

length-framed : (body : List ℕ) → length (framed body) ≡ 4 + length body
length-framed body =
    omega
      (arith, length-append (to_le_bytes 4 (length body)) body, length-to_le_bytes 4 (length body))

take_4-framed : (v : ℕ) (rest : List ℕ) → take 4 (to_le_bytes 4 v ++ rest) ≡ to_le_bytes 4 v
unfolding to_le_bytes
take_4-framed v rest = refl

drop_4-framed : (v : ℕ) (rest : List ℕ) → drop 4 (to_le_bytes 4 v ++ rest) ≡ rest
unfolding to_le_bytes
drop_4-framed v rest = refl

-- A frame of at most 16 MiB is cut off whole, and the bytes behind it stay.
pub decode-framed :
    (body rest : List ℕ)
    → length body ≤ max_frame_size
    → decode (to_le_bytes 4 (length body) ++ (body ++ rest)) ≡ (ok (some body), rest)
unfolding decode
decode-framed body rest h = ground (
  arith,
  take_4-framed (length body) (body ++ rest),
  drop_4-framed (length body) (body ++ rest),
  from_le_bytes-to_le_bytes 4 (length body) (omega arith),
  take-append_length body rest,
  drop-append_length body rest,
  length-append (to_le_bytes 4 (length body)) (body ++ rest),
  length-append body rest,
  length-to_le_bytes 4 (length body),
)

take_append_of_le : (k : ℕ) (xs ys : List ℕ) → k ≤ length xs → take k (xs ++ ys) ≡ take k xs
take_append_of_le zero xs ys h = refl
take_append_of_le (suc k) [] ys h = absurd (omega arith)
take_append_of_le (suc k) (x ∷ xs) ys h = ap (◌∷◌ x) (take_append_of_le k xs ys (omega arith))

drop_append_of_le : (k : ℕ) (xs ys : List ℕ) → k ≤ length xs → drop k (xs ++ ys) ≡ drop k xs ++ ys
drop_append_of_le zero xs ys h = refl
drop_append_of_le (suc k) [] ys h = absurd (omega arith)
drop_append_of_le (suc k) (x ∷ xs) ys h = drop_append_of_le k xs ys (omega arith)

-- Of a frame of at most 16 MiB that is not there in full nothing is taken.
pub decode_partial :
    (body : List ℕ) (n : ℕ)
    → length body ≤ max_frame_size
    → n < 4 + length body
    → decode (take n (framed body)) ≡ (ok none, take n (framed body))
unfolding decode to_le_bytes
decode_partial body zero h l = refl
decode_partial body (suc zero) h l = refl
decode_partial body (suc (suc zero)) h l = refl
decode_partial body (suc (suc (suc zero))) h l = refl
decode_partial body (suc (suc (suc (suc m)))) h l =
    ground (arith, length-take m body, from_le_bytes-to_le_bytes 4 (length body) (omega arith))

-- An announced length above 16 MiB is refused as soon as its four bytes are there.
pub decode_too_large :
    (len : ℕ) (rest : List ℕ)
    → max_frame_size < len
    → len < 2 ^ 32
    → decode (to_le_bytes 4 len ++ rest) ≡ (err (frame_too_large len), to_le_bytes 4 len ++ rest)
unfolding decode
decode_too_large len rest h l = ground (
  arith,
  take_4-framed len rest,
  from_le_bytes-to_le_bytes 4 len (omega arith),
  length-append (to_le_bytes 4 len) rest,
  length-to_le_bytes 4 len,
)

-- Bytes that arrive later do not change a frame or a refusal that the buffer gave before: they are
-- kept behind what it left.
pub decode-append :
    (src more : List ℕ)
    → (decode src).0 ≢ ok none
    → decode (src ++ more) ≡ ((decode src).0, (decode src).1 ++ more)
unfolding decode
decode-append src more h = elim (dec_lt (length src) 4) [
  | yes l ↦ absurd (h (ground arith))
  | no l ↦ ground (
    arith,
    h,
    take_append_of_le 4 src more (omega arith),
    drop_append_of_le 4 src more (omega arith),
    length-append src more,
    length-drop 4 src,
    take_append_of_le (from_le_bytes (take 4 src)) (drop 4 src) more,
    drop_append_of_le (from_le_bytes (take 4 src)) (drop 4 src) more,
  )
]
