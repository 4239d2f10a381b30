-- ===== src/Aof/Decoded.antt =====
-- What was encoded is decoded (server/src/db/aof.rs).
use segmented_memory_storage.Common.{
  ℕ, zero, suc, ◌+◌, ◌*◌, ◌/◌, ◌%◌, ◌^◌, ◌<◌, ◌≡◌, refl, ap, ◌∙◌, Bool, true, false, ◌&&◌, not,
  Option, some, List, [], ◌∷◌, arith, ◌==◌, ltb, All, ◌≤◌, sym, ℕ_discrete,
}
use segmented_memory_storage.Common.Bytes.{IsByte}
use segmented_memory_storage.Common.Texts.{Text}
use segmented_memory_storage.Common.Utf8.{is_utf8, is_utf8_of_ascii}
use segmented_memory_storage.Aof.Entry.{AofEntry}
use segmented_memory_storage.Aof.Base64.{
  char_of, encode, decode_char, decode, to_base64, from_base64,
}

-- A test of `count` numbers, from `first` on.
passes_from : (ℕ → Bool) → ℕ → ℕ → Bool
passes_from p first zero = true
passes_from p first (suc count) = p first && passes_from p (suc first) count

passes_from-between :
    (p : ℕ → Bool) (first count x : ℕ)
    → passes_from p first count ≡ true
    → first ≤ x
    → x < first + count
    → p x ≡ true
unfolding passes_from
passes_from-between p first zero x passed low high = absurd (omega arith)
passes_from-between p first (suc count) x passed low high = elim (ℕ_discrete first x) [
  | yes e ↦ ap p (sym e) ∙ ground arith
  | no ne ↦ passes_from-between p (suc first) count x (ground arith) (omega arith) (omega arith)
]

round_trips : ℕ → Bool
round_trips i = not (char_of i == b'=') && (ltb (char_of i) 128 && (decode_char (char_of i) == i))

digits_round_trip : passes_from round_trips 0 64 ≡ true
unfolding passes_from round_trips decode_char char_of
digits_round_trip = refl

record IsDigit (i : ℕ) : Type 0 where
  pub back : decode_char (char_of i) ≡ i
  pub plain : (char_of i == b'=') ≡ false
  pub ascii : char_of i < 128

char_of-IsDigit : (i : ℕ) → i < 64 → IsDigit i
char_of-IsDigit i h =
    let passed : (not (char_of i == b'=')
          && (ltb (char_of i) 128 && (decode_char (char_of i) == i)))
        ≡ true =
      (unfold round_trips in
        passes_from-between round_trips 0 64 i digits_round_trip (omega arith) (omega arith)) in
    record { back = ground arith; plain = ground arith; ascii = ground arith }

-- Four characters that carry the 24 bits of `b`.
decode_quad :
    (b : ℕ) (rest : Text)
    → b < 2 ^ 24
    → decode (
        char_of (b / 2 ^ 18 % 64)
        ∷ char_of (b / 2 ^ 12 % 64)
        ∷ char_of (b / 2 ^ 6 % 64)
        ∷ char_of (b % 64)
        ∷ rest)
      ≡ (b / 2 ^ 16) ∷ (b / 2 ^ 8 % 256) ∷ (b % 256) ∷ decode rest
unfolding decode
decode_quad b rest h =
    let p = char_of-IsDigit (b / 2 ^ 18 % 64) (omega arith) in
    let q = char_of-IsDigit (b / 2 ^ 12 % 64) (omega arith) in
    let r = char_of-IsDigit (b / 2 ^ 6 % 64) (omega arith) in
    let s = char_of-IsDigit (b % 64) (omega arith) in
    rw (p.back, q.back, r.back, s.back, r.plain, s.plain) (ground arith)

-- One byte, and two, with their padding.
decode_one : (x : ℕ) → x < 256 → decode (encode (x ∷ [])) ≡ x ∷ []
unfolding decode encode
decode_one x h =
    let b = x * 2 ^ 16 in
    let p = char_of-IsDigit (b / 2 ^ 18 % 64) (omega arith) in
    let q = char_of-IsDigit (b / 2 ^ 12 % 64) (omega arith) in
    let pad : decode_char b'=' ≡ 0 = unfold decode_char in refl in
    rw (p.back, q.back, pad) (ground arith)

decode_two : (x y : ℕ) → x < 256 → y < 256 → decode (encode (x ∷ y ∷ [])) ≡ x ∷ y ∷ []
unfolding decode encode
decode_two x y h k =
    let b = x * 2 ^ 16 + y * 2 ^ 8 in
    let p = char_of-IsDigit (b / 2 ^ 18 % 64) (omega arith) in
    let q = char_of-IsDigit (b / 2 ^ 12 % 64) (omega arith) in
    let r = char_of-IsDigit (b / 2 ^ 6 % 64) (omega arith) in
    let pad : decode_char b'=' ≡ 0 = unfold decode_char in refl in
    rw (p.back, q.back, r.back, r.plain, pad) (ground arith)

pub decode-encode : (bs : List ℕ) → All IsByte bs → decode (encode bs) ≡ bs
unfolding encode
decode-encode [] h = unfold decode in refl
decode-encode (x ∷ []) h = decode_one x h.0
decode-encode (x ∷ y ∷ []) h = decode_two x y h.0 h.1.0
decode-encode (x ∷ y ∷ z ∷ rest) h =
    let b = x * 2 ^ 16 + y * 2 ^ 8 + z in
    decode_quad b (encode rest) (omega arith) ∙ ground (arith, decode-encode rest h.1.1.1)

encode-ascii : (bs : List ℕ) → All IsByte bs → All (λ b. b < 128) (encode bs)
unfolding encode
encode-ascii [] h = tt
encode-ascii (x ∷ []) h =
    let b = x * 2 ^ 16 in
    (
      (char_of-IsDigit (b / 2 ^ 18 % 64) (omega arith)).ascii,
      ((char_of-IsDigit (b / 2 ^ 12 % 64) (omega arith)).ascii, omega arith),
    )
encode-ascii (x ∷ y ∷ []) h =
    let b = x * 2 ^ 16 + y * 2 ^ 8 in
    (
      (char_of-IsDigit (b / 2 ^ 18 % 64) (omega arith)).ascii,
      (
        (char_of-IsDigit (b / 2 ^ 12 % 64) (omega arith)).ascii,
        ((char_of-IsDigit (b / 2 ^ 6 % 64) (omega arith)).ascii, omega arith),
      ),
    )
encode-ascii (x ∷ y ∷ z ∷ rest) h =
    let b = x * 2 ^ 16 + y * 2 ^ 8 + z in
    (
      (char_of-IsDigit (b / 2 ^ 18 % 64) (omega arith)).ascii,
      (
        (char_of-IsDigit (b / 2 ^ 12 % 64) (omega arith)).ascii,
        (
          (char_of-IsDigit (b / 2 ^ 6 % 64) (omega arith)).ascii,
          ((char_of-IsDigit (b % 64) (omega arith)).ascii, encode-ascii rest h.1.1.1),
        ),
      ),
    )

-- An entry comes back from its base64 text, which is UTF-8, if `serde_json` gives bytes for it and
-- reads it back of them.
pub from_base64-to_base64 :
    (to_vec : AofEntry → List ℕ) (from_slice : List ℕ → Option AofEntry) (e : AofEntry)
    → All IsByte (to_vec e)
    → from_slice (to_vec e) ≡ some e
    → (from_base64 from_slice (to_base64 to_vec e) ≡ some e) × (is_utf8 (to_base64 to_vec e) ≡ true)
unfolding to_base64 from_base64
from_base64-to_base64 to_vec from_slice e h back = (
  ap from_slice (decode-encode (to_vec e) h) ∙ back,
  is_utf8_of_ascii (encode (to_vec e)) (encode-ascii (to_vec e) h),
)
