-- ===== src/Proto/SafeReads.antt =====
-- The readers of the parser (server/src/server/proto.rs) on any bytes: no slice leaves the frame.
use segmented_memory_storage.Common.{
  ℕ, zero, suc, ◌+◌, ◌≤◌, ◌≢◌, refl, Bool, true, false, List, [], ◌∷◌, arith, length, ◌-◌, dec_lt,
  lt→ltb, le→ltb, if◌then◌else◌,
}
use segmented_memory_storage.Common.Bytes.{from_le_bytes}
use segmented_memory_storage.Common.Utf8.{is_utf8}
use segmented_memory_storage.Common.Texts.{Text}
use segmented_memory_storage.Common.Outcome.{Outcome, ok, err, crash, pure, throw}
use segmented_memory_storage.Proto.Command.{
  ParseError, eof_u8, eof_u16, eof_u32, eof_u64, eof_string, eof_bytes, invalid_utf8,
}
use segmented_memory_storage.Proto.Cursor.{
  Cursor, Reader, ◌>>=◌, ◌>>◌, slice, remaining, require, read_u8, read_u16_le, read_u32_le,
  read_u64_le, utf8_slice, read_str, read_bytes,
}
use segmented_memory_storage.Proto.Parse.{read_entries, read_vals}

-- Where `n` bytes are left, a reader does not panic, and stays within the buffer.
pub record IsSafe {A : Type 0} (n : ℕ) (m : Reader A) : Type 0 where
  pub safe : (c : Cursor) → c.pos + n ≤ length c.buf → (m c).0 ≢ crash
  pub inside : (c : Cursor) → c.pos + n ≤ length c.buf → (m c).1.pos ≤ length (m c).1.buf

pub pure-IsSafe : {A : Type 0} (a : A) → IsSafe 0 (pure a)
pure-IsSafe a = record { safe = λ c h e. ground arith; inside = λ c h. omega arith }

pub throw-IsSafe : {A : Type 0} (e : ParseError) → IsSafe {A = A} 0 (throw e)
throw-IsSafe e = record { safe = λ c h q. ground arith; inside = λ c h. omega arith }

module _ {A B : Type 0} (f : A → Reader B) (k : (a : A) → IsSafe 0 (f a)) where
  after-IsSafe :
      (r : Outcome ParseError A) (c : Cursor)
      → r ≢ crash
      → c.pos ≤ length c.buf
      → ((((λ s. (r, s)) >>= f) c).0 ≢ crash)
        × ((((λ s. (r, s)) >>= f) c).1.pos ≤ length (((λ s. (r, s)) >>= f) c).1.buf)
  unfolding ◌>>=◌
  after-IsSafe (ok a) c h i = ((k a).safe c (omega arith), (k a).inside c (omega arith))
  after-IsSafe (err e) c h i = (λ q. ground arith, i)
  after-IsSafe crash c h i = absurd (h refl)

  pub bind-IsSafe : {m : Reader A} {n : ℕ} → IsSafe n m → IsSafe n (m >>= f)
  unfolding ◌>>=◌
  bind-IsSafe {m = m} h = record {
    safe = λ c i. (after-IsSafe (m c).0 (m c).1 (h.safe c i) (h.inside c i)).0;
    inside = λ c i. (after-IsSafe (m c).0 (m c).1 (h.safe c i) (h.inside c i)).1;
  }

pub if-IsSafe :
    {A : Type 0} (b : Bool) {m k : Reader A}
    → IsSafe 0 m
    → IsSafe 0 k
    → IsSafe 0 (if b then m else k)
if-IsSafe true h k = h
if-IsSafe false h k = k

slice-IsSafe : (n : ℕ) → IsSafe n (slice n)
unfolding slice
slice-IsSafe n = record { safe = λ c h e. ground arith; inside = λ c h. ground arith }

require-IsSafe :
    {A : Type 0} (n : ℕ) (e : ParseError) {m : Reader A} → IsSafe n m → IsSafe 0 (require n e >> m)
unfolding require ◌>>=◌
require-IsSafe n e {m = m} h = record {
  safe = λ c i q. elim (dec_lt (length c.buf - c.pos) n) [
    | yes l ↦ ground (arith, lt→ltb (remaining c) n l)
    | no l ↦ h.safe c (omega arith) (ground (arith, le→ltb (remaining c) n (omega arith)))
  ];
  inside = λ c i. elim (dec_lt (length c.buf - c.pos) n) [
    | yes l ↦ ground (arith, lt→ltb (remaining c) n l)
    | no l ↦ ground (arith, le→ltb (remaining c) n (omega arith), h.inside c (omega arith))
  ];
}

number-IsSafe :
    (n : ℕ) (e : ParseError) → IsSafe 0 (require n e >> (slice n >>= λ bs. pure (from_le_bytes bs)))
number-IsSafe n e =
    require-IsSafe n e (bind-IsSafe _ (λ bs. pure-IsSafe (from_le_bytes bs)) (slice-IsSafe n))

pub read_u8-IsSafe : IsSafe 0 read_u8
unfolding read_u8
read_u8-IsSafe = number-IsSafe 1 eof_u8

read_u16_le-IsSafe : IsSafe 0 read_u16_le
unfolding read_u16_le
read_u16_le-IsSafe = number-IsSafe 2 eof_u16

pub read_u32_le-IsSafe : IsSafe 0 read_u32_le
unfolding read_u32_le
read_u32_le-IsSafe = number-IsSafe 4 eof_u32

pub read_u64_le-IsSafe : IsSafe 0 read_u64_le
unfolding read_u64_le
read_u64_le-IsSafe = number-IsSafe 8 eof_u64

utf8_slice-IsSafe : (n : ℕ) → IsSafe n (utf8_slice n)
unfolding utf8_slice
utf8_slice-IsSafe n = record {
  safe = λ c h. (bind-IsSafe _ (λ s. checked c h s) (slice-IsSafe n)).safe c h;
  inside = λ c h. (bind-IsSafe _ (λ s. checked c h s) (slice-IsSafe n)).inside c h;
}
  where
    checked :
        (c : Cursor)
        → c.pos + n ≤ length c.buf
        → (s : List ℕ) → IsSafe 0 (if is_utf8 s then pure s else λ _. throw invalid_utf8 c)
    checked c h s =
        if-IsSafe (is_utf8 s) (pure-IsSafe s)
          (record { safe = λ d i q. ground arith; inside = λ d i. omega arith })

read_str-IsSafe : IsSafe 0 read_str
unfolding read_str
read_str-IsSafe =
    bind-IsSafe _ (λ n. require-IsSafe n eof_string (utf8_slice-IsSafe n)) read_u16_le-IsSafe

pub read_bytes-IsSafe : IsSafe 0 read_bytes
unfolding read_bytes
read_bytes-IsSafe =
    bind-IsSafe _ (λ n. require-IsSafe n eof_bytes (slice-IsSafe n)) read_u32_le-IsSafe

pub read_entries-IsSafe : (count : ℕ) → IsSafe 0 (read_entries count)
unfolding read_entries
read_entries-IsSafe zero = pure-IsSafe []
read_entries-IsSafe (suc count) =
    bind-IsSafe _
      (λ ts.
        bind-IsSafe _
          (λ payload.
            bind-IsSafe _ (λ es. pure-IsSafe ((ts, payload) ∷ es)) (read_entries-IsSafe count))
          read_bytes-IsSafe)
      read_u64_le-IsSafe

pub read_vals-IsSafe : (count : ℕ) → IsSafe 0 (read_vals count)
unfolding read_vals
read_vals-IsSafe zero = pure-IsSafe []
read_vals-IsSafe (suc count) =
    bind-IsSafe _ (λ val. bind-IsSafe _ (λ vals. pure-IsSafe (val ∷ vals)) (read_vals-IsSafe count))
      read_bytes-IsSafe

-- A string, and what the reader of a string is followed by.
pub read_str-then :
    {A : Type 0} {f : Text → Reader A} → ((s : Text) → IsSafe 0 (f s)) → IsSafe 0 (read_str >>= f)
read_str-then h = bind-IsSafe _ h read_str-IsSafe
