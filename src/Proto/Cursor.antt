-- ===== src/Proto/Cursor.antt =====
-- `Cursor` and its readers (server/src/server/proto.rs).
use segmented_memory_storage.Common.{ℕ, ◌+◌, ◌-◌, List, length, take, drop, ltb, if◌then◌else◌}
use segmented_memory_storage.Common.Bytes.{from_le_bytes}
use segmented_memory_storage.Common.Outcome.{ok, err, crash, Action, pure, throw}
use segmented_memory_storage.Common.Texts.{Text}
use segmented_memory_storage.Common.Utf8.{is_utf8}
use segmented_memory_storage.Proto.Command.{
  ParseError, eof_u8, eof_u16, eof_u32, eof_u64, eof_string, eof_bytes, invalid_utf8,
}

pub record Cursor : Type 0 where
  pub buf : List ℕ
  pub pos : ℕ

abbrev pub Reader : Type 0 → Type 0
Reader = Action Cursor ParseError

-- The `?` behind a reader.
infixl 5 ◌>>=◌
unfoldable pub ◌>>=◌ : {A B : Type 0} → Reader A → (A → Reader B) → Reader B
◌>>=◌ m f c =
    let (r, c') = m c in elim r [ ok a ↦ f a c' | err e ↦ (err e, c') | crash ↦ (crash, c') ]

infixl 5 ◌>>◌
abbrev pub ◌>>◌ : {A B : Type 0} → Reader A → Reader B → Reader B
m >> k = m >>= λ _. k

abbrev pub remaining : Cursor → ℕ
remaining c = length c.buf - c.pos

-- `&self.buf[self.pos..self.pos + n]`, and the step behind it. A slice past the end panics.
unfoldable pub slice : ℕ → Reader (List ℕ)
slice n c =
    if ltb (length c.buf) (c.pos + n)
    then (crash, c)
    else (ok (take n (drop c.pos c.buf)), record c { pos = c.pos + n })

-- `if self.remaining() < n { return Err(e) }`
unfoldable pub require : ℕ → ParseError → Reader (Unit {0})
require n e c = (if ltb (remaining c) n then throw e else pure tt) c

unfoldable pub read_u8 : Reader ℕ
read_u8 = require 1 eof_u8 >> (slice 1 >>= λ bs. pure (from_le_bytes bs))

unfoldable pub read_u16_le : Reader ℕ
read_u16_le = require 2 eof_u16 >> (slice 2 >>= λ bs. pure (from_le_bytes bs))

unfoldable pub read_u32_le : Reader ℕ
read_u32_le = require 4 eof_u32 >> (slice 4 >>= λ bs. pure (from_le_bytes bs))

unfoldable pub read_u64_le : Reader ℕ
read_u64_le = require 8 eof_u64 >> (slice 8 >>= λ bs. pure (from_le_bytes bs))

-- A string that is not UTF-8 is refused before the cursor moves on.
unfoldable pub utf8_slice : ℕ → Reader Text
unfolding ◌>>=◌
utf8_slice len c = (slice len >>= λ s. if is_utf8 s then pure s else λ _. throw invalid_utf8 c) c

unfoldable pub read_str : Reader Text
read_str = do len ← read_u16_le; require len eof_string; utf8_slice len

unfoldable pub read_bytes : Reader (List ℕ)
read_bytes = do len ← read_u32_le; require len eof_bytes; slice len
