-- ===== src/Proto/Reads.antt =====
-- A rule for each reader of server/src/server/proto.rs: on input that begins with the bytes of a
-- value it returns the value and stands behind them.
use segmented_memory_storage.Common.{
  ℕ, suc, ◌^◌, ◌≤◌, ◌<◌, ◌≡◌, ap, ◌∙◌, true, List, [], ◌∷◌, ◌++◌, arith, length, length-append,
  take-append_length, drop-append_length, ne→==, if◌then◌else◌, All,
}
use mathlib.Core.Path.{subst}
use mathlib.Core.List.{append_assoc, append-nil}
use segmented_memory_storage.Common.Bytes.{
  to_le_bytes, from_le_bytes, length-to_le_bytes, from_le_bytes-to_le_bytes,
}
use segmented_memory_storage.Common.Outcome.{ok, err, pure}
use segmented_memory_storage.Common.Texts.{Text}
use segmented_memory_storage.Common.Utf8.{is_utf8}
use segmented_memory_storage.Proto.Command.{
  Command, ParseError, empty_frame, eof_u8, eof_u16, eof_u32, eof_u64, eof_string, eof_bytes,
}
use segmented_memory_storage.Proto.Cursor.{
  Cursor, Reader, ◌>>=◌, ◌>>◌, slice, require, read_u8, read_u16_le, read_u32_le, read_u64_le,
  utf8_slice, read_str, read_bytes,
}
use segmented_memory_storage.Client.Frames.{str_field, bytes_field, entry_fields, val_fields}
use segmented_memory_storage.Proto.Parse.{read_entries, read_vals, parse_tagged, parse_command}

-- The cursor between what has been read and what has not.
abbrev pub between : List ℕ → List ℕ → Cursor
between before rest = record { buf = before ++ rest; pos = length before }

pub record Reads {A : Type 0} (m : Reader A) (bytes : List ℕ) (a : A) : Type 0 where
  pub reads :
      (before rest : List ℕ)
      → m (between before (bytes ++ rest)) ≡ (ok a, between (before ++ bytes) rest)

pub Reads-pure : {A : Type 0} (a : A) → Reads (pure a) [] a
Reads-pure a = record { reads = λ before rest. rw append-nil }

bind_ok :
    {A B : Type 0} (m : Reader A) (f : A → Reader B) (c c' : Cursor) (a : A)
    → m c ≡ (ok a, c')
    → (m >>= f) c ≡ f a c'
unfolding ◌>>=◌
bind_ok m f c c' a h = ground (arith, h)

pub Reads-bind :
    {A B : Type 0} {m : Reader A} (f : A → Reader B) {xs ys : List ℕ} {a : A} {b : B}
    → Reads m xs a
    → Reads (f a) ys b
    → Reads (m >>= f) (xs ++ ys) b
Reads-bind {m = m} f {xs = xs} {ys = ys} {a = a} {b = b} h k = record {
  reads = λ before rest.
      ap (λ w. (m >>= f) (between before w)) (append_assoc xs ys rest)
      ∙ bind_ok m f (between before (xs ++ (ys ++ rest))) (between (before ++ xs) (ys ++ rest)) a
          (h.reads before (ys ++ rest))
      ∙ k.reads (before ++ xs) rest
      ∙ ap (λ w. (ok b, between w rest)) (append_assoc before xs ys);
}

pub slice-Reads : (bytes : List ℕ) → Reads (slice (length bytes)) bytes bytes
unfolding slice
slice-Reads bytes = record {
  reads = λ before rest. ground (
    arith,
    length-append before (bytes ++ rest),
    length-append before bytes,
    length-append bytes rest,
    append_assoc before bytes rest,
    drop-append_length before (bytes ++ rest),
    take-append_length bytes rest,
  );
}

require-Reads :
    {A : Type 0} (e : ParseError) (m : Reader A) (bytes : List ℕ) (n : ℕ) (a : A)
    → n ≤ length bytes
    → Reads m bytes a
    → Reads (require n e >> m) bytes a
unfolding require ◌>>=◌
require-Reads e m bytes n a h k = record {
  reads = λ before rest.
      ground (
        arith,
        length-append before (bytes ++ rest),
        length-append bytes rest,
        k.reads before rest,
      );
}

-- A reader whose result is a function of what another reads.
pub Reads-map :
    {A B : Type 0} {m : Reader A} (f : A → B) {bytes : List ℕ} {a : A}
    → Reads m bytes a
    → Reads (m >>= λ x. pure (f x)) bytes (f a)
Reads-map {m = m} f {bytes = bytes} {a = a} h = record {
  reads = λ before rest.
      bind_ok m (λ x. pure (f x)) (between before (bytes ++ rest)) (between (before ++ bytes) rest)
        a (h.reads before rest);
}

pub le-Reads :
    (w v : ℕ) → v < 256 ^ w → Reads (slice w >>= λ bs. pure (from_le_bytes bs)) (to_le_bytes w v) v
le-Reads w v h =
    subst (λ z. Reads (slice w >>= λ bs. pure (from_le_bytes bs)) (to_le_bytes w v) z)
      (from_le_bytes-to_le_bytes w v h)
      (Reads-map from_le_bytes (
        subst (λ n. Reads (slice n) (to_le_bytes w v) (to_le_bytes w v)) (length-to_le_bytes w v)
          (slice-Reads (to_le_bytes w v))))

number-Reads :
    (w : ℕ) (e : ParseError) (v : ℕ)
    → v < 256 ^ w
    → Reads (require w e >> (slice w >>= λ bs. pure (from_le_bytes bs))) (to_le_bytes w v) v
number-Reads w e v h =
    require-Reads e (slice w >>= λ bs. pure (from_le_bytes bs)) (to_le_bytes w v) w v
      (omega (arith, length-to_le_bytes w v)) (le-Reads w v h)

pub read_u8-Reads : (v : ℕ) → v < 256 → Reads read_u8 (v ∷ []) v
unfolding read_u8 to_le_bytes
read_u8-Reads v h = subst (λ z. Reads read_u8 (z ∷ []) v) (omega arith) (number-Reads 1 eof_u8 v h)

pub read_u16_le-Reads : (v : ℕ) → v < 256 ^ 2 → Reads read_u16_le (to_le_bytes 2 v) v
unfolding read_u16_le
read_u16_le-Reads v h = number-Reads 2 eof_u16 v h

pub read_u32_le-Reads : (v : ℕ) → v < 256 ^ 4 → Reads read_u32_le (to_le_bytes 4 v) v
unfolding read_u32_le
read_u32_le-Reads v h = number-Reads 4 eof_u32 v h

pub read_u64_le-Reads : (v : ℕ) → v < 256 ^ 8 → Reads read_u64_le (to_le_bytes 8 v) v
unfolding read_u64_le
read_u64_le-Reads v h = number-Reads 8 eof_u64 v h

utf8_slice-Reads : (s : Text) → is_utf8 s ≡ true → Reads (utf8_slice (length s)) s s
unfolding utf8_slice ◌>>=◌
utf8_slice-Reads s h = record {
  reads = λ before rest. ground (arith, (slice-Reads s).reads before rest);
}

-- A length that fits its field, and UTF-8.
pub record IsStr (s : Text) : Type 0 where
  pub fits : length s < 256 ^ 2
  pub utf8 : is_utf8 s ≡ true

abbrev pub IsPayload : List ℕ → Type 0
IsPayload s = length s < 256 ^ 4

pub read_str-Reads : (s : Text) → IsStr s → Reads read_str (str_field s) s
unfolding read_str
read_str-Reads s h = Reads-bind _ (read_u16_le-Reads (length s) h.fits) (
    require-Reads eof_string (utf8_slice (length s)) s (length s) s (omega arith)
      (utf8_slice-Reads s h.utf8))

pub read_bytes-Reads : (s : List ℕ) → IsPayload s → Reads read_bytes (bytes_field s) s
unfolding read_bytes
read_bytes-Reads s h =
    Reads-bind _ (read_u32_le-Reads (length s) h)
      (require-Reads eof_bytes (slice (length s)) s (length s) s (omega arith) (slice-Reads s))

-- The tag is taken off.
pub parse_command_tag :
    (tag : ℕ) (body : List ℕ)
    → tag < 256
    → parse_command (tag ∷ body) ≡ (parse_tagged tag (between (tag ∷ []) body)).0
unfolding parse_command
parse_command_tag tag body h =
    ap
      (λ b. if b then err empty_frame else ((read_u8 >>= parse_tagged) (between [] (tag ∷ body))).0)
      (ne→== (suc (length body)) 0 (λ e. omega arith))
    ∙ ap (λ q. q.0)
        (bind_ok read_u8 parse_tagged (between [] (tag ∷ body)) (between (tag ∷ []) body) tag
          ((read_u8-Reads tag h).reads [] body))

pub parse_command_frame :
    (tag : ℕ) (body rest : List ℕ) (cmd : Command)
    → tag < 256
    → Reads (parse_tagged tag) body cmd
    → parse_command (tag ∷ body ++ rest) ≡ ok cmd
parse_command_frame tag body rest cmd h r =
    parse_command_tag tag (body ++ rest) h ∙ ap (λ q. q.0) (r.reads (tag ∷ []) rest)

-- The loops over `count`.
abbrev pub IsEntry : ℕ × List ℕ → Type 0
IsEntry e = (e.0 < 256 ^ 8) × IsPayload e.1

pub read_entries-Reads :
    (es : List (ℕ × List ℕ))
    → All IsEntry es
    → Reads (read_entries (length es)) (entry_fields es) es
unfolding read_entries
read_entries-Reads [] h = Reads-pure []
read_entries-Reads (e ∷ es) h =
    Reads-bind _ (read_u64_le-Reads e.0 h.0.0)
      (Reads-bind _ (read_bytes-Reads e.1 h.0.1) (Reads-map (◌∷◌ e) (read_entries-Reads es h.1)))

pub read_vals-Reads :
    (vals : List (List ℕ))
    → All IsPayload vals
    → Reads (read_vals (length vals)) (val_fields vals) vals
unfolding read_vals
read_vals-Reads [] h = Reads-pure []
read_vals-Reads (val ∷ vals) h =
    Reads-bind _ (read_bytes-Reads val h.0) (Reads-map (◌∷◌ val) (read_vals-Reads vals h.1))
