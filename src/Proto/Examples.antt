-- ===== src/Proto/Examples.antt =====
-- Frames at concrete bytes (server/src/server/codec.rs).
use segmented_memory_storage.Common.{ℕ, ◌≡◌, ◌≢◌, refl, some, List, [], ◌∷◌, ◌++◌, arith}
use segmented_memory_storage.Common.Bytes.{to_le_bytes, from_le_bytes}
use segmented_memory_storage.Common.Outcome.{ok, err, crash}
use segmented_memory_storage.Proto.Command.{eof_u16}
use segmented_memory_storage.Proto.Parse.{
  parse_tagged, parse_group, parse_kv, parse_list, parse_ha, parse_command,
}
use segmented_memory_storage.Proto.Cursor.{
  ◌>>=◌, slice, require, read_u8, read_u16_le, read_u64_le, utf8_slice, read_str, read_bytes,
}
use segmented_memory_storage.Proto.Safe.{parse_command_safe}
use segmented_memory_storage.Proto.Responses.{finalize}
use segmented_memory_storage.Proto.Codec.{decode, decode-append}

parse_program : Unit {0}
unfolding parse_command parse_tagged parse_group parse_kv parse_list parse_ha read_u8 read_u16_le
    read_u64_le read_str read_bytes require slice utf8_slice ◌>>=◌ from_le_bytes
parse_program = tt

abbrev body : List ℕ
body = 8 ∷ 9 ∷ []

abbrev received : List ℕ
received = 1 ∷ 0 ∷ 0 ∷ 0 ∷ 8 ∷ 5 ∷ []

decode-received : decode received ≡ (ok (some (8 ∷ [])), 5 ∷ [])
unfolding decode from_le_bytes
decode-received = refl

decode-append_example :
    decode (received ++ 0 ∷ []) ≡ ((decode received).0, (decode received).1 ++ 0 ∷ [])
decode-append_example = decode-append received (0 ∷ []) (λ e. ground (arith, decode-received))

parse_cut : parse_command (3 ∷ 9 ∷ []) ≡ err eof_u16
unfolding parse_program
parse_cut = refl

parse_command_safe_example : parse_command (3 ∷ 9 ∷ []) ≢ crash
parse_command_safe_example = parse_command_safe (3 ∷ 9 ∷ [])

-- The length of a response, in front.
finalize_four :
    (finalize (record { buf = 0 ∷ 0 ∷ 0 ∷ 0 ∷ 1 ∷ 2 ∷ [] })).buf ≡ 2 ∷ 0 ∷ 0 ∷ 0 ∷ 1 ∷ 2 ∷ []
unfolding finalize to_le_bytes
finalize_four = refl
