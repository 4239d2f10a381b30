-- ===== src/Aof/Base64.antt =====
-- `AofEntry::to_base64` and `from_base64` (server/src/db/aof.rs). Where the source joins numbers of
-- disjoint bits by `|`, the model adds them, and `serde_json` is a parameter.
use segmented_memory_storage.Common.{
  ℕ, ◌+◌, ◌-◌, ◌*◌, ◌/◌, ◌%◌, ◌^◌, ◌&&◌, Option, List, [], ◌∷◌, ◌++◌, leb, ◌==◌, get_or,
  if◌then◌else◌,
}
use segmented_memory_storage.Common.Texts.{Text, codes}
use segmented_memory_storage.Aof.Entry.{AofEntry}

abbrev pub chars : List ℕ
chars = codes "ABCDEFGHIJKLMNOPQRSTUVWXYZabcdefghijklmnopqrstuvwxyz0123456789+/"

unfoldable pub char_of : ℕ → ℕ
char_of i = get_or chars i 0

-- The loop over three bytes at a time, and the one or two that are left.
unfoldable pub encode : List ℕ → Text
encode [] = []
encode (x ∷ []) =
    let b = x * 2 ^ 16 in char_of (b / 2 ^ 18 % 64) ∷ char_of (b / 2 ^ 12 % 64) ∷ b'=' ∷ b'=' ∷ []
encode (x ∷ y ∷ []) =
    let b = x * 2 ^ 16 + y * 2 ^ 8 in
    char_of (b / 2 ^ 18 % 64) ∷ char_of (b / 2 ^ 12 % 64) ∷ char_of (b / 2 ^ 6 % 64) ∷ b'=' ∷ []
encode (x ∷ y ∷ z ∷ rest) =
    let b = x * 2 ^ 16 + y * 2 ^ 8 + z in
    char_of (b / 2 ^ 18 % 64)
    ∷ char_of (b / 2 ^ 12 % 64)
    ∷ char_of (b / 2 ^ 6 % 64)
    ∷ char_of (b % 64)
    ∷ encode rest

unfoldable pub decode_char : ℕ → ℕ
decode_char c =
    if leb b'A' c && leb c b'Z'
    then c - b'A'
    else (if leb b'a' c && leb c b'z'
        then c - b'a' + 26
        else (if leb b'0' c && leb c b'9'
            then c - b'0' + 52
            else (if c == b'+' then 62 else (if c == b'/' then 63 else 0))))

-- The loop over four characters at a time; up to three that are left are dropped.
unfoldable pub decode : Text → List ℕ
decode (c ∷ d ∷ e ∷ f ∷ rest) =
    let b =
      decode_char c * 2 ^ 18 + decode_char d * 2 ^ 12 + decode_char e * 2 ^ 6 + decode_char f in
    (b / 2 ^ 16 % 256)
    ∷ ((if e == b'=' then [] else (b / 2 ^ 8 % 256) ∷ [])
        ++ ((if f == b'=' then [] else (b % 256) ∷ []) ++ decode rest))
decode _ = []

-- `to_vec` is `serde_json::to_vec`, and `from_slice` its inverse, which may fail.
unfoldable pub to_base64 : (AofEntry → List ℕ) → AofEntry → Text
to_base64 to_vec e = encode (to_vec e)

unfoldable pub from_base64 : (List ℕ → Option AofEntry) → Text → Option AofEntry
from_base64 from_slice s = from_slice (decode s)
