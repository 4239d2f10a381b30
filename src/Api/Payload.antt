-- ===== src/Api/Payload.antt =====
-- The libraries that the handlers call, and the payload of an entry (client/src/api/handlers.rs).
use segmented_memory_storage.Common.{ℕ, Option, none, some, List, if◌then◌else◌}
use segmented_memory_storage.Common.Texts.{Text}
use segmented_memory_storage.Common.Utf8.{is_utf8}
use segmented_memory_storage.Common.Optional.{◌>>=◌}
use segmented_memory_storage.Api.Json.{Value, Fields}

-- `serde_json`, `base64`, `zstd`, `String::from_utf8_lossy`, and the local time of a timestamp, if
-- it is one, as `chrono` writes it.
pub record Libs : Type 0 where
  pub to_string : Fields → List ℕ
  pub fields_from_slice : List ℕ → Option Fields
  pub to_vec : Value → List ℕ
  pub value_from_slice : List ℕ → Option Value
  pub base64_encode : List ℕ → List ℕ
  pub base64_decode : List ℕ → Option (List ℕ)
  pub encode_all : List ℕ → List ℕ
  pub decode_all : List ℕ → Option (List ℕ)
  pub from_utf8_lossy : List ℕ → Text
  pub local_time : ℕ → Option Text

module _ (lib : Libs) where
  unfoldable pub encode_payload_b64 : Fields → List ℕ
  encode_payload_b64 payload = lib.encode_all (lib.base64_encode (lib.to_string payload))

  -- Nothing where one of the `unwrap`s panics.
  unfoldable pub decode_payload_b64 : List ℕ → Option Fields
  decode_payload_b64 encoded = do
    decompressed ← lib.decode_all encoded
    b64_str ← (if is_utf8 decompressed then some decompressed else none)
    json_str ← lib.base64_decode b64_str
    lib.fields_from_slice json_str
