-- ===== src/Api/KvHandlers.antt =====
-- The handlers of keys (client/src/api/handlers.rs).
use segmented_memory_storage.Common.{ℕ, Option, none, some, map}
use segmented_memory_storage.Common.Optional.{◌>>=◌}
use segmented_memory_storage.Common.Texts.{Text, codes}
use segmented_memory_storage.Client.Frames
use segmented_memory_storage.Client.Replies.{check_status, kv_get_reply, kv_keys_reply}
use segmented_memory_storage.Api.Json.{Value, null, string, array, get, as_u64, values, one}
use segmented_memory_storage.Api.Http.{Conn, Handler, okay, failed, exchange, with_conn}
use segmented_memory_storage.Api.Payload.{Libs}

abbrev pub status : Text → Value
status s = one (codes "status") (string s)

abbrev pub or_zero : Option ℕ → ℕ
or_zero none = 0
or_zero (some n) = n

abbrev pub or_null : Option Value → Value
or_null none = null
or_null (some v) = v

module _ {S : Type 0} (conn : Conn S) (lib : Libs) where
  unfoldable pub kv_set : Text → Text → Value → Handler S
  kv_set db key req = with_conn conn (
      let ttl_secs = or_zero (get (codes "ttl") req >>= as_u64) in
      elim (get (codes "val") req) [
        | none ↦ λ s. (some (failed 400 (codes "missing val")), s)
        | some v ↦
            exchange conn (Frames.kv_set db key (lib.to_vec v) ttl_secs)
              (check_status lib.from_utf8_lossy) (λ _. some (okay (status (codes "ok"))))
      ])

  unfoldable pub kv_get : Text → Text → Handler S
  kv_get db key = with_conn conn (
      exchange conn (Frames.kv_get db key) (kv_get_reply lib.from_utf8_lossy) λ reply. elim reply [
        | none ↦ some (failed 404 (codes "key not found"))
        | some bytes ↦ some (okay (one (codes "val") (or_null (lib.value_from_slice bytes))))
      ])

  unfoldable pub kv_del : Text → Text → Handler S
  kv_del db key = with_conn conn (
      exchange conn (Frames.kv_del db key) (check_status lib.from_utf8_lossy)
        λ _. some (okay (status (codes "deleted"))))

  unfoldable pub kv_keys : Text → Handler S
  kv_keys db = with_conn conn (
      exchange conn (Frames.kv_keys db) (kv_keys_reply lib.from_utf8_lossy)
        λ keys. some (okay (one (codes "keys") (array (values (map string keys))))))

  unfoldable pub kv_flush : Text → Handler S
  kv_flush db = with_conn conn (
      exchange conn (Frames.kv_flush db) (check_status lib.from_utf8_lossy)
        λ _. some (okay (status (codes "flushed"))))
