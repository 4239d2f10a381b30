-- ===== src/Api/ListHandlers.antt =====
-- The handlers of lists (client/src/api/handlers.rs), and `health`. A body's numbers are cut to 32
-- bits.
use segmented_memory_storage.Common.{ℕ, ◌%◌, ◌^◌, Option, none, some, List, map}
use segmented_memory_storage.Common.Optional.{◌>>=◌}
use segmented_memory_storage.Common.Texts.{Text, codes}
use segmented_memory_storage.Client.Frames
use segmented_memory_storage.Client.Replies.{
  check_status, kv_get_reply, l_pop_range_reply, add_reply,
}
use segmented_memory_storage.Api.Json.{
  Value, string, array, get, as_u64, as_str, as_strings, values, num, one,
}
use segmented_memory_storage.Api.Http.{Response, Conn, Handler, okay, failed, exchange, with_conn}
use segmented_memory_storage.Api.Payload.{Libs}
use segmented_memory_storage.Api.KvHandlers.{status}

abbrev pub missing : {S : Type 0} → Text → Handler S
missing what s = (some (failed 400 what), s)

module _ {S : Type 0} (conn : Conn S) (lib : Libs) where
  unfoldable pub list_push : Text → Value → Handler S
  list_push key req = with_conn conn (elim (get (codes "val") req >>= as_str) [
    | none ↦ missing (codes "missing val")
    | some val ↦
        exchange conn (Frames.l_push key val) (check_status lib.from_utf8_lossy)
          λ _. some (okay (status (codes "ok")))
  ])

  unfoldable pub list_push_range : Text → Value → Handler S
  list_push_range key req = with_conn conn (elim (get (codes "vals") req >>= as_strings) [
    | none ↦ missing (codes "missing vals")
    | some vals ↦
        exchange conn (Frames.l_push_range key vals) (check_status lib.from_utf8_lossy)
          λ _. some (okay (status (codes "ok")))
  ])

  unfoldable pub list_pop : Text → Handler S
  list_pop key = with_conn conn (
      exchange conn (Frames.l_pop key) (kv_get_reply lib.from_utf8_lossy) λ reply. elim reply [
        | none ↦ some (failed 404 (codes "list empty or not found"))
        | some val ↦ some (okay (one (codes "val") (string (lib.from_utf8_lossy val))))
      ])

  -- `json!({"vals": decoded})`
  abbrev pub decoded_vals : List (List ℕ) → Option Response
  decoded_vals vals =
      some (
        okay (one (codes "vals") (array (values (map (λ v. string (lib.from_utf8_lossy v)) vals)))))

  unfoldable pub list_pop_range : Text → Value → Handler S
  list_pop_range key req = with_conn conn (elim (get (codes "start") req >>= as_u64) [
    | none ↦ missing (codes "missing start")
    | some start ↦ elim (get (codes "end") req >>= as_u64) [
      | none ↦ missing (codes "missing end")
      | some end ↦
          exchange conn (Frames.l_pop_range key (start % 2 ^ 32) (end % 2 ^ 32))
            (l_pop_range_reply lib.from_utf8_lossy) decoded_vals
    ]
  ])

  unfoldable pub list_pop_count : Text → Value → Handler S
  list_pop_count key req = with_conn conn (elim (get (codes "count") req >>= as_u64) [
    | none ↦ missing (codes "missing count")
    | some count ↦
        exchange conn (Frames.l_pop_count key (count % 2 ^ 32))
          (l_pop_range_reply lib.from_utf8_lossy) decoded_vals
  ])

  unfoldable pub list_len : Text → Handler S
  list_len key = with_conn conn (
      exchange conn (Frames.l_len key) (add_reply lib.from_utf8_lossy)
        λ len. some (okay (one (codes "len") (num len))))

  unfoldable pub list_flush : Text → Handler S
  list_flush key = with_conn conn (
      exchange conn (Frames.l_flush key) (check_status lib.from_utf8_lossy)
        λ _. some (okay (status (codes "flushed"))))

unfoldable pub health : {S : Type 0} → Handler S
health s = (some (okay (status (codes "ok"))), s)
