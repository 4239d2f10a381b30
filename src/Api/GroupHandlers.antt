-- ===== src/Api/GroupHandlers.antt =====
-- The handlers of groups and entries (client/src/api/handlers.rs).
use segmented_memory_storage.Common.{ℕ, suc, Option, none, some, List, [], ◌∷◌, ◌++◌, map}
use segmented_memory_storage.Common.Optional.{◌>>=◌}
use segmented_memory_storage.Common.Texts.{Text, codes}
use segmented_memory_storage.Client.Frames
use segmented_memory_storage.Client.Replies.{
  check_status, list_groups_reply, group_stats_reply, add_reply, add_range_reply, read_reply,
  read_range_reply,
}
use segmented_memory_storage.Api.Json.{
  Value, Fields, string, array, object, end, field, values, num, one,
}
use segmented_memory_storage.Api.Http.{Response, Conn, Handler, okay, exchange, with_conn}
use segmented_memory_storage.Api.Payload.{Libs, encode_payload_b64, decode_payload_b64}
use segmented_memory_storage.Api.KvHandlers.{status}

abbrev time_text : Option Text → Text
time_text (some t) = t
time_text none = codes "invalid timestamp"

module _ (lib : Libs) where
  -- The entries of a batch, each with a reading of the clock.
  unfoldable pub stamped : (ℕ → ℕ) → List Fields → List (ℕ × List ℕ)
  stamped now [] = []
  stamped now (e ∷ req) = (now 0, encode_payload_b64 lib e) ∷ stamped (λ i. now (suc i)) req

  -- `Ok(Ok((id, timestamp, payload)))`
  unfoldable pub entry_response : ℕ × (ℕ × List ℕ) → Option Response
  entry_response (id, (timestamp, payload)) = do
    payload_decoded ← decode_payload_b64 lib payload
    some (
        okay (
          object (
            field (codes "id") (num id) (
              field (codes "timestamp") (string (time_text (lib.local_time timestamp)))
                (field (codes "payload") (object payload_decoded) end)))))

  unfoldable pub entries_decoded : List (ℕ × (ℕ × List ℕ)) → Option (List Value)
  entries_decoded [] = some []
  entries_decoded ((id, (timestamp, payload)) ∷ entries) =
      let rest = entries_decoded entries in
      decode_payload_b64 lib payload >>= λ payload_decoded. rest >>= λ vs. some (
        object (
          field (codes "id") (num id) (
            field (codes "timestamp") (num timestamp)
              (field (codes "payload") (object payload_decoded) end)))
        ∷ vs)

module _ {S : Type 0} (conn : Conn S) (lib : Libs) where
  unfoldable pub create_group : Text → Handler S
  create_group name = with_conn conn (
      exchange conn (Frames.create_group name) (check_status lib.from_utf8_lossy)
        λ _. some (okay (status (codes "group created"))))

  unfoldable pub list_groups : Handler S
  list_groups = with_conn conn (
      exchange conn Frames.list_groups (list_groups_reply lib.from_utf8_lossy)
        λ groups. some (okay (one (codes "groups") (array (values (map string groups))))))

  unfoldable pub drop_group : Text → Handler S
  drop_group name = with_conn conn (
      exchange conn (Frames.drop_group name) (check_status lib.from_utf8_lossy)
        λ _. some (okay (status (codes "group dropped"))))

  unfoldable pub group_stats : Text → Handler S
  group_stats name = with_conn conn (
      exchange conn (Frames.group_stats name) (group_stats_reply lib.from_utf8_lossy) λ stats.
        some (
          okay (
            object (
              field (codes "entries") (num stats.0) (
                field (codes "segments") (num stats.1.0)
                  (field (codes "next_id") (num stats.1.1) end))))))

  -- `now` is what the clock says in the call.
  unfoldable pub add_entry : ℕ → Text → Fields → Handler S
  add_entry now name req = with_conn conn (
      exchange conn (Frames.add name now (encode_payload_b64 lib req))
        (add_reply lib.from_utf8_lossy)
        λ id. some (
          okay (
            object (
              field (codes "status") (string (codes "entry added"))
                (field (codes "id") (num id) end)))))

  unfoldable pub add_range_entries : (ℕ → ℕ) → Text → List Fields → Handler S
  add_range_entries now name req = with_conn conn (
      exchange conn (Frames.add_range name (stamped lib now req))
        (add_range_reply lib.from_utf8_lossy)
        λ ids. some (
          okay (
            object (
              field (codes "status") (string (codes "entries added"))
                (field (codes "first") (num ids.0) (field (codes "last") (num ids.1) end))))))

  unfoldable pub read_entry : Text → ℕ → Handler S
  read_entry name id =
      with_conn conn
        (exchange conn (Frames.read name id) (read_reply lib.from_utf8_lossy) (entry_response lib))

  unfoldable pub read_range_entries : Text → ℕ → ℕ → Handler S
  read_range_entries name start_id end_id = with_conn conn (
      exchange conn (Frames.read_range name start_id end_id) (read_range_reply lib.from_utf8_lossy)
        λ entries. entries_decoded lib entries >>= λ vs.
          some (okay (one (codes "entries") (array (values vs)))))

  -- `format!("entries dropped up to id {}", upto_id)`, where `digits` writes a number.
  unfoldable pub drop_entries : (ℕ → Text) → Text → ℕ → Handler S
  drop_entries digits group upto_id = with_conn conn (
      exchange conn (Frames.remove group upto_id) (check_status lib.from_utf8_lossy)
        λ _. some (okay (status (codes "entries dropped up to id " ++ digits upto_id))))
