-- ===== src/Client/Replies.antt =====
-- What the methods of `Client` read of a response (client/src/client/client.rs). The client takes
-- numbers and slices at ascending positions, each of which panics past the end, as `slice` does.
use segmented_memory_storage.Common.{
  ℕ, zero, suc, ◌+◌, ◌&&◌, Option, none, some, List, [], ◌∷◌, length, take, drop, ltb, leb, ◌==◌,
  if◌then◌else◌,
}
use segmented_memory_storage.Common.Bytes.{from_le_bytes}
use segmented_memory_storage.Common.Outcome.{Outcome, ok, err, crash, pure}
use segmented_memory_storage.Common.Texts.{Text}
use segmented_memory_storage.Proto.Cursor.{Reader, ◌>>=◌, slice}

-- "unknown error", "malformed error response" and "empty response", and the server's own message.
pub data ReplyError : Type 0 where
  unknown_error malformed_error empty_response : ReplyError
  message : Text → ReplyError

-- `send_recv`, where the stream holds these bytes: a length, and as many bytes. `none` where it ends
-- before.
unfoldable pub received : List ℕ → Option (List ℕ)
received stream =
    let resp_len = from_le_bytes (take 4 stream) in
    if ltb (length stream) 4
    then none
    else (if ltb (length (drop 4 stream)) resp_len
        then none
        else some (take resp_len (drop 4 stream)))

-- `uN::from_le_bytes(resp[pos..pos + w].try_into().unwrap())`
abbrev pub le_at : ℕ → Reader ℕ
le_at w = slice w >>= λ bs. pure (from_le_bytes bs)

-- A read of the rest of a response, from its second byte on; such a read has no error of its own.
unfoldable pub from_second : {A : Type 0} → Reader A → List ℕ → Outcome ReplyError A
from_second m resp = elim (m (record { buf = resp; pos = 1 })).0 [
  | ok a ↦ ok a
  | err e ↦ crash
  | crash ↦ crash
]

-- The loops.
unfoldable pub entries_at : ℕ → Reader (List (ℕ × (ℕ × List ℕ)))
entries_at zero = pure []
entries_at (suc count) = do
  id ← le_at 8
  ts ← le_at 8
  plen ← le_at 4
  payload ← slice plen
  entries ← entries_at count
  pure ((id, (ts, payload)) ∷ entries)

unfoldable pub vals_at : ℕ → Reader (List (List ℕ))
vals_at zero = pure []
vals_at (suc count) = do vlen ← le_at 4; val ← slice vlen; vals ← vals_at count; pure (val ∷ vals)

-- `kv_get` and `l_pop`: a value of no bytes counts as none.
abbrev pub some_bytes : ℕ → Reader (Option (List ℕ))
some_bytes val_len = if val_len == 0 then pure none else (slice val_len >>= λ val. pure (some val))

-- `from_utf8_lossy` is the standard library's: text for any bytes.
module _ (from_utf8_lossy : List ℕ → Text) where
  unfoldable pub names_at : ℕ → Reader (List Text)
  names_at zero = pure []
  names_at (suc count) = do
    name_len ← le_at 2
    name ← slice name_len
    names ← names_at count
    pure (from_utf8_lossy name ∷ names)

  abbrev pub extract_err : List ℕ → ReplyError
  extract_err resp =
      let msg_len = from_le_bytes (take 2 (drop 1 resp)) in
      if ltb (length resp) 4
      then unknown_error
      else (if leb (3 + msg_len) (length resp)
          then message (from_utf8_lossy (take msg_len (drop 3 resp)))
          else malformed_error)

  unfoldable pub check_status : List ℕ → Outcome ReplyError (Unit {0})
  check_status [] = err empty_response
  check_status (status ∷ resp) = if status == 0 then ok tt else err (extract_err (status ∷ resp))

  -- `if resp[0] == 0x00 && resp.len() >= n`
  abbrev pub if_long : {A : Type 0} → ℕ → Reader A → List ℕ → Outcome ReplyError A
  if_long n m [] = crash
  if_long n m (status ∷ resp) =
      if status == 0 && leb n (length (status ∷ resp))
      then from_second m (status ∷ resp)
      else err (extract_err (status ∷ resp))

  -- `if resp[0] != 0x00 { return Ok(Err(..)) }`
  abbrev pub if_ok : {A : Type 0} → Reader A → List ℕ → Outcome ReplyError A
  if_ok m [] = crash
  if_ok m (status ∷ resp) =
      if status == 0 then from_second m (status ∷ resp) else err (extract_err (status ∷ resp))

  unfoldable pub add_reply : List ℕ → Outcome ReplyError ℕ
  add_reply = if_long 9 (le_at 8)

  unfoldable pub add_range_reply : List ℕ → Outcome ReplyError (ℕ × ℕ)
  add_range_reply = if_long 17 (do first ← le_at 8; last ← le_at 8; pure (first, last))

  unfoldable pub read_reply : List ℕ → Outcome ReplyError (ℕ × (ℕ × List ℕ))
  read_reply = if_long 21 (do
    entry_id ← le_at 8
    ts ← le_at 8
    plen ← le_at 4
    payload ← slice plen
    pure (entry_id, (ts, payload)))

  unfoldable pub read_range_reply : List ℕ → Outcome ReplyError (List (ℕ × (ℕ × List ℕ)))
  read_range_reply = if_long 5 (le_at 4 >>= entries_at)

  unfoldable pub list_groups_reply : List ℕ → Outcome ReplyError (List Text)
  list_groups_reply = if_long 5 (le_at 4 >>= names_at)

  unfoldable pub group_stats_reply : List ℕ → Outcome ReplyError (ℕ × (ℕ × ℕ))
  group_stats_reply = if_long 21 (do
    entries ← le_at 8
    segments ← le_at 4
    next_id ← le_at 8
    pure (entries, (segments, next_id)))

  unfoldable pub kv_keys_reply : List ℕ → Outcome ReplyError (List Text)
  kv_keys_reply = if_ok (le_at 4 >>= names_at)

  unfoldable pub l_pop_range_reply : List ℕ → Outcome ReplyError (List (List ℕ))
  l_pop_range_reply = if_ok (le_at 4 >>= vals_at)

  unfoldable pub kv_get_reply : List ℕ → Outcome ReplyError (Option (List ℕ))
  kv_get_reply [] = crash
  kv_get_reply (status ∷ resp) =
      if status == 0
      then (if ltb (length (status ∷ resp)) 5
          then ok none
          else from_second (le_at 4 >>= some_bytes) (status ∷ resp))
      else err (extract_err (status ∷ resp))
