-- ===== src/Api/Http.antt =====
-- A handler's way to the server: a client of the pool, one exchange over it, and the response
-- (client/src/api/handlers.rs).
use segmented_memory_storage.Common.{ℕ, Option, none, some, List}
use segmented_memory_storage.Common.Outcome.{Outcome, ok, err, crash, Action}
use segmented_memory_storage.Common.Texts.{Text, codes}
use segmented_memory_storage.Client.Replies.{
  ReplyError, unknown_error, malformed_error, empty_response, message,
}
use segmented_memory_storage.Api.Json.{Value, string, one}

pub record Response : Type 0 where
  pub status : ℕ
  pub body : Value

-- `json!({"error": e})` under a status.
abbrev pub failed : ℕ → Text → Response
failed status e = record { status = status; body = one (codes "error") (string e) }

abbrev pub okay : Value → Response
okay v = record { status = 200; body = v }

-- The texts of the client's errors.
abbrev pub reply_message : ReplyError → Text
reply_message unknown_error = codes "unknown error"
reply_message malformed_error = codes "malformed error response"
reply_message empty_response = codes "empty response"
reply_message (message m) = m

-- What a handler calls, over the state of the other side: the pool's `acquire` and the drop of what
-- it gave, and `send_recv` of the client in hand. An error is the text of it.
pub record Conn (S : Type 0) : Type 0 where
  pub acquire : Action S Text (Unit {0})
  pub send_recv : List ℕ → Action S Text (List ℕ)
  pub release : S → S

-- The response, or nothing where the handler panics.
abbrev pub Handler : Type 0 → Type 0
Handler S = S → Option Response × S

-- The arms of the `match` on what a method of the client gave.
unfoldable pub arms :
    {A : Type 0}
    → (List ℕ → Outcome ReplyError A)
    → (A → Option Response)
    → Outcome Text (List ℕ)
    → Option Response
arms reply respond (ok resp) = elim (reply resp) [
  | ok a ↦ respond a
  | err e ↦ some (failed 400 (reply_message e))
  | crash ↦ none
]
arms reply respond (err e) = some (failed 500 e)
arms reply respond crash = none

module _ {S : Type 0} (conn : Conn S) where
  -- The exchange of a frame for a reply.
  unfoldable pub exchange :
      {A : Type 0} → List ℕ → (List ℕ → Outcome ReplyError A) → (A → Option Response) → Handler S
  exchange frame reply respond s =
      let (r, s') = conn.send_recv frame s in (arms reply respond r, s')

  -- The arms of the `match` on what `acquire` gave.
  unfoldable pub acquired : Handler S → Outcome Text (Unit {0}) × S → Option Response × S
  acquired k (ok _, s) = let (response, s') = k s in (response, conn.release s')
  acquired k (err e, s) = (some (failed 500 e), s)
  acquired k (crash, s) = (none, s)

  -- `pool.acquire()` at the start of a handler, and the drop of the client at its end.
  unfoldable pub with_conn : Handler S → Handler S
  unfolding acquired
  with_conn k s = acquired k (conn.acquire s)
