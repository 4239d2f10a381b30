-- ===== src/Api/Wire.antt =====
-- The client in front of the server: an exchange over a connection that does not fail of itself
-- (`send_recv`, client/src/client/client.rs; the loop of a connection, server/src/server/server.rs).
use mathlib.Core.List.{append-nil}
use segmented_memory_storage.Common.{
  ℕ, ◌≤◌, ◌≡◌, sym, ap, ◌∙◌, Option, none, some, List, [], ◌++◌, length,
}
use segmented_memory_storage.Common.Bytes.{to_le_bytes}
use segmented_memory_storage.Common.Outcome.{Outcome, ok, err, crash, Action}
use segmented_memory_storage.Common.Texts.{Text, codes}
use segmented_memory_storage.Aof.Entry.{AofEntry}
use segmented_memory_storage.Proto.Codec.{max_frame_size, DecodeError, decode, decode-framed}
use segmented_memory_storage.Proto.Responses.{ResponseBuilder}
use segmented_memory_storage.Client.Replies.{received}
use segmented_memory_storage.Db.State.{Env}
use segmented_memory_storage.Ha.State.{Network}
use segmented_memory_storage.Server.Handle.{Server, serve}
use segmented_memory_storage.Api.Http.{Conn}

-- What `read_exact` says where the stream ends.
abbrev pub early_eof : Text
early_eof = codes "early eof"

abbrev or_eof : Option (List ℕ) → Outcome Text (List ℕ)
or_eof none = err early_eof
or_eof (some resp) = ok resp

-- What the client receives of a response; a panic of the task ends the stream.
unfoldable pub delivered : Option (List ℕ) → Outcome Text (List ℕ)
delivered none = err early_eof
delivered (some bytes) = or_eof (received bytes)

module _ (from_slice : List ℕ → Option AofEntry) (net : Network) (rb : ResponseBuilder) where
  -- The connection ends at a length that the codec refuses. The frame behind its length is there in
  -- full, so that the codec never waits for more.
  unfoldable pub answered :
      Env → Outcome DecodeError (Option (List ℕ)) → Action Server Text (List ℕ)
  answered env (ok (some frame)) s =
      let (r, s') = serve from_slice env net frame rb s in (delivered r, s')
  answered env (ok none) s = (err early_eof, s)
  answered env (err e) s = (err early_eof, s)
  answered env crash s = (err early_eof, s)

  unfoldable pub send_recv : Env → List ℕ → Action Server Text (List ℕ)
  send_recv env frame = answered env (decode (to_le_bytes 4 (length frame) ++ frame)).0

  -- A client that is always at hand.
  abbrev pub wire : Env → Conn Server
  wire env = record { acquire = λ s. (ok tt, s); send_recv = send_recv env; release = λ s. s }

  -- A frame of at most 16 MiB that is served is answered with the response.
  pub send_recv-serve :
      (env : Env) (frame bytes resp : List ℕ) (s s' : Server)
      → length frame ≤ max_frame_size
      → serve from_slice env net frame rb s ≡ (some bytes, s')
      → received bytes ≡ some resp
      → send_recv env frame s ≡ (ok resp, s')
  unfolding send_recv answered delivered
  send_recv-serve env frame bytes resp s s' short served whole =
      let cut = decode-framed frame [] short in
      ap (λ w. answered env (decode (to_le_bytes 4 (length frame) ++ w)).0 s)
        (sym (append-nil frame))
      ∙ ap (λ d. answered env d.0 s) cut
      ∙ ap (λ p. (delivered p.0, p.1)) served
      ∙ ap (λ o. (or_eof o, s')) whole
