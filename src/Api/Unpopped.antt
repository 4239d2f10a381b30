-- ===== src/Api/Unpopped.antt =====
-- A pop of a list over HTTP (client/src/api/handlers.rs), whose frame the server takes for the
-- registration of a follower (server/src/server/server.rs).
use mathlib.Core.List.{append-nil}
use segmented_memory_storage.Common.{
  ℕ, ◌≤◌, ◌≡◌, refl, ap, sym, ◌∙◌, Option, List, [], ◌++◌, arith, length, length-append,
}
use segmented_memory_storage.Common.Bytes.{to_le_bytes, length-to_le_bytes}
use segmented_memory_storage.Common.Outcome.{ok}
use segmented_memory_storage.Common.Texts.{Text}
use segmented_memory_storage.Aof.Entry.{AofEntry}
use segmented_memory_storage.Proto.Codec.{max_frame_size, decode, decode-framed}
use segmented_memory_storage.Proto.Command
use segmented_memory_storage.Proto.Parse.{parse_command}
use segmented_memory_storage.Proto.Reads.{IsStr}
use segmented_memory_storage.Proto.Responses.{ResponseBuilder}
use segmented_memory_storage.Client.Frames
use segmented_memory_storage.Client.Misrouted.{list_frames_misrouted}
use segmented_memory_storage.Db.State.{Env}
use segmented_memory_storage.Ha.State.{Network}
use segmented_memory_storage.Ha
use segmented_memory_storage.Server.Handle.{Server, ask_ha, handle_command, serve}
use segmented_memory_storage.Api.Http.{exchange, with_conn}
use segmented_memory_storage.Api.Payload.{Libs}
use segmented_memory_storage.Api.ListHandlers.{list_pop}
use segmented_memory_storage.Api.Wire.{wire, send_recv, answered}

module _ (from_slice : List ℕ → Option AofEntry) (net : Network) (rb : ResponseBuilder)
    (lib : Libs) where
  parse_pop :
      (key : Text)
      → IsStr key
      → parse_command (Frames.l_pop key) ≡ ok (Command.ha_register_follower key)
  parse_pop key h =
      ap parse_command (sym (append-nil (Frames.l_pop key)))
      ∙ (list_frames_misrouted key 0 0 [] h).0

  length-l_pop : (key : Text) → IsStr key → length (Frames.l_pop key) ≤ max_frame_size
  length-l_pop key h = omega (
    arith,
    h.fits,
    length-append (to_le_bytes 2 (length key)) key,
    length-to_le_bytes 2 (length key),
  )

  serve-pop :
      (env : Env) (key : Text) (s : Server)
      → IsStr key
      → (serve from_slice env net (Frames.l_pop key) rb s).1
        ≡ record s { ha_manager = (Ha.Ops.register_follower net key s.ha_manager).1 }
  unfolding serve handle_command ask_ha
  serve-pop env key s h = rw (serve, parse_pop key h) refl

  -- A pop over HTTP pops nothing: whatever the lists hold, it does to the server what the
  -- registration of a follower at the address that is spelled like the key does, and the database
  -- stays as it is. The key is UTF-8 of less than 2^16 bytes.
  pub list_pop-register_follower :
      (env : Env) (key : Text) (s : Server)
      → IsStr key
      → let after = (list_pop (wire from_slice net rb env) lib key s).1 in
        (after ≡ record s { ha_manager = (Ha.Ops.register_follower net key s.ha_manager).1 })
        × (after.db ≡ s.db)
  unfolding list_pop with_conn exchange send_recv answered
  list_pop-register_follower env key s h =
      let f = Frames.l_pop key in
      let whole : (list_pop (wire from_slice net rb env) lib key s).1
          ≡ (serve from_slice env net f rb s).1 =
        ap (λ w. (answered from_slice net rb env (decode (to_le_bytes 4 (length f) ++ w)).0 s).1)
          (sym (append-nil f))
        ∙ ap (λ d. (answered from_slice net rb env d.0 s).1)
            (decode-framed f [] (length-l_pop key h)) in
      let same = whole ∙ serve-pop env key s h in (same, ap (λ t. t.db) same)
