-- ===== src/Server/Replicated.antt =====
-- What a follower makes of the frame that its master sends it (server/src/ha.rs,
-- server/src/server/server.rs).
use segmented_memory_storage.Common.{
  ℕ, ◌≡◌, refl, ap, Option, some, List, [], ◌∷◌, length, map, select, All,
}
use segmented_memory_storage.Common.Bytes.{IsByte}
use segmented_memory_storage.Aof.Entry.{AofEntry, is_kv}
use segmented_memory_storage.Aof.Base64.{to_base64}
use segmented_memory_storage.Aof.Decoded.{from_base64-to_base64}
use segmented_memory_storage.Proto.Command
use segmented_memory_storage.Proto.Reads.{IsPayload}
use segmented_memory_storage.Proto.Responses.{ResponseBuilder}
use segmented_memory_storage.Client.Frames
use segmented_memory_storage.Client.Sent.{IsCount, sync_follower}
use segmented_memory_storage.Db.State.{Env}
use segmented_memory_storage.Db.Apply.{apply_each}
use segmented_memory_storage.Db.Synced.{Others, sync_each-Others}
use segmented_memory_storage.Ha.State.{Network}
use segmented_memory_storage.Server.Handle.{Server, ask, decoded, handle_command, serve}
use segmented_memory_storage.Server.Stored.{serve-Sent}

module _ (to_vec : AofEntry → List ℕ) (from_slice : List ℕ → Option AofEntry) where
  -- `serde_json` gives bytes for an entry and reads it back of them.
  abbrev pub Serialized : AofEntry → Type 0
  Serialized e = All IsByte (to_vec e) × (from_slice (to_vec e) ≡ some e)

  decoded-to_base64 :
      (es : List AofEntry)
      → All Serialized es
      → decoded from_slice (map (to_base64 to_vec) es) ≡ some es
  unfolding decoded
  decoded-to_base64 [] h = refl
  decoded-to_base64 (e ∷ es) h =
      let back = from_base64-to_base64 to_vec from_slice e h.0.0 h.0.1 in
      rw (decoded, back.1, back.0, decoded-to_base64 es h.1) refl

  -- A follower that gets the entries of its master in a frame applies those of its keys in order, as
  -- a replay of the file does, and takes nothing of the others: its lists, its groups and its own
  -- file are what they were; the entries fit the frame, and `serde_json` reads back what it wrote.
  pub serve-sync_follower :
      (net : Network) (env : Env) (es : List AofEntry) (rb : ResponseBuilder) (s : Server)
      → All Serialized es
      → IsCount (length (map (to_base64 to_vec) es))
      → All IsPayload (map (to_base64 to_vec) es)
      → let frame = Frames.sync_follower (map (to_base64 to_vec) es) in
        let after = (serve from_slice env net frame rb s).1.db in
        (after ≡ (apply_each env (select is_kv es) s.db).1) × Others after s.db
  unfolding handle_command ask
  serve-sync_follower net env es rb s h count fit =
      let encoded = map (to_base64 to_vec) es in
      let done = sync_each-Others env es s.db in
      rw
        (
          serve-Sent from_slice net env (Command.ha_sync_entries encoded)
              (Frames.sync_follower encoded) rb s (sync_follower encoded count fit),
          handle_command,
          decoded-to_base64 es h,
        )
        (ap (λ x. x.1) done.0, done.1)
