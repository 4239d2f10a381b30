-- ===== src/Server/Stored.antt =====
-- What a client stores under a key comes back to it through the server
-- (client/src/client/client.rs, server/src/server/server.rs).
use mathlib.Core.List.{append-nil}
use mathlib.Core.Path.{subst}
use segmented_memory_storage.Common.{
  ℕ, ◌+◌, ◌*◌, ◌%◌, ◌^◌, ◌<◌, ◌≡◌, refl, ap, sym, ◌∙◌, false, Option, some, List, [], arith, length,
  ◌==◌,
}
use segmented_memory_storage.Common.Outcome.{ok}
use segmented_memory_storage.Common.Texts.{Text, text_eq_refl}
use segmented_memory_storage.Kv
use segmented_memory_storage.Kv.State.{DbEntry, KvStore}
use segmented_memory_storage.Kv.Database.{expired, used}
use segmented_memory_storage.Kv.Ops.{fresh}
use segmented_memory_storage.Kv.Views.{view, live, set-view, get-live}
use segmented_memory_storage.Aof.Entry.{AofEntry}
use segmented_memory_storage.Proto.Command
use segmented_memory_storage.Proto.Parse.{parse_command}
use segmented_memory_storage.Proto.Reads.{IsStr, IsPayload}
use segmented_memory_storage.Proto.Responses.{ResponseBuilder, ok_empty, ok_bytes}
use segmented_memory_storage.Client.Frames
use segmented_memory_storage.Client.Sent.{Sent, kv_set, kv_get, IsU64, parse_command-Sent}
use segmented_memory_storage.Client.Replies.{kv_get_reply}
use segmented_memory_storage.Client.Answered.{Answers, kv_get_reply-ok_bytes}
use segmented_memory_storage.Db.State.{Env}
use segmented_memory_storage.Db.Calls.{on_kv, write, send}
use segmented_memory_storage.Db.Ops
use segmented_memory_storage.Ha.State.{Network}
use segmented_memory_storage.Server.Handle.{Server, ask, handle_command, serve}

parse_frame : (c : Command.Command) (f : List ℕ) → Sent c f → parse_command f ≡ ok c
parse_frame c f h = ap parse_command (sym (append-nil f)) ∙ parse_command-Sent c f [] h

module _ (from_slice : List ℕ → Option AofEntry) (net : Network) where
  -- A frame that the client sends is answered as its command.
  pub serve-Sent :
      (env : Env) (c : Command.Command) (f : List ℕ) (rb : ResponseBuilder) (s : Server)
      → Sent c f
      → serve from_slice env net f rb s ≡ handle_command from_slice env net c rb s
  unfolding serve
  serve-Sent env c f rb s h = rw (serve, parse_frame c f h) refl

  set_key-kv_store :
      (env : Env) (db key : Text) (val : List ℕ) (ttl : ℕ) (rb : ResponseBuilder) (s : Server)
      → (handle_command from_slice env net (Command.set_key db key val ttl) rb s).1.db.kv_store
        ≡ Kv.Ops.set env.iter env.now env.now' db key val (ttl * 1000 % 2 ^ 64) s.db.kv_store
  unfolding handle_command ask Ops.kv_set Ops.report on_kv write send
  set_key-kv_store env db key val ttl rb s = refl

  get_key-live :
      (env : Env) (db key : Text) (rb : ResponseBuilder) (s : Server) (e : DbEntry)
      → live env.now env.now' (view db key s.db.kv_store) ≡ some e
      → (handle_command from_slice env net (Command.get_key db key) rb s).0
        ≡ some ((ok_bytes e.val rb).buf)
  unfolding handle_command ask Ops.kv_get on_kv
  get_key-live env db key rb s e h =
      rw ((get-live env.now env.now' db key s.db.kv_store db key).0 ∙ h) refl

  set-found :
      (env : Env) (db key : Text) (val : List ℕ) (ttl : ℕ) (s : KvStore)
      → view db key (Kv.Ops.set env.iter env.now env.now' db key val ttl s)
        ≡ some (fresh env.now env.now' val ttl)
  set-found env db key val ttl s = ground (
    arith,
    set-view env.iter env.now env.now' db key val ttl s db key,
    text_eq_refl db,
    text_eq_refl key,
  )

  module _ (from_utf8_lossy : List ℕ → List ℕ) where
    -- A client that sends `kv_set` and then `kv_get` for the same key is answered without an error
    -- and then reads the value that it sent, if that is not empty, its texts are UTF-8 and fit their
    -- fields, and the deadline has not passed at the get.
    pub kv_set-kv_get :
        (env env' : Env) (db key : Text) (val : List ℕ) (ttl : ℕ) (rb : ResponseBuilder)
        (s : Server)
        → IsStr db
        → IsStr key
        → IsPayload val
        → IsU64 ttl
        → 5 + length val < 2 ^ 32
        → (length val == 0) ≡ false
        → expired env'.now (fresh env.now env.now' val (ttl * 1000 % 2 ^ 64)) ≡ false
        → let after = serve from_slice env net (Frames.kv_set db key val ttl) rb s in
          (after.0 ≡ some ((ok_empty rb).buf))
          × ((serve from_slice env' net (Frames.kv_get db key) rb after.1).0
              ≡ some ((ok_bytes val rb).buf))
          × Answers (ok_bytes val rb) (kv_get_reply from_utf8_lossy) (ok (some val))
    unfolding handle_command ask Ops.kv_set Ops.report on_kv write send
    kv_set-kv_get env env' db key val ttl rb s hd hk hv ht short full fits =
        let c = Command.set_key db key val ttl in
        let t = (handle_command from_slice env net c rb s).1 in
        let e = fresh env.now env.now' val (ttl * 1000 % 2 ^ 64) in
        let here : view db key t.db.kv_store ≡ some e =
          ap (view db key) (set_key-kv_store env db key val ttl rb s)
          ∙ set-found env db key val (ttl * 1000 % 2 ^ 64) s.db.kv_store in
        let found : live env'.now env'.now' (view db key t.db.kv_store) ≡ some (used env'.now' e) =
          rw here (rw fits refl) in
        let answer = kv_get_reply-ok_bytes from_utf8_lossy val rb short in
        rw
          (
            serve-Sent env c (Frames.kv_set db key val ttl) rb s
                (kv_set db key val ttl hd hk hv ht),
            serve-Sent env' (Command.get_key db key) (Frames.kv_get db key) rb t
                (kv_get db key hd hk),
          )
          (
            refl,
            get_key-live env' db key rb t (used env'.now' e) found,
            subst (λ r. Answers (ok_bytes val rb) (kv_get_reply from_utf8_lossy) (ok r))
                (rw full refl) answer,
          )
