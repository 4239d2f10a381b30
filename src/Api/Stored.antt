-- ===== src/Api/Stored.antt =====
-- What a client stores under a key comes back to it over a connection (client/src/client/client.rs,
-- server/src/server/codec.rs, server/src/server/server.rs).
use segmented_memory_storage.Common.{
  ℕ, ◌+◌, ◌*◌, ◌%◌, ◌^◌, ◌≤◌, ◌<◌, ◌≡◌, ◌⊎◌, inl, inr, refl, ap, ◌∙◌, false, Option, some, List,
  arith, length, ◌==◌, ltb, le→ltb, Bool-cases,
}
use segmented_memory_storage.Common.Outcome.{Outcome, ok, err, crash}
use segmented_memory_storage.Common.Texts.{Text}
use segmented_memory_storage.Kv.Database.{i64_lt, expired}
use segmented_memory_storage.Kv.Ops.{fresh}
use segmented_memory_storage.Aof.Entry.{AofEntry}
use segmented_memory_storage.Proto.Codec.{max_frame_size}
use segmented_memory_storage.Proto.Reads.{IsStr}
use segmented_memory_storage.Proto.Responses.{ResponseBuilder, ok_empty, ok_bytes}
use segmented_memory_storage.Client.Frames
use segmented_memory_storage.Client.Replies.{ReplyError, message, check_status, kv_get_reply}
use segmented_memory_storage.Client.Sent.{IsU64}
use segmented_memory_storage.Client.Answered.{Answers}
use segmented_memory_storage.Db.State.{Env}
use segmented_memory_storage.Ha.State.{Network}
use segmented_memory_storage.Server.Handle.{Server, serve}
use segmented_memory_storage.Server.Stored.{kv_set-kv_get}
use segmented_memory_storage.Api.Wire.{send_recv, send_recv-serve}
use segmented_memory_storage.Api.Served.{length-kv_set, length-kv_get, Answers-ok_empty}

-- What a method of the client returns of an exchange.
abbrev pub replied :
    {A : Type 0} → (List ℕ → Outcome ReplyError A) → Outcome Text (List ℕ) → Outcome ReplyError A
replied reply (ok resp) = reply resp
replied reply (err e) = err (message e)
replied reply crash = crash

-- A key that is set at `now`, in milliseconds, for `ttl` seconds is still there at `later`: with 0 for
-- ever, else while its time has not passed; no time overflows.
abbrev pub Lives : ℕ → ℕ → ℕ → Type 0
Lives now ttl later = (ttl ≡ 0) ⊎ ((later ≤ now + ttl * 1000) × (now + ttl * 1000 < 2 ^ 63))

i64_lt_early :
    (deadline later : ℕ) → later ≤ deadline → deadline < 2 ^ 63 → i64_lt deadline later ≡ false
i64_lt_early deadline later early small =
    let at_deadline : (deadline + 2 ^ 63) % 2 ^ 64 ≡ deadline + 2 ^ 63 = omega (arith, small) in
    let at_later : (later + 2 ^ 63) % 2 ^ 64 ≡ later + 2 ^ 63 = omega (arith, small, early) in
    ap (λ x. ltb x ((later + 2 ^ 63) % 2 ^ 64)) at_deadline
    ∙ ap (ltb (deadline + 2 ^ 63)) at_later
    ∙ le→ltb (deadline + 2 ^ 63) (later + 2 ^ 63) (omega (arith, early))

fresh-Lives :
    (now now' ttl later : ℕ) (val : List ℕ)
    → Lives now ttl later
    → expired later (fresh now now' val (ttl * 1000 % 2 ^ 64)) ≡ false
fresh-Lives now now' ttl later val (inl none') = rw none' refl
fresh-Lives now now' ttl later val (inr (early, small)) =
    let whole : ttl * 1000 % 2 ^ 64 ≡ ttl * 1000 = omega (arith, small) in
    elim (Bool-cases (ttl * 1000 == 0)) [
      | inl forever ↦ rw (whole, forever) refl
      | inr some_time ↦
          let deadline : (now + ttl * 1000) % 2 ^ 64 ≡ now + ttl * 1000 = omega (arith, small) in
          elim (Bool-cases (now + ttl * 1000 == 0)) [
            | inl zero' ↦ rw (whole, some_time, deadline, zero') refl
            | inr later' ↦
                rw (whole, some_time, deadline, later')
                  (i64_lt_early (now + ttl * 1000) later early small)
          ]
    ]

module _ (from_slice : List ℕ → Option AofEntry) (net : Network) (rb : ResponseBuilder)
    (lossy : List ℕ → Text) where
  exchanged :
      {A : Type 0} (env : Env) (f : List ℕ) (reply : List ℕ → Outcome ReplyError A) (s : Server)
      (b : ResponseBuilder) (r : Outcome ReplyError A)
      → length f ≤ max_frame_size
      → (serve from_slice env net f rb s).0 ≡ some (b.buf)
      → Answers b reply r
      → (replied reply (send_recv from_slice net rb env f s).0 ≡ r)
        × ((send_recv from_slice net rb env f s).1 ≡ (serve from_slice env net f rb s).1)
  exchanged env f reply s b r small served (resp, whole, read) =
      let s' = (serve from_slice env net f rb s).1 in
      let sent =
        send_recv-serve from_slice net rb env f b.buf resp s s' small (ap (λ o. (o, s')) served)
          whole in
      (ap (λ p. replied reply p.0) sent ∙ read, ap (λ p. p.1) sent)

  -- A client that sets a key over a connection and then gets it succeeds both times and has back the
  -- value that it set, through its frames, the length before each, the server and its store: if the
  -- value has 1 to 2^24 - 2^18 bytes, the names are UTF-8 of less than 2^16 bytes, the time to live is
  -- 0 or has not passed at the get, and no time overflows.
  pub kv_set-kv_get_sent :
      (env env' : Env) (db key : Text) (val : List ℕ) (ttl : ℕ) (s : Server)
      → IsStr db
      → IsStr key
      → IsU64 ttl
      → (length val == 0) ≡ false
      → length val + 2 ^ 18 ≤ max_frame_size
      → Lives env.now ttl env'.now
      → let first = send_recv from_slice net rb env (Frames.kv_set db key val ttl) s in
        let second = send_recv from_slice net rb env' (Frames.kv_get db key) first.1 in
        (replied (check_status lossy) first.0 ≡ ok tt)
        × (replied (kv_get_reply lossy) second.0 ≡ ok (some val))
  kv_set-kv_get_sent env env' db key val ttl s hd hk ht full short lives =
      let stored =
        kv_set-kv_get from_slice net lossy env env' db key val ttl rb s hd hk (omega (arith, short))
          ht (omega (arith, short)) full (fresh-Lives env.now env.now' ttl env'.now val lives) in
      let after = (serve from_slice env net (Frames.kv_set db key val ttl) rb s).1 in
      let first =
        exchanged env (Frames.kv_set db key val ttl) (check_status lossy) s (ok_empty rb) (ok tt)
          (length-kv_set db key val ttl hd hk short) stored.0 (Answers-ok_empty lossy rb) in
      let second =
        exchanged env' (Frames.kv_get db key) (kv_get_reply lossy) after (ok_bytes val rb)
          (ok (some val)) (length-kv_get db key hd hk) stored.1 stored.2 in
      (
        first.0,
        ap
              (λ x.
                replied (kv_get_reply lossy)
                  (send_recv from_slice net rb env' (Frames.kv_get db key) x).0)
              first.1
            ∙ second.0,
      )
