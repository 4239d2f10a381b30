-- ===== src/Api/Served.antt =====
-- Requests answered by the server behind the handlers (client/src/api/handlers.rs,
-- server/src/server/server.rs).
use mathlib.Core.Path.{subst}
use segmented_memory_storage.Common.{
  ℕ, ◌+◌, ◌*◌, ◌%◌, ◌^◌, ◌≤◌, ◌<◌, ◌≡◌, refl, ap, sym, ◌∙◌, false, Option, none, some, List, [],
  ◌∷◌, ◌++◌, arith, length, ◌==◌, length-append,
}
use segmented_memory_storage.Common.Bytes.{
  to_le_bytes, length-to_le_bytes, from_le_bytes-to_le_bytes,
}
use segmented_memory_storage.Common.Optional.{◌>>=◌}
use segmented_memory_storage.Common.Outcome.{Outcome, ok}
use segmented_memory_storage.Common.Texts.{Text, codes}
use segmented_memory_storage.Kv.Database.{expired}
use segmented_memory_storage.Kv.Ops.{fresh}
use segmented_memory_storage.Aof.Entry.{AofEntry}
use segmented_memory_storage.Proto.Codec.{max_frame_size}
use segmented_memory_storage.Proto.Reads.{IsStr}
use segmented_memory_storage.Proto.Responses.{
  ResponseBuilder, cleared, finalize, finalize_lem, ok_empty, ok_bytes, error,
}
use segmented_memory_storage.Client.Frames
use segmented_memory_storage.Client.Replies.{
  ReplyError, message, received, extract_err, check_status, kv_get_reply,
}
use segmented_memory_storage.Client.Sent.{IsU64}
use segmented_memory_storage.Client.Answered.{Answers, received-framed, take_2, drop_3, take_all}
use segmented_memory_storage.Db.State.{Env}
use segmented_memory_storage.Ha.State.{Network}
use segmented_memory_storage.Server.Handle.{Server, serve}
use segmented_memory_storage.Server.Stored.{kv_set-kv_get}
use segmented_memory_storage.Api.Json.{Value, get, as_u64, one}
use segmented_memory_storage.Api.Http.{
  Response, okay, failed, reply_message, arms, exchange, with_conn,
}
use segmented_memory_storage.Api.Payload.{Libs}
use segmented_memory_storage.Api.KvHandlers.{or_zero, or_null, status, kv_set, kv_get}
use segmented_memory_storage.Api.Request.{Request, handle}
use segmented_memory_storage.Api.Sends.{Sends}
use segmented_memory_storage.Api.Statuses.{refused, handle-Failure}
use segmented_memory_storage.Api.Wire.{wire, send_recv-serve}

received-finalize :
    (body : List ℕ)
    → length body < 2 ^ 32
    → received (finalize (record { buf = cleared ++ body })).buf ≡ some body
received-finalize body h = ap received (finalize_lem body) ∙ received-framed body h

received-error :
    (msg : Text) (b : ResponseBuilder)
    → length msg < 256 ^ 2
    → received (error msg b).buf ≡ some (1 ∷ (to_le_bytes 2 (length msg) ++ msg))
unfolding error
received-error msg b h =
    let long = length-append (to_le_bytes 2 (length msg)) msg in
    let two = length-to_le_bytes 2 (length msg) in
    received-finalize (1 ∷ (to_le_bytes 2 (length msg) ++ msg)) (omega arith)

received-ok_empty : (b : ResponseBuilder) → received (ok_empty b).buf ≡ some (0 ∷ [])
unfolding ok_empty
received-ok_empty b = received-finalize (0 ∷ []) (omega arith)

extract_err-error :
    (lossy : List ℕ → Text) (msg : Text)
    → lossy msg ≡ msg
    → length msg < 256 ^ 2
    → 0 < length msg
    → extract_err lossy (1 ∷ (to_le_bytes 2 (length msg) ++ msg)) ≡ message msg
extract_err-error lossy msg same short full =
    let long = length-append (to_le_bytes 2 (length msg)) msg in
    let two = length-to_le_bytes 2 (length msg) in
    ground (
      arith,
      take_2 (length msg) msg,
      drop_3 (length msg) msg,
      from_le_bytes-to_le_bytes 2 (length msg) short,
      take_all msg,
      same,
    )

arms-ok :
    {A : Type 0} (reply : List ℕ → Outcome ReplyError A) (respond : A → Option Response)
    (resp : List ℕ) (a : A)
    → reply resp ≡ ok a
    → arms reply respond (ok resp) ≡ respond a
unfolding arms
arms-ok reply respond resp a h = rw (arms, h) refl

pub Answers-ok_empty :
    (lossy : List ℕ → Text) (b : ResponseBuilder)
    → Answers (ok_empty b) (check_status lossy) (ok tt)
unfolding check_status
Answers-ok_empty lossy b = (0 ∷ [], received-ok_empty b, refl)

length-str_field : (s : Text) → length (Frames.str_field s) ≡ 2 + length s
length-str_field s =
    omega (arith, length-append (to_le_bytes 2 (length s)) s, length-to_le_bytes 2 (length s))

pub length-kv_set :
    (db key : Text) (val : List ℕ) (ttl : ℕ)
    → IsStr db
    → IsStr key
    → length val + 2 ^ 18 ≤ max_frame_size
    → length (Frames.kv_set db key val ttl) ≤ max_frame_size
length-kv_set db key val ttl hd hk h =
    let rest = Frames.str_field key ++ (to_le_bytes 8 ttl ++ Frames.bytes_field val) in
    omega (
      arith,
      hd.fits,
      hk.fits,
      length-str_field db,
      length-str_field key,
      length-append (Frames.str_field db) rest,
      length-append (Frames.str_field key) (to_le_bytes 8 ttl ++ Frames.bytes_field val),
      length-append (to_le_bytes 8 ttl) (Frames.bytes_field val),
      length-to_le_bytes 8 ttl,
      length-append (to_le_bytes 4 (length val)) val,
      length-to_le_bytes 4 (length val),
    )

pub length-kv_get :
    (db key : Text) → IsStr db → IsStr key → length (Frames.kv_get db key) ≤ max_frame_size
length-kv_get db key hd hk = omega (
  arith,
  hd.fits,
  hk.fits,
  length-str_field db,
  length-str_field key,
  length-append (Frames.str_field db) (Frames.str_field key),
)

module _ (from_slice : List ℕ → Option AofEntry) (net : Network) (rb : ResponseBuilder)
    (lib : Libs) where
  -- An error of the server comes to the caller with its whole text, under the status 400: for every
  -- request that sends a frame, if the frame has at most 16 MiB and the text, 1 to 2^16 - 1 bytes,
  -- is one that the lossy conversion keeps.
  pub handle-error :
      (env : Env) (now : ℕ → ℕ) (digits : ℕ → Text) (q : Request) (f : List ℕ) (msg : Text)
      (s s' : Server)
      → Sends lib now q f
      → length f ≤ max_frame_size
      → serve from_slice env net f rb s ≡ (some ((error msg rb).buf), s')
      → lib.from_utf8_lossy msg ≡ msg
      → length msg < 256 ^ 2
      → 0 < length msg
      → handle (wire from_slice net rb env) lib now digits q s ≡ (some (failed 400 msg), s')
  handle-error env now digits q f msg s s' sends small served same short full =
      let resp = 1 ∷ (to_le_bytes 2 (length msg) ++ msg) in
      handle-Failure (wire from_slice net rb env) lib now digits q f s s s' (ok resp) _ sends refl
        (send_recv-serve from_slice net rb env f _ resp s s' small served
          (received-error msg rb short))
        (refused (to_le_bytes 2 (length msg) ++ msg))
      ∙ ap (λ e. (some (failed 400 (reply_message e)), s'))
          (extract_err-error lib.from_utf8_lossy msg same short full)

  -- An exchange whose response the client understands.
  exchange-serve :
      {A : Type 0} (env : Env) (f : List ℕ) (reply : List ℕ → Outcome ReplyError A)
      (respond : A → Option Response) (s : Server) (b : ResponseBuilder) (a : A)
      → length f ≤ max_frame_size
      → (serve from_slice env net f rb s).0 ≡ some (b.buf)
      → Answers b reply (ok a)
      → let conn = wire from_slice net rb env in
        with_conn conn (exchange conn f reply respond) s
        ≡ (respond a, (serve from_slice env net f rb s).1)
  unfolding with_conn exchange arms
  exchange-serve env f reply respond s b a small served (resp, whole, read) =
      let s' = (serve from_slice env net f rb s).1 in
      ap (λ p. (arms reply respond p.0, p.1))
        (send_recv-serve from_slice net rb env f b.buf resp s s' small (ap (λ r. (r, s')) served)
          whole)
      ∙ ap (λ o. (o, s')) (arms-ok reply respond resp a read)

  -- The arms of a get on what the client read.
  abbrev got : Option (List ℕ) → Option Response
  got none = some (failed 404 (codes "key not found"))
  got (some bytes) = some (okay (one (codes "val") (or_null (lib.value_from_slice bytes))))

  -- The handler of a set and then the handler of a get of the same key, each with a connection at
  -- hand, return the status 200, and the get the value that the caller of the set gave: if `serde_json` reads back the value that it wrote, in 1 to 2^24 - 2^18 bytes, the
  -- name of the database and the key are UTF-8 of less than 2^16 bytes, and the deadline has not
  -- passed at the get.
  pub kv_set-kv_get_json :
      (env env' : Env) (db key : Text) (req val : Value) (s : Server)
      → get (codes "val") req ≡ some val
      → lib.value_from_slice (lib.to_vec val) ≡ some val
      → (length (lib.to_vec val) == 0) ≡ false
      → length (lib.to_vec val) + 2 ^ 18 ≤ max_frame_size
      → IsStr db
      → IsStr key
      → IsU64 (or_zero (get (codes "ttl") req >>= as_u64))
      → expired env'.now (
          fresh env.now env.now'
            (lib.to_vec val)
            (or_zero (get (codes "ttl") req >>= as_u64) * 1000 % 2 ^ 64))
        ≡ false
      → let after = kv_set (wire from_slice net rb env) lib db key req s in
        (after.0 ≡ some (okay (status (codes "ok"))))
        × ((kv_get (wire from_slice net rb env') lib db key after.1).0
            ≡ some (okay (one (codes "val") val)))
  unfolding kv_set kv_get
  kv_set-kv_get_json env env' db key req val s there back full short hd hk ht fits =
      let v = lib.to_vec val in
      let ttl = or_zero (get (codes "ttl") req >>= as_u64) in
      let stored =
        kv_set-kv_get from_slice net lib.from_utf8_lossy env env' db key v ttl rb s hd hk
          (omega (arith, hd.fits)) ht (omega arith) full fits in
      let set_response =
        exchange-serve env (Frames.kv_set db key v ttl) (check_status lib.from_utf8_lossy)
          (λ _. some (okay (status (codes "ok")))) s (ok_empty rb) tt
          (length-kv_set db key v ttl hd hk short) stored.0
          (Answers-ok_empty lib.from_utf8_lossy rb) in
      let after = (serve from_slice env net (Frames.kv_set db key v ttl) rb s).1 in
      let set_result : kv_set (wire from_slice net rb env) lib db key req s
          ≡ (some (okay (status (codes "ok"))), after) =
        rw there set_response in
      let get_response =
        exchange-serve env' (Frames.kv_get db key) (kv_get_reply lib.from_utf8_lossy) got after
          (ok_bytes v rb) (some v) (length-kv_get db key hd hk) stored.1 stored.2 in
      subst
        (λ p.
          (p.0 ≡ some (okay (status (codes "ok"))))
          × ((kv_get (wire from_slice net rb env') lib db key p.1).0
              ≡ some (okay (one (codes "val") val))))
        (sym set_result)
        (
          refl,
          ap (λ p. p.0) get_response ∙ ap (λ o. some (okay (one (codes "val") (or_null o)))) back,
        )
