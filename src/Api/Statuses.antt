-- ===== src/Api/Statuses.antt =====
-- How every handler answers where something fails (client/src/api/handlers.rs).
use segmented_memory_storage.Common.{ℕ, ◌≡◌, ◌≢◌, refl, ap, ◌∙◌, Option, some, List, ◌∷◌}
use segmented_memory_storage.Common.Outcome.{Outcome, ok, err}
use segmented_memory_storage.Common.Texts.{Text}
use segmented_memory_storage.Client.Replies.{
  ReplyError, extract_err, check_status, kv_get_reply, kv_keys_reply, l_pop_range_reply, add_reply,
  list_groups_reply, group_stats_reply, add_range_reply, read_reply, read_range_reply,
}
use segmented_memory_storage.Api.Http.{
  Response, Conn, failed, reply_message, arms, exchange, acquired, with_conn,
}
use segmented_memory_storage.Api.Payload.{Libs}
use segmented_memory_storage.Api.GroupHandlers
use segmented_memory_storage.Api.KvHandlers
use segmented_memory_storage.Api.ListHandlers
use segmented_memory_storage.Api.Request.{Request, handle}
use segmented_memory_storage.Api.Sends.{Sends, Lacks}

-- A reply that gives the message of every refusal.
abbrev Refuses : {A : Type 0} → (List ℕ → Text) → (List ℕ → Outcome ReplyError A) → Type 0
Refuses lossy reply = (resp : List ℕ) → reply (1 ∷ resp) ≡ err (extract_err lossy (1 ∷ resp))

-- How an exchange fails, and the response to it: an error of the connection, or a refusal by the
-- server.
pub data Failure (lossy : List ℕ → Text) : Outcome Text (List ℕ) → Response → Type 0 where
  broken : (e : Text) → Failure lossy (err e) (failed 500 e)
  refused :
      (resp : List ℕ)
      → Failure lossy (ok (1 ∷ resp)) (failed 400 (reply_message (extract_err lossy (1 ∷ resp))))

arms-Failure :
    {A : Type 0} (lossy : List ℕ → Text) (reply : List ℕ → Outcome ReplyError A)
    (respond : A → Option Response) {r : Outcome Text (List ℕ)} {response : Response}
    → Refuses lossy reply
    → Failure lossy r response
    → arms reply respond r ≡ some response
unfolding arms
arms-Failure lossy reply respond h (broken e) = refl
arms-Failure lossy reply respond h (refused resp) = rw (arms, h resp) refl

module _ {S : Type 0} (conn : Conn S) (lib : Libs) (now : ℕ → ℕ) (digits : ℕ → Text) where
  exchange-Failure :
      {A : Type 0} (f : List ℕ) (reply : List ℕ → Outcome ReplyError A)
      (respond : A → Option Response) (s s1 s2 : S) {r : Outcome Text (List ℕ)}
      {response : Response}
      → Refuses lib.from_utf8_lossy reply
      → conn.acquire s ≡ (ok tt, s1)
      → conn.send_recv f s1 ≡ (r, s2)
      → Failure lib.from_utf8_lossy r response
      → with_conn conn (exchange conn f reply respond) s ≡ (some response, conn.release s2)
  unfolding with_conn exchange
  exchange-Failure f reply respond s s1 s2 {r} h a e x =
      ap (acquired conn (exchange conn f reply respond)) a
      ∙ ap (λ p. (arms reply respond p.0, conn.release p.1)) e
      ∙ ap (λ o. (o, conn.release s2)) (arms-Failure lib.from_utf8_lossy reply respond h x)

  -- Once a client is acquired and the frame of a request is sent: an error of the connection is
  -- answered with 500 and its text, and a refusal by the server with 400 and the server's message;
  -- the client goes back to the pool. This holds for every request but `health`, if its body has
  -- the fields that are asked for.
  pub handle-Failure :
      (q : Request) (f : List ℕ) (s s1 s2 : S) (r : Outcome Text (List ℕ)) (response : Response)
      → Sends lib now q f
      → conn.acquire s ≡ (ok tt, s1)
      → conn.send_recv f s1 ≡ (r, s2)
      → Failure lib.from_utf8_lossy r response
      → handle conn lib now digits q s ≡ (some response, conn.release s2)
  unfolding handle GroupHandlers.create_group GroupHandlers.list_groups GroupHandlers.drop_group
      GroupHandlers.group_stats GroupHandlers.add_entry GroupHandlers.add_range_entries
      GroupHandlers.read_entry GroupHandlers.read_range_entries GroupHandlers.drop_entries
      KvHandlers.kv_set KvHandlers.kv_get KvHandlers.kv_del KvHandlers.kv_keys KvHandlers.kv_flush
      ListHandlers.list_push ListHandlers.list_push_range ListHandlers.list_pop
      ListHandlers.list_pop_range ListHandlers.list_pop_count ListHandlers.list_len
      ListHandlers.list_flush check_status kv_get_reply kv_keys_reply l_pop_range_reply add_reply
      list_groups_reply group_stats_reply add_range_reply read_reply read_range_reply
  handle-Failure _ _ s s1 s2 r x (Sends.create_group name) a e h =
      exchange-Failure _ _ _ s s1 s2 (λ resp. refl) a e h
  handle-Failure _ _ s s1 s2 r x Sends.list_groups a e h =
      exchange-Failure _ _ _ s s1 s2 (λ resp. refl) a e h
  handle-Failure _ _ s s1 s2 r x (Sends.drop_group name) a e h =
      exchange-Failure _ _ _ s s1 s2 (λ resp. refl) a e h
  handle-Failure _ _ s s1 s2 r x (Sends.group_stats name) a e h =
      exchange-Failure _ _ _ s s1 s2 (λ resp. refl) a e h
  handle-Failure _ _ s s1 s2 r x (Sends.add_entry name req) a e h =
      exchange-Failure _ _ _ s s1 s2 (λ resp. refl) a e h
  handle-Failure _ _ s s1 s2 r x (Sends.add_range_entries name req) a e h =
      exchange-Failure _ _ _ s s1 s2 (λ resp. refl) a e h
  handle-Failure _ _ s s1 s2 r x (Sends.read_entry name id) a e h =
      exchange-Failure _ _ _ s s1 s2 (λ resp. refl) a e h
  handle-Failure _ _ s s1 s2 r x (Sends.read_range_entries name start end) a e h =
      exchange-Failure _ _ _ s s1 s2 (λ resp. refl) a e h
  handle-Failure _ _ s s1 s2 r x (Sends.drop_entries group upto_id) a e h =
      exchange-Failure _ _ _ s s1 s2 (λ resp. refl) a e h
  handle-Failure _ _ s s1 s2 r x (Sends.kv_set db key req val there) a e h =
      rw there (exchange-Failure _ _ _ s s1 s2 (λ resp. refl) a e h)
  handle-Failure _ _ s s1 s2 r x (Sends.kv_get db key) a e h =
      exchange-Failure _ _ _ s s1 s2 (λ resp. refl) a e h
  handle-Failure _ _ s s1 s2 r x (Sends.kv_del db key) a e h =
      exchange-Failure _ _ _ s s1 s2 (λ resp. refl) a e h
  handle-Failure _ _ s s1 s2 r x (Sends.kv_keys db) a e h =
      exchange-Failure _ _ _ s s1 s2 (λ resp. refl) a e h
  handle-Failure _ _ s s1 s2 r x (Sends.kv_flush db) a e h =
      exchange-Failure _ _ _ s s1 s2 (λ resp. refl) a e h
  handle-Failure _ _ s s1 s2 r x (Sends.list_push key req val there) a e h =
      rw there (exchange-Failure _ _ _ s s1 s2 (λ resp. refl) a e h)
  handle-Failure _ _ s s1 s2 r x (Sends.list_push_range key req vals there) a e h =
      rw there (exchange-Failure _ _ _ s s1 s2 (λ resp. refl) a e h)
  handle-Failure _ _ s s1 s2 r x (Sends.list_pop key) a e h =
      exchange-Failure _ _ _ s s1 s2 (λ resp. refl) a e h
  handle-Failure _ _ s s1 s2 r x (Sends.list_pop_range key req start end from to) a e h =
      rw from (rw to (exchange-Failure _ _ _ s s1 s2 (λ resp. refl) a e h))
  handle-Failure _ _ s s1 s2 r x (Sends.list_pop_count key req count there) a e h =
      rw there (exchange-Failure _ _ _ s s1 s2 (λ resp. refl) a e h)
  handle-Failure _ _ s s1 s2 r x (Sends.list_len key) a e h =
      exchange-Failure _ _ _ s s1 s2 (λ resp. refl) a e h
  handle-Failure _ _ s s1 s2 r x (Sends.list_flush key) a e h =
      exchange-Failure _ _ _ s s1 s2 (λ resp. refl) a e h

  -- Where no client is to be had, every request but `health` is answered with 500 and the text of
  -- the error, and nothing is sent.
  pub handle-offline :
      (q : Request) (s s1 : S) (e : Text)
      → q ≢ Request.health
      → conn.acquire s ≡ (err e, s1)
      → handle conn lib now digits q s ≡ (some (failed 500 e), s1)
  unfolding handle GroupHandlers.create_group GroupHandlers.list_groups GroupHandlers.drop_group
      GroupHandlers.group_stats GroupHandlers.add_entry GroupHandlers.add_range_entries
      GroupHandlers.read_entry GroupHandlers.read_range_entries GroupHandlers.drop_entries
      KvHandlers.kv_set KvHandlers.kv_get KvHandlers.kv_del KvHandlers.kv_keys KvHandlers.kv_flush
      ListHandlers.list_push ListHandlers.list_push_range ListHandlers.list_pop
      ListHandlers.list_pop_range ListHandlers.list_pop_count ListHandlers.list_len
      ListHandlers.list_flush with_conn
  handle-offline Request.health s s1 e h a = absurd (h refl)
  handle-offline q s s1 e h a = ap (acquired conn _) a

  -- A request whose body lacks a field that is asked for is answered with 400 and the message for
  -- it; nothing is sent, and the client goes back to the pool.
  pub handle-Lacks :
      (q : Request) (what : Text) (s s1 : S)
      → Lacks q what
      → conn.acquire s ≡ (ok tt, s1)
      → handle conn lib now digits q s ≡ (some (failed 400 what), conn.release s1)
  unfolding handle KvHandlers.kv_set ListHandlers.list_push ListHandlers.list_push_range
      ListHandlers.list_pop_range ListHandlers.list_pop_count with_conn
  handle-Lacks _ _ s s1 (Lacks.val db key req none') a = rw none' (ap (acquired conn _) a)
  handle-Lacks _ _ s s1 (Lacks.pushed key req none') a = rw none' (ap (acquired conn _) a)
  handle-Lacks _ _ s s1 (Lacks.vals key req none') a = rw none' (ap (acquired conn _) a)
  handle-Lacks _ _ s s1 (Lacks.start key req none') a = rw none' (ap (acquired conn _) a)
  handle-Lacks _ _ s s1 (Lacks.end key req start from none') a =
      rw from (rw none' (ap (acquired conn _) a))
  handle-Lacks _ _ s s1 (Lacks.count key req none') a = rw none' (ap (acquired conn _) a)
