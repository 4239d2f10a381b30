-- ===== src/Client/Answered.antt =====
-- The answers of the server (`ResponseBuilder`, server/src/server/proto.rs) as the client reads them
-- (client/src/client/client.rs).
use mathlib.Core.Path.{subst}
use mathlib.Core.List.{append-nil}
use segmented_memory_storage.Common.{
  ℕ, ◌+◌, ◌^◌, ◌<◌, ◌≡◌, refl, ap, ◌∙◌, true, false, none, some, List, [], ◌∷◌, ◌++◌, arith, length,
  ◌==◌, take, drop, All, ne→==, if◌then◌else◌, length-append,
}
use segmented_memory_storage.Common.Bytes.{
  to_le_bytes, length-to_le_bytes, from_le_bytes-to_le_bytes,
}
use segmented_memory_storage.Common.Outcome.{Outcome, ok, err, pure}
use segmented_memory_storage.Common.Texts.{Text}
use segmented_memory_storage.Common.Utf8.{is_utf8}
use segmented_memory_storage.Proto.Cursor.{Reader, ◌>>=◌}
use segmented_memory_storage.Proto.Reads.{
  Reads, Reads-pure, Reads-bind, Reads-map, le-Reads, slice-Reads, IsStr, IsPayload,
}
use segmented_memory_storage.Proto.Responses.{
  ResponseBuilder, cleared, finalize, finalize_lem, entries_body, names_body, ok_entries,
  ok_group_list, ok_bytes, error,
}
use segmented_memory_storage.Client.Replies.{
  ReplyError, message, received, from_second, entries_at, names_at, read_range_reply,
  list_groups_reply, some_bytes, kv_get_reply,
}

-- The client receives a response of the builder and reads `r` of it.
abbrev pub Answers :
    {A : Type 0} → ResponseBuilder → (List ℕ → Outcome ReplyError A) → Outcome ReplyError A → Type 0
Answers b reply r = (resp : List ℕ) × (received b.buf ≡ some resp) × (reply resp ≡ r)

take_4 : (v : ℕ) (rest : List ℕ) → take 4 (to_le_bytes 4 v ++ rest) ≡ to_le_bytes 4 v
unfolding to_le_bytes
take_4 v rest = refl

drop_4 : (v : ℕ) (rest : List ℕ) → drop 4 (to_le_bytes 4 v ++ rest) ≡ rest
unfolding to_le_bytes
drop_4 v rest = refl

pub take_2 : (v : ℕ) (rest : List ℕ) → take 2 (to_le_bytes 2 v ++ rest) ≡ to_le_bytes 2 v
unfolding to_le_bytes
take_2 v rest = refl

pub drop_3 : (v : ℕ) (rest : List ℕ) → drop 3 (1 ∷ (to_le_bytes 2 v ++ rest)) ≡ rest
unfolding to_le_bytes
drop_3 v rest = refl

pub take_all : (xs : List ℕ) → take (length xs) xs ≡ xs
take_all [] = refl
take_all (x ∷ xs) = ap (◌∷◌ x) (take_all xs)

pub received-framed :
    (body : List ℕ)
    → length body < 2 ^ 32
    → received (to_le_bytes 4 (length body) ++ body) ≡ some body
unfolding received
received-framed body h = ground (
  arith,
  take_4 (length body) body,
  drop_4 (length body) body,
  from_le_bytes-to_le_bytes 4 (length body) (omega arith),
  length-append (to_le_bytes 4 (length body)) body,
  length-to_le_bytes 4 (length body),
  take_all body,
)

finalize-Answers :
    {A : Type 0} (body : List ℕ) (reply : List ℕ → Outcome ReplyError A) (r : Outcome ReplyError A)
    → length body < 2 ^ 32
    → reply body ≡ r
    → Answers (finalize (record { buf = cleared ++ body })) reply r
finalize-Answers body reply r h e =
    (body, ap received (finalize_lem body) ∙ received-framed body h, e)

from_second-Reads :
    {A : Type 0} (m : Reader A) (status : ℕ) (body : List ℕ) (a : A)
    → Reads m body a
    → from_second m (status ∷ body) ≡ ok a
unfolding from_second
from_second-Reads m status body a h =
    let read =
      subst (λ w. (m (record { buf = status ∷ w; pos = 1 })).0 ≡ ok a) (append-nil body)
        (ap (λ q. q.0) (h.reads (status ∷ []) [])) in
    ground (arith, read)

-- An entry whose numbers fit their fields.
abbrev pub IsRow : ℕ × (ℕ × List ℕ) → Type 0
IsRow e = (e.0 < 256 ^ 8) × ((e.1.0 < 256 ^ 8) × IsPayload e.1.1)

entries_at-Reads :
    (es : List (ℕ × (ℕ × List ℕ)))
    → All IsRow es
    → Reads (entries_at (length es)) (entries_body es) es
unfolding entries_at
entries_at-Reads [] h = Reads-pure []
entries_at-Reads (e ∷ es) h = Reads-bind _ (le-Reads 8 e.0 h.0.0) (
    Reads-bind _ (le-Reads 8 e.1.0 h.0.1.0) (
      Reads-bind _ (le-Reads 4 (length e.1.1) h.0.1.1)
        (Reads-bind _ (slice-Reads e.1.1) (Reads-map (◌∷◌ e) (entries_at-Reads es h.1)))))

some_bytes-Reads :
    (val : List ℕ)
    → Reads (some_bytes (length val)) val (if length val == 0 then none else some val)
some_bytes-Reads [] = Reads-pure none
some_bytes-Reads (v ∷ val) =
    let there : (length (v ∷ val) == 0) ≡ false = ne→== (length (v ∷ val)) 0 (λ e. omega arith) in
    rw there (Reads-map some (slice-Reads (v ∷ val)))

module _ (from_utf8_lossy : List ℕ → Text) where
  -- The client reads the entries that `ok_entries` was given, all fields of each in order.
  pub read_range_reply-ok_entries :
      (es : List (ℕ × (ℕ × List ℕ))) (b : ResponseBuilder)
      → All IsRow es
      → length es < 2 ^ 32
      → 5 + length (entries_body es) < 2 ^ 32
      → Answers (ok_entries es b) (read_range_reply from_utf8_lossy) (ok es)
  unfolding ok_entries read_range_reply
  read_range_reply-ok_entries es b h count short =
      let body = to_le_bytes 4 (length es) ++ entries_body es in
      let long = length-append (to_le_bytes 4 (length es)) (entries_body es) in
      let four = length-to_le_bytes 4 (length es) in
      finalize-Answers (0 ∷ body) (read_range_reply from_utf8_lossy) (ok es) (omega arith) (
        ground (
          arith,
          from_second-Reads _ 0 body es (
              Reads-bind entries_at (le-Reads 4 (length es) (omega arith)) (entries_at-Reads es h)),
        ))

  -- What `kv_get` and `l_pop` make of `ok_bytes`: the value, but none where it has no bytes.
  pub kv_get_reply-ok_bytes :
      (val : List ℕ) (b : ResponseBuilder)
      → 5 + length val < 2 ^ 32
      → Answers
          (ok_bytes val b)
          (kv_get_reply from_utf8_lossy)
          (ok (if length val == 0 then none else some val))
  unfolding ok_bytes kv_get_reply
  kv_get_reply-ok_bytes val b short =
      let long = length-append (to_le_bytes 4 (length val)) val in
      let four = length-to_le_bytes 4 (length val) in
      finalize-Answers (0 ∷ (to_le_bytes 4 (length val) ++ val)) (kv_get_reply from_utf8_lossy)
        (ok (if length val == 0 then none else some val)) (omega arith)
        (ground (
          arith,
          from_second-Reads _ 0 (to_le_bytes 4 (length val) ++ val)
              (if length val == 0 then none else some val)
              (Reads-bind some_bytes (le-Reads 4 (length val) (omega arith))
                (some_bytes-Reads val)),
        ))

  module _ (lossless : (s : List ℕ) → is_utf8 s ≡ true → from_utf8_lossy s ≡ s) where
    names_at-Reads :
        (names : List Text)
        → All IsStr names
        → Reads (names_at from_utf8_lossy (length names)) (names_body names) names
    unfolding names_at
    names_at-Reads [] h = Reads-pure []
    names_at-Reads (name ∷ names) h = Reads-bind _ (le-Reads 2 (length name) h.0.fits) (
        Reads-bind _ (slice-Reads name) (
          subst
            (λ t.
              Reads
                (names_at from_utf8_lossy (length names) >>= λ ns. pure (from_utf8_lossy name ∷ ns))
                (names_body names) (t ∷ names))
            (lossless name h.0.utf8)
            (Reads-map (◌∷◌ (from_utf8_lossy name)) (names_at-Reads names h.1))))

    -- The client reads the names that `ok_group_list` was given, if they are UTF-8 of less than 2^16
    -- bytes, which the lossy conversion leaves as they are.
    pub list_groups_reply-ok_group_list :
        (groups : List Text) (b : ResponseBuilder)
        → All IsStr groups
        → length groups < 2 ^ 32
        → 5 + length (names_body groups) < 2 ^ 32
        → Answers (ok_group_list groups b) (list_groups_reply from_utf8_lossy) (ok groups)
    unfolding ok_group_list list_groups_reply
    list_groups_reply-ok_group_list groups b h count short =
        let body = to_le_bytes 4 (length groups) ++ names_body groups in
        let long = length-append (to_le_bytes 4 (length groups)) (names_body groups) in
        let four = length-to_le_bytes 4 (length groups) in
        finalize-Answers (0 ∷ body) (list_groups_reply from_utf8_lossy) (ok groups) (omega arith) (
          ground (
            arith,
            from_second-Reads _ 0 body groups (
                Reads-bind (names_at from_utf8_lossy) (le-Reads 4 (length groups) (omega arith))
                  (names_at-Reads groups h)),
          ))

    -- Where the client waits for entries and the server answers with an error, the client has the
    -- server's message, if that is UTF-8 of 1 to 2^16 - 1 bytes.
    pub read_range_reply-error :
        (msg : Text) (b : ResponseBuilder)
        → IsStr msg
        → 0 < length msg
        → Answers (error msg b) (read_range_reply from_utf8_lossy) (err (message msg))
    unfolding error read_range_reply
    read_range_reply-error msg b h some_text =
        let body = to_le_bytes 2 (length msg) ++ msg in
        let long = length-append (to_le_bytes 2 (length msg)) msg in
        let two = length-to_le_bytes 2 (length msg) in
        finalize-Answers (1 ∷ body) (read_range_reply from_utf8_lossy) (err (message msg))
          (omega (arith, h.fits))
          (ground (
            arith,
            take_2 (length msg) msg,
            drop_3 (length msg) msg,
            from_le_bytes-to_le_bytes 2 (length msg) h.fits,
            take_all msg,
            lossless msg h.utf8,
          ))
