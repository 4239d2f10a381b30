-- ===== src/Proto/Responses.antt =====
-- `ResponseBuilder` (server/src/server/proto.rs), whose buffer each response writes anew.
use segmented_memory_storage.Common.{
  ℕ, ◌-◌, ◌≤◌, ◌≡◌, ap, ◌∙◌, some, List, [], ◌∷◌, ◌++◌, arith, length, get_or, set,
}
use mathlib.Core.List.{append_assoc}
use segmented_memory_storage.Common.Bytes.{to_le_bytes}
use segmented_memory_storage.Common.Outcome.{ok}
use segmented_memory_storage.Proto.Codec.{max_frame_size, decode, decode-framed}
use segmented_memory_storage.Common.Texts.{Text}

abbrev pub status_ok : ℕ
status_ok = 0x00

abbrev pub status_err : ℕ
status_err = 0x01

pub record ResponseBuilder : Type 0 where
  pub buf : List ℕ

-- `clear`, and four bytes for the length.
abbrev pub cleared : List ℕ
cleared = 0 ∷ 0 ∷ 0 ∷ 0 ∷ []

-- The length goes in front, cut to 32 bits.
unfoldable pub finalize : ResponseBuilder → ResponseBuilder
finalize b =
    let len_bytes = to_le_bytes 4 (length b.buf - 4) in
    let buf0 = set b.buf 0 (get_or len_bytes 0 0) in
    let buf1 = set buf0 1 (get_or len_bytes 1 0) in
    let buf2 = set buf1 2 (get_or len_bytes 2 0) in
    record { buf = set buf2 3 (get_or len_bytes 3 0) }

-- The loops over entries, names and items.
abbrev pub entries_body : List (ℕ × (ℕ × List ℕ)) → List ℕ
entries_body [] = []
entries_body ((id, e) ∷ entries) =
    let (ts, payload) = e in
    to_le_bytes 8 id
    ++ (to_le_bytes 8 ts ++ (to_le_bytes 4 (length payload) ++ (payload ++ entries_body entries)))

abbrev pub names_body : List Text → List ℕ
names_body [] = []
names_body (name ∷ names) = to_le_bytes 2 (length name) ++ (name ++ names_body names)

abbrev pub items_body : List (List ℕ) → List ℕ
items_body [] = []
items_body (item ∷ items) = to_le_bytes 4 (length item) ++ (item ++ items_body items)

abbrev respond : List ℕ → ResponseBuilder → ResponseBuilder
respond body b = finalize (record b { buf = cleared ++ body })

unfoldable pub ok_empty : ResponseBuilder → ResponseBuilder
ok_empty = respond (status_ok ∷ [])

unfoldable pub ok_u64 : ℕ → ResponseBuilder → ResponseBuilder
ok_u64 val = respond (status_ok ∷ to_le_bytes 8 val)

unfoldable pub ok_u64_pair : ℕ → ℕ → ResponseBuilder → ResponseBuilder
ok_u64_pair a b = respond (status_ok ∷ to_le_bytes 8 a ++ to_le_bytes 8 b)

unfoldable pub ok_entry : ℕ → ℕ → List ℕ → ResponseBuilder → ResponseBuilder
ok_entry id ts payload = respond (
    status_ok ∷ to_le_bytes 8 id
    ++ (to_le_bytes 8 ts ++ (to_le_bytes 4 (length payload) ++ payload)))

unfoldable pub ok_entries : List (ℕ × (ℕ × List ℕ)) → ResponseBuilder → ResponseBuilder
ok_entries entries = respond (status_ok ∷ to_le_bytes 4 (length entries) ++ entries_body entries)

unfoldable pub ok_group_list : List Text → ResponseBuilder → ResponseBuilder
ok_group_list groups = respond (status_ok ∷ to_le_bytes 4 (length groups) ++ names_body groups)

unfoldable pub ok_stats : ℕ → ℕ → ℕ → ResponseBuilder → ResponseBuilder
ok_stats entries segments next_id =
    respond (status_ok ∷ to_le_bytes 8 entries ++ (to_le_bytes 4 segments ++ to_le_bytes 8 next_id))

unfoldable pub ok_bytes : List ℕ → ResponseBuilder → ResponseBuilder
ok_bytes val = respond (status_ok ∷ to_le_bytes 4 (length val) ++ val)

unfoldable pub ok_string_list : List Text → ResponseBuilder → ResponseBuilder
ok_string_list keys = respond (status_ok ∷ to_le_bytes 4 (length keys) ++ names_body keys)

unfoldable pub ok_bytes_list : List (List ℕ) → ResponseBuilder → ResponseBuilder
ok_bytes_list items = respond (status_ok ∷ to_le_bytes 4 (length items) ++ items_body items)

unfoldable pub error : Text → ResponseBuilder → ResponseBuilder
error msg = respond (status_err ∷ to_le_bytes 2 (length msg) ++ msg)

-- The four bytes are the length of what follows them.
pub finalize_lem :
    (body : List ℕ)
    → (finalize (record { buf = cleared ++ body })).buf ≡ to_le_bytes 4 (length body) ++ body
unfolding finalize to_le_bytes
finalize_lem body = ap (λ n. to_le_bytes 4 n ++ body) (omega arith)

-- The codec takes a finished response of at most 16 MiB as one frame, whose bytes are what was
-- written behind the four of the length.
pub decode-finalize :
    (body rest : List ℕ)
    → length body ≤ max_frame_size
    → decode ((finalize (record { buf = cleared ++ body })).buf ++ rest) ≡ (ok (some body), rest)
decode-finalize body rest h =
    ap (λ w. decode (w ++ rest)) (finalize_lem body)
    ∙ ap decode (append_assoc (to_le_bytes 4 (length body)) body rest)
    ∙ decode-framed body rest h
