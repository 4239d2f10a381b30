-- ===== src/SegList/Ops.antt =====
-- The methods of `SegList` (server/src/db/seg_list.rs), line by line. `available` says whether every
-- `alloc_zeroed` of the call returns a segment.
use segmented_memory_storage.Common.{
  ℕ, zero, suc, ◌+◌, ◌-◌, ◌*◌, ◌/◌, ◌%◌, ◌^◌, Bool, Option, none, some, List, [], ◌∷◌, ◌++◌, ltb,
  ◌==◌, length, take, drop, if◌then◌else◌,
}
use segmented_memory_storage.Common.Bytes.{to_le_bytes, from_le_bytes}
use segmented_memory_storage.Common.HashMap
use segmented_memory_storage.Common.Optional
use segmented_memory_storage.Common.Outcome.{
  Outcome, ok, err, crash, Action, pure, throw, ◌>>=◌, ◌>>◌,
}
use segmented_memory_storage.Common.Texts.{Text}
use segmented_memory_storage.Segment.{
  Segment, zeroed, segment_size, header_size, copy_to, copy_from,
}
use segmented_memory_storage.SegList.State.{
  Pointer, Memory, SegList, ListError, entry_too_large, key_not_found, out_of_range,
}

abbrev pub initial_space : ℕ
initial_space = 1024 * 1024 * 1024

abbrev pub write_heap : Pointer → Segment → Memory → Memory
write_heap p seg m = record m { heap = λ q. if q == p then seg else m.heap q }

-- `alloc_zeroed`
abbrev pub alloc_zeroed : Memory → Pointer × Memory
alloc_zeroed m =
    (m.allocated, record (write_heap m.allocated zeroed m) { allocated = m.allocated + 1 })

-- The loop of `new` and `grow_segs`: `n` more segments behind those in `segs`.
unfoldable pub alloc_segs : ℕ → Memory → List Pointer → List Pointer × Memory
alloc_segs zero m segs = (segs, m)
alloc_segs (suc n) m segs = let (p, m') = alloc_zeroed m in alloc_segs n m' (segs ++ p ∷ [])

unfoldable pub new : Bool → Outcome ListError SegList
new available =
    let (segs, m) =
      alloc_segs (initial_space / segment_size) (record { heap = λ _. zeroed; allocated = 0 }) [] in
    if available then ok (record { written = []; free_segs = segs; memory = m }) else crash

unfoldable pub grow_segs : Bool → Action SegList ListError (Unit {0})
grow_segs available s =
    let (segs, m) = alloc_segs (initial_space / segment_size) s.memory [] in
    if available
    then (ok tt, record s { free_segs = s.free_segs ++ segs; memory = m })
    else (crash, s)

-- The first unsafe block of `push`.
unfoldable pub write_payload : Segment → List ℕ → Option Segment
write_payload seg payload =
    Optional.◌>>=◌ (copy_to seg 16 (to_le_bytes 4 (length payload % 2 ^ 32)))
      (λ seg'. if ltb 0 (length payload) then copy_to seg' header_size payload else some seg')

-- The reads of the unsafe block of `pop`.
unfoldable pub read_payload : Segment → Option (List ℕ)
read_payload seg =
    Optional.◌>>=◌ (copy_from seg 16 4) (λ len. copy_from seg header_size (from_le_bytes len))

-- `entry(key).or_insert_with(Vec::new)`
abbrev pub entry_or_new : Text → SegList → List Pointer
entry_or_new key s = elim (HashMap.lookup key s.written) [ none ↦ [] | some segs ↦ segs ]

-- `push` from `free_segs.remove(0)` on.
unfoldable pub push_segment : Text → List ℕ → Action SegList ListError (Unit {0})
push_segment key payload s = elim s.free_segs [
  | [] ↦ (crash, s)
  | (first_free ∷ rest) ↦ elim (write_payload (s.memory.heap first_free) payload) [
    | none ↦ (crash, s)
    | some seg ↦ (
      ok tt,
      record s {
        free_segs = rest;
        memory = write_heap first_free seg s.memory;
        written = HashMap.insert key (entry_or_new key s ++ first_free ∷ []) s.written;
      },
    )
  ]
]

unfoldable pub push : Bool → Text → List ℕ → Action SegList ListError (Unit {0})
push available key payload s =
    ((if length s.free_segs == 0 then grow_segs available else pure tt)
        >> (if ltb segment_size (header_size + length payload)
            then throw entry_too_large
            else push_segment key payload))
      s

-- The unsafe block on one segment, which then returns to the free ones: its payload is read and its
-- bytes are zeroed. `none` is an access outside it.
unfoldable pub release : Pointer → SegList → Option (List ℕ × SegList)
unfolding read_payload
release p s = elim (read_payload (s.memory.heap p)) [
  | none ↦ none
  | some payload ↦ some (
    payload,
    record s { memory = write_heap p zeroed s.memory; free_segs = s.free_segs ++ p ∷ [] },
  )
]

-- `pop`, on the segments found under the key.
unfoldable pub pop_first : Text → List Pointer → Action SegList ListError (List ℕ)
pop_first key [] s = (err key_not_found, s)
pop_first key (seg_ptr ∷ segs) s =
    elim (release seg_ptr (record s { written = HashMap.insert key segs s.written })) [
      | none ↦ (crash, s)
      | some (payload, s') ↦ (ok payload, s')
    ]

unfoldable pub pop : Text → Action SegList ListError (List ℕ)
unfolding pop_first
pop key s = elim (HashMap.lookup key s.written) [
  | none ↦ (err key_not_found, s)
  | some segs ↦ pop_first key segs s
]

-- The loop of `push_range`.
unfoldable pub push_each : Bool → Text → List (List ℕ) → Action SegList ListError (Unit {0})
push_each available key [] = pure tt
push_each available key (item ∷ items) = push available key item >> push_each available key items

unfoldable pub push_range : Bool → Text → List (List ℕ) → Action SegList ListError (Unit {0})
push_range available key items s =
    ((if ltb (length s.free_segs) (length items) then grow_segs available else pure tt)
        >> push_each available key items)
      s

-- The loop of `pop_count`: `n` pops, of which the first that fails ends the call.
unfoldable pub pop_times : ℕ → Text → Action SegList ListError (List (List ℕ))
pop_times zero key = pure []
pop_times (suc n) key = do item ← pop key; items ← pop_times n key; pure (item ∷ items)

-- `for _ in 0..=count` makes `count + 1` rounds.
unfoldable pub pop_count : Text → ℕ → Action SegList ListError (List (List ℕ))
pop_count key count = pop_times (suc count) key

-- The loop of `pop_range`.
unfoldable pub release_all : List Pointer → SegList → Option (List (List ℕ) × SegList)
release_all [] s = some ([], s)
release_all (p ∷ ps) s = Optional.◌>>=◌ (release p s) (λ (payload, s').
    Optional.◌>>=◌ (release_all ps s') (λ (payloads, s''). some (payload ∷ payloads, s'')))

-- `drain(start..end)` panics where the range ends before it starts.
unfoldable pub drain_range : Text → ℕ → ℕ → List Pointer → Action SegList ListError (List (List ℕ))
unfolding release_all
drain_range key start end segs s =
    if ltb end start
    then (crash, s)
    else (elim (release_all (take (end - start) (drop start segs))
        (record s { written = HashMap.insert key (take start segs ++ drop end segs) s.written })) [
          | none ↦ (crash, s)
          | some (payloads, s') ↦ (ok payloads, s')
        ])

unfoldable pub pop_range : Text → ℕ → ℕ → Action SegList ListError (List (List ℕ))
unfolding drain_range
pop_range key start end s = elim (HashMap.lookup key s.written) [
  | none ↦ (err key_not_found, s)
  | some segs ↦
      if ltb (length segs) end then (err out_of_range, s) else drain_range key start end segs s
]

-- The method `len`.
unfoldable pub list_len : Text → Action SegList ListError ℕ
list_len key s =
    let segs = entry_or_new key s in
    (ok (length segs), record s { written = HashMap.insert key segs s.written })

-- The loop of `flush`.
unfoldable pub zero_all : List Pointer → SegList → SegList
zero_all [] s = s
zero_all (p ∷ ps) s =
    zero_all ps
      (record s { memory = write_heap p zeroed s.memory; free_segs = s.free_segs ++ p ∷ [] })

unfoldable pub flush : Text → Action SegList ListError (Unit {0})
unfolding zero_all
flush key s = elim (HashMap.lookup key s.written) [
  | none ↦ (err key_not_found, s)
  | some segs ↦ (ok tt, zero_all segs (record s { written = HashMap.insert key [] s.written }))
]
