-- ===== src/Lru/Ops.antt =====
-- The methods of `LRU` (server/src/db/lru.rs). `now` is what the clock says in the call; an index out
-- of range and an `unwrap` of nothing panic.
use segmented_memory_storage.Common.{
  ℕ, ◌+◌, Option, none, some, [], ◌∷◌, ◌++◌, ltb, ◌==◌, length, get_elem?, set, if◌then◌else◌,
}
use segmented_memory_storage.Common.BTreeMap
use segmented_memory_storage.Common.Outcome.{ok, Action, pure, gets, or_crash, modify, ◌>>=◌, ◌>>◌}
use segmented_memory_storage.Lru.State.{null, Entry, Lru}

-- A method, which has no error of its own.
abbrev pub Method : Type 0 → Type 0 → Type 0
Method V = Action (Lru V) (Unit {0})

module _ {V : Type 0} where
  unfoldable pub new : ℕ → ℕ → Lru V
  new cap ttl = record {
    map = [];
    reverse = [];
    entries = [];
    free = [];
    head = null;
    tail = null;
    ttl = ttl;
    cap = cap;
  }

  -- `self.entries[idx]`, and `.as_ref().unwrap()` of it.
  abbrev pub slot_at : ℕ → Method V (Option (Entry V))
  slot_at idx l = or_crash (get_elem? l.entries idx) l

  abbrev pub entry_at : ℕ → Method V (Entry V)
  entry_at idx = slot_at idx >>= or_crash

  -- `self.entries[idx].as_mut().unwrap()`, changed.
  abbrev pub update : ℕ → (Entry V → Entry V) → Method V (Unit {0})
  update idx f =
      entry_at idx >>= λ e. modify (λ l. record l { entries = set l.entries idx (some (f e)) })

  -- `self.entries[idx] = slot` and `self.reverse[idx] = key`.
  abbrev pub put_slot : ℕ → Option (Entry V) → Method V (Unit {0})
  put_slot idx slot = slot_at idx >> modify (λ l. record l { entries = set l.entries idx slot })

  abbrev pub put_reverse : ℕ → Option ℕ → Method V (Unit {0})
  put_reverse idx key =
      (λ l. or_crash (get_elem? l.reverse idx) l)
      >> modify (λ l. record l { reverse = set l.reverse idx key })

  unfoldable pub alloc_slot : ℕ → Entry V → Method V ℕ
  alloc_slot key entry l = elim l.free [
    | [] ↦ (
      ok (length l.entries),
      record l { entries = l.entries ++ some entry ∷ []; reverse = l.reverse ++ some key ∷ [] },
    )
    | (idx ∷ free) ↦
        (put_slot idx (some entry) >> (put_reverse idx (some key) >> pure idx))
          (record l { free = free })
  ]

  unfoldable pub detach : ℕ → Method V (Unit {0})
  detach idx = do
    e ← entry_at idx
    (if e.prev == null
        then modify (λ l. record l { head = e.next })
        else update e.prev (λ p. record p { next = e.next }))
    (if e.next == null
        then modify (λ l. record l { tail = e.prev })
        else update e.next (λ n. record n { prev = e.prev }))

  unfoldable pub attach_front : ℕ → Method V (Unit {0})
  attach_front idx = do
    head ← gets (λ l. l.head)
    update idx (λ e. record e { prev = null; next = head })
    (if head == null
        then modify (λ l. record l { tail = idx })
        else update head (λ h. record h { prev = idx }))
    modify (λ l. record l { head = idx })

  -- `insert` under a key that is there.
  unfoldable pub insert_again : ℕ → ℕ → V → Method V (Unit {0})
  insert_again idx expires_at value = do
    detach idx
    update idx (λ e. record e { value = value; expires_at = expires_at; prev = null; next = null })
    attach_front idx

  -- `if let Some(Some(old_key)) = self.reverse.get_mut(evict)`
  unfoldable pub forget : ℕ → Lru V → Lru V
  forget evict l = elim (get_elem? l.reverse evict) [
    | none ↦ l
    | some key ↦ elim key [
      | none ↦ l
      | some old_key ↦ record l { map = BTreeMap.remove old_key l.map }
    ]
  ]

  -- The eviction of a full cache.
  unfoldable pub evict_tail : Method V (Unit {0})
  evict_tail l =
      let evict = l.tail in
      (if evict == null then pure tt else (do
        detach evict
        modify (forget evict)
        put_slot evict none
        put_reverse evict none
        modify (λ l'. record l' { free = evict ∷ l'.free })))
        l

  unfoldable pub insert : ℕ → ℕ → V → Method V (Unit {0})
  insert now key value l =
      let expires_at = now + l.ttl in
      elim (BTreeMap.lookup key l.map) [
        | some idx ↦ insert_again idx expires_at value l
        | none ↦
            ((if length l.map == l.cap then evict_tail else pure tt)
                >> (alloc_slot key
                      (record { value = value; expires_at = expires_at; prev = null; next = null })
                    >>= λ idx.
                        modify (λ l'. record l' { map = BTreeMap.insert key idx l'.map })
                        >> attach_front idx))
              l
      ]

  -- `remove` once the key has been found and taken out of `map`.
  unfoldable pub remove_at : ℕ → Method V (Option V)
  remove_at idx = do
    detach idx
    put_reverse idx none
    slot ← slot_at idx
    put_slot idx none
    elim slot [
      | none ↦ pure none
      | some entry ↦ modify (λ l. record l { free = idx ∷ l.free }) >> pure (some entry.value)
    ]

  unfoldable pub remove : ℕ → Method V (Option V)
  remove key l = elim (BTreeMap.lookup key l.map) [
    | none ↦ (ok none, l)
    | some idx ↦ remove_at idx (record l { map = BTreeMap.remove key l.map })
  ]

  -- `get` once the key has been found and its entry is live.
  unfoldable pub touch : ℕ → Method V (Option V)
  touch idx = do
    detach idx
    attach_front idx
    slot ← slot_at idx
    pure (elim slot [ none ↦ none | some e ↦ some e.value ])

  unfoldable pub get : ℕ → ℕ → Method V (Option V)
  get now key l = elim (BTreeMap.lookup key l.map) [
    | none ↦ (ok none, l)
    | some idx ↦
        (slot_at idx >>= λ slot. elim slot [
          | none ↦ pure none
          | some e ↦ if ltb e.expires_at now then remove key >> pure none else touch idx
        ])
          l
  ]
