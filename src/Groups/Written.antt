-- ===== src/Groups/Written.antt =====
-- An append to a group and a removal, against the entries of its log (server/src/db/groups.rs).
use segmented_memory_storage.Common.{
  ℕ, ◌+◌, ◌≤◌, ◌<◌, ◌^◌, ◌≡◌, refl, ap, ◌∙◌, true, none, List, [], ◌∷◌, ◌++◌, arith, length, map,
  All, All-imp, Option-cases, inl, inr,
}
use segmented_memory_storage.Common.Outcome.{Outcome, Action, ok, err, bind_ok, pure, ◌>>=◌, ◌>>◌}
use segmented_memory_storage.Common.Texts.{Text}
use segmented_memory_storage.Segment.{segment_size, header_size}
use segmented_memory_storage.SegLog.State.{SegLog, LogEntry, LogError, entry_too_large}
use segmented_memory_storage.SegLog.Stored.{Entry, find_id, ids_from, ids_below}
use segmented_memory_storage.SegLog.Append.{
  HasRoom, append-Represents, append_too_large, append-segs,
}
use segmented_memory_storage.SegLog.Trim.{trim-Represents}
use segmented_memory_storage.SegLog
use segmented_memory_storage.Lru
use segmented_memory_storage.Lru.Recent.{Item, inserted, items}
use segmented_memory_storage.Lru.Inserts.{insert-Result}
use segmented_memory_storage.Groups.State.{log_error, Group}
use segmented_memory_storage.Groups.Ops.{
  GroupAction, from_log, row, on_log, cache_put, append_one, invalidate_each,
}
use segmented_memory_storage.Groups.Backed.{
  All-inserted, Backed, find_id_below, find_id-append, find_id-append_new,
}
use segmented_memory_storage.Groups.Dropped.{Backed-dropped}
use segmented_memory_storage.Groups.Coherent.{on_cache-Cached, invalidate_each-Cached}
use segmented_memory_storage.Groups.Cached.{Coherent, Leaves}

on_log_lem :
    {A : Type 0} (m : Action SegLog LogError A) (g : Group) (r : Outcome LogError A) (log : SegLog)
    → m g.log ≡ (r, log)
    → on_log m g ≡ (from_log r, record g { log = log })
unfolding on_log
on_log_lem m g r log h = rw (on_log, h) refl

module _ (build_key : Text → ℕ → ℕ) (now : ℕ) (g : Group) (es : List Entry)
    (c : Coherent build_key g es) where
  fresh : find_id g.log.next_id es ≡ none
  fresh = elim (Option-cases (find_id g.log.next_id es)) [
    | inl absent ↦ absent
    | inr (e, there) ↦ absurd (
        omega (
          arith,
          find_id_below g.log.segs _ _ _ _ g.log.idx es g.log.next_id e c.logged.stored there,
        ))
  ]

  -- An entry that fits a segment, where a segment is to be had.
  pub append_one-Leaves :
      (ts : ℕ) (payload : List ℕ)
      → header_size + length payload ≤ segment_size
      → HasRoom true (header_size + length payload) g.log
      → ts < 2 ^ 64
      → g.log.next_id + 1 < 2 ^ 64
      → Leaves build_key g
          (append_one build_key now true ts payload g)
          (ok g.log.next_id)
          (g.log.next_id + 1)
          (es ++ (g.log.next_id, ts, payload) ∷ [])
  unfolding append_one cache_put
  append_one-Leaves ts payload small room hts left =
      let id = g.log.next_id in
      let (log, done, logged, next) =
        append-Represents g.log es c.logged true ts payload small room hts left in
      let g1 : Group = record g { log = log } in
      let entry : LogEntry = record {
        id = id;
        timestamp = ts;
        len = length payload;
        payload = payload;
      } in
      let key = build_key g.name id in
      let x : Item LogEntry = record {
        key = key;
        value = entry;
        expires_at = now + g.lru_cache.ttl;
      } in
      let m = Lru.Ops.insert now key entry in
      let k =
        on_cache-Cached m g1 tt (inserted g.lru_cache.cap x (items c.nodes))
          (insert-Result g.lru_cache c.nodes now key entry c.cached c.positive) in
      let new_es = es ++ (id, ts, payload) ∷ [] in
      let kept : All (Backed build_key g.name new_es) (items c.nodes) =
        All-imp (items c.nodes)
          (λ y b. (b.0, find_id-append y.value.id (row y.value) (id, ts, payload) es b.1))
          c.backed in
      let with_x : All (Backed build_key g.name new_es)
          (inserted g.lru_cache.cap x (items c.nodes)) =
        All-inserted (Backed build_key g.name new_es) g.lru_cache.cap x (items c.nodes)
          (refl, find_id-append_new id (id, ts, payload) es fresh refl) kept in
      record {
        after = record g1 { lru_cache = k.after };
        ends =
            bind_ok (on_log (SegLog.Ops.append true ts payload))
              (λ i. cache_put build_key now i ts payload >> pure i) g id g1
              (on_log_lem (SegLog.Ops.append true ts payload) g (ok id) log done)
            ∙ bind_ok (cache_put build_key now id ts payload) (λ _. pure id) g1 tt _ k.ends;
        coherent = record {
          nodes = k.nodes;
          logged = logged;
          cached = k.holds;
          positive = omega (arith, c.positive, k.same_cap);
          backed = rw k.stands with_x;
        };
        same_name = refl;
        next_is = next;
        few = omega (arith, append-segs g.log true ts payload, ap (λ p. length p.1.segs) done);
      }

  -- A larger one is refused, and nothing changes.
  pub append_one_too_large :
      (ts : ℕ) (payload : List ℕ)
      → segment_size < header_size + length payload
      → Leaves build_key g
          (append_one build_key now true ts payload g)
          (err (log_error entry_too_large))
          g.log.next_id
          es
  unfolding append_one
  append_one_too_large ts payload large =
      let refused =
        on_log_lem (SegLog.Ops.append true ts payload) g (err entry_too_large) g.log
          (append_too_large g.log es c.logged true ts payload large) in
      record {
        after = g;
        ends = ground (arith, refused);
        coherent = c;
        same_name = refl;
        next_is = refl;
        few = omega arith;
      }

  -- What `remove` does to a group: the ids below the cutoff are gone from the log and the cache.
  abbrev pub removes : ℕ → GroupAction (Unit {0})
  removes up_to_id = on_log (SegLog.Ops.trim up_to_id) >>= invalidate_each build_key now

  pub removes-Leaves :
      (up_to_id : ℕ)
      → Leaves build_key g (removes up_to_id g) (ok tt) g.log.next_id (ids_from up_to_id es)
  removes-Leaves up_to_id =
      let (log, done, logged, next, segs) = trim-Represents g.log es c.logged up_to_id in
      let g1 : Group = record g { log = log } in
      let ids = map (λ (e : Entry). e.0) (ids_below up_to_id es) in
      let k = invalidate_each-Cached build_key now ids g1 c.nodes c.cached in
      record {
        after = record g1 { lru_cache = k.after };
        ends =
            bind_ok (on_log (SegLog.Ops.trim up_to_id)) (invalidate_each build_key now) g ids g1
              (on_log_lem (SegLog.Ops.trim up_to_id) g (ok ids) log done)
            ∙ k.ends;
        coherent = record {
          nodes = k.nodes;
          logged = logged;
          cached = k.holds;
          positive = omega (arith, c.positive, k.same_cap);
          backed =
              rw k.stands (Backed-dropped build_key g.name up_to_id es (items c.nodes) c.backed);
        };
        same_name = refl;
        next_is = next;
        few = omega (arith, segs);
      }
