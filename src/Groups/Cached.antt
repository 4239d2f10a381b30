-- ===== src/Groups/Cached.antt =====
-- The methods of a group against the entries of its log (server/src/db/groups.rs): the cache gives
-- nothing that the log would not.
use segmented_memory_storage.Common.{
  ℕ, ◌+◌, ◌≤◌, ◌<◌, ◌≡◌, refl, ap, sym, ◌∙◌, Option, none, some, List, arith, length, All,
}
use segmented_memory_storage.Common.Outcome.{Outcome, ok, bind_ok, pure, ◌>>=◌}
use segmented_memory_storage.Common.Texts.{Text}
use segmented_memory_storage.SegLog.State.{LogEntry}
use segmented_memory_storage.SegLog.Stored.{Entry, find_id, ids_from, ids_below}
use segmented_memory_storage.SegLog.Read.{found, read-find_id}
use segmented_memory_storage.SegLog
use segmented_memory_storage.Lru
use segmented_memory_storage.Lru.Links.{Node}
use segmented_memory_storage.Lru.Recent.{got, items}
use segmented_memory_storage.Lru.Refines.{get-Result}
use segmented_memory_storage.Groups.State.{GroupError, Group}
use segmented_memory_storage.Groups.Ops.{GroupAction, from_log, row, ask_log, cache_get}
use segmented_memory_storage.Groups.Backed.{All-got, Hit, got-Hit, Backed, find_id_below}
use segmented_memory_storage.Groups.Coherent.{on_cache-Cached}

-- The log holds the entries, and every item of the cache stands for one of them.
pub record Coherent (build_key : Text → ℕ → ℕ) (g : Group) (es : List Entry) : Type 0 where
  pub nodes : List (Node LogEntry)
  pub logged : SegLog.Stored.Represents g.log es
  pub cached : Lru.Represented.Represents g.lru_cache nodes
  pub positive : 0 < g.lru_cache.cap
  pub backed : All (Backed build_key g.name es) (items nodes)

-- A call on a group that ends with `r` and leaves it with the entries `es`, and `next` as its next id.
pub record Leaves {A : Type 0} (build_key : Text → ℕ → ℕ) (g : Group)
    (call : Outcome GroupError A × Group) (r : Outcome GroupError A) (next : ℕ) (es : List Entry)
    : Type 0 where
  pub after : Group
  pub ends : call ≡ (r, after)
  pub coherent : Coherent build_key after es
  pub same_name : after.name ≡ g.name
  pub next_is : after.log.next_id ≡ next
  pub few : length after.log.segs ≤ length g.log.segs + 1

module _ (build_key : Text → ℕ → ℕ) (now : ℕ) (g : Group) (es : List Entry)
    (c : Coherent build_key g es) where
  -- What `read` does to a group, first once the cache has answered.
  abbrev read_past : ℕ → Option LogEntry → GroupAction (ℕ × ℕ × List ℕ)
  read_past id cached = elim cached [
    | some entry ↦ pure (row entry)
    | none ↦ ask_log (λ log. SegLog.Ops.read log id)
  ]

  abbrev pub reads : ℕ → GroupAction (ℕ × ℕ × List ℕ)
  reads id = cache_get build_key now id >>= read_past id

  reads_of :
      (id : ℕ) (o : Option LogEntry) (g' : Group)
      → cache_get build_key now id g ≡ (ok o, g')
      → g'.log ≡ g.log
      → ((v : LogEntry) → o ≡ some v → find_id id es ≡ some (row v))
      → reads id g ≡ (from_log (found (find_id id es)), g')
  unfolding ask_log
  reads_of id none g' h same hit =
      bind_ok (cache_get build_key now id) (read_past id) g none g' h
      ∙ ap (λ log. (from_log (SegLog.Ops.read log id), g')) same
      ∙ ap (λ o. (from_log o, g')) (read-find_id g.log es c.logged id)
  reads_of id (some v) g' h same hit =
      bind_ok (cache_get build_key now id) (read_past id) g (some v) g' h
      ∙ ap (λ o. (from_log (found o), g')) (sym (hit v refl))

  Hit-find_id :
      (id : ℕ) (v : LogEntry)
      → Hit (Backed build_key g.name es) (build_key g.name id) v
      → ((i : ℕ) → i < g.log.next_id → build_key g.name i ≡ build_key g.name id → i ≡ id)
      → find_id id es ≡ some (row v)
  Hit-find_id id v h alone =
      let x = h.hit in
      let there : find_id x.value.id es ≡ some (row x.value) = h.holds.1 in
      let below : x.value.id < g.log.next_id =
        find_id_below g.log.segs _ _ _ _ g.log.idx es x.value.id (row x.value) c.logged.stored
          there in
      let same : x.value.id ≡ id = alone x.value.id below (sym h.holds.0 ∙ h.key_is) in
      ap (λ i. find_id i es) (sym same) ∙ there ∙ ap (λ w. some (row w)) h.value_is

  -- A look into the cache, which finds the entry of the id or nothing.
  pub record Looked (id : ℕ) : Type 0 where
    pub answer : Option LogEntry
    pub after : Group
    pub ends : cache_get build_key now id g ≡ (ok answer, after)
    pub coherent : Coherent build_key after es
    pub same_name : after.name ≡ g.name
    pub same_log : after.log ≡ g.log
    pub right : (v : LogEntry) → answer ≡ some v → find_id id es ≡ some (row v)

  pub cache_get-Looked :
      (id : ℕ)
      → ((i : ℕ) → i < g.log.next_id → build_key g.name i ≡ build_key g.name id → i ≡ id)
      → Looked id
  unfolding cache_get
  cache_get-Looked id alone =
      let key = build_key g.name id in
      let xs = items c.nodes in
      let k =
        on_cache-Cached (Lru.Ops.get now key) g (got now key xs).0 (got now key xs).1
          (get-Result g.lru_cache c.nodes now key c.cached) in
      let kept : All (Backed build_key g.name es) (got now key xs).1 =
        All-got (Backed build_key g.name es) now key xs c.backed in
      record {
        answer = (got now key xs).0;
        after = record g { lru_cache = k.after };
        ends = k.ends;
        coherent = record {
          nodes = k.nodes;
          logged = c.logged;
          cached = k.holds;
          positive = omega (arith, c.positive, k.same_cap);
          backed = rw k.stands kept;
        };
        same_name = refl;
        same_log = refl;
        right = λ v h.
            Hit-find_id id v (got-Hit (Backed build_key g.name es) now key v xs c.backed h) alone;
      }

  pub reads-Leaves :
      (id : ℕ)
      → ((i : ℕ) → i < g.log.next_id → build_key g.name i ≡ build_key g.name id → i ≡ id)
      → Leaves build_key g (reads id g) (from_log (found (find_id id es))) g.log.next_id es
  reads-Leaves id alone =
      let k = cache_get-Looked id alone in
      record {
        after = k.after;
        ends = reads_of id k.answer k.after k.ends k.same_log k.right;
        coherent = k.coherent;
        same_name = k.same_name;
        next_is = ap (λ log. log.next_id) k.same_log;
        few = omega (arith, ap (λ log. length log.segs) k.same_log);
      }
