-- ===== src/Groups/Coherent.antt =====
-- The calls of a group on its cache and on its log (server/src/db/groups.rs).
use segmented_memory_storage.Common.{ℕ, ◌≡◌, refl, ap, ◌∙◌, List, [], ◌∷◌}
use segmented_memory_storage.Common.Outcome.{Outcome, ok, bind_ok, pure, ◌>>◌}
use segmented_memory_storage.Common.Texts.{Text}
use segmented_memory_storage.SegLog.State.{LogEntry}
use segmented_memory_storage.Lru
use segmented_memory_storage.Lru.Ops.{Method}
use segmented_memory_storage.Lru.Links.{Node}
use segmented_memory_storage.Lru.Recent.{Item, removed, items}
use segmented_memory_storage.Lru.Added.{Result}
use segmented_memory_storage.Lru.Refines.{remove-Result}
use segmented_memory_storage.Groups.State.{GroupError, Group}
use segmented_memory_storage.Groups.Ops.{on_cache, cache_invalidate, invalidate_each}
use segmented_memory_storage.Groups.Backed.{dropped}

-- A call on the group that goes well with `a`, and does what a call on the cache does.
pub record Cached {A : Type 0} (g : Group) (call : Outcome GroupError A × Group) (a : A)
    (xs : List (Item LogEntry)) : Type 0 where
  pub after : Lru.State.Lru LogEntry
  pub nodes : List (Node LogEntry)
  pub ends : call ≡ (ok a, record g { lru_cache = after })
  pub holds : Lru.Represented.Represents after nodes
  pub stands : items nodes ≡ xs
  pub same_cap : after.cap ≡ g.lru_cache.cap

on_cache_ok :
    {A : Type 0} (m : Method LogEntry A) (g : Group) (a : A) (c : Lru.State.Lru LogEntry)
    → m g.lru_cache ≡ (ok a, c)
    → on_cache m g ≡ (ok a, record g { lru_cache = c })
unfolding on_cache
on_cache_ok m g a c h = rw (on_cache, h) refl

pub on_cache-Cached :
    {A : Type 0} (m : Method LogEntry A) (g : Group) (a : A) (xs : List (Item LogEntry))
    → Result g.lru_cache (m g.lru_cache) a xs
    → Cached g (on_cache m g) a xs
on_cache-Cached m g a xs r = record {
  after = r.after;
  nodes = r.nodes;
  ends = on_cache_ok m g a r.after r.ends;
  holds = r.holds;
  stands = r.stands;
  same_cap = r.same_cap;
}

module _ (build_key : Text → ℕ → ℕ) (now : ℕ) where
  pub invalidate_each-Cached :
      (ids : List ℕ) (g : Group) (nodes : List (Node LogEntry))
      → Lru.Represented.Represents g.lru_cache nodes
      → Cached g
          (invalidate_each build_key now ids g)
          tt
          (dropped build_key g.name ids (items nodes))
  unfolding invalidate_each cache_invalidate
  invalidate_each-Cached [] g nodes r = record {
    after = g.lru_cache;
    nodes = nodes;
    ends = refl;
    holds = r;
    stands = refl;
    same_cap = refl;
  }
  invalidate_each-Cached (id ∷ ids) g nodes r =
      let key = build_key g.name id in
      let m = Lru.Ops.remove {V = LogEntry} key in
      let c =
        on_cache-Cached m g (removed key (items nodes)).0 (removed key (items nodes)).1
          (remove-Result g.lru_cache nodes key r) in
      let g1 : Group = record g { lru_cache = c.after } in
      let d = invalidate_each-Cached ids g1 c.nodes c.holds in
      record {
        after = d.after;
        nodes = d.nodes;
        ends =
            bind_ok (on_cache m >> pure tt) (λ _. invalidate_each build_key now ids) g tt g1
              (bind_ok (on_cache m) (λ _. pure tt) g (removed key (items nodes)).0 g1 c.ends)
            ∙ d.ends;
        holds = d.holds;
        stands = d.stands ∙ ap (dropped build_key g.name ids) c.stands;
        same_cap = d.same_cap ∙ c.same_cap;
      }
