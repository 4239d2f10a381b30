-- ===== src/Api/Router.antt =====
-- `build_router` (client/src/api/router.rs). What axum makes of a path is a parameter: it may refuse
-- one, which panics.
use segmented_memory_storage.Common.{
  arith, ◌≡◌, refl, Bool, true, false, Option, none, some, List, [], ◌∷◌, ◌++◌, if◌then◌else◌, ◌==◌,
}
use segmented_memory_storage.Common.Texts.{Text, codes}

pub data Method : Type 0 where
  get post delete : Method

-- The handlers, by their names.
pub data Endpoint : Type 0 where
  create_group list_groups drop_group group_stats add_entry add_range_entries : Endpoint
  read_entry read_range_entries drop_entries : Endpoint
  kv_set kv_get kv_del kv_keys kv_flush : Endpoint
  list_push list_push_range list_pop list_pop_range list_pop_count list_len list_flush : Endpoint
  health : Endpoint

pub record Route : Type 0 where
  pub path : Text
  pub methods : List (Method × Endpoint)

abbrev at : Text → Method → Endpoint → Route
at path method endpoint = record { path = path; methods = (method, endpoint) ∷ [] }

abbrev group_routes : List Route
group_routes =
    at (codes "/groups") get list_groups
    ∷ at (codes "/groups/{name}") post create_group
    ∷ at (codes "/groups/{name}") delete drop_group
    ∷ at (codes "/groups/{name}/stats") get group_stats
    ∷ at (codes "/groups/{name}/entries") post add_entry
    ∷ at (codes "/groups/{name}/entries/batch") post add_range_entries
    ∷ at (codes "/groups/{name}/entries/single/{id}") get read_entry
    ∷ at (codes "/groups/{name}/entries/range/{start_id}/{end_id}") get read_range_entries
    ∷ at (codes "/groups/{name}/entries/trim/{upto_id}") delete drop_entries
    ∷ []

abbrev kv_routes : List Route
kv_routes =
    record {
      path = codes "/kv/:db/:key";
      methods = (post, kv_set) ∷ (get, kv_get) ∷ (delete, kv_del) ∷ [];
    }
    ∷ at (codes "/kv/:db/keys") get kv_keys
    ∷ at (codes "/kv/:db/flush") post kv_flush
    ∷ []

abbrev list_routes : List Route
list_routes =
    at (codes "/list/:key/push") post list_push
    ∷ at (codes "/list/:key/push-range") post list_push_range
    ∷ at (codes "/list/:key/pop") post list_pop
    ∷ at (codes "/list/:key/pop-range") post list_pop_range
    ∷ at (codes "/list/:key/pop-count") post list_pop_count
    ∷ at (codes "/list/:key/len") post list_len
    ∷ at (codes "/list/:key/flush") post list_flush
    ∷ []

-- The chain of `route` calls, each of which panics where `accepts` says no.
unfoldable pub routed : (Text → Bool) → List Route → Option (List Route)
routed accepts [] = some []
routed accepts (r ∷ rs) = elim (routed accepts rs) [
  | none ↦ none
  | some table ↦ if accepts r.path then some (r ∷ table) else none
]

unfoldable pub build_router : (Text → Bool) → Option (List Route)
build_router accepts =
    routed accepts (at (codes "/health") get health ∷ (group_routes ++ (kv_routes ++ list_routes)))

-- A segment of the path that starts with a colon.
unfoldable pub colon_segment : Text → Bool
colon_segment [] = false
colon_segment (c ∷ []) = false
colon_segment (c ∷ d ∷ path) =
    if c == b'/'
    then (if d == b':' then true else colon_segment (d ∷ path))
    else colon_segment (d ∷ path)

module _ (accepts : Text → Bool) where
  routed_refused :
      (r : Route) (rs : List Route) → accepts r.path ≡ false → routed accepts (r ∷ rs) ≡ none
  unfolding routed
  routed_refused r rs h = ground (arith, h)

  routed-append : (xs ys : List Route) → routed accepts ys ≡ none → routed accepts (xs ++ ys) ≡ none
  unfolding routed
  routed-append [] ys h = h
  routed-append (x ∷ xs) ys h = rw (routed, routed-append xs ys h) refl

-- Where axum refuses every path with a segment that starts with a colon, as its versions from 0.8 on
-- document, the router cannot be built.
build_router_panics :
    (accepts : Text → Bool)
    → ((path : Text) → colon_segment path ≡ true → accepts path ≡ false)
    → build_router accepts ≡ none
unfolding build_router colon_segment
build_router_panics accepts refuses =
    routed-append accepts (at (codes "/health") get health ∷ group_routes)
      (kv_routes ++ list_routes) (routed_refused accepts _ _ (refuses (codes "/kv/:db/:key") refl))
