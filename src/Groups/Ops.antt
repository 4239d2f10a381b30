-- ===== src/Groups/Ops.antt =====
-- The methods of `Group` and `GroupManager` (server/src/db/groups.rs). `build_key` is the hash of a
-- name and an id by the standard library's hasher, `now` what the clock says during the call, and
-- `available` whether memory for a segment is to be had.
use segmented_memory_storage.Common.{
  ℕ, zero, suc, ◌+◌, ◌-◌, ◌*◌, ◌%◌, ◌^◌, Bool, true, false, ◌&&◌, Option, none, some, List, [], ◌∷◌,
  map, length, ltb, ◌==◌, if◌then◌else◌,
}
use segmented_memory_storage.Common.HashMap
use segmented_memory_storage.Common.HashMap.{HashMap}
use segmented_memory_storage.Common.Outcome.{
  Outcome, ok, err, crash, Action, pure, throw, ◌>>=◌, ◌>>◌,
}
use segmented_memory_storage.Common.Texts.{Text}
use segmented_memory_storage.SegLog.State.{SegLog, LogEntry, LogError, entry_not_found}
use segmented_memory_storage.SegLog
use segmented_memory_storage.Lru
use segmented_memory_storage.Lru.Ops.{Method}
use segmented_memory_storage.Groups.State.{
  GroupError, group_not_found, group_already_exists, log_error, GroupStats, Group, GroupManager,
}

abbrev pub GroupAction : Type 0 → Type 0
GroupAction = Action Group GroupError

-- The result of a call of the log, by `From<LogError>`.
abbrev pub from_log : {A : Type 0} → Outcome LogError A → Outcome GroupError A
from_log (ok a) = ok a
from_log (err e) = err (log_error e)
from_log crash = crash

-- A call of the log, and one that only reads it.
unfoldable pub on_log : {A : Type 0} → Action SegLog LogError A → GroupAction A
on_log m g = let (r, log) = m g.log in (from_log r, record g { log = log })

unfoldable pub ask_log : {A : Type 0} → (SegLog → Outcome LogError A) → GroupAction A
ask_log f g = (from_log (f g.log), g)

-- A call of the cache, which has no error of its own.
unfoldable pub on_cache : {A : Type 0} → Method LogEntry A → GroupAction A
on_cache m g =
    let (r, cache) = m g.lru_cache in
    (elim r [ ok a ↦ ok a | err e ↦ crash | crash ↦ crash ], record g { lru_cache = cache })

-- The group of a name, or `GroupNotFound`; what the call does to it stays.
unfoldable pub with_group : {A : Type 0} → Text → GroupAction A → Action GroupManager GroupError A
with_group group m s = elim (HashMap.lookup group s.groups) [
  | none ↦ (err (group_not_found group), s)
  | some g ↦ let (r, g') = m g in (r, record s { groups = HashMap.insert group g' s.groups })
]

abbrev pub row : LogEntry → ℕ × ℕ × List ℕ
row e = (e.id, e.timestamp, e.payload)

-- `Group::new` around a new log; the lifetime is 30 seconds in nanoseconds.
abbrev pub new_group : Text → SegLog → Group
new_group name log = record { name = name; log = log; lru_cache = Lru.Ops.new 100000 30000000000 }

abbrev pub new : GroupManager
new = record { groups = [] }

unfoldable pub create_group : Bool → Text → Action GroupManager GroupError (Unit {0})
create_group available name s = elim (HashMap.lookup name s.groups) [
  | some g ↦ (err (group_already_exists name), s)
  | none ↦ elim (SegLog.Ops.new available) [
    | ok log ↦ (ok tt, record s { groups = HashMap.insert name (new_group name log) s.groups })
    | err e ↦ (crash, s)
    | crash ↦ (crash, s)
  ]
]

unfoldable pub drop_group : Text → Action GroupManager GroupError (Unit {0})
drop_group name s = elim (HashMap.lookup name s.groups) [
  | none ↦ (err (group_not_found name), s)
  | some g ↦ (ok tt, record s { groups = HashMap.remove name s.groups })
]

unfoldable pub group_stats : Text → GroupManager → Outcome GroupError GroupStats
group_stats group s = elim (HashMap.lookup group s.groups) [
  | none ↦ err (group_not_found group)
  | some g ↦ ok (record {
    total_entries = SegLog.Ops.total_entries g.log;
    total_segments = SegLog.Ops.total_segments g.log;
    next_id = SegLog.Ops.get_next_id g.log;
  })
]

-- `iter` is the order in which the map is gone through.
unfoldable pub list_groups : (HashMap Group → List (Text × Group)) → GroupManager → List Text
list_groups iter s = map (λ e. e.0) (iter s.groups)

module _ (build_key : Text → ℕ → ℕ) (now : ℕ) where
  unfoldable pub cache_put : ℕ → ℕ → List ℕ → GroupAction (Unit {0})
  cache_put id timestamp payload g =
      let entry : LogEntry = record {
        id = id;
        timestamp = timestamp;
        len = length payload;
        payload = payload;
      } in
      on_cache (Lru.Ops.insert now (build_key g.name id) entry) g

  unfoldable pub cache_get : ℕ → GroupAction (Option LogEntry)
  cache_get id g = on_cache (Lru.Ops.get now (build_key g.name id)) g

  unfoldable pub cache_invalidate : ℕ → GroupAction (Unit {0})
  cache_invalidate id g = (on_cache (Lru.Ops.remove (build_key g.name id)) >> pure tt) g

  -- An append, and the entry into the cache.
  unfoldable pub append_one : Bool → ℕ → List ℕ → GroupAction ℕ
  append_one available timestamp payload = do
    id ← on_log (SegLog.Ops.append available timestamp payload)
    cache_put id timestamp payload
    pure id

  unfoldable pub add : Bool → Text → ℕ → List ℕ → Action GroupManager GroupError ℕ
  add available group timestamp payload = with_group group (append_one available timestamp payload)

  -- The loop of `add_range`, with the last id so far.
  unfoldable pub add_each : Bool → ℕ → List (ℕ × List ℕ) → GroupAction ℕ
  add_each available last_id [] = pure last_id
  add_each available last_id (e ∷ entries) =
      append_one available e.0 e.1 >>= λ id. add_each available id entries

  unfoldable pub add_range :
      Bool → Text → List (ℕ × List ℕ) → Action GroupManager GroupError (ℕ × ℕ)
  add_range available group [] = throw (log_error entry_not_found)
  add_range available group (e ∷ entries) = with_group group (do
    first_id ← append_one available e.0 e.1
    last_id ← add_each available first_id entries
    pure (first_id, last_id))

  unfoldable pub read : Text → ℕ → Action GroupManager GroupError (ℕ × ℕ × List ℕ)
  read group id = with_group group (do
    cached ← cache_get id
    elim cached [ some entry ↦ pure (row entry) | none ↦ ask_log (λ log. SegLog.Ops.read log id) ])

  -- The loop of `read_range` over `count` ids: what was in the cache up to the first that was not,
  -- and whether all were.
  unfoldable pub cached_from : ℕ → ℕ → GroupAction (List (ℕ × ℕ × List ℕ) × Bool)
  cached_from id zero = pure ([], true)
  cached_from id (suc count) = do
    hit ← cache_get id
    elim hit [
      | none ↦ pure ([], false)
      | some entry ↦ do rest ← cached_from (id + 1) count; pure (row entry ∷ rest.0, rest.1)
    ]

  -- The capacity wraps where the range ends before it starts; more than `isize::MAX` bytes panic.
  unfoldable pub read_range : Text → ℕ → ℕ → Action GroupManager GroupError (List (ℕ × ℕ × List ℕ))
  read_range group start end =
      let range_len = (end + (2 ^ 64 - start) + 1) % 2 ^ 64 in
      with_group group (
        if ltb (2 ^ 63 - 1) (range_len * 40) then (λ g. (crash, g)) else (do
          cached ← cached_from start (suc end - start)
          (if cached.1 && length cached.0 == range_len
              then pure cached.0
              else ask_log (λ log. SegLog.Ops.read_range log start end))))

  -- The loop of `remove`.
  unfoldable pub invalidate_each : List ℕ → GroupAction (Unit {0})
  invalidate_each [] = pure tt
  invalidate_each (id ∷ ids) = cache_invalidate id >> invalidate_each ids

  unfoldable pub remove : Text → ℕ → Action GroupManager GroupError (Unit {0})
  remove group up_to_id = with_group group (on_log (SegLog.Ops.trim up_to_id) >>= invalidate_each)
