-- ===== src/Pipeline/Lock.antt =====
-- The locks, and the queue of jobs in front of them (server/src/db/pipeline.rs).
use segmented_memory_storage.Common.{
  ℕ, ◌+◌, ◌-◌, ◌%◌, ◌^◌, Bool, true, false, ◌&&◌, ◌||◌, Option, none, some, List, [], ◌∷◌, leb, ltb,
  length, map, if◌then◌else◌,
}
use segmented_memory_storage.Pipeline.Command.{
  Resource, kv, list, log, PipelineCommand, resource, resource_eq,
}

pub record LockState : Type 0 where
  pub kv_holders : ℕ
  pub list_holders : ℕ
  pub log_holders : ℕ

abbrev pub unlocked : LockState
unlocked = record { kv_holders = 0; list_holders = 0; log_holders = 0 }

unfoldable pub contains : List Resource → Resource → Bool
contains [] r = false
contains (x ∷ rs) r = resource_eq x r || contains rs r

abbrev pub holders : Resource → LockState → ℕ
holders kv s = s.kv_holders
holders list s = s.list_holders
holders log s = s.log_holders

-- The first loop of `can_acquire`: whether it lets the call go on, over the resources `rs` that are
-- left of all of them.
unfoldable pub not_mixed : LockState → List Resource → List Resource → Bool
not_mixed s resources [] = true
not_mixed s resources (kv ∷ rs) =
    if (ltb 0 s.kv_holders && contains resources list)
      || (ltb 0 s.kv_holders && contains resources log)
    then false
    else not_mixed s resources rs
not_mixed s resources (list ∷ rs) = not_mixed s resources rs
not_mixed s resources (log ∷ rs) = not_mixed s resources rs

-- The second.
unfoldable pub not_held : LockState → List Resource → Bool
not_held s [] = true
not_held s (kv ∷ rs) = if ltb 0 s.kv_holders then false else not_held s rs
not_held s (list ∷ rs) = if ltb 0 s.list_holders then false else not_held s rs
not_held s (log ∷ rs) = if ltb 0 s.log_holders then false else not_held s rs

unfoldable pub can_acquire : LockState → List Resource → Bool
can_acquire s resources = if not_mixed s resources resources then not_held s resources else false

-- A count is an `u32`.
unfoldable pub acquire : List Resource → LockState → LockState
acquire [] s = s
acquire (kv ∷ rs) s = acquire rs (record s { kv_holders = (s.kv_holders + 1) % 2 ^ 32 })
acquire (list ∷ rs) s = acquire rs (record s { list_holders = (s.list_holders + 1) % 2 ^ 32 })
acquire (log ∷ rs) s = acquire rs (record s { log_holders = (s.log_holders + 1) % 2 ^ 32 })

unfoldable pub release : List Resource → LockState → LockState
release [] s = s
release (kv ∷ rs) s = release rs (record s { kv_holders = s.kv_holders - 1 })
release (list ∷ rs) s = release rs (record s { list_holders = s.list_holders - 1 })
release (log ∷ rs) s = release rs (record s { log_holders = s.log_holders - 1 })

-- The filter of `unique_resources`, with the set of those seen.
unfoldable pub unseen : List Resource → List Resource → List Resource
unseen seen [] = []
unseen seen (r ∷ rs) = if contains seen r then unseen seen rs else r ∷ unseen (r ∷ seen) rs

unfoldable pub unique_resources : List PipelineCommand → List Resource
unique_resources commands = unseen [] (map resource commands)

-- `job` is the commands of the job; the channel to its caller is left out.
pub record QueuedJob : Type 0 where
  pub op_count : ℕ
  pub resources : List Resource
  pub job : List PipelineCommand

abbrev pub queued : List PipelineCommand → QueuedJob
queued commands = record {
  op_count = length commands;
  resources = unique_resources commands;
  job = commands;
}

-- `partition_point` and `insert`: behind the leading jobs that have no more commands.
unfoldable pub insert_queued : QueuedJob → List QueuedJob → List QueuedJob
insert_queued q [] = q ∷ []
insert_queued q (j ∷ queue) =
    if leb j.op_count q.op_count then j ∷ insert_queued q queue else q ∷ j ∷ queue

-- The first job in the queue that can have its locks, and the others.
unfoldable pub try_pop_runnable : LockState → List QueuedJob → Option (QueuedJob × List QueuedJob)
try_pop_runnable s [] = none
try_pop_runnable s (j ∷ queue) =
    let rest = try_pop_runnable s queue in
    if can_acquire s j.resources
    then some (j, queue)
    else elim rest [ none ↦ none | some x ↦ some (x.0, j ∷ x.1) ]
