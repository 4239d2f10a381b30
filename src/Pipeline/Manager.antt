-- ===== src/Pipeline/Manager.antt =====
-- `PipelineManager` (server/src/db/pipeline.rs). A pipeline is behind an `Arc`: `handles` counts the
-- clones of it that callers of `get` still have.
use segmented_memory_storage.Common.{
  ℕ, ◌+◌, ◌-◌, ◌%◌, ◌^◌, Option, none, some, [], ◌==◌, if◌then◌else◌,
}
use segmented_memory_storage.Common.BTreeMap
use segmented_memory_storage.Common.BTreeMap.{BTreeMap}
use segmented_memory_storage.Pipeline.Command
use segmented_memory_storage.Pipeline.Command.{Pipeline}

pub record Shared : Type 0 where
  pub pipeline : Pipeline
  pub handles : ℕ

pub record PipelineManager : Type 0 where
  pub pipelines : BTreeMap Shared
  pub next_id : ℕ

abbrev pub new : PipelineManager
new = record { pipelines = []; next_id = 0 }

unfoldable pub start : PipelineManager → ℕ × PipelineManager
start m =
    let shared : Shared = record { pipeline = Command.new m.next_id; handles = 0 } in
    (
      m.next_id,
      record {
        pipelines = BTreeMap.insert m.next_id shared m.pipelines;
        next_id = (m.next_id + 1) % 2 ^ 64;
      },
    )

-- The caller has one clone more.
unfoldable pub get : ℕ → PipelineManager → Option Pipeline × PipelineManager
get id m = elim (BTreeMap.lookup id m.pipelines) [
  | none ↦ (none, m)
  | some x ↦
      let shared = record x { handles = x.handles + 1 } in
      (some x.pipeline, record m { pipelines = BTreeMap.insert id shared m.pipelines })
]

-- The pipeline is off the map even where a clone keeps it from being returned.
unfoldable pub take : ℕ → PipelineManager → Option Pipeline × PipelineManager
take id m = elim (BTreeMap.lookup id m.pipelines) [
  | none ↦ (none, m)
  | some x ↦ (
    if x.handles == 0 then some x.pipeline else none,
    record m { pipelines = BTreeMap.remove id m.pipelines },
  )
]

unfoldable pub remove : ℕ → PipelineManager → PipelineManager
remove id m = record m { pipelines = BTreeMap.remove id m.pipelines }

-- What a caller does through its clone, and the end of the clone.
unfoldable pub edit : ℕ → (Pipeline → Pipeline) → PipelineManager → PipelineManager
edit id f m = elim (BTreeMap.lookup id m.pipelines) [
  | none ↦ m
  | some x ↦
      let shared = record x { pipeline = f x.pipeline } in
      record m { pipelines = BTreeMap.insert id shared m.pipelines }
]

unfoldable pub drop_handle : ℕ → PipelineManager → PipelineManager
drop_handle id m = elim (BTreeMap.lookup id m.pipelines) [
  | none ↦ m
  | some x ↦
      let shared = record x { handles = x.handles - 1 } in
      record m { pipelines = BTreeMap.insert id shared m.pipelines }
]
