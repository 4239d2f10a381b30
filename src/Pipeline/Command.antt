-- ===== src/Pipeline/Command.antt =====
-- The commands of a pipeline and the resource that each needs (server/src/db/pipeline.rs).
use segmented_memory_storage.Common.{ℕ, Bool, true, false, List, [], ◌∷◌, ◌++◌}
use segmented_memory_storage.Common.Texts.{Text}

pub data Resource : Type 0 where
  kv list log : Resource

-- Fields in the order of the source; a time to live is the 64 bits of an `i64`.
pub data PipelineCommand : Type 0 where
  kv_set : (db key : Text) (val : List ℕ) (ttl : ℕ) → PipelineCommand
  kv_del : (db key : Text) → PipelineCommand
  kv_flush : (db : Text) → PipelineCommand
  list_push : (key : Text) (payload : List ℕ) → PipelineCommand
  list_pop : (key : Text) → PipelineCommand
  list_flush : (key : Text) → PipelineCommand
  log_add : (group : Text) (timestamp : ℕ) (payload : List ℕ) → PipelineCommand

abbrev pub resource : PipelineCommand → Resource
resource (kv_set _ _ _ _) = kv
resource (kv_del _ _) = kv
resource (kv_flush _) = kv
resource (list_push _ _) = list
resource (list_pop _) = list
resource (list_flush _) = list
resource (log_add _ _ _) = log

-- The derived `PartialEq`.
abbrev pub resource_eq : Resource → Resource → Bool
resource_eq kv kv = true
resource_eq list list = true
resource_eq log log = true
resource_eq _ _ = false

-- A pipeline that is being put together.
pub record Pipeline : Type 0 where
  pub id : ℕ
  pub commands : List PipelineCommand

abbrev pub new : ℕ → Pipeline
new id = record { id = id; commands = [] }

-- Each method of the builder puts one command behind the others.
unfoldable pub push_command : PipelineCommand → Pipeline → Pipeline
push_command c p = record p { commands = p.commands ++ c ∷ [] }
