-- ===== src/Pipeline/Execute.antt =====
-- The commands of a job on the database (server/src/db/pipeline.rs).
use segmented_memory_storage.Common.{List, [], ◌∷◌}
use segmented_memory_storage.Common.Outcome.{ok, err, crash, Action, pure, ◌>>◌}
use segmented_memory_storage.Pipeline.Command.{
  PipelineCommand, kv_set, kv_del, kv_flush, list_push, list_pop, list_flush, log_add,
}
use segmented_memory_storage.Db.State.{Env, Db, DbError}
use segmented_memory_storage.Db.Calls.{DbAction}
use segmented_memory_storage.Db.Ops

pub data PipelineError : Type 0 where
  send_error : PipelineError
  exec_error : DbError → PipelineError

-- One command, without its value.
unfoldable pub execute : Env → PipelineCommand → DbAction (Unit {0})
execute env (kv_set db key val ttl) = Ops.kv_set env db key val ttl
execute env (kv_del db key) = Ops.kv_del env db key
execute env (kv_flush db) = Ops.kv_flush env db
execute env (list_push key payload) = Ops.list_push env key payload
execute env (list_pop key) = Ops.list_pop env key >> pure tt
execute env (list_flush key) = Ops.list_flush env key
execute env (log_add group timestamp payload) = Ops.log_add env group timestamp payload >> pure tt

-- The loop stops at the first command that fails.
unfoldable pub execute_job : Env → List PipelineCommand → Action Db PipelineError (Unit {0})
execute_job env [] d = (ok tt, d)
execute_job env (c ∷ commands) d =
    let (r, d') = execute env c d in
    let rest = execute_job env commands d' in
    elim r [ ok a ↦ rest | err e ↦ (err (exec_error e), d') | crash ↦ (crash, d') ]
