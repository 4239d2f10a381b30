-- ===== src/Pipeline/Examples.antt =====
-- Two jobs on the keys of one database (server/src/db/pipeline.rs).
use segmented_memory_storage.Common.{◌≡◌, ◌≢◌, refl, true, none, List, [], ◌∷◌, arith}
use segmented_memory_storage.Common.HashMap
use segmented_memory_storage.Common.Outcome.{crash}
use segmented_memory_storage.Common.Texts.{Text, text_eq}
use segmented_memory_storage.Segment.{zeroed}
use segmented_memory_storage.Groups
use segmented_memory_storage.Kv
use segmented_memory_storage.Db.State.{Env, Db}
use segmented_memory_storage.Db.Calls.{on_kv, write, send}
use segmented_memory_storage.Db.Ops
use segmented_memory_storage.Pipeline.Command.{Resource, kv, PipelineCommand, kv_set, kv_del}
use segmented_memory_storage.Pipeline.Lock.{
  unlocked, holders, contains, not_mixed, not_held, can_acquire, acquire, unseen, unique_resources,
  queued, try_pop_runnable,
}
use segmented_memory_storage.Pipeline.Free.{uses}
use segmented_memory_storage.Pipeline.Execute.{execute, execute_job}
use segmented_memory_storage.Pipeline.System.{
  trying, holding, asleep, done, System, initial, Step, grant, Reach, onward,
}
use segmented_memory_storage.Pipeline.Safety.{held, held_by}
use segmented_memory_storage.Pipeline.Order.{TakenOf, try_pop_runnable-TakenOf}
use segmented_memory_storage.Pipeline.Exclusion.{mutual_exclusion}
use segmented_memory_storage.Pipeline.Blocked.{Arrival, can_acquire-unlocked, blocked_job}
use segmented_memory_storage.Pipeline.LostWakeup.{pair, Reach-both_trying, lost_wakeup}

program : Unit {0}
unfolding contains not_mixed not_held can_acquire acquire unseen unique_resources try_pop_runnable
    uses execute execute_job held on_kv write send Ops.report Ops.kv_set Ops.kv_del Kv.Ops.set
    Kv.Ops.del Kv.Database.set Kv.Database.del HashMap.lookup HashMap.insert text_eq
program = tt

abbrev env : Env
env = record {
  now = 100;
  now' = 101;
  iter = λ m. m;
  instant = 0;
  iter_groups = λ m. m;
  build_key = λ name id. id;
  available = true;
}

abbrev empty : Db
empty = record {
  kv_store = Kv.Ops.new;
  group_manager = Groups.Ops.new;
  list = record {
    written = [];
    free_segs = [];
    memory = record { heap = λ _. zeroed; allocated = 0 };
  };
  aof = [];
  event_tx = none;
}

abbrev key : Text
key = 107 ∷ []

abbrev setting : List PipelineCommand
setting = kv_set key key (5 ∷ []) 0 ∷ []

abbrev deleting : List PipelineCommand
deleting = kv_del key (108 ∷ []) ∷ []

went : (execute_job env setting empty).0 ≢ crash
unfolding program
went h = cc

abbrev one_holds : System
one_holds = record (initial empty) {
  permit = true;
  state = acquire (unique_resources setting) unlocked;
  workers = pair setting holding deleting trying;
}

reached : Reach env empty one_holds
reached =
    onward _ _ (Reach-both_trying env empty setting deleting)
      (grant _ [] _ _ refl refl (can_acquire-unlocked (unique_resources setting)))

mutual_exclusion_example : held_by kv (record { job = queued deleting; phase = trying }) ≡ 0
unfolding program
mutual_exclusion_example =
    mutual_exclusion env empty one_holds kv [] [] []
      (record { job = queued setting; phase = holding })
      (record { job = queued deleting; phase = trying }) reached refl (omega arith)

blocked_job_example :
    (s : System) × Reach env empty s
    × (s.queue ≡ queued deleting ∷ [])
    × ((k : Resource) → holders k s.state ≡ 0)
    × ((t : System) → Step env s t → Arrival s t)
unfolding program
blocked_job_example = blocked_job env empty setting deleting kv (omega arith) (omega arith) went

lost_wakeup_example :
    (s : System) × Reach env empty s
    × (s.workers ≡ pair setting done deleting asleep)
    × ((k : Resource) → holders k s.state ≡ 0)
    × ((t : System) → Step env s t → Arrival s t)
unfolding program
lost_wakeup_example = lost_wakeup env empty setting deleting kv (omega arith) (omega arith) went

try_pop_runnable-TakenOf_example :
    TakenOf one_holds.state
      (queued deleting ∷ queued [] ∷ [])
      (try_pop_runnable one_holds.state (queued deleting ∷ queued [] ∷ []))
try_pop_runnable-TakenOf_example =
    try_pop_runnable-TakenOf one_holds.state (queued deleting ∷ queued [] ∷ [])
