-- ===== src/Pipeline/System.antt =====
-- The tasks that `PipelineManager::new` starts, as steps (server/src/db/pipeline.rs): one that takes
-- jobs off the channel, and one for each job that leaves the queue.
use segmented_memory_storage.Common.{
  ◌<◌, ◌≡◌, ◌≢◌, Bool, true, false, none, some, List, [], ◌∷◌, ◌++◌, length, map, All,
}
use segmented_memory_storage.Pipeline.Command.{PipelineCommand}
use segmented_memory_storage.Pipeline.Lock.{
  LockState, unlocked, can_acquire, acquire, release, QueuedJob, queued, insert_queued,
  try_pop_runnable,
}
use segmented_memory_storage.Pipeline.Execute.{PipelineError, execute_job}
use segmented_memory_storage.Common.Outcome.{Outcome, ok, err, crash}
use segmented_memory_storage.Db.State.{Env, Db}

-- A task in `LockManager::acquire` is about to look at the locks (`trying`), has been refused but
-- does not wait yet (`refused`), or waits for a notification (`asleep`); then it has its locks
-- before (`holding`) and after its commands (`executed`), and none (`done`); where a command panics
-- the task ends with the locks (`panicked`).
pub data Phase : Type 0 where
  trying refused asleep holding executed panicked done : Phase

pub record Worker : Type 0 where
  pub job : QueuedJob
  pub phase : Phase

abbrev pub set_phase : Phase → Worker → Worker
set_phase p w = record w { phase = p }

abbrev pub after_job : Outcome PipelineError (Unit {0}) → Phase
after_job (ok a) = executed
after_job (err e) = executed
after_job crash = panicked

-- Where the first task is: at `recv`, in the loop of `try_recv`, or before `try_pop_runnable`.
pub data Dispatcher : Type 0 where
  receiving draining popping : Dispatcher

-- `permit` is that of the `Notify`: a `notify_one` for which nobody waited.
pub record System : Type 0 where
  pub channel : List (List PipelineCommand)
  pub dispatcher : Dispatcher
  pub queue : List QueuedJob
  pub state : LockState
  pub permit : Bool
  pub workers : List Worker
  pub db : Db

abbrev pub initial : Db → System
initial d = record {
  channel = [];
  dispatcher = receiving;
  queue = [];
  state = unlocked;
  permit = false;
  workers = [];
  db = d;
}

-- `notify_waiters`
abbrev pub woken_phase : Phase → Phase
woken_phase asleep = trying
woken_phase p = p

abbrev pub woken : Worker → Worker
woken w = set_phase (woken_phase w.phase) w

-- `notify_one`: one of those that wait, or the permit if nobody does.
pub data NotifyOne (s : System) : System → Type 0 where
  wake :
      (before after : List Worker) (w : Worker)
      → s.workers ≡ before ++ w ∷ after
      → w.phase ≡ asleep
      → NotifyOne s (record s { workers = before ++ set_phase trying w ∷ after })
  keep_permit : All (λ w. w.phase ≢ asleep) s.workers → NotifyOne s (record s { permit = true })

-- `enqueue`, up to its notification.
abbrev pub enqueued : List PipelineCommand → System → System
enqueued job s = record s { queue = insert_queued (queued job) s.queue }

abbrev pub spawn : QueuedJob → List QueuedJob → System → System
spawn j queue s = record s {
  queue = queue;
  dispatcher = draining;
  workers = s.workers ++ record { job = j; phase = trying } ∷ [];
}

pub data Step (env : Env) : System → System → Type 0 where
  -- `Pipeline::end` sends a job, if there is room for it.
  submit :
      (s : System) (job : List PipelineCommand)
      → length s.channel < 256
      → Step env s (record s { channel = s.channel ++ job ∷ [] })
  receive :
      (s t : System) (job : List PipelineCommand) (rest : List (List PipelineCommand))
      → s.dispatcher ≢ popping
      → s.channel ≡ job ∷ rest
      → NotifyOne (enqueued job (record s { channel = rest; dispatcher = draining })) t
      → Step env s t
  drained :
      (s : System)
      → s.dispatcher ≡ draining
      → s.channel ≡ []
      → Step env s (record s { dispatcher = popping })
  pop :
      (s : System) (j : QueuedJob) (queue : List QueuedJob)
      → s.dispatcher ≡ popping
      → try_pop_runnable s.state s.queue ≡ some (j, queue)
      → Step env s (spawn j queue s)
  pop_none :
      (s : System)
      → s.dispatcher ≡ popping
      → try_pop_runnable s.state s.queue ≡ none
      → Step env s (record s { dispatcher = receiving })
  -- The turns of a task in `acquire`.
  grant :
      (s : System) (before after : List Worker) (w : Worker)
      → s.workers ≡ before ++ w ∷ after
      → w.phase ≡ trying
      → can_acquire s.state w.job.resources ≡ true
      → Step env s (record s {
        state = acquire w.job.resources s.state;
        workers = before ++ set_phase holding w ∷ after;
      })
  refuse :
      (s : System) (before after : List Worker) (w : Worker)
      → s.workers ≡ before ++ w ∷ after
      → w.phase ≡ trying
      → can_acquire s.state w.job.resources ≡ false
      → Step env s (record s { workers = before ++ set_phase refused w ∷ after })
  take_permit :
      (s : System) (before after : List Worker) (w : Worker)
      → s.workers ≡ before ++ w ∷ after
      → w.phase ≡ refused
      → s.permit ≡ true
      → Step env s (record s { permit = false; workers = before ++ set_phase trying w ∷ after })
  sleep :
      (s : System) (before after : List Worker) (w : Worker)
      → s.workers ≡ before ++ w ∷ after
      → w.phase ≡ refused
      → s.permit ≡ false
      → Step env s (record s { workers = before ++ set_phase asleep w ∷ after })
  -- The commands, under the lock of the database, and `release`.
  run_job :
      (s : System) (before after : List Worker) (w : Worker)
      → s.workers ≡ before ++ w ∷ after
      → w.phase ≡ holding
      → Step env s (record s {
        db = (execute_job env w.job.job s.db).1;
        workers = before ++ set_phase (after_job (execute_job env w.job.job s.db).0) w ∷ after;
      })
  let_go :
      (s : System) (before after : List Worker) (w : Worker)
      → s.workers ≡ before ++ w ∷ after
      → w.phase ≡ executed
      → Step env s (record s {
        state = release w.job.resources s.state;
        workers = map woken (before ++ set_phase done w ∷ after);
      })

-- What a database can come to by such steps.
pub data Reach (env : Env) (d : Db) : System → Type 0 where
  begin : Reach env d (initial d)
  onward : (s t : System) → Reach env d s → Step env s t → Reach env d t
