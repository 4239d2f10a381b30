-- ===== src/Pipeline/Order.antt =====
-- The order of the queue, and where a job stops (server/src/db/pipeline.rs).
use mathlib.Core.Path.{subst}
use segmented_memory_storage.Common.{
  ℕ, ◌≤◌, ◌≡◌, refl, ap, sym, true, false, Option, none, some, List, [], ◌∷◌, ◌++◌, arith, All, leb,
  Bool-cases, inl, inr, tests,
}
use segmented_memory_storage.Common.Outcome.{ok, err}
use segmented_memory_storage.Pipeline.Command.{PipelineCommand}
use segmented_memory_storage.Pipeline.Lock.{
  LockState, can_acquire, QueuedJob, queued, insert_queued, try_pop_runnable,
}
use segmented_memory_storage.Pipeline.Execute.{exec_error, execute, execute_job}
use segmented_memory_storage.Pipeline.System.{
  System, NotifyOne, wake, keep_permit, Step, submit, receive, drained, pop, pop_none, grant,
  refuse, take_permit, sleep, run_job, let_go, Reach, begin, onward,
}
use segmented_memory_storage.Db.State.{Env, Db, DbError}

-- Shorter jobs first.
abbrev pub Sorted : List QueuedJob → Type 0
Sorted [] = Unit {0}
Sorted (j ∷ queue) = All (λ k. j.op_count ≤ k.op_count) queue × Sorted queue

All-insert :
    (P : QueuedJob → Type 0) (q : QueuedJob) (queue : List QueuedJob)
    → P q
    → All P queue
    → All P (insert_queued q queue)
unfolding insert_queued
All-insert P q [] h k = (h, tt)
All-insert P q (j ∷ queue) h k = elim (Bool-cases (leb j.op_count q.op_count)) [
  | inl e ↦ rw e (k.0, All-insert P q queue h k.1)
  | inr e ↦ rw e (h, k)
]

All-below :
    (n m : ℕ) (queue : List QueuedJob)
    → n ≤ m
    → All (λ k. m ≤ k.op_count) queue
    → All (λ k. n ≤ k.op_count) queue
All-below n m [] h k = tt
All-below n m (j ∷ queue) h k = (omega arith, All-below n m queue h k.1)

Sorted-insert :
    (q : QueuedJob) (queue : List QueuedJob) → Sorted queue → Sorted (insert_queued q queue)
unfolding insert_queued
Sorted-insert q [] h = (tt, tt)
Sorted-insert q (j ∷ queue) h = elim (Bool-cases (leb j.op_count q.op_count)) [
  | inl e ↦ rw e (
    All-insert (λ k. j.op_count ≤ k.op_count) q queue (omega tests) h.0,
    Sorted-insert q queue h.1,
  )
  | inr e ↦ rw e ((omega tests, All-below q.op_count j.op_count queue (omega tests) h.0), h)
]

-- A job that is taken from the queue, against the queue.
pub record Taken (s : LockState) (queue : List QueuedJob) (j : QueuedJob) (rest : List QueuedJob)
    : Type 0 where
  pub before : List QueuedJob
  pub after : List QueuedJob
  pub stood : queue ≡ before ++ j ∷ after
  pub left : rest ≡ before ++ after
  pub passed : All (λ k. can_acquire s k.resources ≡ false) before
  pub runnable : can_acquire s j.resources ≡ true

abbrev pub TakenOf : LockState → List QueuedJob → Option (QueuedJob × List QueuedJob) → Type 0
TakenOf s queue none = All (λ k. can_acquire s k.resources ≡ false) queue
TakenOf s queue (some x) = Taken s queue x.0 x.1

-- What is taken from the queue is its first job that can have its locks, and the others stay in
-- order; nothing is taken where no job can.
pub try_pop_runnable-TakenOf :
    (s : LockState) (queue : List QueuedJob) → TakenOf s queue (try_pop_runnable s queue)
unfolding try_pop_runnable
try_pop_runnable-TakenOf s [] = tt
try_pop_runnable-TakenOf s (x ∷ queue) = elim (Bool-cases (can_acquire s x.resources)) [
  | inl e ↦
      rw e (record {
        before = [];
        after = queue;
        stood = refl;
        left = refl;
        passed = tt;
        runnable = e;
      })
  | inr e ↦ rw e (
      elim (try_pop_runnable s queue)
          as (λ o.
            TakenOf s queue o
            → TakenOf s (x ∷ queue) (elim o [ none ↦ none | some y ↦ some (y.0, x ∷ y.1) ])) [
              | none ↦ λ h. (e, h)
              | some y ↦ λ h. record {
                before = x ∷ h.before;
                after = h.after;
                stood = ap (λ q. x ∷ q) h.stood;
                left = ap (λ q. x ∷ q) h.left;
                passed = (e, h.passed);
                runnable = h.runnable;
              }
            ]
        (try_pop_runnable-TakenOf s queue))
]

All-without :
    (P : QueuedJob → Type 0) (before after : List QueuedJob) (j : QueuedJob)
    → All P (before ++ j ∷ after)
    → All P (before ++ after)
All-without P [] after j h = h.1
All-without P (b ∷ before) after j h = (h.0, All-without P before after j h.1)

Sorted-without :
    (before after : List QueuedJob) (j : QueuedJob)
    → Sorted (before ++ j ∷ after)
    → Sorted (before ++ after)
Sorted-without [] after j h = h.1
Sorted-without (b ∷ before) after j h = (
  All-without (λ k. b.op_count ≤ k.op_count) before after j h.0,
  Sorted-without before after j h.1,
)

Sorted-pop :
    (s : LockState) (queue rest : List QueuedJob) (j : QueuedJob)
    → try_pop_runnable s queue ≡ some (j, rest)
    → Sorted queue
    → Sorted rest
Sorted-pop s queue rest j h k =
    let t : Taken s queue j rest = subst (TakenOf s queue) h (try_pop_runnable-TakenOf s queue) in
    subst Sorted (sym t.left) (Sorted-without t.before t.after j (subst Sorted t.stood k))

NotifyOne-queue : (s t : System) → NotifyOne s t → t.queue ≡ s.queue
NotifyOne-queue s t (wake before after w e p) = refl
NotifyOne-queue s t (keep_permit quiet) = refl

Step-Sorted : (env : Env) (s t : System) → Sorted s.queue → Step env s t → Sorted t.queue
Step-Sorted env s t h (submit _ job room) = h
Step-Sorted env s t h (receive _ _ job rest d c n) =
    subst Sorted (sym (NotifyOne-queue _ _ n)) (Sorted-insert (queued job) s.queue h)
Step-Sorted env s t h (drained _ d c) = h
Step-Sorted env s t h (pop _ j queue d p) = Sorted-pop s.state s.queue queue j p h
Step-Sorted env s t h (pop_none _ d p) = h
Step-Sorted env s t h (grant _ before after w e p can) = h
Step-Sorted env s t h (refuse _ before after w e p cannot) = h
Step-Sorted env s t h (take_permit _ before after w e p here) = h
Step-Sorted env s t h (sleep _ before after w e p here) = h
Step-Sorted env s t h (run_job _ before after w e p) = h
Step-Sorted env s t h (let_go _ before after w e p) = h

-- In every state that the pipelines can come to, the queue has its shorter jobs first.
pub Reach-Sorted : (env : Env) (d : Db) (s : System) → Reach env d s → Sorted s.queue
Reach-Sorted env d s begin = tt
Reach-Sorted env d s (onward t _ reached step) =
    Step-Sorted env t s (Reach-Sorted env d t reached) step

-- A job ends at the first command that fails: those before it stay done, and so does what the
-- failing command did; those behind it are not run.
pub execute_job-failed :
    (env : Env) (xs ys : List PipelineCommand) (c : PipelineCommand) (d : Db) (e : DbError)
    → (execute_job env xs d).0 ≡ ok tt
    → (execute env c (execute_job env xs d).1).0 ≡ err e
    → execute_job env (xs ++ c ∷ ys) d
      ≡ (err (exec_error e), (execute env c (execute_job env xs d).1).1)
unfolding execute_job
execute_job-failed env [] ys c d e h k = ground (arith, k)
execute_job-failed env (x ∷ xs) ys c d e h k =
    ground (arith, h, k, execute_job-failed env xs ys c (execute env x d).1 e)
