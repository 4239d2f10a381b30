-- ===== src/Pipeline/Serial.antt =====
-- The database under the pipelines (server/src/db/pipeline.rs): a job has it to itself.
use mathlib.Core.List.{Perm, perm_middle, append-nil}
use mathlib.Core.List.Perm
use mathlib.Core.Path.{subst}
use segmented_memory_storage.Common.{
  ◌≡◌, refl, ap, sym, ◌∙◌, Bool, true, false, List, [], ◌∷◌, ◌++◌, map, arith, if◌then◌else◌,
}
use segmented_memory_storage.Common.Outcome.{Outcome, ok, err, crash}
use segmented_memory_storage.Pipeline.Command.{PipelineCommand}
use segmented_memory_storage.Pipeline.Execute.{PipelineError, execute_job}
use segmented_memory_storage.Pipeline.System.{
  Phase, trying, refused, asleep, holding, executed, panicked, done, Worker, set_phase, draining,
  System, woken_phase, woken, after_job, NotifyOne, wake, keep_permit, enqueued, Step, submit,
  receive, drained, pop, pop_none, grant, refuse, take_permit, sleep, run_job, let_go, Reach, begin,
  onward,
}
use segmented_memory_storage.Db.State.{Env, Db}

-- Jobs one after the other.
unfoldable pub run_jobs : Env → List (List PipelineCommand) → Db → Db
run_jobs env [] d = d
run_jobs env (job ∷ jobs) d = run_jobs env jobs (execute_job env job d).1

-- The jobs of the tasks that have been at the database.
abbrev pub has_run : Phase → Bool
has_run trying = false
has_run refused = false
has_run asleep = false
has_run holding = false
has_run executed = true
has_run panicked = true
has_run done = true

unfoldable pub ran : List Worker → List (List PipelineCommand)
ran [] = []
ran (w ∷ ws) = if has_run w.phase then w.job.job ∷ ran ws else ran ws

run_jobs-snoc :
    (env : Env) (jobs : List (List PipelineCommand)) (job : List PipelineCommand) (d : Db)
    → run_jobs env (jobs ++ job ∷ []) d ≡ (execute_job env job (run_jobs env jobs d)).1
unfolding run_jobs
run_jobs-snoc env [] job d = refl
run_jobs-snoc env (j ∷ jobs) job d = run_jobs-snoc env jobs job (execute_job env j d).1

ran-++ : (xs ys : List Worker) → ran (xs ++ ys) ≡ ran xs ++ ran ys
unfolding ran
ran-++ [] ys = refl
ran-++ (x ∷ xs) ys = ground (arith, ran-++ xs ys)

has_run-woken_phase : (p : Phase) → has_run (woken_phase p) ≡ has_run p
has_run-woken_phase trying = refl
has_run-woken_phase refused = refl
has_run-woken_phase asleep = refl
has_run-woken_phase holding = refl
has_run-woken_phase executed = refl
has_run-woken_phase panicked = refl
has_run-woken_phase done = refl

has_run-after_job : (r : Outcome PipelineError (Unit {0})) → has_run (after_job r) ≡ true
has_run-after_job (ok a) = refl
has_run-after_job (err e) = refl
has_run-after_job crash = refl

ran-woken : (ws : List Worker) → ran (map woken ws) ≡ ran ws
unfolding ran
ran-woken [] = refl
ran-woken (w ∷ ws) = ground (arith, has_run-woken_phase w.phase, ran-woken ws)

ran-same :
    (before after : List Worker) (w : Worker) (p : Phase)
    → has_run p ≡ has_run w.phase
    → ran (before ++ set_phase p w ∷ after) ≡ ran (before ++ w ∷ after)
unfolding ran
ran-same before after w p h =
    ground (arith, h, ran-++ before (w ∷ after), ran-++ before (set_phase p w ∷ after))

ran-run :
    (before after : List Worker) (w : Worker) (p : Phase)
    → has_run w.phase ≡ false
    → has_run p ≡ true
    → (jobs : List (List PipelineCommand)) → Perm jobs (ran (before ++ w ∷ after))
    → Perm (jobs ++ w.job.job ∷ []) (ran (before ++ set_phase p w ∷ after))
ran-run before after w p not_yet now jobs h =
    let j = w.job.job in
    let old : ran (before ++ w ∷ after) ≡ ran before ++ ran after =
      ran-++ before (w ∷ after) ∙ (unfold ran in rw not_yet refl) in
    let new : ran (before ++ set_phase p w ∷ after) ≡ ran before ++ j ∷ ran after =
      ran-++ before (set_phase p w ∷ after) ∙ (unfold ran in rw now refl) in
    let front : Perm (jobs ++ j ∷ []) (j ∷ jobs) =
      subst (λ xs. Perm (jobs ++ j ∷ []) (j ∷ xs)) (append-nil jobs) (perm_middle jobs []) in
    rw new (
      Perm.trans front (
        Perm.trans (Perm.cons j (subst (Perm jobs) old h))
          (Perm.symm (perm_middle (ran before) (ran after)))))

-- The jobs of the tasks that have been at the database, in the order in which they were.
abbrev pub Serial : Env → Db → System → Type 0
Serial env d s =
    (jobs : List (List PipelineCommand)) × (s.db ≡ run_jobs env jobs d) × Perm jobs (ran s.workers)

at_workers :
    (env : Env) (d : Db) (s : System) (ws : List Worker)
    → ran ws ≡ ran s.workers
    → Serial env d s
    → Serial env d (record s { workers = ws })
at_workers env d s ws e (jobs, same, order) = (jobs, same, subst (Perm jobs) (sym e) order)

-- A task in another phase that has been at the database just if it had been before.
moved :
    (env : Env) (d : Db) (s : System) (before after : List Worker) (w : Worker) (p : Phase)
    → s.workers ≡ before ++ w ∷ after
    → has_run p ≡ has_run w.phase
    → Serial env d s
    → Serial env d (record s { workers = before ++ set_phase p w ∷ after })
moved env d s before after w p e h serial =
    at_workers env d s (before ++ set_phase p w ∷ after)
      (ran-same before after w p h ∙ ap ran (sym e)) serial

NotifyOne-Serial :
    (env : Env) (d : Db) (s t : System) → Serial env d s → NotifyOne s t → Serial env d t
NotifyOne-Serial env d s t h (wake before after w e p) =
    moved env d s before after w trying e (rw p refl) h
NotifyOne-Serial env d s t h (keep_permit quiet) = h

Step-Serial : (env : Env) (d : Db) (s t : System) → Serial env d s → Step env s t → Serial env d t
Step-Serial env d s t h (submit _ job room) = h
Step-Serial env d s t h (receive _ _ job rest _ c n) =
    NotifyOne-Serial env d (enqueued job (record s { channel = rest; dispatcher = draining })) t h n
Step-Serial env d s t h (drained _ _ c) = h
Step-Serial env d s t h (pop _ j queue _ p) =
    let w : Worker = record { job = j; phase = trying } in
    at_workers env d s (s.workers ++ w ∷ [])
      (ran-++ s.workers (w ∷ []) ∙ unfold ran in append-nil (ran s.workers)) h
Step-Serial env d s t h (pop_none _ _ p) = h
Step-Serial env d s t h (grant _ before after w e p can) =
    moved env d s before after w holding e (rw p refl) h
Step-Serial env d s t h (refuse _ before after w e p cannot) =
    moved env d s before after w refused e (rw p refl) h
Step-Serial env d s t h (take_permit _ before after w e p here) =
    moved env d s before after w trying e (rw p refl) h
Step-Serial env d s t h (sleep _ before after w e p here) =
    moved env d s before after w asleep e (rw p refl) h
Step-Serial env d s t (jobs, same, order) (run_job _ before after w e p) =
    let r = execute_job env w.job.job s.db in
    (
      jobs ++ w.job.job ∷ [],
      ap (λ x. (execute_job env w.job.job x).1) same ∙ sym (run_jobs-snoc env jobs w.job.job d),
      ran-run before after w (after_job r.0) (rw p refl) (has_run-after_job r.0) jobs
          (subst (λ ws. Perm jobs (ran ws)) e order),
    )
Step-Serial env d s t h (let_go _ before after w e p) =
    at_workers env d s (map woken (before ++ set_phase done w ∷ after))
      (ran-woken (before ++ set_phase done w ∷ after)
        ∙ (ran-same before after w done (rw p refl) ∙ ap ran (sym e)))
      h

-- In every state that the pipelines can come to, the database is what the jobs of those tasks that
-- have been at it leave when they run one after the other, each once, in some order.
pub Reach-Serial : (env : Env) (d : Db) (s : System) → Reach env d s → Serial env d s
unfolding ran run_jobs
Reach-Serial env d s begin = ([], refl, Perm.nil)
Reach-Serial env d s (onward t _ reached step) =
    Step-Serial env d t s (Reach-Serial env d t reached) step
