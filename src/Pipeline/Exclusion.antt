-- ===== src/Pipeline/Exclusion.antt =====
-- No two jobs hold the same lock (server/src/db/pipeline.rs).
use mathlib.Core.Path.{subst}
use segmented_memory_storage.Common.{
  ℕ, ◌≤◌, ◌<◌, ◌≡◌, refl, ap, sym, ◌∙◌, List, [], ◌∷◌, ◌++◌, map, arith, All,
}
use segmented_memory_storage.Common.Outcome.{Outcome, ok, err, crash}
use segmented_memory_storage.Pipeline.Command.{Resource, kv, list, log}
use segmented_memory_storage.Pipeline.Lock.{LockState, unlocked, holders, QueuedJob, queued}
use segmented_memory_storage.Pipeline.Free.{uses-unique_resources}
use segmented_memory_storage.Pipeline.Execute.{PipelineError, execute_job}
use segmented_memory_storage.Pipeline.System.{
  trying, refused, asleep, done, Worker, set_phase, draining, System, initial, woken, after_job,
  NotifyOne, wake, keep_permit, enqueued, Step, submit, receive, drained, pop, pop_none, grant,
  refuse, take_permit, sleep, run_job, let_go, Reach, begin, onward,
}
use segmented_memory_storage.Pipeline.Safety.{
  held_in, held_by, held, Plain, Holds, Inv, held-among, held-woken, All-insert_queued, All-pop,
  Holds-same, Holds-grant, Holds-let_go,
}
use segmented_memory_storage.Db.State.{Env, Db}

pub holders-unlocked : (r : Resource) → holders r unlocked ≡ 0
holders-unlocked kv = refl
holders-unlocked list = refl
holders-unlocked log = refl

initial-Inv : (d : Db) → Inv (initial d)
initial-Inv d = record {
  counted = λ r. unfold held in holders-unlocked r;
  alone = λ r. unfold held in omega arith;
  plain_queue = tt;
  plain_workers = tt;
}

at_workers :
    {queue : List QueuedJob} {state : LockState} {ws ws' : List Worker}
    → ws ≡ ws'
    → Holds queue state ws
    → Holds queue state ws'
at_workers {queue} {state} e h = subst (Holds queue state) e h

NotifyOne-Inv : (s t : System) → Inv s → NotifyOne s t → Inv t
NotifyOne-Inv s t h (wake before after w e p) =
    Holds-same before after w trying (at_workers e h) (λ n. rw p refl)
NotifyOne-Inv s t h (keep_permit quiet) = h

All-snoc :
    (ws : List Worker) (w : Worker)
    → All (λ w. Plain w.job) ws
    → Plain w.job
    → All (λ w. Plain w.job) (ws ++ w ∷ [])
All-snoc [] w h k = (k, tt)
All-snoc (x ∷ ws) w h k = (h.0, All-snoc ws w h.1 k)

All-woken : (ws : List Worker) → All (λ w. Plain w.job) ws → All (λ w. Plain w.job) (map woken ws)
All-woken [] h = tt
All-woken (w ∷ ws) h = (h.0, All-woken ws h.1)

held_in-after_job : (r : Outcome PipelineError (Unit {0})) (n : ℕ) → held_in (after_job r) n ≡ n
held_in-after_job (ok a) n = refl
held_in-after_job (err e) n = refl
held_in-after_job crash n = refl

Holds-woken :
    {queue : List QueuedJob} {state : LockState} (ws : List Worker)
    → Holds queue state ws
    → Holds queue state (map woken ws)
Holds-woken ws h = record {
  counted = λ r. h.counted r ∙ sym (held-woken r ws);
  alone = λ r. rw (held-woken r ws) (h.alone r);
  plain_queue = h.plain_queue;
  plain_workers = All-woken ws h.plain_workers;
}

Step-Inv : (env : Env) (s t : System) → Inv s → Step env s t → Inv t
Step-Inv env s t h (submit _ job room) = h
Step-Inv env s t h (receive _ _ job rest d c n) =
    NotifyOne-Inv (enqueued job (record s { channel = rest; dispatcher = draining })) t
      (record {
        counted = h.counted;
        alone = h.alone;
        plain_queue =
            All-insert_queued (queued job) s.queue (λ r. uses-unique_resources r job) h.plain_queue;
        plain_workers = h.plain_workers;
      })
      n
Step-Inv env s t h (drained _ d c) = h
Step-Inv env s t h (pop _ j queue d p) =
    let plain = All-pop s.state s.queue queue j p h.plain_queue in
    let w : Worker = record { job = j; phase = trying } in
    let more : (r : Resource) → held r (s.workers ++ w ∷ []) ≡ held r s.workers = λ r.
      let a = held-among r s.workers [] w in
      let b : held r [] ≡ 0 = unfold held in refl in omega arith in
    record {
      counted = λ r. h.counted r ∙ sym (more r);
      alone = λ r. let a = h.alone r in let b = more r in omega arith;
      plain_queue = plain.1;
      plain_workers = All-snoc s.workers w h.plain_workers plain.0;
    }
Step-Inv env s t h (pop_none _ d p) = h
Step-Inv env s t h (grant _ before after w e p can) =
    Holds-grant before after w (at_workers e h) p can
Step-Inv env s t h (refuse _ before after w e p cannot) =
    Holds-same before after w refused (at_workers e h) (λ n. rw p refl)
Step-Inv env s t h (take_permit _ before after w e p here) =
    Holds-same before after w trying (at_workers e h) (λ n. rw p refl)
Step-Inv env s t h (sleep _ before after w e p here) =
    Holds-same before after w asleep (at_workers e h) (λ n. rw p refl)
Step-Inv env s t h (run_job _ before after w e p) =
    Holds-same before after w (after_job (execute_job env w.job.job s.db).0) (at_workers e h)
      (λ n. rw p (sym (held_in-after_job (execute_job env w.job.job s.db).0 n)))
Step-Inv env s t h (let_go _ before after w e p) =
    Holds-woken (before ++ set_phase done w ∷ after)
      (Holds-let_go before after w (at_workers e h) p)

pub Reach-Inv : (env : Env) (d : Db) (s : System) → Reach env d s → Inv s
Reach-Inv env d s begin = initial-Inv d
Reach-Inv env d s (onward t _ reached step) = Step-Inv env t s (Reach-Inv env d t reached) step

-- In every state that the pipelines can come to, a lock counts the tasks that hold it, which is one
-- at most.
pub Reach-held :
    (env : Env) (d : Db) (s : System) (r : Resource)
    → Reach env d s
    → (holders r s.state ≡ held r s.workers) × (held r s.workers ≤ 1)
Reach-held env d s r reached = let h = Reach-Inv env d s reached in (h.counted r, h.alone r)

-- In every state that the pipelines can come to, no two tasks hold the same resource.
pub mutual_exclusion :
    (env : Env) (d : Db) (s : System) (r : Resource) (xs ys zs : List Worker) (v w : Worker)
    → Reach env d s
    → s.workers ≡ xs ++ v ∷ (ys ++ w ∷ zs)
    → 0 < held_by r v
    → held_by r w ≡ 0
mutual_exclusion env d s r xs ys zs v w reached e h =
    let a : held r s.workers ≤ 1 = (Reach-Inv env d s reached).alone r in
    let b : held r s.workers ≡ held r (xs ++ v ∷ (ys ++ w ∷ zs)) = ap (held r) e in
    let c = held-among r xs (ys ++ w ∷ zs) v in let k = held-among r ys zs w in omega arith
