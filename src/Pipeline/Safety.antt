-- ===== src/Pipeline/Safety.antt =====
-- What holds in every state of the pipelines (server/src/db/pipeline.rs).
use mathlib.Core.Path.{subst}
use segmented_memory_storage.Common.{
  ℕ, ◌+◌, ◌-◌, ◌≤◌, ◌≡◌, refl, ap, true, List, [], ◌∷◌, ◌++◌, arith, map, All, leb, Option, none,
  some, inl, inr, Bool-cases,
}
use segmented_memory_storage.Pipeline.Command.{Resource}
use segmented_memory_storage.Pipeline.Lock.{
  LockState, holders, can_acquire, acquire, release, QueuedJob, insert_queued, try_pop_runnable,
}
use segmented_memory_storage.Pipeline.Free.{
  uses, can_acquire-holders, holders-acquire, holders-release,
}
use segmented_memory_storage.Pipeline.System.{
  Phase, trying, refused, asleep, holding, executed, panicked, done, Worker, set_phase, System,
  woken_phase, woken,
}

-- How often a task holds a resource, in a phase, and all of them together.
abbrev pub held_in : Phase → ℕ → ℕ
held_in trying n = 0
held_in refused n = 0
held_in asleep n = 0
held_in holding n = n
held_in executed n = n
held_in panicked n = n
held_in done n = 0

abbrev pub held_by : Resource → Worker → ℕ
held_by r w = held_in w.phase (uses r w.job.resources)

unfoldable pub held : Resource → List Worker → ℕ
held r [] = 0
held r (w ∷ ws) = held_by r w + held r ws

-- A job names each resource at most once.
abbrev pub Plain : QueuedJob → Type 0
Plain j = (r : Resource) → uses r j.resources ≤ 1

-- The locks count the tasks that have a resource, and there is never more than one of them.
pub record Holds (queue : List QueuedJob) (state : LockState) (workers : List Worker) : Type 0 where
  pub counted : (r : Resource) → holders r state ≡ held r workers
  pub alone : (r : Resource) → held r workers ≤ 1
  pub plain_queue : All Plain queue
  pub plain_workers : All (λ w. Plain w.job) workers

abbrev pub Inv : System → Type 0
Inv s = Holds s.queue s.state s.workers

held-++ : (r : Resource) (xs ys : List Worker) → held r (xs ++ ys) ≡ held r xs + held r ys
unfolding held
held-++ r [] ys = omega arith
held-++ r (x ∷ xs) ys = ground (arith, held-++ r xs ys)

held_in-woken_phase : (p : Phase) (n : ℕ) → held_in (woken_phase p) n ≡ held_in p n
held_in-woken_phase trying n = refl
held_in-woken_phase refused n = refl
held_in-woken_phase asleep n = refl
held_in-woken_phase holding n = refl
held_in-woken_phase executed n = refl
held_in-woken_phase panicked n = refl
held_in-woken_phase done n = refl

pub held-woken : (r : Resource) (ws : List Worker) → held r (map woken ws) ≡ held r ws
unfolding held
held-woken r [] = refl
held-woken r (w ∷ ws) =
    ground (arith, held_in-woken_phase w.phase (uses r w.job.resources), held-woken r ws)

-- One task among the others.
pub held-among :
    (r : Resource) (before after : List Worker) (w : Worker)
    → held r (before ++ w ∷ after) ≡ held r before + (held_by r w + held r after)
unfolding held
held-among r before after w = held-++ r before (w ∷ after)

pub All-insert_queued :
    (q : QueuedJob) (queue : List QueuedJob)
    → Plain q
    → All Plain queue
    → All Plain (insert_queued q queue)
unfolding insert_queued
All-insert_queued q [] h k = (h, tt)
All-insert_queued q (j ∷ queue) h k = elim (Bool-cases (leb j.op_count q.op_count)) [
  | inl e ↦ rw e (k.0, All-insert_queued q queue h k.1)
  | inr e ↦ rw e (h, k)
]

abbrev AllPopped : Option (QueuedJob × List QueuedJob) → Type 0
AllPopped none = Unit {0}
AllPopped (some x) = Plain x.0 × All Plain x.1

All-try_pop_runnable :
    (s : LockState) (queue : List QueuedJob)
    → All Plain queue
    → AllPopped (try_pop_runnable s queue)
unfolding try_pop_runnable
All-try_pop_runnable s [] k = tt
All-try_pop_runnable s (x ∷ queue) k = elim (Bool-cases (can_acquire s x.resources)) [
  | inl e ↦ rw e k
  | inr e ↦ rw e (
      elim (try_pop_runnable s queue)
          as (λ o.
            AllPopped o → AllPopped (elim o [ none ↦ none | some y ↦ some (y.0, x ∷ y.1) ])) [
              | none ↦ λ h. tt
              | some y ↦ λ h. (h.0, (k.0, h.1))
            ]
        (All-try_pop_runnable s queue k.1))
]

pub All-pop :
    (s : LockState) (queue rest : List QueuedJob) (j : QueuedJob)
    → try_pop_runnable s queue ≡ some (j, rest)
    → All Plain queue
    → Plain j × All Plain rest
All-pop s queue rest j h k = subst AllPopped h (All-try_pop_runnable s queue k)

All-set_phase :
    (before after : List Worker) (w : Worker) (p : Phase)
    → All (λ w. Plain w.job) (before ++ w ∷ after)
    → Plain w.job × All (λ w. Plain w.job) (before ++ set_phase p w ∷ after)
All-set_phase [] after w p h = (h.0, h)
All-set_phase (b ∷ before) after w p h =
    let rest = All-set_phase before after w p h.1 in (rest.0, (h.0, rest.1))

-- A task in another phase, with locks that count the difference.
Holds-set_phase :
    {queue : List QueuedJob} {state : LockState} (state' : LockState) (before after : List Worker)
    (w : Worker) (p : Phase)
    → Holds queue state (before ++ w ∷ after)
    → ((r : Resource)
        → holders r state' + held_by r w ≡ holders r state + held_in p (uses r w.job.resources))
    → ((r : Resource) → holders r state' ≤ 1)
    → Holds queue state' (before ++ set_phase p w ∷ after)
Holds-set_phase state' before after w p h moved few = record {
  counted = λ r.
      let a = held-among r before after w in
      let b = held-among r before after (set_phase p w) in
      let c = h.counted r in let d = moved r in omega arith;
  alone = λ r.
      let a = held-among r before after w in
      let b = held-among r before after (set_phase p w) in
      let c = h.counted r in let d = moved r in let e = few r in omega arith;
  plain_queue = h.plain_queue;
  plain_workers = (All-set_phase before after w p h.plain_workers).1;
}

pub Holds-same :
    {queue : List QueuedJob} {state : LockState} (before after : List Worker) (w : Worker)
    (p : Phase)
    → Holds queue state (before ++ w ∷ after)
    → ((n : ℕ) → held_in w.phase n ≡ held_in p n)
    → Holds queue state (before ++ set_phase p w ∷ after)
Holds-same {queue} {state} before after w p h same =
    Holds-set_phase state before after w p h
      (λ r. ap (λ n. holders r state + n) (same (uses r w.job.resources)))
      (λ r. let a = h.counted r in let b = h.alone r in omega arith)

pub Holds-grant :
    {queue : List QueuedJob} {state : LockState} (before after : List Worker) (w : Worker)
    → Holds queue state (before ++ w ∷ after)
    → w.phase ≡ trying
    → can_acquire state w.job.resources ≡ true
    → Holds queue (acquire w.job.resources state) (before ++ set_phase holding w ∷ after)
Holds-grant {queue} {state} before after w h e can =
    let free : (r : Resource) → holders r state + uses r w.job.resources ≤ 1 = λ r.
      let a = h.counted r in
      let b = h.alone r in
      let c = (All-set_phase before after w holding h.plain_workers).0 r in
      let d = can_acquire-holders state r w.job.resources can in ground arith in
    let more : (r : Resource)
        → holders r (acquire w.job.resources state) ≡ holders r state + uses r w.job.resources =
      λ r. holders-acquire r w.job.resources state (let a = free r in omega arith) in
    Holds-set_phase (acquire w.job.resources state) before after w holding h
      (λ r. rw e (let a = more r in omega arith))
      (λ r. let a = free r in let b = more r in omega arith)

pub Holds-let_go :
    {queue : List QueuedJob} {state : LockState} (before after : List Worker) (w : Worker)
    → Holds queue state (before ++ w ∷ after)
    → w.phase ≡ executed
    → Holds queue (release w.job.resources state) (before ++ set_phase done w ∷ after)
Holds-let_go {queue} {state} before after w h e =
    let less : (r : Resource)
        → holders r (release w.job.resources state) ≡ holders r state - uses r w.job.resources =
      λ r. holders-release r w.job.resources state in
    Holds-set_phase (release w.job.resources state) before after w done h
      (λ r.
        let a = h.counted r in
        let b = held-among r before after w in
        let c : held_by r w ≡ uses r w.job.resources = rw e in let d = less r in rw e (omega arith))
      (λ r. let a = h.counted r in let b = h.alone r in let c = less r in omega arith)
