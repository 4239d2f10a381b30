-- ===== src/Pipeline/Blocked.antt =====
-- A job that stays in the queue (server/src/db/pipeline.rs).
use mathlib.Core.Path.{subst}
use segmented_memory_storage.Common.{
  ◌<◌, ◌≡◌, ◌≢◌, refl, sym, ◌∙◌, true, false, List, [], ◌∷◌, ◌++◌, arith, All, Bool-cases, inl, inr,
}
use segmented_memory_storage.Common.Outcome.{Outcome, ok, err, crash}
use segmented_memory_storage.Pipeline.Command.{Resource, kv, list, log, PipelineCommand}
use segmented_memory_storage.Pipeline.Lock.{
  unlocked, holders, not_held, can_acquire, acquire, release, queued, insert_queued,
  try_pop_runnable, unique_resources,
}
use segmented_memory_storage.Pipeline.Free.{
  uses, can_acquire-holders, holders-acquire, can_acquire-not_held, uses-unique_resources,
}
use segmented_memory_storage.Pipeline.Execute.{PipelineError, execute_job}
use segmented_memory_storage.Pipeline.System.{
  Phase, trying, refused, asleep, holding, executed, panicked, done, Worker, receiving, draining,
  popping, System, initial, after_job, keep_permit, Step, submit, receive, drained, pop, pop_none,
  grant, refuse, take_permit, sleep, run_job, let_go, Reach, begin, onward,
}
use segmented_memory_storage.Pipeline.Safety.{held}
use segmented_memory_storage.Pipeline.Exclusion.{Reach-held, holders-unlocked}
use segmented_memory_storage.Db.State.{Env, Db}

-- Nothing runs: the first task waits for a job, and each of the others waits or has ended.
pub data Idle : Phase → Type 0 where
  idle_asleep : Idle asleep
  idle_done : Idle done
  idle_panicked : Idle panicked

pub record Settled (s : System) : Type 0 where
  pub waits : s.dispatcher ≡ receiving
  pub nothing_sent : s.channel ≡ []
  pub workers_idle : All (λ w. Idle w.phase) s.workers

-- A job has arrived.
abbrev pub Arrival : System → System → Type 0
Arrival s t = (job : List PipelineCommand) × (t ≡ record s { channel = s.channel ++ job ∷ [] })

pub busy : (receiving ≢ draining) × (receiving ≢ popping) × (draining ≢ popping)
busy = (λ h. cc, λ h. cc, λ h. cc)

-- An empty channel has room.
pub room : 0 < 256
room = omega arith

not_held-unlocked : (rs : List Resource) → not_held unlocked rs ≡ true
unfolding not_held
not_held-unlocked [] = refl
not_held-unlocked (kv ∷ rs) = not_held-unlocked rs
not_held-unlocked (list ∷ rs) = not_held-unlocked rs
not_held-unlocked (log ∷ rs) = not_held-unlocked rs

pub can_acquire-unlocked : (rs : List Resource) → can_acquire unlocked rs ≡ true
can_acquire-unlocked rs = can_acquire-not_held unlocked rs ∙ not_held-unlocked rs

-- Two jobs that need the same resource cannot both have their locks.
pub can_acquire-overlap :
    (r : Resource) (a b : List PipelineCommand)
    → 0 < uses r (unique_resources a)
    → 0 < uses r (unique_resources b)
    → can_acquire (acquire (unique_resources a) unlocked) (unique_resources b) ≡ false
can_acquire-overlap r a b h k =
    let locks = acquire (unique_resources a) unlocked in
    elim (Bool-cases (can_acquire locks (unique_resources b))) [
      | inr e ↦ e
      | inl e ↦
          let free = can_acquire-holders locks r (unique_resources b) e k in
          let z = holders-unlocked r in
          let u = uses-unique_resources r a in
          let taken = holders-acquire r (unique_resources a) unlocked (omega arith) in
          absurd (omega arith)
    ]

among :
    (before after : List Worker) (w : Worker)
    → All (λ w. Idle w.phase) (before ++ w ∷ after)
    → Idle w.phase
among [] after w h = h.0
among (b ∷ before) after w h = among before after w h.1

Idle-among :
    (ws before after : List Worker) (w : Worker)
    → All (λ w. Idle w.phase) ws
    → ws ≡ before ++ w ∷ after
    → Idle w.phase
Idle-among ws before after w h e = among before after w (subst (All (λ w. Idle w.phase)) e h)

Idle-excludes : {p : Phase} → Idle p → (p ≢ trying) × (p ≢ refused) × (p ≢ holding) × (p ≢ executed)
Idle-excludes idle_asleep = (λ h. cc, λ h. cc, λ h. cc, λ h. cc)
Idle-excludes idle_done = (λ h. cc, λ h. cc, λ h. cc, λ h. cc)
Idle-excludes idle_panicked = (λ h. cc, λ h. cc, λ h. cc, λ h. cc)

cons_nil : {A : Type 0} {x : A} {xs : List A} → (x ∷ xs) ≢ []
cons_nil h = cc

-- Where nothing runs, whatever is in the queue, only the arrival of another job can follow.
pub Settled-Arrival : (env : Env) (s t : System) → Step env s t → Settled s → Arrival s t
Settled-Arrival env s t (submit _ job _) h = (job, refl)
Settled-Arrival env s t (receive _ _ job rest d c n) h = absurd (cons_nil (sym c ∙ h.nothing_sent))
Settled-Arrival env s t (drained _ d c) h = absurd (busy.0 (sym h.waits ∙ d))
Settled-Arrival env s t (pop _ j queue d p) h = absurd (busy.1 (sym h.waits ∙ d))
Settled-Arrival env s t (pop_none _ d p) h = absurd (busy.1 (sym h.waits ∙ d))
Settled-Arrival env s t (grant _ before after w e p can) h =
    absurd ((Idle-excludes (Idle-among s.workers before after w h.workers_idle e)).0 p)
Settled-Arrival env s t (refuse _ before after w e p cannot) h =
    absurd ((Idle-excludes (Idle-among s.workers before after w h.workers_idle e)).0 p)
Settled-Arrival env s t (take_permit _ before after w e p here) h =
    absurd ((Idle-excludes (Idle-among s.workers before after w h.workers_idle e)).1 p)
Settled-Arrival env s t (sleep _ before after w e p here) h =
    absurd ((Idle-excludes (Idle-among s.workers before after w h.workers_idle e)).1 p)
Settled-Arrival env s t (run_job _ before after w e p) h =
    absurd ((Idle-excludes (Idle-among s.workers before after w h.workers_idle e)).2 p)
Settled-Arrival env s t (let_go _ before after w e p) h =
    absurd ((Idle-excludes (Idle-among s.workers before after w h.workers_idle e)).3 p)

pub trying_awake : trying ≢ asleep
trying_awake h = cc

holding_awake : holding ≢ asleep
holding_awake h = cc

-- The state behind a job `a` that has run while a job `b` arrived.
abbrev left_over : Env → Db → List PipelineCommand → List PipelineCommand → System
left_over env d a b = record {
  channel = [];
  dispatcher = receiving;
  queue = queued b ∷ [];
  state = release (unique_resources a) (acquire (unique_resources a) unlocked);
  permit = true;
  workers = record { job = queued a; phase = done } ∷ [];
  db = (execute_job env a d).1;
}

abbrev with_a : List PipelineCommand → Phase → List Worker
with_a a p = record { job = queued a; phase = p } ∷ []

-- `a` is taken from the queue and gets its locks.
Reach-granted :
    (env : Env) (d : Db) (a : List PipelineCommand)
    → Reach env d (record (initial d) {
      permit = true;
      state = acquire (unique_resources a) unlocked;
      workers = with_a a holding;
    })
unfolding insert_queued try_pop_runnable
Reach-granted env d a =
    let free = can_acquire-unlocked (unique_resources a) in
    let r1 = onward _ _ begin (submit (initial d) a room) in
    let r2 = onward _ _ r1 (receive _ _ a [] busy.1 refl (keep_permit tt)) in
    let r3 = onward _ _ r2 (drained _ refl refl) in
    let r4 = onward _ _ r3 (pop _ (queued a) [] refl (rw free refl)) in
    let r5 = onward _ _ r4 (drained _ refl refl) in
    let r6 = onward _ _ r5 (pop_none _ refl refl) in onward _ _ r6 (grant _ [] [] _ refl refl free)

pub after_job_executed : (r : Outcome PipelineError (Unit {0})) → r ≢ crash → after_job r ≡ executed
after_job_executed (ok a) h = refl
after_job_executed (err e) h = refl
after_job_executed crash h = absurd (h refl)

-- `b` arrives and is refused, and `a` comes to its end.
Reach-left_over :
    (env : Env) (d : Db) (a b : List PipelineCommand)
    → can_acquire (acquire (unique_resources a) unlocked) (unique_resources b) ≡ false
    → after_job (execute_job env a d).0 ≡ executed
    → Reach env d (left_over env d a b)
unfolding insert_queued try_pop_runnable
Reach-left_over env d a b shut went =
    let r1 = onward _ _ (Reach-granted env d a) (submit _ b room) in
    let r2 = onward _ _ r1 (receive _ _ b [] busy.1 refl (keep_permit (holding_awake, tt))) in
    let r3 = onward _ _ r2 (drained _ refl refl) in
    let r4 = onward _ _ r3 (pop_none _ refl (rw shut refl)) in
    let r5 = onward _ _ r4 (run_job _ [] [] _ refl refl) in
    onward _ _ r5 (let_go _ [] [] _ refl went)

-- A job that arrives while another one holds a resource that both need, and that comes to its end
-- without a panic, can be left in the queue although no lock is held any more: then nothing but the
-- arrival of a further job can follow.
pub blocked_job :
    (env : Env) (d : Db) (a b : List PipelineCommand) (r : Resource)
    → 0 < uses r (unique_resources a)
    → 0 < uses r (unique_resources b)
    → (execute_job env a d).0 ≢ crash
    → (s : System) × Reach env d s
      × (s.queue ≡ queued b ∷ [])
      × ((k : Resource) → holders k s.state ≡ 0)
      × ((t : System) → Step env s t → Arrival s t)
blocked_job env d a b r h k went =
    let s = left_over env d a b in
    let reached =
      Reach-left_over env d a b (can_acquire-overlap r a b h k)
        (after_job_executed (execute_job env a d).0 went) in
    let settled : Settled s = record {
      waits = refl;
      nothing_sent = refl;
      workers_idle = (idle_done, tt);
    } in
    (
      s,
      reached,
      refl,
      λ k.
          let e = (Reach-held env d s k reached).0 in
          let z : held k s.workers ≡ 0 = unfold held in omega arith in e ∙ z,
      λ t step. Settled-Arrival env s t step settled,
    )
