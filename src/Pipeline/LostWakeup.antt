-- ===== src/Pipeline/LostWakeup.antt =====
-- A task that is not woken (server/src/db/pipeline.rs): it is refused, and the lock is given back
-- before it waits.
use segmented_memory_storage.Common.{◌<◌, ◌≡◌, ◌≢◌, refl, ◌∙◌, true, false, List, [], ◌∷◌, arith}
use segmented_memory_storage.Common.Outcome.{crash}
use segmented_memory_storage.Pipeline.Command.{Resource, PipelineCommand}
use segmented_memory_storage.Pipeline.Lock.{
  unlocked, holders, can_acquire, acquire, release, queued, insert_queued, try_pop_runnable,
  unique_resources,
}
use segmented_memory_storage.Pipeline.Free.{uses}
use segmented_memory_storage.Pipeline.Execute.{execute_job}
use segmented_memory_storage.Pipeline.System.{
  Phase, trying, asleep, holding, executed, done, Worker, System, initial, after_job, keep_permit,
  Step, submit, receive, drained, pop, pop_none, grant, refuse, take_permit, sleep, run_job, let_go,
  Reach, begin, onward,
}
use segmented_memory_storage.Pipeline.Safety.{held}
use segmented_memory_storage.Pipeline.Exclusion.{Reach-held}
use segmented_memory_storage.Pipeline.Blocked.{
  idle_asleep, idle_done, Settled, Arrival, can_acquire-unlocked, can_acquire-overlap,
  Settled-Arrival, after_job_executed, busy, room, trying_awake,
}
use segmented_memory_storage.Db.State.{Env, Db}

abbrev pub pair : List PipelineCommand → Phase → List PipelineCommand → Phase → List Worker
pair a p b q = record { job = queued a; phase = p } ∷ record { job = queued b; phase = q } ∷ []

-- Both jobs have left the queue before either has its locks.
pub Reach-both_trying :
    (env : Env) (d : Db) (a b : List PipelineCommand)
    → Reach env d (record (initial d) { permit = true; workers = pair a trying b trying })
unfolding insert_queued try_pop_runnable
Reach-both_trying env d a b =
    let r1 = onward _ _ begin (submit (initial d) a room) in
    let r2 = onward _ _ r1 (receive _ _ a [] busy.1 refl (keep_permit tt)) in
    let r3 = onward _ _ r2 (drained _ refl refl) in
    let r4 =
      onward _ _ r3
        (pop _ (queued a) [] refl (rw (can_acquire-unlocked (unique_resources a)) refl)) in
    let r5 = onward _ _ r4 (submit _ b room) in
    let r6 = onward _ _ r5 (receive _ _ b [] busy.2 refl (keep_permit (trying_awake, tt))) in
    let r7 = onward _ _ r6 (drained _ refl refl) in
    let r8 =
      onward _ _ r7
        (pop _ (queued b) [] refl (rw (can_acquire-unlocked (unique_resources b)) refl)) in
    let r9 = onward _ _ r8 (drained _ refl refl) in onward _ _ r9 (pop_none _ refl refl)

-- The second waits, and no lock is held.
abbrev asleep_for_good : Env → Db → List PipelineCommand → List PipelineCommand → System
asleep_for_good env d a b = record (initial d) {
  state = release (unique_resources a) (acquire (unique_resources a) unlocked);
  workers = pair a done b asleep;
  db = (execute_job env a d).1;
}

Reach-asleep_for_good :
    (env : Env) (d : Db) (a b : List PipelineCommand)
    → can_acquire (acquire (unique_resources a) unlocked) (unique_resources b) ≡ false
    → after_job (execute_job env a d).0 ≡ executed
    → Reach env d (asleep_for_good env d a b)
Reach-asleep_for_good env d a b shut went =
    let v : (p : Phase) → Worker = λ p. record { job = queued a; phase = p } in
    let r1 =
      onward _ _ (Reach-both_trying env d a b)
        (grant _ [] _ _ refl refl (can_acquire-unlocked (unique_resources a))) in
    let r2 = onward _ _ r1 (refuse _ (v holding ∷ []) [] _ refl refl shut) in
    let r3 = onward _ _ r2 (take_permit _ (v holding ∷ []) [] _ refl refl refl) in
    let r4 = onward _ _ r3 (refuse _ (v holding ∷ []) [] _ refl refl shut) in
    let r5 = onward _ _ r4 (run_job _ [] _ _ refl refl) in
    let r6 = onward _ _ r5 (let_go _ [] _ _ refl went) in
    onward _ _ r6 (sleep _ (v done ∷ []) [] _ refl refl refl)

-- Of two jobs that need the same resource and leave the queue together, the second can be left
-- waiting although no lock is held any more, the first having come to its end without a panic: then
-- nothing but the arrival of a further job can follow.
pub lost_wakeup :
    (env : Env) (d : Db) (a b : List PipelineCommand) (r : Resource)
    → 0 < uses r (unique_resources a)
    → 0 < uses r (unique_resources b)
    → (execute_job env a d).0 ≢ crash
    → (s : System) × Reach env d s
      × (s.workers ≡ pair a done b asleep)
      × ((k : Resource) → holders k s.state ≡ 0)
      × ((t : System) → Step env s t → Arrival s t)
lost_wakeup env d a b r h k went =
    let s = asleep_for_good env d a b in
    let reached =
      Reach-asleep_for_good env d a b (can_acquire-overlap r a b h k)
        (after_job_executed (execute_job env a d).0 went) in
    let settled : Settled s = record {
      waits = refl;
      nothing_sent = refl;
      workers_idle = (idle_done, (idle_asleep, tt));
    } in
    (
      s,
      reached,
      refl,
      λ k.
          let e = (Reach-held env d s k reached).0 in
          let z : held k s.workers ≡ 0 = unfold held in omega arith in e ∙ z,
      λ t step. Settled-Arrival env s t step settled,
    )
