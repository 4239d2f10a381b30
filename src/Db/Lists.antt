-- ===== src/Db/Lists.antt =====
-- The lists after a restart (server/src/db/db.rs, server/src/db/aof.rs): what a new server reads back
-- from the file, whatever clients called before and whatever the clocks say then and now.
use segmented_memory_storage.Common.{
  ◌+◌, ◌-◌, ◌≤◌, ◌≡◌, refl, ap, sym, ◌∙◌, true, false, List, [], ◌∷◌, arith, All, Option, select,
  length, map, inl, inr, Bool-cases,
}
use mathlib.Core.Path.{subst}
use segmented_memory_storage.Common.Texts.{Text}
use segmented_memory_storage.SegList.State.{SegList}
use segmented_memory_storage.Aof.Entry.{AofEntry, EntryCategory, kv, log, list, is_list}
use segmented_memory_storage.Aof.Load.{aof_worker, load_aof, load_aof_separated}
use segmented_memory_storage.Aof.Loaded.{
  separated, load_aof_separated-select, ReadsBack, load_aof-aof_worker,
}
use segmented_memory_storage.Db.State.{Env, Db}
use segmented_memory_storage.Db.Replay.{
  Task, running, panicked, Replay, with_task, left, spawned, turn,
}
use segmented_memory_storage.Db.Turns.{
  apply_aof-part_of, finish, ended, Own, OwnTasks, Task-cases, turn-idle, ended-turn, turn-OwnTasks,
}
use segmented_memory_storage.Db.Scheduled.{
  to_do, same_category, same_category_eq, turns_of, turn-entry, to_do-turn, task-turn,
}
use segmented_memory_storage.Db.Sequence.{is_of_own}
use segmented_memory_storage.Db.Recovered.{select_own, task-spawned}
use segmented_memory_storage.Db.Client.{Call, calls, lists_well}
use segmented_memory_storage.Db.Kept.{list-apply_aof}
use segmented_memory_storage.Db.Finished.{plain, finish_none, crashed_not, Replays, calls-Replays}

-- The turns of a replay, each with what its surroundings answer.
unfoldable pub turns_at : List (Env × EntryCategory) → Replay → Replay
turns_at [] x = x
turns_at (t ∷ order) x = turns_at order (turn t.0 t.1 x)

-- A turn with memory gives the lists what a turn in the plain surroundings gives them.
list-turn :
    (env : Env) (x : Replay)
    → env.available ≡ true
    → OwnTasks x
    → turn env list x ≡ turn plain list x
list-turn env x memory own = elim (Task-cases x.h2) [
  | inl h ↦ turn-idle env list x (inl h) ∙ sym (turn-idle plain list x (inl h))
  | inr (inl h) ↦ turn-idle env list x (inr h) ∙ sym (turn-idle plain list x (inr h))
  | inr (inr (e, es, h)) ↦
      let is : is_list e ≡ true = is_of_own list e (subst (Own list) h (own list)).0 in
      turn-entry env list e es x h
      ∙ ap (λ p. with_task list (left p.0 es) (record x { db = p.1 }))
          (list-apply_aof env plain e x.db is memory)
      ∙ sym (turn-entry plain list e es x h)
]

-- A turn of another task leaves them.
other-turn :
    (env : Env) (d : Db) (c : EntryCategory) (x : Replay)
    → same_category list c ≡ false
    → OwnTasks x
    → ended plain d list (turn env c x) ≡ ended plain d list x
other-turn env d list x o own = cc
other-turn env d kv x o own = elim (Task-cases x.h1) [
  | inl h ↦ ap (ended plain d list) (turn-idle env kv x (inl h))
  | inr (inl h) ↦ ap (ended plain d list) (turn-idle env kv x (inr h))
  | inr (inr (e, es, h)) ↦
      ap (ended plain d list) (turn-entry env kv e es x h)
      ∙ ap (λ l. finish plain d list x.h2 l)
          (ap (λ p. p.1.list) (apply_aof-part_of env d kv e x.db (subst (Own kv) h (own kv)).0))
]
other-turn env d log x o own = elim (Task-cases x.h3) [
  | inl h ↦ ap (ended plain d list) (turn-idle env log x (inl h))
  | inr (inl h) ↦ ap (ended plain d list) (turn-idle env log x (inr h))
  | inr (inr (e, es, h)) ↦
      ap (ended plain d list) (turn-entry env log e es x h)
      ∙ ap (λ l. finish plain d list x.h2 l)
          (ap (λ p. p.1.list) (apply_aof-part_of env d log e x.db (subst (Own log) h (own log)).0))
]

ended-turn_at :
    (env : Env) (d : Db) (c : EntryCategory) (x : Replay)
    → env.available ≡ true
    → OwnTasks x
    → ended plain d list (turn env c x) ≡ ended plain d list x
ended-turn_at env d list x memory own =
    ap (ended plain d list) (list-turn env x memory own) ∙ ended-turn plain d list list x own
ended-turn_at env d kv x memory own = other-turn env d kv x refl own
ended-turn_at env d log x memory own = other-turn env d log x refl own

-- All turns of a replay.
record Ended (d : Db) (x y : Replay) : Type 0 where
  none_left : to_do y.h2 ≡ 0
  same_end : ended plain d list y ≡ ended plain d list x

turns_at-Ended :
    (d : Db) (order : List (Env × EntryCategory)) (x : Replay)
    → OwnTasks x
    → All (λ t. t.0.available ≡ true) order
    → to_do x.h2 ≤ turns_of list (map (λ t. t.1) order)
    → Ended d x (turns_at order x)
unfolding turns_at turns_of
turns_at-Ended d [] x own memory due = record { none_left = omega (arith, due); same_end = refl }
turns_at-Ended d (t ∷ order) x own memory due =
    let y = turn t.0 t.1 x in
    let fewer : to_do y.h2 ≤ turns_of list (map (λ u. u.1) order) =
      elim (Bool-cases (same_category list t.1)) [
        | inl s ↦
            let step : to_do (turn t.0 t.1 x).h2 ≤ to_do x.h2 - 1 =
              subst (λ c. to_do (turn t.0 c x).h2 ≤ to_do x.h2 - 1) (same_category_eq list t.1 s)
                (to_do-turn t.0 list x) in
            let due' : to_do x.h2 ≤ 1 + turns_of list (map (λ u. u.1) order) =
              ground (arith, s, due) in
            omega (arith, step, due')
        | inr o ↦
            let same : to_do y.h2 ≡ to_do x.h2 = ap to_do (task-turn t.0 list t.1 x o) in
            let due' : to_do x.h2 ≤ turns_of list (map (λ u. u.1) order) = ground (arith, o, due) in
            omega (arith, same, due')
      ] in
    let rest = turns_at-Ended d order y (turn-OwnTasks t.0 t.1 x own) memory.1 fewer in
    record {
      none_left = rest.none_left;
      same_end = rest.same_end ∙ ended-turn_at t.0 d t.1 x memory.0 own;
    }

-- A task that has nothing left and has not panicked.
done_task :
    (d : Db) (t : Task) (s s' : SegList)
    → to_do t ≡ 0
    → finish plain d list t s ≡ (running [], s')
    → (t ≡ running []) × (s ≡ s')
unfolding finish
done_task d (running []) s s' h k = (refl, ap (λ p. p.1) k)
done_task d (running (e ∷ es)) s s' h k = absurd (omega arith)
done_task d panicked s s' h k = crashed_not k

module _ (trim : Text → Text) (parse : Text → Option AofEntry) (print : AofEntry → Text) where
  -- Whatever clients have called of a database with an empty file, a server that starts with the
  -- same lists and with the file that they left has in the end the lists that they left: whatever
  -- the clocks and the orders of the maps answered at each call and answer at each turn of the three
  -- tasks, and whatever the order of the turns, if the task of the lists gets as many as it has
  -- entries. The calls that change lists go well and have memory, as the replay has; the length is
  -- asked of lists that there are; every other call may fail or panic; and each line of the file is
  -- read back as it was written.
  pub restart-lists :
      (cs : List (Env × Call)) (order : List (Env × EntryCategory)) (d d' : Db)
      → d.aof ≡ []
      → d'.list ≡ d.list
      → lists_well cs d ≡ true
      → All (ReadsBack trim parse print) (calls cs d).aof
      → All (λ t. t.0.available ≡ true) order
      → length (select is_list (calls cs d).aof) ≤ turns_of list (map (λ t. t.1) order)
      → let file = aof_worker print (calls cs d).aof [] in
        let x = turns_at order (spawned (load_aof_separated trim parse file) d') in
        (x.h2 ≡ running []) × (x.db.list ≡ (calls cs d).list)
  unfolding load_aof
  restart-lists cs order d d' new same well back memory enough =
      let es = (calls cs d).aof in
      let file : load_aof_separated trim parse (aof_worker print es []) ≡ separated es =
        load_aof_separated-select trim parse (aof_worker print es [])
        ∙ ap separated (load_aof-aof_worker trim parse print es [] back) in
      let x = spawned (separated es) d' in
      let own : OwnTasks x = λ c. rw (task-spawned c es d') (select_own c es) in
      let start : Replays d d =
        ap (λ l. finish plain d list (running (select is_list l)) d.list) new
        ∙ finish_none d d.list in
      let kept = calls-Replays d cs d well start in
      let e = turns_at-Ended d order x own memory enough in
      let here : finish plain d list (running (select is_list es)) d'.list
          ≡ (running [], (calls cs d).list) =
        ap (finish plain d list (running (select is_list es))) same ∙ kept in
      subst
        (λ f.
          let y = turns_at order (spawned f d') in
          (y.h2 ≡ running []) × (y.db.list ≡ (calls cs d).list))
        (sym file)
        (done_task d (turns_at order x).h2 (turns_at order x).db.list (calls cs d).list e.none_left
          (e.same_end ∙ here))
