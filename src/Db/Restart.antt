-- ===== src/Db/Restart.antt =====
-- The stores after a restart (server/src/db/db.rs, server/src/db/aof.rs).
use mathlib.Core.List.{append_assoc, append-nil}
use segmented_memory_storage.Common.{
  ◌≡◌, refl, ap, sym, ◌∙◌, true, false, List, [], ◌∷◌, ◌++◌, All, ◌≤◌, length, select, Option,
}
use segmented_memory_storage.Common.Outcome.{Outcome, ok, err, crash, ◌>>◌, pure}
use segmented_memory_storage.Common.Texts.{Text}
use segmented_memory_storage.Aof.Entry.{AofEntry, kv_flush, EntryCategory, kv, log, list, category}
use segmented_memory_storage.Aof.Load.{aof_worker, load_aof, load_aof_separated}
use segmented_memory_storage.Aof.Loaded.{
  separated, load_aof_separated-select, ReadsBack, load_aof-aof_worker,
}
use segmented_memory_storage.Db.State.{Env, Db, DbError}
use segmented_memory_storage.Db.Calls.{DbAction, on_kv, send}
use segmented_memory_storage.Db.Ops
use segmented_memory_storage.Db.Apply.{forgotten, apply_aof, apply_each}
use segmented_memory_storage.Db.Replay.{spawned, turns, is_joined}
use segmented_memory_storage.Db.Turns.{part, apply_aof-part_of}
use segmented_memory_storage.Db.Sequence.{is_of, apply_each_ok}
use segmented_memory_storage.Db.Scheduled.{turns_of}
use segmented_memory_storage.Db.Logged.{perform, is_kv_flush, logged, perform-apply_aof}
use segmented_memory_storage.Db.Recovered.{SameStores, turns-apply_each, turns-is_joined}

-- Calls one after the other, each of which goes well.
unfoldable pub perform_each : Env → List AofEntry → DbAction (Unit {0})
perform_each env [] = pure tt
perform_each env (e ∷ es) = perform env e >> perform_each env es

then_ok :
    (r : Outcome DbError (Unit {0})) (d : Db) (k : DbAction (Unit {0}))
    → (((λ _. (r, d)) >> k) d).0 ≡ ok tt
    → (r ≡ ok tt) × ((((λ _. (r, d)) >> k) d) ≡ k d)
then_ok (ok tt) d k h = (refl, refl)
then_ok (err e) d k h = cc
then_ok crash d k h = cc

-- Databases with the same stores have the same stores after an entry.
same-apply_aof_of :
    (env : Env) (k : EntryCategory) (e : AofEntry) (d d' : Db)
    → category e ≡ k
    → SameStores d d'
    → ((apply_aof env e d).0 ≡ (apply_aof env e d').0)
      × SameStores (apply_aof env e d).1 (apply_aof env e d').1
same-apply_aof_of env kv e d d' own same =
    rw (apply_aof-part_of env d kv e d own, apply_aof-part_of env d kv e d' own)
      (
        ap (λ s. (part env d kv e s).0) same.0,
        (ap (λ s. (part env d kv e s).1) same.0, same.1, same.2),
      )
same-apply_aof_of env list e d d' own same =
    rw (apply_aof-part_of env d list e d own, apply_aof-part_of env d list e d' own)
      (
        ap (λ s. (part env d list e s).0) same.1,
        (same.0, ap (λ s. (part env d list e s).1) same.1, same.2),
      )
same-apply_aof_of env log e d d' own same =
    rw (apply_aof-part_of env d log e d own, apply_aof-part_of env d log e d' own)
      (
        ap (λ s. (part env d log e s).0) same.2,
        (same.0, same.1, ap (λ s. (part env d log e s).1) same.2),
      )

-- Calls that go well write themselves into the file, and applied to the same stores their entries
-- give the same stores.
perform_each-apply_each :
    (env : Env) (es : List AofEntry) (d d' : Db)
    → All (λ e. is_kv_flush e ≡ false) es
    → SameStores d d'
    → (perform_each env es d).0 ≡ ok tt
    → ((perform_each env es d).1.aof ≡ d.aof ++ es)
      × ((apply_each env es d').0 ≡ ok tt)
      × SameStores (perform_each env es d).1 (apply_each env es d').1
unfolding perform_each
perform_each-apply_each env [] d d' f same h =
    (sym (append-nil d.aof), unfold apply_each in refl, unfold apply_each in same)
perform_each-apply_each env (e ∷ es) d d' f same h =
    let went = then_ok (perform env e d).0 (perform env e d).1 (perform_each env es) h in
    let p = perform-apply_aof env e d f.0 in
    let s = same-apply_aof_of env (category e) e d d' refl same in
    let again = (sym s.0 ∙ (p.1 ∙ ap forgotten went.0)) in
    let same' : SameStores (perform env e d).1 (apply_aof env e d').1 = (
      ap (λ x. x.kv_store) p.0 ∙ s.1.0,
      ap (λ x. x.list) p.0 ∙ s.1.1,
      ap (λ x. x.group_manager) p.0 ∙ s.1.2,
    ) in
    let rest =
      perform_each-apply_each env es (perform env e d).1 (apply_aof env e d').1 f.1 same'
        (ap (λ x. x.0) (sym went.1) ∙ h) in
    rw (went.1, apply_each_ok env e es d' again)
      (
        rest.0
            ∙ (ap (λ a. a ++ es) (ap (λ x. x.aof) p.0 ∙ ap (λ r. logged e r d.aof) went.0)
                ∙ append_assoc d.aof (e ∷ []) es),
        rest.1,
        rest.2,
      )

module _ (trim : Text → Text) (parse : Text → Option AofEntry) (print : AofEntry → Text) where
  -- After calls that go well, none of them `kv_flush`, a server that starts with the file that they
  -- left, each of whose lines is read back as it was written, comes to its end whatever the order
  -- of the three tasks' turns, if each gets as many as it has entries, and then holds in all three
  -- stores what it held before; the surroundings answer as they did.
  pub restart-perform_each :
      (env : Env) (es : List AofEntry) (order : List EntryCategory) (d : Db)
      → d.aof ≡ []
      → All (λ e. is_kv_flush e ≡ false) es
      → All (ReadsBack trim parse print) es
      → (perform_each env es d).0 ≡ ok tt
      → ((c : EntryCategory) → length (select (is_of c) es) ≤ turns_of c order)
      → let after = (perform_each env es d).1 in
        let file = aof_worker print after.aof [] in
        let x = turns env order (spawned (load_aof_separated trim parse file) d) in
        (is_joined x ≡ true) × SameStores x.db after
  unfolding load_aof
  restart-perform_each env es order d new no_flush back went enough =
      let kept = perform_each-apply_each env es d d no_flush (refl, refl, refl) went in
      let file : load_aof_separated trim parse (aof_worker print (perform_each env es d).1.aof [])
          ≡ separated es =
        load_aof_separated-select trim parse (aof_worker print (perform_each env es d).1.aof [])
        ∙ ap separated (
            ap (λ a. load_aof trim parse (aof_worker print a [])) (kept.0 ∙ ap (λ a. a ++ es) new)
            ∙ load_aof-aof_worker trim parse print es [] back) in
      let joined = turns-is_joined env order es d kept.1 enough in
      let same = (turns-apply_each env order es d joined).1 in
      rw file (joined, (same.0 ∙ sym kept.2.0, same.1 ∙ sym kept.2.1, same.2 ∙ sym kept.2.2))

  -- A flush of a database between such calls and the restart is not in the file: the stores are
  -- again those before the flush, its keys included.
  pub restart-kv_flush :
      (env : Env) (es : List AofEntry) (order : List EntryCategory) (d : Db) (db : Text)
      → d.aof ≡ []
      → All (λ e. is_kv_flush e ≡ false) es
      → All (ReadsBack trim parse print) es
      → (perform_each env es d).0 ≡ ok tt
      → ((c : EntryCategory) → length (select (is_of c) es) ≤ turns_of c order)
      → let before = (perform_each env es d).1 in
        let after = (perform env (kv_flush db) before).1 in
        let file = aof_worker print after.aof [] in
        let x = turns env order (spawned (load_aof_separated trim parse file) d) in
        (is_joined x ≡ true) × SameStores x.db before
  unfolding perform Ops.kv_flush on_kv send
  restart-kv_flush env es order d db new no_flush back went enough =
      restart-perform_each env es order d new no_flush back went enough
