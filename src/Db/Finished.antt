-- ===== src/Db/Finished.antt =====
-- The entries about lists in the file, replayed, against the lists that any calls leave
-- (server/src/db/db.rs).
use segmented_memory_storage.Common.{◌≡◌, refl, ap, sym, ◌∙◌, true, List, [], ◌∷◌, ◌++◌, select}
use segmented_memory_storage.Common.Outcome.{Outcome, ok, err, crash}
use segmented_memory_storage.SegList.State.{SegList}
use segmented_memory_storage.Aof.Entry.{AofEntry, list, is_list}
use segmented_memory_storage.Db.State.{Env, Db, DbError}
use segmented_memory_storage.Db.Replay.{Task, running, panicked}
use segmented_memory_storage.Db.Turns.{part, finish}
use segmented_memory_storage.Db.Client.{Call, call, calls, list_well, lists_well}
use segmented_memory_storage.Db.Kept.{Kept, untouched, applied, call-Kept, select_own_last, both}

-- Surroundings with memory, in which all lists are compared.
abbrev pub plain : Env
plain = record {
  now = 0;
  now' = 0;
  iter = λ m. m;
  instant = 0;
  iter_groups = λ m. m;
  build_key = λ name id. 0;
  available = true;
}

pub finish_none : (d : Db) (s : SegList) → finish plain d list (running []) s ≡ (running [], s)
unfolding finish
finish_none d s = refl

finish-run :
    (d : Db) (e : AofEntry) (es : List AofEntry) (s s' : SegList) (r : Outcome DbError (Unit {0}))
    → part plain d list e s ≡ (r, s')
    → finish plain d list (running (e ∷ es)) s ≡ elim r [
      | ok a ↦ finish plain d list (running es) s'
      | err z ↦ finish plain d list (running es) s'
      | crash ↦ (panicked, s')
    ]
unfolding finish
finish-run d e es s s' r h =
    ap
      (λ p. elim p.0 as (λ _. Task × SegList) [
        | ok a ↦ finish plain d list (running es) p.1
        | err z ↦ finish plain d list (running es) p.1
        | crash ↦ (panicked, p.1)
      ])
      h

pub crashed_not :
    {s s' : SegList} {A : Type 0} → ◌≡◌ {A = Task × SegList} (panicked, s) (running [], s') → A
crashed_not h = let t : panicked ≡ running [] = ap (λ p. p.0) h in cc

finish-append_of :
    (d : Db) (x : AofEntry) (es : List AofEntry) (e : AofEntry) (s s1 s' s'' : SegList)
    (r : Outcome DbError (Unit {0}))
    → part plain d list x s ≡ (r, s1)
    → (finish plain d list (running es) s1 ≡ (running [], s')
        → finish plain d list (running (es ++ e ∷ [])) s1 ≡ (running [], s''))
    → finish plain d list (running (x ∷ es)) s ≡ (running [], s')
    → finish plain d list (running (x ∷ (es ++ e ∷ []))) s ≡ (running [], s'')
finish-append_of d x es e s s1 s' s'' (ok a) q rest h =
    finish-run d x (es ++ e ∷ []) s s1 (ok a) q ∙ rest (sym (finish-run d x es s s1 (ok a) q) ∙ h)
finish-append_of d x es e s s1 s' s'' (err z) q rest h =
    finish-run d x (es ++ e ∷ []) s s1 (err z) q ∙ rest (sym (finish-run d x es s s1 (err z) q) ∙ h)
finish-append_of d x es e s s1 s' s'' crash q rest h =
    crashed_not (sym (finish-run d x es s s1 crash q) ∙ h)

-- One more entry behind those of a task that comes to its end.
finish-append :
    (d : Db) (es : List AofEntry) (e : AofEntry) (s s' s'' : SegList)
    → part plain d list e s' ≡ (ok tt, s'')
    → finish plain d list (running es) s ≡ (running [], s')
    → finish plain d list (running (es ++ e ∷ [])) s ≡ (running [], s'')
finish-append d [] e s s' s'' p h =
    let start : s ≡ s' = ap (λ x. x.1) (sym (finish_none d s) ∙ h) in
    finish-run d e [] s s'' (ok tt) (ap (part plain d list e) start ∙ p) ∙ finish_none d s''
finish-append d (x ∷ es) e s s' s'' p h =
    finish-append_of d x es e s (part plain d list x s).1 s' s'' (part plain d list x s).0 refl
      (finish-append d es e (part plain d list x s).1 s' s'' p) h

-- The entries about lists in the file give the lists that there are.
abbrev pub Replays : Db → Db → Type 0
Replays d₀ d = finish plain d₀ list (running (select is_list d.aof)) d₀.list ≡ (running [], d.list)

Kept-Replays : (d₀ d d' : Db) → Kept plain d₀ d d' → Replays d₀ d → Replays d₀ d'
Kept-Replays d₀ d d' (untouched same file) h =
    ap (λ es. finish plain d₀ list (running es) d₀.list) file
    ∙ h
    ∙ ap (λ l. (running [], l)) (sym same)
Kept-Replays d₀ d d' (applied e own file done) h =
    ap (λ es. finish plain d₀ list (running es) d₀.list)
      (ap (select is_list) file ∙ select_own_last is_list e d.aof own)
    ∙ finish-append d₀ (select is_list d.aof) e d₀.list d.list d'.list done h

pub calls-Replays :
    (d₀ : Db) (cs : List (Env × Call)) (d : Db)
    → lists_well cs d ≡ true
    → Replays d₀ d
    → Replays d₀ (calls cs d)
unfolding calls lists_well
calls-Replays d₀ [] d well h = h
calls-Replays d₀ (c ∷ cs) d well h =
    let w = both (list_well c.0 c.1 d) (lists_well cs (call c.0 c.1 d).1) well in
    calls-Replays d₀ cs (call c.0 c.1 d).1 w.1
      (Kept-Replays d₀ d (call c.0 c.1 d).1 (call-Kept c.0 plain d₀ d c.1 refl w.0) h)
