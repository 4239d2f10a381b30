-- ===== src/Pool/System.antt =====
-- The callers of a pool and its tasks, in any interleaving (client/src/client/pool.rs).
use segmented_memory_storage.Common.{
  ℕ, suc, ◌+◌, ◌<◌, ◌≡◌, Bool, Option, none, some, List, [], ◌∷◌, ◌++◌, length,
}
use segmented_memory_storage.Common.Outcome.{Outcome, ok, err}
use segmented_memory_storage.Common.Texts.{Text}
use segmented_memory_storage.Pool.State.{ClientPool, Acquired, client, failed, waits}
use segmented_memory_storage.Pool.Ops.{replaced, drop, received, acquire}

-- The clients that are lent, the attempts left to a caller that waits for the channel with the lock
-- of the receiver in its hands, and the number of the client that connects next.
pub record System : Type 0 where
  pub pool : ClientPool
  pub lent : List ℕ
  pub waiting : Option ℕ
  pub made : ℕ

abbrev pub start : ClientPool → System
start p = record { pool = p; lent = []; waiting = none; made = p.size }

-- The client that connects, if it does.
abbrev pub numbered : ℕ → Option Text → Outcome Text ℕ
numbered made none = ok made
numbered made (some e) = err e

-- How a call of `acquire` leaves it.
unfoldable pub outcome : System → Acquired × ClientPool → System
outcome s (client c, p) = record s {
  pool = p;
  lent = c ∷ s.lent;
  waiting = none;
  made = s.made + 1;
}
outcome s (failed e, p) = record s { pool = p; waiting = none; made = s.made + 1 }
outcome s (waits n, p) = record s { pool = p; waiting = some n; made = s.made + 1 }

-- What can happen next. Which clients are alive and whether a connection
-- is refused may differ each time.
pub data Step (s : System) : System → Type 0 where
  acquires :
      (is_alive : ℕ → Bool) (refusal : Option Text)
      → s.waiting ≡ none
      → Step s (outcome s (acquire is_alive (numbered s.made refusal) s.pool))
  receives :
      (is_alive : ℕ → Bool) (refusal : Option Text) (n c : ℕ) (cs : List ℕ)
      → s.waiting ≡ some n
      → s.pool.slots ≡ c ∷ cs
      → Step s (
          outcome s
            (received is_alive (numbered s.made refusal) n c (record s.pool { slots = cs })))
  connects :
      (n : ℕ)
      → s.pool.spawned ≡ suc n
      → length s.pool.slots < s.pool.size
      → Step s (record s { pool = replaced (ok s.made) s.pool; made = s.made + 1 })
  refused :
      (e : Text) (n : ℕ)
      → s.pool.spawned ≡ suc n
      → Step s (record s { pool = replaced (err e) s.pool })
  drops :
      (is_alive : ℕ → Bool) (poisoned : Bool) (c : ℕ) (before after : List ℕ)
      → s.lent ≡ before ++ c ∷ after
      → Step s (record s { pool = drop is_alive poisoned c s.pool; lent = before ++ after })

pub data Reach (s : System) : System → Type 0 where
  here : Reach s s
  next : {t u : System} → Reach s t → Step t u → Reach s u
