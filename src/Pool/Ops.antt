-- ===== src/Pool/Ops.antt =====
-- The methods of `ClientPool` and the drop of a `PooledClient` (client/src/client/pool.rs). What
-- `is_alive` says of a client and how `connect` ends are parameters of the calls.
use segmented_memory_storage.Common.{
  ℕ, zero, suc, ◌+◌, ◌-◌, ◌||◌, Bool, not, List, [], ◌∷◌, ◌++◌, length, ltb, ◌==◌, if◌then◌else◌,
}
use segmented_memory_storage.Common.Outcome.{Outcome, ok, err, crash}
use segmented_memory_storage.Common.Texts.{Text}
use segmented_memory_storage.Pool.State.{ClientPool, Acquired, client, failed, waits}

-- The loop of `new`, where `connect i` is the connection that follows when `i` are made.
unfoldable pub connect_each : (ℕ → Outcome Text ℕ) → ℕ → ℕ → Outcome Text (List ℕ)
connect_each connect i zero = ok []
connect_each connect i (suc n) =
    let rest = connect_each connect (i + 1) n in
    elim (connect i) [
      | ok c ↦ elim rest [ ok cs ↦ ok (c ∷ cs) | err e ↦ err e | crash ↦ crash ]
      | err e ↦ err e
      | crash ↦ crash
    ]

abbrev pub pool_of : ℕ → List ℕ → ClientPool
pool_of size clients = record {
  slots = clients;
  size = size;
  active = size;
  max_size = size;
  spawned = 0;
}

-- A channel of no capacity panics.
unfoldable pub new : (ℕ → Outcome Text ℕ) → ℕ → Outcome Text ClientPool
new connect size = if size == 0 then crash else (elim (connect_each connect 0 size) [
  | ok clients ↦ ok (pool_of size clients)
  | err e ↦ err e
  | crash ↦ crash
])

unfoldable pub spawn_replacement : ClientPool → ClientPool
spawn_replacement p = record p { spawned = p.spawned + 1 }

-- The end of such a task: a client that connects goes to the channel, which has room by then.
unfoldable pub replaced : Outcome Text ℕ → ClientPool → ClientPool
replaced (ok c) p = record p { spawned = p.spawned - 1; slots = p.slots ++ c ∷ [] }
replaced (err e) p = record p { spawned = p.spawned - 1 }
replaced crash p = record p { spawned = p.spawned - 1 }

-- `try_send` of a client, which a full channel refuses.
unfoldable pub try_send : ℕ → ClientPool → ClientPool
try_send c p = if ltb (length p.slots) p.size then record p { slots = p.slots ++ c ∷ [] } else p

module _ (is_alive : ℕ → Bool) where
  unfoldable pub release : ℕ → ClientPool → ClientPool
  release c p = if is_alive c then try_send c p else spawn_replacement p

  -- The drop of a client that was lent.
  unfoldable pub drop : Bool → ℕ → ClientPool → ClientPool
  drop poisoned c p = if poisoned || not (is_alive c) then spawn_replacement p else try_send c p

-- `discard` takes the client out, so that the drop that follows does nothing.
unfoldable pub discard : ClientPool → ClientPool
discard p = spawn_replacement p

module _ (is_alive : ℕ → Bool) (connect : Outcome Text ℕ) where
  abbrev connected : Outcome Text ℕ → Acquired
  connected (ok c) = client c
  connected (err e) = failed e
  connected crash = failed []

  -- The loop of `acquire`, with so many attempts left. A wait keeps the lock of the receiver.
  unfoldable pub attempts : ℕ → ClientPool → Acquired × ClientPool
  attempts zero p = (connected connect, p)
  attempts (suc n) p = elim p.slots [
    | [] ↦ (waits n, p)
    | (c ∷ cs) ↦
        let rest = attempts n (spawn_replacement (record p { slots = cs })) in
        if is_alive c then (client c, record p { slots = cs }) else rest
  ]

  -- The loop from where the wait is over and a client is received.
  unfoldable pub received : ℕ → ℕ → ClientPool → Acquired × ClientPool
  received n c p =
      let rest = attempts n (spawn_replacement p) in if is_alive c then (client c, p) else rest

  unfoldable pub acquire : ClientPool → Acquired × ClientPool
  acquire p = attempts (p.active + 1) p
