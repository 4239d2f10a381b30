-- ===== src/Pool/Examples.antt =====
-- A pool of two clients (client/src/client/pool.rs).
use segmented_memory_storage.Common.{ℕ, ◌≡◌, refl, Bool, true, none, [], ◌∷◌, arith, ◌==◌}
use segmented_memory_storage.Common.Outcome.{err}
use segmented_memory_storage.Pool.State.{ClientPool, client}
use segmented_memory_storage.Pool.Ops.{pool_of, connect_each, new, attempts, acquire}
use segmented_memory_storage.Pool.System.{System, start, outcome, Step, acquires, Reach, here, next}
use segmented_memory_storage.Pool.Acquired.{acquire-client}
use segmented_memory_storage.Pool.Owned.{Owned, new-Owned}
use segmented_memory_storage.Pool.Outage.{Exhausted, outage}

abbrev two : ClientPool
two = pool_of 2 (0 ∷ 1 ∷ [])

-- The second is alive.
abbrev second : ℕ → Bool
second c = c == 1

acquire-client_example :
    acquire second (err []) two ≡ (client 1, record two { slots = []; spawned = 1 })
acquire-client_example =
    acquire-client second (err []) two (0 ∷ []) [] 1 refl (refl, tt) refl (omega arith)

-- The first is lent, and the second to another caller.
abbrev both_lent : System
both_lent = record { pool = pool_of 2 []; lent = 1 ∷ 0 ∷ []; waiting = none; made = 4 }

lends_both : Reach (start two) both_lent
unfolding acquire attempts outcome
lends_both = next (next here (acquires (λ c. true) none refl)) (acquires (λ c. true) none refl)

new-Owned_example : Owned both_lent
unfolding new connect_each
new-Owned_example = new-Owned 2 two both_lent refl lends_both

outage_example : (s : System) × Reach (start two) s × Exhausted s × ((t : System) → ¬ Step s t)
outage_example = outage 2 (0 ∷ 1 ∷ []) refl
