-- ===== src/Pool/Acquired.antt =====
-- What a call of `acquire` does (client/src/client/pool.rs).
use segmented_memory_storage.Common.{
  ℕ, zero, suc, ◌+◌, ◌-◌, ◌≤◌, ◌<◌, ◌≡◌, ap, ◌∙◌, Bool, true, false, List, [], ◌∷◌, ◌++◌, arith,
  length, All,
}
use segmented_memory_storage.Common.Outcome.{Outcome}
use segmented_memory_storage.Common.Texts.{Text}
use segmented_memory_storage.Pool.State.{ClientPool, client, waits}
use segmented_memory_storage.Pool.Ops.{spawn_replacement, attempts, acquire}

module _ (is_alive : ℕ → Bool) (connect : Outcome Text ℕ) where
  abbrev pub Dead : List ℕ → Type 0
  Dead cs = All (λ c. is_alive c ≡ false) cs

  attempts-client :
      (dead rest : List ℕ) (c n : ℕ) (p : ClientPool)
      → Dead dead
      → is_alive c ≡ true
      → length dead < n
      → attempts is_alive connect n (record p { slots = dead ++ c ∷ rest })
        ≡ (client c, record p { slots = rest; spawned = p.spawned + length dead })
  unfolding attempts spawn_replacement
  attempts-client dead rest c zero p d h l = absurd (omega arith)
  attempts-client [] rest c (suc n) p d h l = ground (arith, h)
  attempts-client (x ∷ dead) rest c (suc n) p d h l = ground (
    arith,
    d.0,
    attempts-client dead rest c n (record p { spawned = p.spawned + 1 }) d.1 h (omega arith),
  )

  attempts-waits :
      (dead : List ℕ) (n : ℕ) (p : ClientPool)
      → Dead dead
      → length dead < n
      → attempts is_alive connect n (record p { slots = dead })
        ≡ (waits (n - 1 - length dead), record p { slots = []; spawned = p.spawned + length dead })
  unfolding attempts spawn_replacement
  attempts-waits dead zero p d l = absurd (omega arith)
  attempts-waits [] (suc n) p d l = ground arith
  attempts-waits (x ∷ dead) (suc n) p d l =
      ground
        (arith, d.0, attempts-waits dead n (record p { spawned = p.spawned + 1 }) d.1 (omega arith))

  -- A call lends the first client of the channel that is alive; those before it are dropped, and a
  -- replacement of each is spawned. The dead ones are no more than the pool was made for.
  pub acquire-client :
      (p : ClientPool) (dead rest : List ℕ) (c : ℕ)
      → p.slots ≡ dead ++ c ∷ rest
      → Dead dead
      → is_alive c ≡ true
      → length dead ≤ p.active
      → acquire is_alive connect p
        ≡ (client c, record p { slots = rest; spawned = p.spawned + length dead })
  unfolding acquire
  acquire-client p dead rest c e d h l =
      ap (λ (xs : List ℕ). attempts is_alive connect (p.active + 1) (record p { slots = xs })) e
      ∙ attempts-client dead rest c (p.active + 1) p d h (omega arith)

  -- Where no client of the channel is alive, a call drops them all, spawns as many replacements,
  -- and waits: it neither connects of itself nor fails, whether the server can be reached or not.
  pub acquire-waits :
      (p : ClientPool)
      → Dead p.slots
      → length p.slots ≤ p.active
      → acquire is_alive connect p ≡ (
        waits (p.active - length p.slots),
        record p { slots = []; spawned = p.spawned + length p.slots },
      )
  unfolding acquire
  acquire-waits p d l =
      attempts-waits p.slots (p.active + 1) p d (omega arith)
      ∙ ap (λ n. (waits n, record p { slots = []; spawned = p.spawned + length p.slots }))
          (omega arith)
