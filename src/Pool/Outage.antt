-- ===== src/Pool/Outage.antt =====
-- An outage that the pool does not recover from (client/src/client/pool.rs).
use mathlib.Core.Path.{subst}
use segmented_memory_storage.Common.{
  ℕ, zero, suc, ◌+◌, ◌-◌, ◌≡◌, refl, sym, ◌∙◌, false, some, List, [], ◌∷◌, ◌++◌, arith, length, All,
}
use segmented_memory_storage.Common.Outcome.{err}
use segmented_memory_storage.Pool.Ops.{pool_of, replaced}
use segmented_memory_storage.Pool.System.{
  System, start, outcome, Step, acquires, receives, connects, refused, drops, Reach, here, next,
}
use segmented_memory_storage.Pool.Acquired.{acquire-waits}

-- Nothing is left: the channel is empty, no client is lent, no replacement is under way, and a
-- caller waits for the channel.
pub record Exhausted (s : System) : Type 0 where
  pub no_slots : s.pool.slots ≡ []
  pub no_lent : s.lent ≡ []
  pub no_spawned : s.pool.spawned ≡ 0
  pub attempts : ℕ
  pub waits_on : s.waiting ≡ some attempts

append-ne-nil : (before after : List ℕ) (c : ℕ) → [] ≡ before ++ c ∷ after → ⊥
append-ne-nil [] after c e = cc
append-ne-nil (x ∷ before) after c e = cc

stuck : {s t : System} → Exhausted s → Step s t → ⊥
stuck x (acquires is_alive refusal free) = cc (x.waits_on, free)
stuck x (receives is_alive refusal m c cs w there) = cc (x.no_slots, there)
stuck x (connects m some_left room) = absurd (omega (arith, x.no_spawned, some_left))
stuck x (refused e m some_left) = absurd (omega (arith, x.no_spawned, some_left))
stuck x (drops is_alive poisoned c before after there) =
    append-ne-nil before after c (sym x.no_lent ∙ there)

-- No slot, none lent, a caller that waits with `k` attempts left and `n` replacements under way.
abbrev down : ℕ → ℕ → ℕ → ℕ → System
down size k made n = record {
  pool = record { slots = []; size = size; active = size; max_size = size; spawned = n };
  lent = [];
  waiting = some k;
  made = made;
}

-- The replacements fail one after the other.
all_refused :
    {s : System} (n size k made : ℕ) → Reach s (down size k made n) → Reach s (down size k made 0)
unfolding replaced
all_refused zero size k made r = r
all_refused {s} (suc n) size k made r =
    all_refused n size k made
      (subst (λ m. Reach s (down size k made m)) (omega arith) (next r (refused [] n refl)))

All-dead : (cs : List ℕ) → All (λ c. ◌≡◌ false false) cs
All-dead [] = tt
All-dead (c ∷ cs) = (refl, All-dead cs)

-- A pool of which every client dies, and whose replacements cannot connect, comes to a state in
-- which a call of `acquire` waits with the lock of the receiver and nothing can happen any more:
-- no later call gets a client, although the server may be back.
pub outage :
    (size : ℕ) (clients : List ℕ)
    → length clients ≡ size
    → (s : System) × Reach (start (pool_of size clients)) s
      × Exhausted s
      × ((t : System) → ¬ Step s t)
unfolding outcome
outage size clients full =
    let p = pool_of size clients in
    let waited = acquire-waits (λ c. false) (err []) p (All-dead clients) (omega arith) in
    let first = next here (acquires (λ c. false) (some []) refl) in
    let k = size - length clients in
    let after =
      subst (λ r. Reach (start (pool_of size clients)) (outcome (start (pool_of size clients)) r))
        waited first in
    let t = down size k (size + 1) 0 in
    let exhausted : Exhausted t = record {
      no_slots = refl;
      no_lent = refl;
      no_spawned = refl;
      attempts = k;
      waits_on = refl;
    } in
    (
      t,
      all_refused (0 + length clients) size k (size + 1) after,
      exhausted,
      λ u st. stuck exhausted st,
    )
