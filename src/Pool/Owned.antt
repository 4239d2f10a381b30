-- ===== src/Pool/Owned.antt =====
-- A client of the pool is in one pair of hands (client/src/client/pool.rs).
use mathlib.Core.Path.{subst}
use segmented_memory_storage.Common.{
  times, times-append, ℕ, zero, suc, ◌+◌, ◌≤◌, ◌<◌, ◌≡◌, refl, ap, sym, Bool, Option, none, some,
  List, [], ◌∷◌, arith, length, ◌==◌, if◌then◌else◌, Bool-cases, inl, inr, length-append,
}
use segmented_memory_storage.Common.Outcome.{ok}
use segmented_memory_storage.Common.Texts.{Text}
use segmented_memory_storage.Pool.State.{ClientPool, Acquired, client, failed, waits}
use segmented_memory_storage.Pool.Ops.{
  pool_of, connect_each, new, spawn_replacement, replaced, try_send, drop, attempts, received,
  acquire,
}
use segmented_memory_storage.Pool.System.{
  System, start, numbered, outcome, Step, acquires, receives, connects, refused, drops, Reach, here,
  next,
}

-- The client that a call lends.
abbrev lent_by : Acquired → List ℕ
lent_by (client c) = c ∷ []
lent_by (failed e) = []
lent_by (waits n) = []

-- No client is twice in the channel or lent, the number of the next is free, and the channel holds
-- no more than its capacity.
pub record Owned (s : System) : Type 0 where
  pub once : (x : ℕ) → times x s.lent + times x s.pool.slots ≤ 1
  pub unused : (x : ℕ) → s.made ≤ x → times x s.lent + times x s.pool.slots ≡ 0
  pub within : length s.pool.slots ≤ s.pool.size

-- What the loop takes out of the channel, and a client of its own at most.
record Takes (made : ℕ) (slots : List ℕ) (size : ℕ) (r : Acquired × ClientPool) : Type 0 where
  moved :
      (x : ℕ)
      → times x (lent_by r.0) + times x r.1.slots ≤ times x slots + (if x == made then 1 else 0)
  shorter : length r.1.slots ≤ length slots
  same_size : r.1.size ≡ size

connected-Takes :
    (is_alive : ℕ → Bool) (made : ℕ) (refusal : Option Text) (p : ClientPool)
    → Takes made p.slots p.size (attempts is_alive (numbered made refusal) 0 p)
unfolding attempts
connected-Takes is_alive made none p = record {
  moved = λ x. omega arith;
  shorter = omega arith;
  same_size = refl;
}
connected-Takes is_alive made (some e) p = record {
  moved = λ x. omega arith;
  shorter = omega arith;
  same_size = refl;
}

module _ (is_alive : ℕ → Bool) (made : ℕ) (refusal : Option Text) where
  attempts-Takes :
      (n : ℕ) (slots : List ℕ) (p : ClientPool)
      → Takes made slots p.size
          (attempts is_alive (numbered made refusal) n (record p { slots = slots }))
  unfolding attempts spawn_replacement
  attempts-Takes zero slots p = connected-Takes is_alive made refusal (record p { slots = slots })
  attempts-Takes (suc n) [] p = record {
    moved = λ x. omega arith;
    shorter = omega arith;
    same_size = refl;
  }
  attempts-Takes (suc n) (c ∷ cs) p = elim (Bool-cases (is_alive c)) [
    | inl alive ↦
        rw alive (record { moved = λ x. omega arith; shorter = omega arith; same_size = refl })
    | inr dead ↦
        let r = attempts-Takes n cs (record p { spawned = p.spawned + 1 }) in
        rw dead (record {
          moved = λ x. omega (arith, r.moved x);
          shorter = omega (arith, r.shorter);
          same_size = r.same_size;
        })
  ]

  received-Takes :
      (n c : ℕ) (cs : List ℕ) (p : ClientPool)
      → Takes made
          (c ∷ cs)
          p.size
          (received is_alive (numbered made refusal) n c (record p { slots = cs }))
  unfolding received spawn_replacement
  received-Takes n c cs p = elim (Bool-cases (is_alive c)) [
    | inl alive ↦
        rw alive (record { moved = λ x. omega arith; shorter = omega arith; same_size = refl })
    | inr dead ↦
        let r = attempts-Takes n cs (record p { spawned = p.spawned + 1 }) in
        rw dead (record {
          moved = λ x. omega (arith, r.moved x);
          shorter = omega (arith, r.shorter);
          same_size = r.same_size;
        })
  ]

-- A call of `acquire` that leaves the client which it lends to its caller.
outcome-Owned :
    (s : System) (r : Acquired × ClientPool)
    → Owned s
    → Takes s.made s.pool.slots s.pool.size r
    → Owned (outcome s r)
unfolding outcome
outcome-Owned s (client c, p) o t = record {
  once = λ x. ground (arith, t.moved x, o.once x, o.unused x);
  unused = λ x h. ground (arith, t.moved x, o.unused x, h);
  within = omega (arith, t.shorter, t.same_size, o.within);
}
outcome-Owned s (failed e, p) o t = record {
  once = λ x. ground (arith, t.moved x, o.once x, o.unused x);
  unused = λ x h. ground (arith, t.moved x, o.unused x, h);
  within = omega (arith, t.shorter, t.same_size, o.within);
}
outcome-Owned s (waits n, p) o t = record {
  once = λ x. ground (arith, t.moved x, o.once x, o.unused x);
  unused = λ x h. ground (arith, t.moved x, o.unused x, h);
  within = omega (arith, t.shorter, t.same_size, o.within);
}

drop-moved :
    (is_alive : ℕ → Bool) (poisoned : Bool) (c : ℕ) (p : ClientPool) (x : ℕ)
    → length p.slots ≤ p.size
    → (times x (drop is_alive poisoned c p).slots ≤ times x p.slots + times x (c ∷ []))
      × (length (drop is_alive poisoned c p).slots ≤ (drop is_alive poisoned c p).size)
unfolding drop try_send spawn_replacement
drop-moved is_alive poisoned c p x h =
    ground (arith, times-append x p.slots (c ∷ []), length-append p.slots (c ∷ []))

Step-Owned : {s t : System} → Owned s → Step s t → Owned t
unfolding acquire replaced
Step-Owned {s} o (acquires is_alive refusal free) =
    outcome-Owned s _ o
      (attempts-Takes is_alive s.made refusal (s.pool.active + 1) s.pool.slots s.pool)
Step-Owned {s} o (receives is_alive refusal n c cs w there) = outcome-Owned s _ o (
    subst
      (λ slots.
        Takes s.made slots s.pool.size
          (received is_alive (numbered s.made refusal) n c (record s.pool { slots = cs })))
      (sym there) (received-Takes is_alive s.made refusal n c cs s.pool))
Step-Owned {s} o (connects n there room) = record {
  once = λ x. ground (arith, o.once x, o.unused x, times-append x s.pool.slots (s.made ∷ []));
  unused = λ x h. ground (arith, o.unused x, h, times-append x s.pool.slots (s.made ∷ []));
  within = omega (arith, room, length-append s.pool.slots (s.made ∷ []));
}
Step-Owned {s} o (refused e n there) = record {
  once = o.once;
  unused = o.unused;
  within = o.within;
}
Step-Owned {s} o (drops is_alive poisoned c before after there) =
    let moved = λ (x : ℕ). drop-moved is_alive poisoned c s.pool x o.within in
    let split = λ (x : ℕ). ap (times x) there in
    record {
      once = λ x. omega (
        arith,
        o.once x,
        (moved x).0,
        split x,
        times-append x before (c ∷ after),
        times-append x before after,
      );
      unused = λ x h. omega (
        arith,
        o.unused x h,
        (moved x).0,
        split x,
        times-append x before (c ∷ after),
        times-append x before after,
      );
      within = (moved 0).1;
    }

Reach-Owned : {s t : System} → Owned s → Reach s t → Owned t
Reach-Owned o here = o
Reach-Owned o (next r st) = Step-Owned (Reach-Owned o r) st

-- The clients that `new` makes, numbered as they connect.
abbrev upto : ℕ → ℕ → List ℕ
upto i zero = []
upto i (suc n) = i ∷ upto (i + 1) n

connect_each-upto : (i n : ℕ) → connect_each (λ j. ok j) i n ≡ ok (upto i n)
unfolding connect_each
connect_each-upto i zero = refl
connect_each-upto i (suc n) = rw (connect_each-upto (i + 1) n) refl

length-upto : (i n : ℕ) → length (upto i n) ≡ n
length-upto i zero = refl
length-upto i (suc n) = omega (arith, length-upto (i + 1) n)

times-upto_below : (x i n : ℕ) → x < i → times x (upto i n) ≡ 0
times-upto_below x i zero h = refl
times-upto_below x i (suc n) h = ground (arith, times-upto_below x (i + 1) n (omega arith))

times-upto_above : (x i n : ℕ) → i + n ≤ x → times x (upto i n) ≡ 0
times-upto_above x i zero h = refl
times-upto_above x i (suc n) h = ground (arith, times-upto_above x (i + 1) n (omega arith))

times-upto : (x i n : ℕ) → times x (upto i n) ≤ 1
times-upto x i zero = omega arith
times-upto x i (suc n) = ground (arith, times-upto x (i + 1) n, times-upto_below x (i + 1) n)

new-upto :
    (size : ℕ) (p : ClientPool) → new (λ i. ok i) size ≡ ok p → p ≡ pool_of size (upto 0 size)
unfolding new
new-upto size p h = ground (arith, h, connect_each-upto 0 size)

start-Owned : (size : ℕ) → Owned (start (pool_of size (upto 0 size)))
start-Owned size = record {
  once = λ x. omega (arith, times-upto x 0 size);
  unused = λ x h. omega (arith, times-upto_above x 0 size (omega arith));
  within = omega (arith, length-upto 0 size);
}

-- In every state that a pool as `new` leaves it can come to, no client is lent twice, nor lent while
-- it is in the channel, and the channel holds no more clients than it was made for.
pub new-Owned :
    (size : ℕ) (p : ClientPool) (t : System)
    → new (λ i. ok i) size ≡ ok p
    → Reach (start p) t
    → Owned t
new-Owned size p t made r =
    Reach-Owned (subst (λ q. Owned (start q)) (sym (new-upto size p made)) (start-Owned size)) r
