-- ===== src/Common/Outcome.antt =====
-- How a call of the source ends, and calls in sequence over a state. The state comes back after an
-- error too, since what was written stays written.
use mathlib.Core.Path.{◌≡◌}
use native.Mathlib.Omega.{arith}
use mathlib.Core.Option.{Option, none, some}

-- `crash` is a panic (an index out of range, a checked overflow), or a raw access outside its segment.
pub data Outcome (E A : Type 0) : Type 0 where
  ok : A → Outcome E A
  err : E → Outcome E A
  crash : Outcome E A

-- A method on `&mut self`: the result beside the new state.
abbrev pub Action : Type 0 → Type 0 → Type 0 → Type 0
Action S E A = S → Outcome E A × S

module _ {S E A : Type 0} where
  abbrev pub pure : A → Action S E A
  pure a s = (ok a, s)

  abbrev pub throw : E → Action S E A
  throw e s = (err e, s)

  abbrev pub gets : (S → A) → Action S E A
  gets f s = (ok (f s), s)

  -- `o.ok_or(e)?`
  abbrev pub ok_or : Option A → E → Action S E A
  ok_or none e = throw e
  ok_or (some a) e = pure a

  -- An access that panics where it finds nothing.
  abbrev pub or_crash : Option A → Action S E A
  or_crash none s = (crash, s)
  or_crash (some a) s = (ok a, s)

module _ {S E : Type 0} where
  abbrev pub modify : (S → S) → Action S E (Unit {0})
  modify f s = (ok tt, f s)

infixl 5 ◌>>=◌ ◌>>◌
abbrev pub ◌>>=◌ : {S E A B : Type 0} → Action S E A → (A → Action S E B) → Action S E B
◌>>=◌ m f s =
    let (r, s') = m s in elim r [ ok a ↦ f a s' | err e ↦ (err e, s') | crash ↦ (crash, s') ]

abbrev pub ◌>>◌ : {S E A B : Type 0} → Action S E A → Action S E B → Action S E B
m >> k = m >>= λ _. k

-- What goes on with the result of a step that goes well.
pub bind_ok :
    {S E A B : Type 0} (m : Action S E A) (f : A → Action S E B) (s : S) (a : A) (s' : S)
    → m s ≡ (ok a, s')
    → (m >>= f) s ≡ f a s'
bind_ok m f s a s' h = ground (arith, h)
