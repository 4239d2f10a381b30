-- ===== src/Common/BTreeMap.antt =====
-- `BTreeMap<u64, V>` as an association list in ascending order of the keys.
pub mod Ordered
use segmented_memory_storage.Common.{
  ℕ, ◌≡◌, Option, none, some, List, [], ◌∷◌, arith, ltb, leb, ◌==◌, ◌&&◌, if◌then◌else◌, select,
}

abbrev pub BTreeMap : Type 0 → Type 0
BTreeMap V = List (ℕ × V)

module _ {V : Type 0} where
  abbrev pub lookup : ℕ → BTreeMap V → Option V
  lookup k [] = none
  lookup k (e ∷ m) = if k == e.0 then some e.1 else lookup k m

  unfoldable pub insert : ℕ → V → BTreeMap V → BTreeMap V
  insert k v [] = (k, v) ∷ []
  insert k v (e ∷ m) =
      if ltb k e.0 then (k, v) ∷ e ∷ m else (if k == e.0 then (k, v) ∷ m else e ∷ insert k v m)

  unfoldable pub remove : ℕ → BTreeMap V → BTreeMap V
  remove k [] = []
  remove k (e ∷ m) = if k == e.0 then m else e ∷ remove k m

  -- `range(lo..=hi)`; the source's panic for `lo > hi` is at the call.
  abbrev pub range_inclusive : ℕ → ℕ → BTreeMap V → BTreeMap V
  range_inclusive lo hi = select (λ e. leb lo e.0 && leb e.0 hi)

  -- `range(..hi)`
  abbrev pub range_below : ℕ → BTreeMap V → BTreeMap V
  range_below hi = select (λ e. ltb e.0 hi)

  pub remove_first : (e : ℕ × V) (m : BTreeMap V) → remove e.0 (e ∷ m) ≡ m
  unfolding remove
  remove_first e m = ground arith
