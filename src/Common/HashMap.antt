-- ===== src/Common/HashMap.antt =====
-- `HashMap<String, V>` as an association list; `insert` replaces the value of a key that is there.
use segmented_memory_storage.Common.{
  ◌+◌, ◌≤◌, ◌<◌, length, ◌≡◌, Option, none, some, List, [], ◌∷◌, arith, if◌then◌else◌,
}
use segmented_memory_storage.Common.Texts.{Text, text_eq, text_eq_refl, text_eq_comm, eq_of_text_eq}

abbrev pub HashMap : Type 0 → Type 0
HashMap V = List (Text × V)

module _ {V : Type 0} where
  unfoldable pub lookup : Text → HashMap V → Option V
  lookup k [] = none
  lookup k (e ∷ m) = if text_eq k e.0 then some e.1 else lookup k m

  unfoldable pub insert : Text → V → HashMap V → HashMap V
  insert k v [] = (k, v) ∷ []
  insert k v (e ∷ m) = if text_eq k e.0 then (k, v) ∷ m else e ∷ insert k v m

  unfoldable pub remove : Text → HashMap V → HashMap V
  remove k [] = []
  remove k (e ∷ m) = if text_eq k e.0 then remove k m else e ∷ remove k m

  -- A read after a write.
  pub lookup-insert :
      (k j : Text) (v : V) (m : HashMap V)
      → lookup j (insert k v m) ≡ (if text_eq k j then some v else lookup j m)
  unfolding lookup insert
  lookup-insert k j v [] = rw (text_eq_comm k j)
  lookup-insert k j v (e ∷ m) = ground (
    arith,
    text_eq_comm k j,
    text_eq_comm j e.0,
    eq_of_text_eq k e.0,
    eq_of_text_eq k j,
    eq_of_text_eq j e.0,
    text_eq_refl j,
    lookup-insert k j v m,
  )

  -- A read after a removal.
  pub lookup-remove :
      (k j : Text) (m : HashMap V)
      → lookup j (remove k m) ≡ (if text_eq k j then none else lookup j m)
  unfolding lookup remove
  lookup-remove k j [] = ground arith
  lookup-remove k j (e ∷ m) = ground (
    arith,
    text_eq_comm j e.0,
    eq_of_text_eq k e.0,
    eq_of_text_eq k j,
    eq_of_text_eq j e.0,
    text_eq_refl j,
    lookup-remove k j m,
  )

  pub length-insert : (k : Text) (v : V) (m : HashMap V) → length (insert k v m) ≤ length m + 1
  unfolding insert
  length-insert k v [] = omega arith
  length-insert k v (e ∷ m) = ground (arith, length-insert k v m)

  pub length-remove : (k : Text) (m : HashMap V) → length (remove k m) ≤ length m
  unfolding remove
  length-remove k [] = omega arith
  length-remove k (e ∷ m) = ground (arith, length-remove k m)

  -- A key that was there is gone.
  pub length-remove_there :
      (k : Text) (m : HashMap V) (v : V) → lookup k m ≡ some v → length (remove k m) < length m
  unfolding lookup remove
  length-remove_there k [] v h = cc
  length-remove_there k (e ∷ m) v h =
      ground (arith, h, length-remove k m, length-remove_there k m v)
