-- ===== src/Common/BTreeMap/Ordered.antt =====
-- The laws of a map whose keys ascend.
use segmented_memory_storage.Common.{
  ℕ, ◌+◌, ◌≤◌, ◌<◌, ◌≡◌, refl, none, some, [], ◌∷◌, arith, ltb, ◌==◌, if◌then◌else◌, length, All,
  All-imp, inl, inr, Bool-cases, ltb→lt,
}
use segmented_memory_storage.Common.BTreeMap.{BTreeMap, lookup, insert, remove}

module _ {V : Type 0} where
  abbrev pub Above : ℕ → BTreeMap V → Type 0
  Above k m = All (λ e. k < e.0) m

  abbrev pub Ordered : BTreeMap V → Type 0
  Ordered [] = Unit
  Ordered (e ∷ m) = Above e.0 m × Ordered m

  lookup_below : (j k : ℕ) (m : BTreeMap V) → Above k m → j ≤ k → lookup j m ≡ none
  lookup_below j k [] a h = refl
  lookup_below j k (e ∷ m) a h = ground (arith, a.0, lookup_below j k m a.1 h)

  insert-Above : (j k : ℕ) (v : V) (m : BTreeMap V) → Above j m → j < k → Above j (insert k v m)
  unfolding insert
  insert-Above j k v [] a h = (h, tt)
  insert-Above j k v (e ∷ m) a h = elim (Bool-cases (ltb k e.0)) [
    | inl below ↦ rw below (h, a)
    | inr above ↦ elim (Bool-cases (k == e.0)) [
      | inl same ↦ rw above (rw same (h, a.1))
      | inr other ↦ rw above (rw other (a.0, insert-Above j k v m a.1 h))
    ]
  ]

  pub insert-Ordered : (k : ℕ) (v : V) (m : BTreeMap V) → Ordered m → Ordered (insert k v m)
  unfolding insert
  insert-Ordered k v [] o = (tt, tt)
  insert-Ordered k v (e ∷ m) o = elim (Bool-cases (ltb k e.0)) [
    | inl below ↦
        rw below ((ltb→lt k e.0 below, All-imp m (λ f h. omega (arith, ltb→lt k e.0 below)) o.0), o)
    | inr above ↦ elim (Bool-cases (k == e.0)) [
      | inl same ↦ rw above (rw same (All-imp m (λ f h. ground (arith, same)) o.0, o.1))
      | inr other ↦ rw above (
          rw other
            (insert-Above e.0 k v m o.0 (ground (arith, above, other)), insert-Ordered k v m o.1))
    ]
  ]

  remove-Above : (j k : ℕ) (m : BTreeMap V) → Above j m → Above j (remove k m)
  unfolding remove
  remove-Above j k [] a = tt
  remove-Above j k (e ∷ m) a = elim (Bool-cases (k == e.0)) [
    | inl same ↦ rw same a.1
    | inr other ↦ rw other (a.0, remove-Above j k m a.1)
  ]

  pub remove-Ordered : (k : ℕ) (m : BTreeMap V) → Ordered m → Ordered (remove k m)
  unfolding remove
  remove-Ordered k [] o = tt
  remove-Ordered k (e ∷ m) o = elim (Bool-cases (k == e.0)) [
    | inl same ↦ rw same o.1
    | inr other ↦ rw other (remove-Above e.0 k m o.0, remove-Ordered k m o.1)
  ]

  pub lookup-insert :
      (k j : ℕ) (v : V) (m : BTreeMap V)
      → lookup j (insert k v m) ≡ (if k == j then some v else lookup j m)
  unfolding insert
  lookup-insert k j v [] = ground arith
  lookup-insert k j v (e ∷ m) = ground (arith, lookup-insert k j v m)

  pub lookup-remove :
      (k j : ℕ) (m : BTreeMap V)
      → Ordered m
      → lookup j (remove k m) ≡ (if k == j then none else lookup j m)
  unfolding remove
  lookup-remove k j [] o = ground arith
  lookup-remove k j (e ∷ m) o = ground (arith, lookup-remove k j m o.1, lookup_below j e.0 m o.0)

  pub length-insert_new :
      (k : ℕ) (v : V) (m : BTreeMap V) → lookup k m ≡ none → length (insert k v m) ≡ 1 + length m
  unfolding insert
  length-insert_new k v [] h = omega arith
  length-insert_new k v (e ∷ m) h = ground (arith, h, length-insert_new k v m)

  pub length-remove_there :
      (k : ℕ) (v : V) (m : BTreeMap V) → lookup k m ≡ some v → length m ≡ 1 + length (remove k m)
  unfolding remove
  length-remove_there k v [] h = cc
  length-remove_there k v (e ∷ m) h = ground (arith, h, length-remove_there k v m)
