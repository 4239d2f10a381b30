-- ===== src/Groups/Dropped.antt =====
-- What is left in the cache of a group when the ids that its log has cut are removed
-- (server/src/db/groups.rs).
use mathlib.Core.Path.{subst}
use segmented_memory_storage.Common.{
  ℕ, ◌<◌, ◌≡◌, ◌≢◌, refl, ap, sym, ◌∙◌, Option, none, some, List, [], ◌∷◌, arith, times, map, All,
  All-imp, ◌==◌, if◌then◌else◌, Bool-cases, inl, inr, ==_iff, dec_lt,
}
use segmented_memory_storage.Common.Texts.{Text}
use segmented_memory_storage.SegLog.State.{LogEntry}
use segmented_memory_storage.SegLog.Stored.{Entry, ids_from, ids_below}
use segmented_memory_storage.Lru.Recent.{Item, find, without, removed, removed_of}
use segmented_memory_storage.Groups.Backed.{
  All-removed, All-both, Backed, dropped, find_id-ids_from, times-ids_below,
}

All-forall :
    {A : Type 0} (H : ℕ → Type 0) (Q : ℕ → A → Type 0) (xs : List A)
    → ((i : ℕ) → H i → All (Q i) xs)
    → All (λ x. (i : ℕ) → H i → Q i x) xs
All-forall H Q [] a = tt
All-forall H Q (x ∷ xs) a = (λ i h. (a i h).0, All-forall H Q xs (λ i h. (a i h).1))

module _ (build_key : Text → ℕ → ℕ) (name : Text) where
  All-dropped :
      (P : Item LogEntry → Type 0) (ids : List ℕ) (xs : List (Item LogEntry))
      → All P xs
      → All P (dropped build_key name ids xs)
  All-dropped P [] xs a = a
  All-dropped P (id ∷ ids) xs a =
      All-dropped P ids (removed (build_key name id) xs).1 (All-removed P (build_key name id) xs a)

  without_away : (k : ℕ) (xs : List (Item LogEntry)) → All (λ x. x.key ≢ k) (without k xs)
  without_away k [] = tt
  without_away k (x ∷ xs) = elim (Bool-cases (k == x.key)) [
    | inl same ↦ rw same (without_away k xs)
    | inr other ↦ rw other (λ e. ground (arith, other, e), without_away k xs)
  ]

  absent_away : (k : ℕ) (xs : List (Item LogEntry)) → find k xs ≡ none → All (λ x. x.key ≢ k) xs
  absent_away k [] h = tt
  absent_away k (x ∷ xs) h = elim (Bool-cases (k == x.key)) [
    | inl same ↦
        let gone : some x ≡ none = sym (ap (λ t. if t then some x else find k xs) same) ∙ h in cc
    | inr other ↦ (
      λ e. ground (arith, other, e),
      absent_away k xs (sym (ap (λ t. if t then some x else find k xs) other) ∙ h),
    )
  ]

  removed_away :
      (k : ℕ) (o : Option (Item LogEntry)) (xs : List (Item LogEntry))
      → find k xs ≡ o
      → All (λ x. x.key ≢ k) (removed_of o k xs).1
  removed_away k none xs h = absent_away k xs h
  removed_away k (some x) xs h = without_away k xs

  dropped_away :
      (ids : List ℕ) (xs : List (Item LogEntry)) (i : ℕ)
      → 0 < times i ids
      → All (λ x. x.key ≢ build_key name i) (dropped build_key name ids xs)
  dropped_away [] xs i h = absurd (omega (arith, h))
  dropped_away (id ∷ ids) xs i h = elim (Bool-cases (i == id)) [
    | inl same ↦
        let k = build_key name id in
        subst (λ j. All (λ x. x.key ≢ build_key name j) (dropped build_key name (id ∷ ids) xs))
          (sym ((==_iff i id).0 same))
          (All-dropped (λ x. x.key ≢ k) ids (removed k xs).1 (removed_away k (find k xs) xs refl))
    | inr other ↦ dropped_away ids (removed (build_key name id) xs).1 i (ground (arith, h, other))
  ]

  -- Behind a trim, the items that are left still stand for entries.
  pub Backed-dropped :
      (cutoff : ℕ) (es : List Entry) (xs : List (Item LogEntry))
      → All (Backed build_key name es) xs
      → All
          (Backed build_key name (ids_from cutoff es))
          (dropped build_key name (map (λ e. e.0) (ids_below cutoff es)) xs)
  Backed-dropped cutoff es xs a =
      let ids = map (λ (e : Entry). e.0) (ids_below cutoff es) in
      let left = dropped build_key name ids xs in
      let away =
        All-forall (λ i. 0 < times i ids) (λ i (x : Item LogEntry). x.key ≢ build_key name i) left
          (dropped_away ids xs) in
      All-imp left
        (λ x p. (
          p.0.0,
          elim (dec_lt x.value.id cutoff) [
            | yes below ↦
                absurd (p.1 x.value.id (times-ids_below x.value.id cutoff _ es below p.0.1) p.0.0)
            | no above ↦ find_id-ids_from x.value.id cutoff es (omega (arith, above)) ∙ p.0.1
          ],
        ))
        (All-both (Backed build_key name es)
          (λ x. (i : ℕ) → 0 < times i ids → x.key ≢ build_key name i) left
          (All-dropped (Backed build_key name es) ids xs a) away)
