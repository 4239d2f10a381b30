-- ===== src/SegList/Owned.antt =====
-- Who holds which segment of a segmented list (server/src/db/seg_list.rs): every allocated segment is
-- either free or in one list, in one place.
use segmented_memory_storage.Common.{
  ℕ, zero, suc, ◌+◌, ◌≤◌, ◌<◌, ◌≡◌, refl, sym, ◌∙◌, false, Option, none, some, List, [], ◌∷◌, ◌++◌,
  arith, ltb, ◌==◌, if◌then◌else◌, Bool-cases, inl, inr, ne→==,
}
use mathlib.Core.List.{append-nil, append_assoc}
use segmented_memory_storage.Common.HashMap
use segmented_memory_storage.Common.HashMap.{HashMap}
use segmented_memory_storage.Common.Texts.{Text, text_eq, eq_of_text_eq, text_eq_refl}
use segmented_memory_storage.SegList.State.{Pointer, Memory, SegList}
use segmented_memory_storage.SegList.Ops.{alloc_zeroed, alloc_segs}

abbrev pub count : ℕ → List ℕ → ℕ
count p [] = 0
count p (q ∷ qs) = (if p == q then 1 else 0) + count p qs

-- How often the lists hold a pointer.
abbrev pub count_written : ℕ → HashMap (List Pointer) → ℕ
count_written p [] = 0
count_written p (e ∷ m) = count p e.1 + count_written p m

abbrev pub owners : ℕ → SegList → ℕ
owners p s = count p s.free_segs + count_written p s.written

-- No segment is lost, and none is in two places.
abbrev pub IsOwned : SegList → Type 0
IsOwned s = (p : ℕ) → owners p s ≡ (if ltb p s.memory.allocated then 1 else 0)

pub count-append : (p : ℕ) (xs ys : List ℕ) → count p (xs ++ ys) ≡ count p xs + count p ys
count-append p [] ys = omega arith
count-append p (x ∷ xs) ys = omega (arith, count-append p xs ys)

-- What a list under the key counts for.
abbrev pub count_entry : ℕ → Option (List Pointer) → ℕ
count_entry p none = 0
count_entry p (some ps) = count p ps

pub count_written-insert :
    (p : ℕ) (k : Text) (ps : List Pointer) (m : HashMap (List Pointer))
    → count_written p (HashMap.insert k ps m) + count_entry p (HashMap.lookup k m)
      ≡ count_written p m + count p ps
unfolding HashMap.insert HashMap.lookup
count_written-insert p k ps [] = omega arith
count_written-insert p k ps (e ∷ m) = elim (Bool-cases (text_eq k e.0)) [
  | inl same ↦ rw same (omega arith)
  | inr other ↦ rw other (omega (arith, count_written-insert p k ps m))
]

pub count_entry-le :
    (p : ℕ) (k : Text) (m : HashMap (List Pointer))
    → count_entry p (HashMap.lookup k m) ≤ count_written p m
unfolding HashMap.lookup
count_entry-le p k [] = omega arith
count_entry-le p k (e ∷ m) = elim (Bool-cases (text_eq k e.0)) [
  | inl same ↦ rw same (omega arith)
  | inr other ↦ rw other (omega (arith, count_entry-le p k m))
]

-- Lists under two keys count together.
pub count_entry-two :
    (p : ℕ) (k j : Text) (m : HashMap (List Pointer))
    → text_eq k j ≡ false
    → count_entry p (HashMap.lookup k m) + count_entry p (HashMap.lookup j m) ≤ count_written p m
unfolding HashMap.lookup
count_entry-two p k j [] h = omega arith
count_entry-two p k j (e ∷ m) h = elim (Bool-cases (text_eq k e.0)) [
  | inl at_k ↦ elim (Bool-cases (text_eq j e.0)) [
    | inl at_j ↦ absurd (ground (arith, eq_of_text_eq k e.0, eq_of_text_eq j e.0, text_eq_refl k))
    | inr off_j ↦ rw (at_k, off_j) (omega (arith, count_entry-le p j m))
  ]
  | inr off_k ↦ elim (Bool-cases (text_eq j e.0)) [
    | inl at_j ↦ rw (off_k, at_j) (omega (arith, count_entry-le p k m))
    | inr off_j ↦ rw (off_k, off_j) (omega (arith, count_entry-two p k j m h))
  ]
]

-- The addresses of `n` allocations from `a` on.
abbrev pub addresses : ℕ → ℕ → List ℕ
addresses a zero = []
addresses a (suc n) = a ∷ addresses (a + 1) n

pub count-addresses :
    (p a n : ℕ)
    → count p (addresses a n) + (if ltb p a then 1 else 0) ≡ (if ltb p (a + n) then 1 else 0)
count-addresses p a zero = ground arith
count-addresses p a (suc n) = ground (arith, count-addresses p (a + 1) n)

pub alloc_segs-addresses :
    (n : ℕ) (m : Memory) (segs : List Pointer)
    → ((alloc_segs n m segs).0 ≡ segs ++ addresses m.allocated n)
      × ((alloc_segs n m segs).1.allocated ≡ m.allocated + n)
      × ((p : ℕ) → p < m.allocated → (alloc_segs n m segs).1.heap p ≡ m.heap p)
unfolding alloc_segs
alloc_segs-addresses zero m segs = (sym (append-nil segs), omega arith, λ p h. refl)
alloc_segs-addresses (suc n) m segs =
    let (p, m') = alloc_zeroed m in
    let (ptrs, allocated, kept) = alloc_segs-addresses n m' (segs ++ p ∷ []) in
    (
      ptrs ∙ append_assoc segs (p ∷ []) (addresses (m.allocated + 1) n),
      omega (arith, allocated),
      λ q below. kept q (omega arith) ∙ rw (ne→== q m.allocated (omega arith)),
    )
