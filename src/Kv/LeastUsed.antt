-- ===== src/Kv/LeastUsed.antt =====
-- Which entries of a sample `expire_least_used` takes (server/src/db/kv.rs).
use Prim.Native.Nat.{max}
use mathlib.Core.List.{Perm}
use mathlib.Core.List.Perm
use segmented_memory_storage.Common.{
  ℕ, zero, suc, ◌/◌, ◌≡◌, true, false, List, [], ◌∷◌, arith, take, drop, All, All-imp, Bool-cases,
  inl, inr,
}
use segmented_memory_storage.Common.HashMap.{HashMap}
use segmented_memory_storage.Common.Texts.{Text}
use segmented_memory_storage.Kv.State.{DbEntry, Db}
use segmented_memory_storage.Kv.Database.{used_less, insert_sorted, sort_used, chosen}

-- `a` was not used more than `b`.
abbrev pub AtMost : Text × DbEntry → Text × DbEntry → Type 0
AtMost a b = used_less b a ≡ false

abbrev IsSorted : List (Text × DbEntry) → Type 0
IsSorted [] = Unit
IsSorted (x ∷ xs) = All (AtMost x) xs × IsSorted xs

AtMost-trans : (a b c : Text × DbEntry) → AtMost a b → AtMost b c → AtMost a c
AtMost-trans a b c h k = ground arith

used_less-AtMost : (a b : Text × DbEntry) → used_less b a ≡ true → AtMost b a
used_less-AtMost a b h = ground arith

pub All-insert_sorted :
    (P : Text × DbEntry → Type 0) (a : Text × DbEntry) (bs : List (Text × DbEntry))
    → P a
    → All P bs
    → All P (insert_sorted a bs)
All-insert_sorted P a [] h k = (h, tt)
All-insert_sorted P a (b ∷ bs) h k = elim (Bool-cases (used_less b a)) [
  | inl e ↦ rw e (k.0, All-insert_sorted P a bs h k.1)
  | inr e ↦ rw e (h, k)
]

insert_sorted-IsSorted :
    (a : Text × DbEntry) (bs : List (Text × DbEntry)) → IsSorted bs → IsSorted (insert_sorted a bs)
insert_sorted-IsSorted a [] h = (tt, tt)
insert_sorted-IsSorted a (b ∷ bs) h = elim (Bool-cases (used_less b a)) [
  | inl e ↦ rw e (
    All-insert_sorted (AtMost b) a bs (used_less-AtMost a b e) h.0,
    insert_sorted-IsSorted a bs h.1,
  )
  | inr e ↦ rw e ((e, All-imp bs (λ c k. AtMost-trans a b c e k) h.0), h)
]

sort_used-IsSorted : (xs : List (Text × DbEntry)) → IsSorted (sort_used xs)
sort_used-IsSorted [] = tt
sort_used-IsSorted (x ∷ xs) = insert_sorted-IsSorted x (sort_used xs) (sort_used-IsSorted xs)

insert_sorted-Perm :
    (a : Text × DbEntry) (bs : List (Text × DbEntry)) → Perm (insert_sorted a bs) (a ∷ bs)
insert_sorted-Perm a [] = Perm.rfl
insert_sorted-Perm a (b ∷ bs) = elim (Bool-cases (used_less b a)) [
  | inl e ↦ rw e (Perm.trans (Perm.cons b (insert_sorted-Perm a bs)) (Perm.swap a b bs))
  | inr e ↦ rw e Perm.rfl
]

sort_used-Perm : (xs : List (Text × DbEntry)) → Perm (sort_used xs) xs
sort_used-Perm [] = Perm.rfl
sort_used-Perm (x ∷ xs) =
    Perm.trans (insert_sorted-Perm x (sort_used xs)) (Perm.cons x (sort_used-Perm xs))

All-drop :
    (P : Text × DbEntry → Type 0) (n : ℕ) (xs : List (Text × DbEntry))
    → All P xs
    → All P (drop n xs)
All-drop P zero xs h = h
All-drop P (suc n) [] h = tt
All-drop P (suc n) (x ∷ xs) h = All-drop P n xs h.1

front_AtMost :
    (n : ℕ) (xs : List (Text × DbEntry))
    → IsSorted xs
    → All (λ c. All (AtMost c) (drop n xs)) (take n xs)
front_AtMost zero xs h = tt
front_AtMost (suc n) [] h = tt
front_AtMost (suc n) (x ∷ xs) h = (All-drop (AtMost x) n xs h.0, front_AtMost n xs h.1)

-- The candidates are the sample in another order, and no entry that is evicted was used more than a
-- candidate that is not: it has fewer uses, or as many and not a later last one.
pub evicts_least_used :
    (iter : HashMap DbEntry → List (Text × DbEntry)) (sample_size : ℕ) (d : Db)
    → Perm (sort_used (take sample_size (iter d.entries))) (take sample_size (iter d.entries))
      × All
          (λ c.
            All
              (AtMost c)
              (drop (max (sample_size / 4) 1) (sort_used (take sample_size (iter d.entries)))))
          (chosen iter sample_size d)
evicts_least_used iter sample_size d =
    let sample = take sample_size (iter d.entries) in
    (
      sort_used-Perm sample,
      front_AtMost (max (sample_size / 4) 1) (sort_used sample) (sort_used-IsSorted sample),
    )
