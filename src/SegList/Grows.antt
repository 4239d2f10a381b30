-- ===== src/SegList/Grows.antt =====
-- `new` and `grow_segs` (server/src/db/seg_list.rs) add fresh segments and touch no list.
use segmented_memory_storage.Common.{
  ℕ, zero, suc, ◌+◌, ◌/◌, ◌<◌, ◌≡◌, refl, ap, true, none, [], ◌++◌, arith, length, length-append,
  ltb, ltb→lt, Bool-cases, inl, inr,
}
use segmented_memory_storage.Common.HashMap
use segmented_memory_storage.Common.Outcome.{ok}
use segmented_memory_storage.Common.Texts.{Text}
use segmented_memory_storage.Segment.{segment_size, zeroed}
use segmented_memory_storage.SegList.State.{SegList}
use segmented_memory_storage.SegList.Ops.{grow_segs, alloc_segs, initial_space, new}
use segmented_memory_storage.SegList.Owned.{
  count, count_entry, IsOwned, count_entry-le, count-append, addresses, count-addresses,
  alloc_segs-addresses,
}
use segmented_memory_storage.SegList.View.{Queues, Represents, HoldsEntry-frame}

length-addresses : (a n : ℕ) → length (addresses a n) ≡ n
length-addresses a zero = refl
length-addresses a (suc n) = ap suc (length-addresses (a + 1) n)

-- `n` fresh segments behind the free ones.
abbrev pub grown : ℕ → SegList → SegList
grown n s = record s {
  free_segs = s.free_segs ++ (alloc_segs n s.memory []).0;
  memory = (alloc_segs n s.memory []).1;
}

module _ (n : ℕ) (s : SegList) where
  pub length-grown : length (grown n s).free_segs ≡ length s.free_segs + n
  length-grown = omega (
    arith,
    length-append s.free_segs (alloc_segs n s.memory []).0,
    ap length (alloc_segs-addresses n s.memory []).0,
    length-addresses s.memory.allocated n,
  )

  grown-IsOwned : IsOwned s → IsOwned (grown n s)
  grown-IsOwned o p =
      let (ptrs, allocated, kept) = alloc_segs-addresses n s.memory [] in
      rw allocated (
        omega (
          arith,
          o p,
          count-append p s.free_segs (alloc_segs n s.memory []).0,
          ap (count p) ptrs,
          count-addresses p s.memory.allocated n,
        ))

  pub grown-Represents : (q : Queues) → Represents s q → Represents (grown n s) q
  grown-Represents q r = record {
    owned = grown-IsOwned r.owned;
    holds = λ k.
        HoldsEntry-frame s.memory.heap (grown n s).memory.heap (HashMap.lookup k s.written) (q k)
          (λ p inside. (alloc_segs-addresses n s.memory []).2 p (below k p inside)) (r.holds k);
  }
    where
      below :
          (k : Text) (p : ℕ)
          → 0 < count_entry p (HashMap.lookup k s.written)
          → p < s.memory.allocated
      below k p inside = elim (Bool-cases (ltb p s.memory.allocated)) [
        | inl yes_below ↦ ltb→lt p s.memory.allocated yes_below
        | inr above ↦
            absurd (omega (arith, count_entry-le p k s.written, rw above at (r.owned p), inside))
      ]

pub grow_segs-grown :
    (s : SegList) → grow_segs true s ≡ (ok tt, grown (initial_space / segment_size) s)
unfolding grow_segs
grow_segs-grown s = refl

abbrev blank : SegList
blank = record {
  written = [];
  free_segs = [];
  memory = record { heap = λ _. zeroed; allocated = 0 };
}

blank-Represents : Represents blank (λ k. none)
unfolding HashMap.lookup
blank-Represents = record { owned = λ p. ground arith; holds = λ k. tt }

-- A new list has no queue, and all of its segments are free.
pub new-Represents :
    (s : SegList) × (new true ≡ ok s)
    × Represents s (λ k. none)
    × (length s.free_segs ≡ initial_space / segment_size)
unfolding new
new-Represents = (
  grown (initial_space / segment_size) blank,
  refl,
  grown-Represents (initial_space / segment_size) blank (λ k. none) blank-Represents,
  length-grown (initial_space / segment_size) blank,
)
