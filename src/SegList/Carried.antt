-- ===== src/SegList/Carried.antt =====
-- A segmented list in the middle of a call (server/src/db/seg_list.rs): some segments have been taken
-- out of a list and are not free yet.
use segmented_memory_storage.Common.{
  ℕ, ◌+◌, ◌≡◌, refl, ap, some, List, [], ◌∷◌, ◌++◌, arith, ltb, if◌then◌else◌, Bool-cases, inl, inr,
  ne→==,
}
use segmented_memory_storage.Common.HashMap
use segmented_memory_storage.Common.HashMap.{HashMap}
use segmented_memory_storage.Common.Texts.{Text, text_eq}
use segmented_memory_storage.Segment.{Segment, zeroed}
use segmented_memory_storage.SegList.State.{Pointer, SegList}
use segmented_memory_storage.SegList.Ops.{write_heap, release, release_all, zero_all}
use segmented_memory_storage.SegList.Owned.{
  count, count_written, count_entry, owners, count_entry-le, count-append, count_written-insert,
}
use segmented_memory_storage.SegList.Payload.{read_payload-HoldsPayload}
use segmented_memory_storage.SegList.View.{
  Queues, assign, HoldsAll, HoldsEntry, Represents, HoldsAll_frame, HoldsEntry-frame,
}

-- The segments in `hand` hold `xs`, and belong to nobody else.
pub record Carries (s : SegList) (hand : List Pointer) (xs : List (List ℕ)) (q : Queues)
    : Type 0 where
  pub owned : (p : ℕ) → owners p s + count p hand ≡ (if ltb p s.memory.allocated then 1 else 0)
  pub holds : (k : Text) → HoldsEntry s.memory.heap (HashMap.lookup k s.written) (q k)
  pub carried : HoldsAll s.memory.heap hand xs

pub HoldsEntry-insert :
    (heap : Pointer → Segment) (m : HashMap (List Pointer)) (q : Queues) (key : Text)
    (ps : List Pointer) (xs : List (List ℕ))
    → ((k : Text) → HoldsEntry heap (HashMap.lookup k m) (q k))
    → HoldsAll heap ps xs
    → (k : Text) → HoldsEntry heap (HashMap.lookup k (HashMap.insert key ps m)) (assign key xs q k)
HoldsEntry-insert heap m q key ps xs h held k =
    rw (HashMap.lookup-insert key k ps m)
      (elim (Bool-cases (text_eq key k)) [ inl same ↦ rw same held | inr other ↦ rw other (h k) ])

-- Part of a list is taken out.
pub detach-Carries :
    (s : SegList) (q : Queues) (key : Text) (old kept hand : List Pointer) (ys xs : List (List ℕ))
    → Represents s q
    → HashMap.lookup key s.written ≡ some old
    → ((p : ℕ) → count p old ≡ count p kept + count p hand)
    → HoldsAll s.memory.heap kept ys
    → HoldsAll s.memory.heap hand xs
    → Carries (record s { written = HashMap.insert key kept s.written }) hand xs (assign key ys q)
detach-Carries s q key old kept hand ys xs r found parts held taken = record {
  owned = λ p. omega (
    arith,
    r.owned p,
    parts p,
    count_written-insert p key kept s.written,
    ap (count_entry p) found,
  );
  holds = HoldsEntry-insert s.memory.heap s.written q key kept ys r.holds held;
  carried = taken;
}

-- The state after one segment has been given back.
abbrev pub freed : Pointer → SegList → SegList
freed p s = record s { memory = write_heap p zeroed s.memory; free_segs = s.free_segs ++ p ∷ [] }

pub freed-Carries :
    (s : SegList) (p : Pointer) (hand : List Pointer) (x : List ℕ) (xs : List (List ℕ)) (q : Queues)
    → Carries s (p ∷ hand) (x ∷ xs) q
    → Carries (freed p s) hand xs q
freed-Carries s p hand x xs q c = record {
  owned = λ r. omega (arith, c.owned r, count-append r s.free_segs (p ∷ []));
  holds = λ k.
      HoldsEntry-frame s.memory.heap (freed p s).memory.heap (HashMap.lookup k s.written) (q k)
        (λ r inside. rw (
          ne→== r p (λ e. absurd (
            omega (
              arith,
              at_p,
              ap (λ t. count_entry t (HashMap.lookup k s.written)) e,
              count_entry-le p k s.written,
              inside,
            )))))
        (c.holds k);
  carried =
      HoldsAll_frame s.memory.heap (freed p s).memory.heap hand xs
        (λ r inside.
          rw (ne→== r p (λ e. absurd (omega (arith, at_p, ap (λ t. count t hand) e, inside)))))
        c.carried.1;
}
  where
    at_p : count_written p s.written + count p hand ≡ 0
    at_p = ground (arith, c.owned p)

-- One segment is read and given back.
pub release-freed :
    (s : SegList) (p : Pointer) (hand : List Pointer) (x : List ℕ) (xs : List (List ℕ)) (q : Queues)
    → Carries s (p ∷ hand) (x ∷ xs) q
    → release p s ≡ some (x, freed p s)
unfolding release
release-freed s p hand x xs q c =
    ground (arith, read_payload-HoldsPayload (s.memory.heap p) x c.carried.0)

-- With nothing left in hand the list is whole again.
pub Carries-Represents : (s : SegList) (q : Queues) → Carries s [] [] q → Represents s q
Carries-Represents s q c = record { owned = λ p. omega (arith, c.owned p); holds = c.holds }

-- The loop of `pop_range` returns the items in order, and gives all segments back.
pub release_all-Represents :
    (hand : List Pointer) (s : SegList) (xs : List (List ℕ)) (q : Queues)
    → Carries s hand xs q
    → (s' : SegList) × (release_all hand s ≡ some (xs, s')) × Represents s' q
unfolding release_all
release_all-Represents [] s [] q c = (s, refl, Carries-Represents s q c)
release_all-Represents [] s (x ∷ xs) q c = absurd c.carried
release_all-Represents (p ∷ hand) s [] q c = absurd c.carried
release_all-Represents (p ∷ hand) s (x ∷ xs) q c =
    let (s', done, r) =
      release_all-Represents hand (freed p s) xs q (freed-Carries s p hand x xs q c) in
    (s', rw (release-freed s p hand x xs q c, done), r)

-- The loop of `flush` gives all segments back.
pub zero_all-Represents :
    (hand : List Pointer) (s : SegList) (xs : List (List ℕ)) (q : Queues)
    → Carries s hand xs q
    → Represents (zero_all hand s) q
unfolding zero_all
zero_all-Represents [] s [] q c = Carries-Represents s q c
zero_all-Represents [] s (x ∷ xs) q c = absurd c.carried
zero_all-Represents (p ∷ hand) s [] q c = absurd c.carried
zero_all-Represents (p ∷ hand) s (x ∷ xs) q c =
    zero_all-Represents hand (freed p s) xs q (freed-Carries s p hand x xs q c)
