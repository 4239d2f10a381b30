-- ===== src/SegList/View.antt =====
-- What it is for a segmented list (server/src/db/seg_list.rs) to hold a queue of payloads under each
-- key.
use segmented_memory_storage.Common.{
  ℕ, zero, suc, ◌<◌, ◌≡◌, refl, ap, Option, none, some, List, [], ◌∷◌, ◌++◌, arith, if◌then◌else◌,
  length, eq→==, take, drop,
}
use mathlib.Core.Path.{fun_ext}
use segmented_memory_storage.Common.HashMap
use segmented_memory_storage.Common.HashMap.{HashMap}
use segmented_memory_storage.Common.Texts.{Text, text_eq, text_eq_refl, eq_of_text_eq}
use segmented_memory_storage.Segment.{Segment}
use segmented_memory_storage.SegList.State.{Pointer, SegList}
use segmented_memory_storage.SegList.Owned.{count, count_entry, IsOwned}
use segmented_memory_storage.SegList.Payload.{HoldsPayload}

-- The queues: `none` for a key that has none.
abbrev pub Queues : Type 0
Queues = Text → Option (List (List ℕ))

abbrev pub assign : Text → List (List ℕ) → Queues → Queues
assign k items q = λ j. if text_eq k j then some items else q j

abbrev pub queue : Text → Queues → List (List ℕ)
queue k q = elim (q k) [ none ↦ [] | some items ↦ items ]

pub assign_self : (k : Text) (xs : List (List ℕ)) (q : Queues) → assign k xs q k ≡ some xs
assign_self k xs q = rw (text_eq_refl k)

pub assign_twice :
    (k : Text) (xs ys : List (List ℕ)) (q : Queues) → assign k xs (assign k ys q) ≡ assign k xs q
assign_twice k xs ys q = fun_ext (λ j. ground arith)

-- `assign` of what is there changes nothing.
pub assign_same : (k : Text) (xs : List (List ℕ)) (q : Queues) → q k ≡ some xs → assign k xs q ≡ q
assign_same k xs q e = fun_ext (λ j. ground (arith, eq_of_text_eq k j))

pub queue-assign : (k : Text) (xs : List (List ℕ)) (q : Queues) → queue k (assign k xs q) ≡ xs
queue-assign k xs q = rw (queue, text_eq_refl k)

-- Each segment of a list holds its item, in order.
abbrev pub HoldsAll : (Pointer → Segment) → List Pointer → List (List ℕ) → Type 0
HoldsAll heap [] [] = Unit
HoldsAll heap [] (x ∷ xs) = ⊥
HoldsAll heap (p ∷ ps) [] = ⊥
HoldsAll heap (p ∷ ps) (x ∷ xs) = HoldsPayload (heap p) x × HoldsAll heap ps xs

abbrev pub HoldsEntry :
    (Pointer → Segment) → Option (List Pointer) → Option (List (List ℕ)) → Type 0
HoldsEntry heap none none = Unit
HoldsEntry heap none (some xs) = ⊥
HoldsEntry heap (some ps) none = ⊥
HoldsEntry heap (some ps) (some xs) = HoldsAll heap ps xs

pub record Represents (s : SegList) (q : Queues) : Type 0 where
  pub owned : IsOwned s
  pub holds : (k : Text) → HoldsEntry s.memory.heap (HashMap.lookup k s.written) (q k)

module _ (heap heap' : Pointer → Segment) where
  -- Only the segments of the list matter.
  pub HoldsAll_frame :
      (ps : List Pointer) (xs : List (List ℕ))
      → ((p : ℕ) → 0 < count p ps → heap' p ≡ heap p)
      → HoldsAll heap ps xs
      → HoldsAll heap' ps xs
  HoldsAll_frame [] [] same h = tt
  HoldsAll_frame [] (x ∷ xs) same h = h
  HoldsAll_frame (p ∷ ps) [] same h = h
  HoldsAll_frame (p ∷ ps) (x ∷ xs) same h = (
    rw (same p (rw (eq→== p p refl) (omega arith))) h.0,
    HoldsAll_frame ps xs (λ r inside. same r (omega arith)) h.1,
  )

  pub HoldsEntry-frame :
      (ops : Option (List Pointer)) (oxs : Option (List (List ℕ)))
      → ((p : ℕ) → 0 < count_entry p ops → heap' p ≡ heap p)
      → HoldsEntry heap ops oxs
      → HoldsEntry heap' ops oxs
  HoldsEntry-frame none none same h = tt
  HoldsEntry-frame none (some xs) same h = h
  HoldsEntry-frame (some ps) none same h = h
  HoldsEntry-frame (some ps) (some xs) same h = HoldsAll_frame ps xs same h

pub HoldsAll-append :
    (heap : Pointer → Segment) (ps qs : List Pointer) (xs ys : List (List ℕ))
    → HoldsAll heap ps xs
    → HoldsAll heap qs ys
    → HoldsAll heap (ps ++ qs) (xs ++ ys)
HoldsAll-append heap [] qs [] ys h k = k
HoldsAll-append heap [] qs (x ∷ xs) ys h k = absurd h
HoldsAll-append heap (p ∷ ps) qs [] ys h k = absurd h
HoldsAll-append heap (p ∷ ps) qs (x ∷ xs) ys h k = (h.0, HoldsAll-append heap ps qs xs ys h.1 k)

pub HoldsAll-length :
    (heap : Pointer → Segment) (ps : List Pointer) (xs : List (List ℕ))
    → HoldsAll heap ps xs
    → length ps ≡ length xs
HoldsAll-length heap [] [] h = refl
HoldsAll-length heap [] (x ∷ xs) h = absurd h
HoldsAll-length heap (p ∷ ps) [] h = absurd h
HoldsAll-length heap (p ∷ ps) (x ∷ xs) h = ap suc (HoldsAll-length heap ps xs h.1)

pub HoldsAll-take :
    (heap : Pointer → Segment) (n : ℕ) (ps : List Pointer) (xs : List (List ℕ))
    → HoldsAll heap ps xs
    → HoldsAll heap (take n ps) (take n xs)
HoldsAll-take heap zero ps xs h = tt
HoldsAll-take heap (suc n) [] [] h = tt
HoldsAll-take heap (suc n) [] (x ∷ xs) h = absurd h
HoldsAll-take heap (suc n) (p ∷ ps) [] h = absurd h
HoldsAll-take heap (suc n) (p ∷ ps) (x ∷ xs) h = (h.0, HoldsAll-take heap n ps xs h.1)

pub HoldsAll-drop :
    (heap : Pointer → Segment) (n : ℕ) (ps : List Pointer) (xs : List (List ℕ))
    → HoldsAll heap ps xs
    → HoldsAll heap (drop n ps) (drop n xs)
HoldsAll-drop heap zero ps xs h = h
HoldsAll-drop heap (suc n) [] [] h = tt
HoldsAll-drop heap (suc n) [] (x ∷ xs) h = absurd h
HoldsAll-drop heap (suc n) (p ∷ ps) [] h = absurd h
HoldsAll-drop heap (suc n) (p ∷ ps) (x ∷ xs) h = HoldsAll-drop heap n ps xs h.1
