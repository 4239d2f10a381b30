-- ===== src/Groups/Window.antt =====
-- The entries of a log in a range of ids (server/src/db/seg_log.rs).
use mathlib.Core.Option.{some-injective}
use segmented_memory_storage.Common.{
  ℕ, suc, ◌+◌, ◌-◌, ◌≤◌, ◌<◌, ◌≡◌, refl, ap, sym, ◌∙◌, ◌&&◌, some, List, [], ◌∷◌, arith, select,
  ltb, leb, ◌==◌, if◌then◌else◌, Bool-cases, inl, inr, ==_iff,
}
use segmented_memory_storage.Common.BTreeMap.{BTreeMap}
use segmented_memory_storage.Segment.{Segment}
use segmented_memory_storage.SegLog.State.{EntryLoc}
use segmented_memory_storage.SegLog.Stored.{Entry, Stored, address, find_id, ids_between}

-- The entries with `n` ids from `lo` on.
abbrev pub window : ℕ → ℕ → List Entry → List Entry
window lo n = select (λ e. leb lo e.0 && ltb e.0 (lo + n))

pub window_none : (lo : ℕ) (es : List Entry) → window lo 0 es ≡ []
window_none lo [] = refl
window_none lo (e ∷ es) = ground (arith, window_none lo es)

pub window-ids_between :
    (start end : ℕ) (es : List Entry)
    → start ≤ end
    → window start (suc end - start) es ≡ ids_between start end es
window-ids_between start end [] h = refl
window-ids_between start end (e ∷ es) h = ground (arith, h, window-ids_between start end es h)

-- Where all ids are above, the window may start further up.
window_above :
    (segs : List Segment) (id a id' a' lo n : ℕ) (m : BTreeMap EntryLoc) (es : List Entry)
    → Stored segs id a id' a' m es
    → lo < id
    → window lo (suc n) es ≡ window (lo + 1) n es
window_above segs id a id' a' lo n [] [] h above = refl
window_above segs id a id' a' lo n [] (e ∷ es) h above = absurd h
window_above segs id a id' a' lo n (p ∷ m) [] h above = absurd h
window_above segs id a id' a' lo n (p ∷ m) (e ∷ es) h above =
    let first : id ≤ e.0 = h.0 in
    let rest =
      window_above segs (e.0 + 1) (address p.1 + p.1.len) id' a' lo n m es h.4
        (omega (arith, above, first)) in
    ground (arith, above, first, rest)

find_id_from :
    (segs : List Segment) (id a id' a' : ℕ) (m : BTreeMap EntryLoc) (es : List Entry) (k : ℕ)
    (e : Entry)
    → Stored segs id a id' a' m es
    → find_id k es ≡ some e
    → id ≤ k
find_id_from segs id a id' a' m [] k e h f = cc
find_id_from segs id a id' a' [] (g ∷ es) k e h f = absurd h
find_id_from segs id a id' a' (p ∷ m) (g ∷ es) k e h f = elim (Bool-cases (k == g.0)) [
  | inl same ↦ omega (arith, h.0, (==_iff k g.0).0 same)
  | inr other ↦ omega (
    arith,
    h.0,
    find_id_from segs (g.0 + 1) (address p.1 + p.1.len) id' a' m es k e h.4
        (sym (ap (λ t. if t then some g else find_id k es) other) ∙ f),
  )
]

pub window_next :
    (segs : List Segment) (id a id' a' lo n : ℕ) (m : BTreeMap EntryLoc) (es : List Entry)
    (f : Entry)
    → Stored segs id a id' a' m es
    → find_id lo es ≡ some f
    → window lo (suc n) es ≡ f ∷ window (lo + 1) n es
window_next segs id a id' a' lo n m [] f h there = cc
window_next segs id a id' a' lo n [] (e ∷ es) f h there = absurd h
window_next segs id a id' a' lo n (p ∷ m) (e ∷ es) f h there = elim (Bool-cases (lo == e.0)) [
  | inl same ↦
      let is : some e ≡ some f = sym (ap (λ t. if t then some e else find_id lo es) same) ∙ there in
      let at_lo : lo ≡ e.0 = (==_iff lo e.0).0 same in
      let rest =
        window_above segs (e.0 + 1) (address p.1 + p.1.len) id' a' lo n m es h.4
          (omega (arith, at_lo)) in
      let kept : window lo (suc n) (e ∷ es) ≡ e ∷ window (lo + 1) n (e ∷ es) =
        ground (arith, at_lo, rest) in
      kept ∙ ap (λ g. g ∷ window (lo + 1) n (e ∷ es)) (some-injective e f is)
  | inr other ↦
      let later : find_id lo es ≡ some f =
        sym (ap (λ t. if t then some e else find_id lo es) other) ∙ there in
      let rest = window_next segs (e.0 + 1) (address p.1 + p.1.len) id' a' lo n m es f h.4 later in
      let below = find_id_from segs (e.0 + 1) (address p.1 + p.1.len) id' a' m es lo f h.4 later in
      ground (arith, below, rest)
]
