-- ===== src/Segment.antt =====
-- One 64 KB segment of raw memory, as `alloc_zeroed`, `ptr::copy_nonoverlapping` and
-- `ptr::write_bytes` see it (server/src/db/seg_log.rs and server/src/db/seg_list.rs). An access
-- that leaves the segment is undefined behaviour in the source, and `none` here.
use segmented_memory_storage.Common.{
  ℕ, zero, suc, ◌+◌, ◌*◌, ◌≤◌, ◌<◌, ◌≡◌, refl, sym, ◌∙◌, ap, append_injective, Option, none, some,
  List, [], ◌∷◌, ◌++◌, arith, leb, ◌==◌, length, if◌then◌else◌, ◌⊎◌,
}

abbrev pub segment_size : ℕ
segment_size = 64 * 1024

abbrev pub header_size : ℕ
header_size = 8 + 8 + 4

-- The byte at each offset.
abbrev pub Segment : Type 0
Segment = ℕ → ℕ

abbrev pub zeroed : Segment
zeroed = λ _. 0

-- Bytes from an offset on, with no bounds.
pub bytes_at : Segment → ℕ → ℕ → List ℕ
bytes_at seg off zero = []
bytes_at seg off (suc n) = seg off ∷ bytes_at seg (off + 1) n

pub put_at : Segment → ℕ → List ℕ → Segment
put_at seg off [] = seg
put_at seg off (b ∷ bs) = put_at (λ i. if i == off then b else seg i) (off + 1) bs

-- `copy_nonoverlapping(bytes, seg.add(off), bytes.len())`
unfoldable pub copy_to : Segment → ℕ → List ℕ → Option Segment
unfolding put_at
copy_to seg off bytes =
    if leb (off + length bytes) segment_size then some (put_at seg off bytes) else none

-- A read of `n` bytes through a pointer, or a copy out of the segment.
unfoldable pub copy_from : Segment → ℕ → ℕ → Option (List ℕ)
unfolding bytes_at
copy_from seg off n = if leb (off + n) segment_size then some (bytes_at seg off n) else none

pub copy_to_within :
    (seg : Segment) (off : ℕ) (bytes : List ℕ)
    → off + length bytes ≤ segment_size
    → copy_to seg off bytes ≡ some (put_at seg off bytes)
unfolding copy_to
copy_to_within seg off bytes h = ground arith

pub copy_from_within :
    (seg : Segment) (off n : ℕ)
    → off + n ≤ segment_size
    → copy_from seg off n ≡ some (bytes_at seg off n)
unfolding copy_from
copy_from_within seg off n h = ground arith

pub length-bytes_at : (seg : Segment) (off n : ℕ) → length (bytes_at seg off n) ≡ n
unfolding bytes_at
length-bytes_at seg off zero = refl
length-bytes_at seg off (suc n) = ap suc (length-bytes_at seg (off + 1) n)

put_at_outside :
    (seg : Segment) (off i : ℕ) (bs : List ℕ)
    → (i < off) ⊎ (off + length bs ≤ i)
    → put_at seg off bs i ≡ seg i
unfolding put_at
put_at_outside seg off i [] h = refl
put_at_outside seg off i (b ∷ bs) h =
    ground (arith, put_at_outside (λ j. if j == off then b else seg j) (off + 1) i bs)

-- A write leaves the bytes outside its range alone.
pub bytes_at-put_at_apart :
    (seg : Segment) (off at n : ℕ) (bs : List ℕ)
    → (at + n ≤ off) ⊎ (off + length bs ≤ at)
    → bytes_at (put_at seg off bs) at n ≡ bytes_at seg at n
unfolding bytes_at
bytes_at-put_at_apart seg off at zero bs h = refl
bytes_at-put_at_apart seg off at (suc n) bs h =
    ground (arith, put_at_outside seg off at bs, bytes_at-put_at_apart seg off (at + 1) n bs)

-- What was written is read back.
pub bytes_at-put_at_self :
    (seg : Segment) (off : ℕ) (bs : List ℕ) → bytes_at (put_at seg off bs) off (length bs) ≡ bs
unfolding bytes_at put_at
bytes_at-put_at_self seg off [] = refl
bytes_at-put_at_self seg off (b ∷ bs) = ground (
  arith,
  put_at_outside (λ j. if j == off then b else seg j) (off + 1) off bs,
  bytes_at-put_at_self (λ j. if j == off then b else seg j) (off + 1) bs,
)

-- A read of a range is a read of its first part and one of the rest.
pub bytes_at-add :
    (seg : Segment) (off m n : ℕ)
    → bytes_at seg off (m + n) ≡ bytes_at seg off m ++ bytes_at seg (off + m) n
unfolding bytes_at
bytes_at-add seg off zero n =
    let e : 0 + n ≡ n = omega arith in let d : off + 0 ≡ off = omega arith in rw (e, d)
bytes_at-add seg off (suc m) n =
    let e : suc m + n ≡ suc (m + n) = omega arith in
    let d : off + suc m ≡ off + 1 + m = omega arith in rw (e, d, bytes_at-add seg (off + 1) m n)

-- Two adjacent writes are one.
pub put_at-append :
    (seg : Segment) (off : ℕ) (xs ys : List ℕ)
    → put_at (put_at seg off xs) (off + length xs) ys ≡ put_at seg off (xs ++ ys)
unfolding put_at
put_at-append seg off [] ys = let d : off + 0 ≡ off = omega arith in rw d
put_at-append seg off (x ∷ xs) ys =
    let d : off + suc (length xs) ≡ off + 1 + length xs = omega arith in
    rw d (put_at-append (λ i. if i == off then x else seg i) (off + 1) xs ys)

-- A range that holds `xs ++ ys` holds `xs` first and `ys` behind it.
pub bytes_at_split :
    (seg : Segment) (off m n : ℕ) (xs ys : List ℕ)
    → length xs ≡ m
    → bytes_at seg off (m + n) ≡ xs ++ ys
    → (bytes_at seg off m ≡ xs) × (bytes_at seg (off + m) n ≡ ys)
bytes_at_split seg off m n xs ys e h =
    append_injective (bytes_at seg off m) xs _ _ (length-bytes_at seg off m ∙ sym e)
      (sym (bytes_at-add seg off m n) ∙ h)
