-- ===== src/Common/Utf8.antt =====
-- `std::str::from_utf8`: which byte sequences are UTF-8.
use segmented_memory_storage.Common.{
  ℕ, zero, suc, ◌<◌, ◌≡◌, refl, All, arith, Bool, true, false, Option, none, some, List, [], ◌∷◌,
  ◌&&◌, leb, ltb, ◌==◌, if◌then◌else◌,
}

-- How many bytes are still to come in the character, and the range of the next of them.
abbrev Expect : Type 0
Expect = ℕ × ℕ × ℕ

-- What the first byte of a character announces.
lead : ℕ → Option Expect
lead b =
    if ltb b 0x80
    then some (0, 0x80, 0xbf)
    else (if ltb b 0xc2
        then none
        else (if ltb b 0xe0
            then some (1, 0x80, 0xbf)
            else (if b == 0xe0
                then some (2, 0xa0, 0xbf)
                else (if b == 0xed
                    then some (2, 0x80, 0x9f)
                    else (if ltb b 0xf0
                        then some (2, 0x80, 0xbf)
                        else (if b == 0xf0
                            then some (3, 0x90, 0xbf)
                            else (if ltb b 0xf4
                                then some (3, 0x80, 0xbf)
                                else (if b == 0xf4 then some (3, 0x80, 0x8f) else none))))))))

next : Expect → ℕ → Option Expect
unfolding lead
next (zero, _, _) b = lead b
next (suc n, lo, hi) b = if leb lo b && leb b hi then some (n, 0x80, 0xbf) else none

scan : Expect → List ℕ → Bool
unfolding next
scan e [] = e.0 == 0
scan e (b ∷ bs) = elim (next e b) [ none ↦ false | some e' ↦ scan e' bs ]

unfoldable pub is_utf8 : List ℕ → Bool
unfolding scan
is_utf8 = scan (0, 0x80, 0xbf)

scan_ascii : (bs : List ℕ) → All (λ b. b < 128) bs → scan (0, 0x80, 0xbf) bs ≡ true
unfolding scan next lead
scan_ascii [] h = refl
scan_ascii (b ∷ bs) h = ground (arith, scan_ascii bs h.1)

-- ASCII is UTF-8.
pub is_utf8_of_ascii : (bs : List ℕ) → All (λ b. b < 128) bs → is_utf8 bs ≡ true
unfolding is_utf8
is_utf8_of_ascii bs h = scan_ascii bs h
