-- ===== src/Format/Upper/Buffer.antt =====
-- `ToUpper` of format.h beside `toupper` of one character.
use green_turtle.Base.{
  ℕ, zero, suc, ◌<◌, ◌≡◌, refl, ap, ◌∙◌, none, some, List, [], ◌∷◌, ◌++◌, map, arith, ltb,
  if◌then◌else◌, length, take, drop,
}
use green_turtle.Format.Upper.{bytes_of, toupper, upper_all, to_upper}
use green_turtle.Format.Upper.Words.{bytes_of-join, upper_word_lem}

upper_lt : (b : ℕ) → b < 256 → toupper b < 256
upper_lt b h = ground arith

abbrev pub AllBytes : List ℕ → Type 0
AllBytes [] = Unit
AllBytes (b ∷ bs) = (b < 256) × AllBytes bs

take-AllBytes : (n : ℕ) (bs : List ℕ) → AllBytes bs → AllBytes (take n bs)
take-AllBytes zero bs h = tt
take-AllBytes (suc n) [] h = tt
take-AllBytes (suc n) (b ∷ bs) h = (h.0, take-AllBytes n bs h.1)

upper_all-map : (bs : List ℕ) → AllBytes bs → upper_all bs ≡ map toupper bs
unfolding upper_all
upper_all-map [] h = refl
upper_all-map (a ∷ []) h = refl
upper_all-map (a ∷ b ∷ []) h = refl
upper_all-map (a ∷ b ∷ c ∷ []) h = refl
upper_all-map (a ∷ b ∷ c ∷ d ∷ rest) (ha, (hb, (hc, (hd, h)))) =
    ap (λ w. bytes_of w ++ upper_all rest) (upper_word_lem a b c d ha hb hc hd)
    ∙ ap (λ w. w ++ upper_all rest)
        (bytes_of-join (toupper a) (toupper b) (toupper c) (toupper d) (upper_lt a ha)
          (upper_lt b hb) (upper_lt c hc) (upper_lt d hd))
    ∙ ap (λ r. toupper a ∷ toupper b ∷ toupper c ∷ toupper d ∷ r) (upper_all-map rest h)

-- The first `len` characters of a buffer of bytes become what `toupper` makes of each, also in a
-- word with bytes from 128 on, and the one after them becomes 0; the rest stays. This needs a
-- buffer that is longer than `len`, and fails for every other.
pub to_upper_lem :
    (buffer : List ℕ) (len : ℕ)
    → AllBytes buffer
    → to_upper buffer len ≡ (
        if ltb len (length buffer)
        then some (map toupper (take len buffer) ++ (0 ∷ drop (suc len) buffer))
        else none)
unfolding to_upper
to_upper_lem buffer len bytes =
    rw (upper_all-map (take len buffer) (take-AllBytes len buffer bytes)) refl
