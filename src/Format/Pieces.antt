-- ===== src/Format/Pieces.antt =====
-- What `Format` of format.h makes of pieces that fit, and of a string that does not.
use green_turtle.Base.{
  ℕ, suc, ◌-◌, ◌≤◌, ◌<◌, ◌≡◌, refl, sym, ap, ◌∙◌, some, List, [], ◌∷◌, ◌++◌, arith, lt→ltb, le→ltb,
  ==_of_ne, length, take, append-nil, append_assoc, length-append,
}
use green_turtle.Format.{Piece, number, string, format}

abbrev pub text_of : Piece → List ℕ
text_of (number text) = text
text_of (string text) = text

abbrev pub texts : List Piece → List ℕ
texts [] = []
texts (p ∷ ps) = text_of p ++ texts ps

step :
    (p : Piece) (written : List ℕ) (left : ℕ) (ps : List Piece)
    → length (text_of p) ≤ left
    → format written left (p ∷ ps) ≡ format (written ++ text_of p) (left - length (text_of p)) ps
unfolding format
step (number text) written left ps fits = rw (le→ltb left (length text) fits) refl
step (string text) written left ps fits = rw (le→ltb left (length text) fits) refl

-- Pieces that fit together are written one after the other.
pub format_lem :
    (ps : List Piece) (written : List ℕ) (left : ℕ)
    → length (texts ps) ≤ left
    → format written left ps ≡ some (written ++ texts ps)
unfolding format
format_lem [] written left fits = ap some (sym (append-nil written))
format_lem (p ∷ ps) written left fits =
    let longer = length-append (text_of p) (texts ps) in
    step p written left ps (omega arith)
    ∙ format_lem ps (written ++ text_of p) (left - length (text_of p)) (omega arith)
    ∙ ap some (append_assoc written (text_of p) (texts ps))

-- A string that does not fit is not reported: the last character before it is taken back, and
-- formatting goes on from there with a buffer that seems larger by one.
pub string_takes_back :
    (text written : List ℕ) (left : ℕ) (ps : List Piece)
    → left < length text
    → 0 < length written
    → format written left (string text ∷ ps)
      ≡ format (take (length written - 1) written) (suc left) ps
unfolding format
string_takes_back text written left ps long started =
    rw (lt→ltb left (length text) long, ==_of_ne {a = length written} {b = 0} (omega arith)) refl
