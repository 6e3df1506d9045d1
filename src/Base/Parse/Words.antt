-- ===== src/Base/Parse/Words.antt =====
-- The words and the lines of a text that was put together from words and lines.
use freezeit_cos.Base.{
  Text, join, List, [], ◌∷◌, ◌++◌, Bool, true, not, ◌&&◌, ◌||◌, ◌==◌, all, ◌≡◌, refl, arith,
}
use mathlib.Core.List.{append-nil, append_assoc}
use freezeit_cos.Base.Parse.{is_whitespace, split_word, split_whitespace, lines, blank_free}
use freezeit_cos.Base.Parse.RoundTrip.{is_word}

split_word-append :
    (w s : Text)
    → blank_free w ≡ true
    → split_word (w ++ s) ≡ (w ++ (split_word s).0, (split_word s).1)
unfolding split_word is_whitespace
split_word-append [] s h = refl
split_word-append (c ∷ w) s h = ground (arith, split_word-append w s)

-- A word and a blank in front of a text are the first of its words.
pub split_whitespace-cons :
    (w s : Text) → is_word w ≡ true → split_whitespace (w ++ (b' ' ∷ s)) ≡ w ∷ split_whitespace s
unfolding split_whitespace
split_whitespace-cons [] s h = ground arith
split_whitespace-cons (c ∷ w) s h = rw (split_word-append (c ∷ w) (b' ' ∷ s) h, append-nil w) refl

pub split_whitespace-word : (w : Text) → is_word w ≡ true → split_whitespace w ≡ w ∷ []
unfolding split_whitespace
split_whitespace-word [] h = ground arith
split_whitespace-word (c ∷ w) h =
    ground (arith, split_word-append (c ∷ w) [] h, append-nil w, append-nil (c ∷ w))

-- A text without the ends of a line.
abbrev pub is_line : Text → Bool
is_line [] = true
is_line (c ∷ s) = not (c == 10 || c == 13) && is_line s

pub is_line-append : (s t : Text) → is_line (s ++ t) ≡ (is_line s && is_line t)
is_line-append [] t = refl
is_line-append (c ∷ s) t = ground (arith, is_line-append s t)

pub blank_free-is_line : (s : Text) → blank_free s ≡ true → is_line s ≡ true
unfolding is_whitespace
blank_free-is_line [] h = refl
blank_free-is_line (c ∷ s) h = ground (arith, blank_free-is_line s)

lines-cons : (l s : Text) → is_line l ≡ true → lines (l ++ (10 ∷ s)) ≡ l ∷ lines s
unfolding lines
lines-cons [] s h = refl
lines-cons (c ∷ l) s h = ground (arith, lines-cons l s)

-- Lines joined by newlines, with one at the end, are read back.
pub lines-join :
    (l : Text) (ls : List Text)
    → all is_line (l ∷ ls) ≡ true
    → lines (join (10 ∷ []) (l ∷ ls) ++ 10 ∷ []) ≡ l ∷ ls
unfolding join lines
lines-join l [] h = lines-cons l [] (ground arith)
lines-join l (k ∷ ls) h = ground (
  arith,
  lines-cons l (join (10 ∷ []) (k ∷ ls) ++ 10 ∷ []),
  append_assoc l (10 ∷ join (10 ∷ []) (k ∷ ls)) (10 ∷ []),
  lines-join k ls,
)
