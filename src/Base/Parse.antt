-- ===== src/Base/Parse.antt =====
-- Reading text: `str::lines`, `str::split_whitespace` and the `FromStr` of the integers.
pub mod RoundTrip
pub mod Bounds
pub mod Words
use freezeit_cos.Base.{
  ℕ, ◌+◌, ◌-◌, ◌*◌, ◌^◌, Text, List, [], ◌∷◌, Option, none, some, Bool, true, false, ◌||◌, ◌&&◌, ℤ,
  pos, negsuc, ltb, leb, ◌==◌, is_empty, if◌then◌else◌,
}

-- `char::is_whitespace`
unfoldable pub is_whitespace : ℕ → Bool
is_whitespace c =
    (leb 9 c && leb c 13)
    || (c == 32
        || (c == 0x85
            || (c == 0xA0
                || (c == 0x1680
                    || ((leb 0x2000 c && leb c 0x200A)
                        || (c == 0x2028
                            || (c == 0x2029 || (c == 0x202F || (c == 0x205F || c == 0x3000)))))))))

-- A word that is not empty, in front of the others.
abbrev pub flush : Text × List Text → List Text
flush ([], words) = words
flush (c ∷ word, words) = (c ∷ word) ∷ words

-- The word that the text starts with, and the words after it.
unfoldable pub split_word : Text → Text × List Text
unfolding is_whitespace
split_word [] = ([], [])
split_word (c ∷ s) =
    let rest = split_word s in if is_whitespace c then ([], flush rest) else (c ∷ rest.0, rest.1)

unfoldable pub split_whitespace : Text → List Text
unfolding split_word
split_whitespace s = flush (split_word s)

abbrev pub cons_first : ℕ → List Text → List Text
cons_first c [] = (c ∷ []) ∷ []
cons_first c (l ∷ ls) = (c ∷ l) ∷ ls

abbrev pub at_newline : Text → Bool
at_newline [] = false
at_newline (c ∷ s) = c == 10

-- `\n` or `\r\n` ends a line
unfoldable pub lines : Text → List Text
lines [] = []
lines (c ∷ s) =
    let rest = lines s in
    if c == 10 then [] ∷ rest else if c == 13 && at_newline s then rest else cons_first c rest

abbrev pub is_digit : ℕ → Bool
is_digit c = leb 48 c && leb c 57

-- The number that the digits denote, from the left.
unfoldable pub digits_value : ℕ → Text → Option ℕ
digits_value n [] = some n
digits_value n (c ∷ s) =
    let more = digits_value (n * 10 + (c - 48)) s in if is_digit c then more else none

abbrev pub nonempty_value : Text → Option ℕ
nonempty_value [] = none
nonempty_value (c ∷ s) = digits_value 0 (c ∷ s)

abbrev pub unsigned_value : Text → Option ℕ
unsigned_value [] = none
unsigned_value (c ∷ s) = if c == 43 then nonempty_value s else nonempty_value (c ∷ s)

abbrev pub below : ℕ → Option ℕ → Option ℕ
below bound none = none
below bound (some n) = if ltb n bound then some n else none

-- `u32::from_str`, `u64::from_str`, by the number of bits: an optional plus sign and digits.
unfoldable pub parse_unsigned : ℕ → Text → Option ℕ
parse_unsigned bits s = below (2 ^ bits) (unsigned_value s)

abbrev pub positive : Option ℕ → Option ℤ
positive none = none
positive (some n) = some (pos n)

abbrev pub negated : ℕ → ℤ
negated ℕ.zero = pos 0
negated (ℕ.suc n) = negsuc n

abbrev pub negative : Option ℕ → Option ℤ
negative none = none
negative (some n) = some (negated n)

-- `i32::from_str`
unfoldable pub parse_i32 : Text → Option ℤ
parse_i32 [] = none
parse_i32 (c ∷ s) =
    if c == 45
    then negative (below (2 ^ 31 + 1) (nonempty_value s))
    else positive (below (2 ^ 31) (unsigned_value (c ∷ s)))

-- A number that `i32` holds.
abbrev pub in_i32 : ℤ → Bool
in_i32 (pos n) = ltb n (2 ^ 31)
in_i32 (negsuc n) = ltb n (2 ^ 31)

-- A text without a blank: what stands between two blanks.
abbrev pub blank_free : Text → Bool
unfolding is_whitespace
blank_free [] = true
blank_free (c ∷ s) = (if is_whitespace c then false else true) && blank_free s
