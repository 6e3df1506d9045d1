-- ===== src/Base/Parse/RoundTrip.antt =====
-- Printed numbers, words and lines are read back.
use freezeit_cos.Base.{
  ℕ, zero, suc, ◌+◌, ◌-◌, ◌*◌, ◌^◌, ◌<◌, ◌/◌, ◌%◌, Text, show, show_int, [], ◌∷◌, ◌++◌, some, Bool,
  true, false, ◌&&◌, ℤ, pos, negsuc, ltb, is_empty, if◌then◌else◌, ◌≡◌, refl, arith, digits,
  Bool-cases, inl, inr,
}
use freezeit_cos.Base.Parse.{
  is_whitespace, is_digit, digits_value, parse_unsigned, parse_i32, in_i32, blank_free,
  unsigned_value, nonempty_value,
}

-- A text of decimal digits only.
abbrev pub all_digits : Text → Bool
all_digits [] = true
all_digits (c ∷ s) = is_digit c && all_digits s

digits_value-append :
    (n m : ℕ) (s : Text) (c : ℕ)
    → digits_value n s ≡ some m
    → digits_value n (s ++ c ∷ []) ≡ digits_value m (c ∷ [])
unfolding digits_value
digits_value-append n m [] c h = ground arith
digits_value-append n m (d ∷ s) c h = ground (arith, digits_value-append (n * 10 + (d - 48)) m s c)

-- The last digit, after the earlier ones if there are any.
digits_value-more :
    (b : Bool) (s : Text) (m d : ℕ)
    → d < 10
    → digits_value 0 (if b then [] else s) ≡ some m
    → digits_value 0 ((if b then [] else s) ++ (48 + d) ∷ []) ≡ some (m * 10 + d)
unfolding digits_value
digits_value-more b s m d h e =
    ground (arith, digits_value-append 0 m (if b then [] else s) (48 + d) e)

digits_value-digits : (f n : ℕ) → n < 10 ^ f → digits_value 0 (digits f n) ≡ some n
unfolding digits_value digits
digits_value-digits zero n h = ground arith
digits_value-digits (suc f) n h = elim (Bool-cases (ltb n 10)) [
  | inl e ↦ ground (arith, digits_value-more (ltb n 10) (digits f (n / 10)) 0 (n % 10))
  | inr e ↦ ground (
    arith,
    digits_value-more (ltb n 10) (digits f (n / 10)) (n / 10) (n % 10),
    digits_value-digits f (n / 10),
  )
]

all_digits-append : (s : Text) (c : ℕ) → all_digits (s ++ c ∷ []) ≡ (all_digits s && is_digit c)
all_digits-append [] c = ground arith
all_digits-append (d ∷ s) c = ground (arith, all_digits-append s c)

all_digits-digits : (f n : ℕ) → all_digits (digits f n) ≡ true
unfolding digits
all_digits-digits zero n = refl
all_digits-digits (suc f) n = elim (Bool-cases (ltb n 10)) [
  | inl e ↦ ground arith
  | inr e ↦
      ground
        (arith, all_digits-append (digits f (n / 10)) (48 + n % 10), all_digits-digits f (n / 10))
]

nonempty_value_lem :
    (s : Text) (n : ℕ)
    → all_digits s ≡ true
    → is_empty s ≡ false
    → digits_value 0 s ≡ some n
    → unsigned_value s ≡ some n × nonempty_value s ≡ some n
nonempty_value_lem [] n d e h = ground arith
nonempty_value_lem (c ∷ s) n d e h = ground arith

digits_nonempty : (f n : ℕ) → is_empty (digits (suc f) n) ≡ false
unfolding digits
digits_nonempty f n = append_nonempty (if ltb n 10 then [] else digits f (n / 10)) (48 + n % 10)
  where
    append_nonempty : (s : Text) (c : ℕ) → is_empty (s ++ c ∷ []) ≡ false
    append_nonempty [] c = refl
    append_nonempty (d ∷ s) c = refl

value-show :
    (n : ℕ) → n < 10 ^ 39 → unsigned_value (show n) ≡ some n × nonempty_value (show n) ≡ some n
unfolding show
value-show n h =
    nonempty_value_lem (digits 39 n) n (all_digits-digits 39 n) (digits_nonempty 38 n)
      (digits_value-digits 39 n h)

-- A printed number below the bound of the type is parsed as that number.
pub parse_unsigned-show :
    (bits n : ℕ) → n < 10 ^ 39 → n < 2 ^ bits → parse_unsigned bits (show n) ≡ some n
unfolding parse_unsigned
parse_unsigned-show bits n h b = ground (arith, value-show n h)

unsigned_of_i32 :
    (s : Text) (n : ℕ)
    → unsigned_value s ≡ some n
    → all_digits s ≡ true
    → n < 2 ^ 31
    → parse_i32 s ≡ some (pos n)
unfolding parse_i32
unsigned_of_i32 [] n h d b = ground arith
unsigned_of_i32 (c ∷ s) n h d b = ground arith

pub parse_i32-show : (z : ℤ) → in_i32 z ≡ true → parse_i32 (show_int z) ≡ some z
unfolding parse_i32 show_int show
parse_i32-show (pos n) h =
    unsigned_of_i32 (show n) n (value-show n (ground arith)).0 (all_digits-digits 39 n)
      (ground arith)
parse_i32-show (negsuc n) h = ground (arith, value-show (suc n) (ground arith))

pub all_digits-blank_free : (s : Text) → all_digits s ≡ true → blank_free s ≡ true
unfolding is_whitespace
all_digits-blank_free [] h = refl
all_digits-blank_free (c ∷ s) h = ground (arith, all_digits-blank_free s)

-- A word: not empty, without a blank.
abbrev pub is_word : Text → Bool
is_word [] = false
is_word (c ∷ s) = blank_free (c ∷ s)

is_word_of : (s : Text) → blank_free s ≡ true → is_empty s ≡ false → is_word s ≡ true
is_word_of [] b e = ground arith
is_word_of (c ∷ s) b e = b

pub all_digits-show : (n : ℕ) → all_digits (show n) ≡ true
unfolding show
all_digits-show = all_digits-digits 39

pub show-is_word : (n : ℕ) → is_word (show n) ≡ true
unfolding show
show-is_word n =
    is_word_of (digits 39 n) (all_digits-blank_free (digits 39 n) (all_digits-digits 39 n))
      (digits_nonempty 38 n)

pub show_int-is_word : (z : ℤ) → is_word (show_int z) ≡ true
unfolding show_int is_whitespace
show_int-is_word (pos n) = show-is_word n
show_int-is_word (negsuc n) = all_digits-blank_free (show (suc n)) (all_digits-digits 39 (suc n))
