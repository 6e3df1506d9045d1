-- ===== src/Base/Texts.antt =====
-- Text as code points, its order, searching, and decimal numerals; the keys built from text.
use Prim.Native.Nat.{ℕ, zero, suc, ◌+◌, ◌/◌, ◌%◌, compare, Ordering}
use Prim.Native.Char.{code}
use Prim.Native.String.{String}
use mathlib.Core.Path.{◌≡◌, refl}
use mathlib.Core.Logic.{◌↔◌}
use mathlib.Core.Bool.{Bool, true, false, ◌&&◌, ◌||◌}
use mathlib.Core.Option.{Option, none, some}
use mathlib.Core.List.{List, [], ◌∷◌, ◌++◌, map}
use native.Mathlib.Omega.{arith}
use freezeit_cos.Base.Tests.{ltb, leb, ◌==◌, if◌then◌else◌}
use freezeit_cos.Base.Maps.{Key, beq}
use freezeit_cos.Base.Int.{ℤ, pos, negsuc}

abbrev pub Text : Type 0
Text = List ℕ

-- A string literal of the source.
unfoldable pub txt : String → Text
txt String.[] = []
txt (String.◌∷◌ c s) = code c ∷ txt s

pub compare_iff : (m n : ℕ) → (compare m n ≡ Ordering.eq) ↔ (m ≡ n)
compare_iff m n = ground arith

instance abbrev pub nat_key : Key ℕ
nat_key = record { cmp = compare; cmp_iff = compare_iff }

-- The order in which the second comparison decides where the first says `eq`.
abbrev pub then_with : Ordering → Ordering → Ordering
then_with Ordering.lt o = Ordering.lt
then_with Ordering.eq o = o
then_with Ordering.gt o = Ordering.gt

module _ {ℓ} {A : Type ℓ} ⦃e : Key A⦄ where
  abbrev pub cmp_list : List A → List A → Ordering
  cmp_list [] [] = Ordering.eq
  cmp_list [] (b ∷ m) = Ordering.lt
  cmp_list (a ∷ l) [] = Ordering.gt
  cmp_list (a ∷ l) (b ∷ m) = then_with (e.cmp a b) (cmp_list l m)

  pub cmp_list_iff : (l m : List A) → (cmp_list l m ≡ Ordering.eq) ↔ (l ≡ m)
  cmp_list_iff [] [] = ground arith
  cmp_list_iff [] (b ∷ m) = ground arith
  cmp_list_iff (a ∷ l) [] = ground arith
  cmp_list_iff (a ∷ l) (b ∷ m) = ground (arith, e.cmp_iff a b, cmp_list_iff l m)

  instance abbrev pub list_key : Key (List A)
  list_key = record { cmp = cmp_list; cmp_iff = cmp_list_iff }

  abbrev pub cmp_option : Option A → Option A → Ordering
  cmp_option none none = Ordering.eq
  cmp_option none (some b) = Ordering.lt
  cmp_option (some a) none = Ordering.gt
  cmp_option (some a) (some b) = e.cmp a b

  pub cmp_option_iff : (o p : Option A) → (cmp_option o p ≡ Ordering.eq) ↔ (o ≡ p)
  cmp_option_iff none none = ground arith
  cmp_option_iff none (some b) = ground arith
  cmp_option_iff (some a) none = ground arith
  cmp_option_iff (some a) (some b) = ground (arith, e.cmp_iff a b)

  instance abbrev pub option_key : Key (Option A)
  option_key = record { cmp = cmp_option; cmp_iff = cmp_option_iff }

module _ {ℓ κ} {A : Type ℓ} {B : Type κ} ⦃a : Key A⦄ ⦃b : Key B⦄ where
  abbrev pub cmp_pair : A × B → A × B → Ordering
  cmp_pair (x, y) (x', y') = then_with (a.cmp x x') (b.cmp y y')

  pub cmp_pair_iff : (p q : A × B) → (cmp_pair p q ≡ Ordering.eq) ↔ (p ≡ q)
  cmp_pair_iff (x, y) (x', y') = ground (arith, a.cmp_iff x x', b.cmp_iff y y')

  instance abbrev pub pair_key : Key (A × B)
  pair_key = record { cmp = cmp_pair; cmp_iff = cmp_pair_iff }

starts_with : Text → Text → Bool
starts_with [] s = true
starts_with (c ∷ p) [] = false
starts_with (c ∷ p) (d ∷ s) = c == d && starts_with p s

-- `haystack.contains(needle)`
unfoldable pub contains_text : Text → Text → Bool
unfolding starts_with
contains_text needle [] = starts_with needle []
contains_text needle (c ∷ s) = starts_with needle (c ∷ s) || contains_text needle s

starts_with-append : (p s : Text) → starts_with p (p ++ s) ≡ true
unfolding starts_with
starts_with-append [] s = refl
starts_with-append (c ∷ p) s = ground (arith, starts_with-append p s)

contains_of_starts : (p s : Text) → starts_with p s ≡ true → contains_text p s ≡ true
unfolding contains_text
contains_of_starts p [] h = h
contains_of_starts p (c ∷ s) h = ground arith

pub contains_text-append : (p s : Text) → contains_text p (p ++ s) ≡ true
contains_text-append p s = contains_of_starts p (p ++ s) (starts_with-append p s)

-- `to_ascii_lowercase` of one code point
abbrev lower : ℕ → ℕ
lower c = if leb b'A' c && leb c b'Z' then c + 32 else c

unfoldable pub to_ascii_lowercase : Text → Text
to_ascii_lowercase = map lower

unfoldable pub eq_ignore_ascii_case : Text → Text → Bool
unfolding to_ascii_lowercase
eq_ignore_ascii_case s t = beq (to_ascii_lowercase s) (to_ascii_lowercase t)

-- Decimal digits; the numbers of the program have at most 39 of them.
unfoldable pub digits : ℕ → ℕ → Text
digits zero n = []
digits (suc f) n =
    let more = digits f (n / 10) in (if ltb n 10 then [] else more) ++ ((48 + n % 10) ∷ [])

unfoldable pub show : ℕ → Text
unfolding digits
show = digits 39

unfoldable pub show_int : ℤ → Text
unfolding show
show_int (pos n) = show n
show_int (negsuc n) = b'-' ∷ show (suc n)

-- `[String]::join`
unfoldable pub join : Text → List Text → Text
join sep [] = []
join sep (t ∷ []) = t
join sep (t ∷ u ∷ ts) = t ++ (sep ++ join sep (u ∷ ts))

show_example : show 10123 ≡ txt "10123"
unfolding show txt
show_example = refl
