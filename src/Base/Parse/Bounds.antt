-- ===== src/Base/Parse/Bounds.antt =====
-- A parsed number is one of its type.
use freezeit_cos.Base.{
  ℕ, suc, ◌^◌, ◌+◌, Text, [], ◌∷◌, Option, none, some, true, ℤ, ltb, ◌≡◌, arith,
}
use freezeit_cos.Base.Parse.{
  below, unsigned_value, nonempty_value, parse_unsigned, parse_i32, in_i32, positive, negative,
}

below_bound : (b : ℕ) (o : Option ℕ) (n : ℕ) → below b o ≡ some n → ltb n b ≡ true
below_bound b none n h = ground arith
below_bound b (some m) n h = ground arith

pub parse_unsigned-bound :
    (bits : ℕ) (s : Text) (n : ℕ) → parse_unsigned bits s ≡ some n → ltb n (2 ^ bits) ≡ true
unfolding parse_unsigned
parse_unsigned-bound bits s n h = below_bound (2 ^ bits) (unsigned_value s) n h

positive_bound : (o : Option ℕ) (z : ℤ) → positive (below (2 ^ 31) o) ≡ some z → in_i32 z ≡ true
positive_bound none z h = ground arith
positive_bound (some n) z h = ground arith

negative_bound : (o : Option ℕ) (z : ℤ) → negative (below (2 ^ 31 + 1) o) ≡ some z → in_i32 z ≡ true
negative_bound none z h = ground arith
negative_bound (some ℕ.zero) z h = ground arith
negative_bound (some (suc n)) z h = ground arith

pub parse_i32-bound : (s : Text) (z : ℤ) → parse_i32 s ≡ some z → in_i32 z ≡ true
unfolding parse_i32
parse_i32-bound [] z h = ground arith
parse_i32-bound (c ∷ s) z h =
    ground (arith, positive_bound (unsigned_value (c ∷ s)) z, negative_bound (nonempty_value s) z)
