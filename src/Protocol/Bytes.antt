-- ===== src/Protocol/Bytes.antt =====
-- Words of 32 bits as four bytes: `to_le_bytes` and `from_le_bytes` of `u32` and `i32`.
use freezeit_cos.Base.{
  ℕ, ◌+◌, ◌-◌, ◌*◌, ◌/◌, ◌%◌, ◌^◌, ◌<◌, List, [], ◌∷◌, all, Bool, true, ltb, ℤ, pos, negsuc,
  if◌then◌else◌, ◌≡◌, ap, ◌∙◌, arith,
}
use freezeit_cos.Base.Parse.{in_i32}

abbrev pub Bytes : Type 0
Bytes = List ℕ

abbrev pub is_byte : ℕ → Bool
is_byte b = ltb b 256

unfoldable pub u32_to_le_bytes : ℕ → Bytes
u32_to_le_bytes n = (n % 256) ∷ (n / 256 % 256) ∷ (n / 65_536 % 256) ∷ (n / 16_777_216 % 256) ∷ []

abbrev pub u32_from_le_bytes : ℕ → ℕ → ℕ → ℕ → ℕ
u32_from_le_bytes a b c d = a + b * 256 + c * 65_536 + d * 16_777_216

-- `as u32` of an `i32`, and back
abbrev pub as_u32 : ℤ → ℕ
as_u32 (pos n) = n
as_u32 (negsuc n) = 2 ^ 32 - 1 - n

abbrev pub as_i32 : ℕ → ℤ
as_i32 n = if ltb n (2 ^ 31) then pos n else negsuc (2 ^ 32 - 1 - n)

abbrev pub i32_to_le_bytes : ℤ → Bytes
i32_to_le_bytes z = u32_to_le_bytes (as_u32 z)

abbrev pub i32_from_le_bytes : ℕ → ℕ → ℕ → ℕ → ℤ
i32_from_le_bytes a b c d = as_i32 (u32_from_le_bytes a b c d)

-- The bytes of a word are read back.
pub word_round_trip :
    (n : ℕ)
    → n < 2 ^ 32
    → u32_from_le_bytes (n % 256) (n / 256 % 256) (n / 65_536 % 256) (n / 16_777_216 % 256) ≡ n
word_round_trip n h = omega arith

-- Four bytes are the bytes of the word that they are read as.
pub bytes_round_trip :
    (a b c d : ℕ)
    → all is_byte (a ∷ b ∷ c ∷ d ∷ []) ≡ true
    → u32_to_le_bytes (u32_from_le_bytes a b c d) ≡ a ∷ b ∷ c ∷ d ∷ []
unfolding u32_to_le_bytes
bytes_round_trip a b c d h = ground arith

pub word_bound :
    (a b c d : ℕ) → all is_byte (a ∷ b ∷ c ∷ d ∷ []) ≡ true → u32_from_le_bytes a b c d < 2 ^ 32
word_bound a b c d h = ground arith

pub as_i32-as_u32 : (z : ℤ) → in_i32 z ≡ true → as_i32 (as_u32 z) ≡ z
as_i32-as_u32 (pos n) h = ground arith
as_i32-as_u32 (negsuc n) h = ground arith

pub as_u32-as_i32 : (n : ℕ) → n < 2 ^ 32 → as_u32 (as_i32 n) ≡ n
as_u32-as_i32 n h = ground arith

pub as_u32-bound : (z : ℤ) → in_i32 z ≡ true → as_u32 z < 2 ^ 32
as_u32-bound (pos n) h = ground arith
as_u32-bound (negsuc n) h = ground arith

-- A word that is written and read as a signed number.
pub i32_round_trip :
    (z : ℤ)
    → in_i32 z ≡ true
    → (let n = as_u32 z in
        i32_from_le_bytes (n % 256) (n / 256 % 256) (n / 65_536 % 256) (n / 16_777_216 % 256))
      ≡ z
i32_round_trip z h = ap as_i32 (word_round_trip (as_u32 z) (as_u32-bound z h)) ∙ as_i32-as_u32 z h
