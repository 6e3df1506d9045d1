-- ===== src/Settings.antt =====
-- The manager's settings and their normal form: freezeitDaemon/src/protocol/manager_v1.rs.
use freezeit_cos.Base.{
  ℕ, zero, suc, ◌≤◌, min, ltb, get_elem?, unwrap_or, List, [], ◌∷◌, ◌++◌, length, Option, none,
  some, Bool, true, false, ◌&&◌, ◌==◌, ==_iff, ◌≡◌, refl, arith, if◌then◌else◌, ◌∙◌,
}

-- `vec![value; count]`
abbrev pub replicate : ℕ → ℕ → List ℕ
replicate zero value = []
replicate (suc count) value = value ∷ replicate count value

-- The first twenty bytes, and 236 more.
unfoldable pub legacy_default_settings : List ℕ
legacy_default_settings =
    (8 ∷ 0 ∷ 10 ∷ 4 ∷ 20 ∷ 0 ∷ 2 ∷ 0 ∷ 0 ∷ 0 ∷ 1 ∷ 0 ∷ 0 ∷ 1 ∷ 0 ∷ 0 ∷ 1 ∷ 1 ∷ 0 ∷ 1 ∷ [])
    ++ replicate 236 0

-- `settings[idx] = byte` for the bytes in turn, while there is room.
unfoldable pub overwrite : List ℕ → List ℕ → List ℕ
overwrite [] bytes = []
overwrite (s ∷ settings) [] = s ∷ settings
overwrite (s ∷ settings) (b ∷ bytes) = b ∷ overwrite settings bytes

-- `settings[0] = 8`
abbrev with_version : List ℕ → List ℕ
with_version [] = []
with_version (s ∷ settings) = 8 ∷ settings

-- `bytes.first() == Some(&8)`
abbrev starts_with_version : List ℕ → Bool
starts_with_version [] = false
starts_with_version (b ∷ bytes) = b == 8

unfoldable pub normalize_settings : Option (List ℕ) → List ℕ
normalize_settings none = legacy_default_settings
normalize_settings (some bytes) =
    if length bytes == 256 && starts_with_version bytes
    then bytes
    else with_version (overwrite legacy_default_settings bytes)

length-overwrite : (settings bytes : List ℕ) → length (overwrite settings bytes) ≡ length settings
unfolding overwrite
length-overwrite [] bytes = refl
length-overwrite (s ∷ settings) [] = refl
length-overwrite (s ∷ settings) (b ∷ bytes) = ground (arith, length-overwrite settings bytes)

length-with_version : (settings : List ℕ) → length (with_version settings) ≡ length settings
length-with_version [] = refl
length-with_version (s ∷ settings) = refl

length-legacy_default : length legacy_default_settings ≡ 256
unfolding legacy_default_settings
length-legacy_default = refl

with_version-starts :
    (settings : List ℕ) → 1 ≤ length settings → starts_with_version (with_version settings) ≡ true
with_version-starts [] h = absurd (omega arith)
with_version-starts (s ∷ settings) h = refl

-- What the daemon holds as settings: 256 bytes, the first of which is the version.
abbrev pub IsNormal : List ℕ → Type 0
IsNormal settings = (length settings ≡ 256) × (starts_with_version settings ≡ true)

overwritten-IsNormal :
    (bytes : List ℕ) → IsNormal (with_version (overwrite legacy_default_settings bytes))
overwritten-IsNormal bytes =
    let size : length (overwrite legacy_default_settings bytes) ≡ 256 =
      length-overwrite legacy_default_settings bytes ∙ length-legacy_default in
    (
      length-with_version (overwrite legacy_default_settings bytes) ∙ size,
      with_version-starts (overwrite legacy_default_settings bytes) (omega (arith, size)),
    )

-- Whatever was stored, the normalized settings have 256 bytes and begin with the version 8.
pub normalize-IsNormal : (stored : Option (List ℕ)) → IsNormal (normalize_settings stored)
unfolding normalize_settings
normalize-IsNormal none = (length-legacy_default, unfold legacy_default_settings in refl)
normalize-IsNormal (some bytes) = ground (arith, overwritten-IsNormal bytes)

-- The byte at an index of the normal form: the version, what was stored, or the default.
abbrev pub normal_byte : List ℕ → ℕ → Option ℕ
normal_byte bytes zero = some 8
normal_byte bytes (suc i) =
    if ltb (suc i) (min (length bytes) 256)
    then get_elem? bytes (suc i)
    else get_elem? legacy_default_settings (suc i)

get_elem?-overwrite :
    (settings bytes : List ℕ) (i : ℕ)
    → get_elem? (overwrite settings bytes) i ≡ (
        if ltb i (min (length bytes) (length settings))
        then get_elem? bytes i
        else get_elem? settings i)
unfolding overwrite
get_elem?-overwrite [] bytes i = ground arith
get_elem?-overwrite (s ∷ settings) [] i = ground arith
get_elem?-overwrite (s ∷ settings) (b ∷ bytes) zero = ground arith
get_elem?-overwrite (s ∷ settings) (b ∷ bytes) (suc i) =
    ground (arith, get_elem?-overwrite settings bytes i)

get_elem?-with_version :
    (settings : List ℕ) (i : ℕ)
    → 1 ≤ length settings
    → get_elem? (with_version settings) i ≡ (if i == 0 then some 8 else get_elem? settings i)
get_elem?-with_version [] i h = absurd (omega arith)
get_elem?-with_version (s ∷ settings) zero h = ground arith
get_elem?-with_version (s ∷ settings) (suc i) h = ground arith

get_elem?-end : (bytes : List ℕ) (i : ℕ) → length bytes ≤ i → get_elem? bytes i ≡ none
get_elem?-end [] i h = refl
get_elem?-end (b ∷ bytes) zero h = absurd (omega arith)
get_elem?-end (b ∷ bytes) (suc i) h = get_elem?-end bytes i (omega (arith, h))

whole_byte :
    (bytes : List ℕ) (i : ℕ)
    → length bytes ≡ 256
    → starts_with_version bytes ≡ true
    → get_elem? bytes i ≡ normal_byte bytes i
whole_byte [] i l v = absurd (omega (arith, l))
whole_byte (b ∷ bytes) zero l v = ground (arith, ==_iff b 8)
whole_byte (b ∷ bytes) (suc i) l v = ground (
  arith,
  get_elem?-end (b ∷ bytes) (suc i),
  get_elem?-end legacy_default_settings (suc i),
  length-legacy_default,
)

overwritten_byte :
    (bytes : List ℕ) (i : ℕ)
    → get_elem? (with_version (overwrite legacy_default_settings bytes)) i ≡ normal_byte bytes i
overwritten_byte bytes i =
    let size : 1 ≤ length (overwrite legacy_default_settings bytes) =
      omega (arith, length-overwrite legacy_default_settings bytes, length-legacy_default) in
    get_elem?-with_version (overwrite legacy_default_settings bytes) i size ∙ go i
  where
    go :
        (i : ℕ)
        → (if i == 0 then some 8 else get_elem? (overwrite legacy_default_settings bytes) i)
          ≡ normal_byte bytes i
    go zero = refl
    go (suc i) =
        ground
          (arith, get_elem?-overwrite legacy_default_settings bytes (suc i), length-legacy_default)

-- The normal form, byte by byte, of whatever was stored, or of nothing: the first byte is the
-- version 8; each further byte below 256 is the stored one where there is one, and the default
-- elsewhere; and there are no more bytes.
pub normalize_settings_lem :
    (stored : Option (List ℕ)) (i : ℕ)
    → get_elem? (normalize_settings stored) i ≡ normal_byte (unwrap_or stored []) i
unfolding normalize_settings
normalize_settings_lem none zero = unfold legacy_default_settings in refl
normalize_settings_lem none (suc i) = ground arith
normalize_settings_lem (some bytes) i =
    ground (arith, ==_iff (length bytes) 256, whole_byte bytes i, overwritten_byte bytes i)
