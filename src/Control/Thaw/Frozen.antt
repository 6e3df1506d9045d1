-- ===== src/Control/Thaw/Frozen.antt =====
-- Which identities a thaw leaves frozen, and what the tracking invariant keeps.
use freezeit_cos.Base.{
  ℕ, Text, List, [], ◌∷◌, ◌++◌, none, Bool, true, false, ◌&&◌, ◌≡◌, refl, arith, any, is_empty,
  contains, lookup, keys, beq, lookup-remove, list_key, nat_key, pair_key, Map, if◌then◌else◌,
}
use freezeit_cos.Domain.Error.{Result, ok, err}
use freezeit_cos.Domain.Process.{RuntimeProcess}
use freezeit_cos.Control.State.{
  RuntimeControlState, RuntimeIdentity, is_frozen, clear_frozen, stamp_and_push,
}
use freezeit_cos.Control.World.{Env}
use freezeit_cos.Control.Thaw.{
  thaw_discovered, thaw_one, thaw_each, thaw_error, thaw_frozen_identities,
}

pub empty_right : (xs ys : List Text) → is_empty (xs ++ ys) ≡ true → is_empty ys ≡ true
empty_right [] ys e = e
empty_right (x ∷ xs) ys e = cc

pub thaw_error-none : (fs : List Text) → thaw_error fs ≡ none → is_empty fs ≡ true
unfolding thaw_error
thaw_error-none [] e = refl
thaw_error-none (f ∷ fs) e = cc

module _ {W : Type 0} (env : Env W) where
  thaw_discovered-is_frozen :
      (s : RuntimeControlState) (i j : RuntimeIdentity) (r : Result (List RuntimeProcess)) (t : ℕ)
      (reason : Text) (w : W)
      → let out = thaw_discovered env s i r t reason w in
        is_frozen out.0 j ≡ (if beq i j && is_empty out.1 then false else is_frozen s j)
  unfolding thaw_discovered stamp_and_push clear_frozen
  thaw_discovered-is_frozen s i j (err e) t reason w = ground arith
  thaw_discovered-is_frozen s i j (ok []) t reason w =
      ground (arith, lookup-remove i j s.frozen_apps)
  thaw_discovered-is_frozen s (name, uid) j (ok (p ∷ ps)) t reason w =
      ground (arith, lookup-remove (name, uid) j s.frozen_apps)

  thaw_one-is_frozen :
      (s : RuntimeControlState) (i j : RuntimeIdentity) (t : ℕ) (reason : Text) (w : W)
      → let out = thaw_one env s i t reason w in
        is_frozen out.0 j ≡ (if beq i j && is_empty out.1 then false else is_frozen s j)
  unfolding thaw_one
  thaw_one-is_frozen s i j t reason w = thaw_discovered-is_frozen s i j _ t reason _

  -- Failures are only ever added.
  pub thaw_each_failures :
      (s : RuntimeControlState) (is : List RuntimeIdentity) (fs : List Text) (t : ℕ) (reason : Text)
      (w : W)
      → is_empty (thaw_each env s is fs t reason w).1 ≡ true
      → is_empty fs ≡ true
  unfolding thaw_each
  thaw_each_failures s [] fs t reason w e = e
  thaw_each_failures s (i ∷ is) [] t reason w e = refl
  thaw_each_failures s (i ∷ is) (f ∷ fs) t reason w e =
      let out = thaw_one env s i t reason w in
      absurd (cc (thaw_each_failures out.0 is (f ∷ (fs ++ out.1)) t reason out.2 e))

  pub thaw_each_shrinks :
      (s : RuntimeControlState) (is : List RuntimeIdentity) (fs : List Text) (t : ℕ) (reason : Text)
      (w : W) (j : RuntimeIdentity)
      → is_frozen (thaw_each env s is fs t reason w).0 j ≡ true
      → is_frozen s j ≡ true
  unfolding thaw_each
  thaw_each_shrinks s [] fs t reason w j e = e
  thaw_each_shrinks s (i ∷ is) fs t reason w j e =
      let out = thaw_one env s i t reason w in
      ground (
        arith,
        thaw_one-is_frozen s i j t reason w,
        thaw_each_shrinks out.0 is (fs ++ out.1) t reason out.2 j e,
      )

  abbrev pub listed : RuntimeIdentity → List RuntimeIdentity → Bool
  listed j = any λ i. beq i j

  pub thaw_each_others :
      (s : RuntimeControlState) (is : List RuntimeIdentity) (fs : List Text) (t : ℕ) (reason : Text)
      (w : W) (j : RuntimeIdentity)
      → listed j is ≡ false
      → is_frozen (thaw_each env s is fs t reason w).0 j ≡ is_frozen s j
  unfolding thaw_each
  thaw_each_others s [] fs t reason w j e = refl
  thaw_each_others s (i ∷ is) fs t reason w j e =
      let out = thaw_one env s i t reason w in
      ground (
        arith,
        thaw_one-is_frozen s i j t reason w,
        thaw_each_others out.0 is (fs ++ out.1) t reason out.2 j,
      )

  thaw_each_clears :
      (s : RuntimeControlState) (is : List RuntimeIdentity) (fs : List Text) (t : ℕ) (reason : Text)
      (w : W) (j : RuntimeIdentity)
      → is_empty (thaw_each env s is fs t reason w).1 ≡ true
      → listed j is ≡ true
      → is_frozen (thaw_each env s is fs t reason w).0 j ≡ false
  unfolding thaw_each
  thaw_each_clears s [] fs t reason w j e m = cc
  thaw_each_clears s (i ∷ is) fs t reason w j e m =
      let out = thaw_one env s i t reason w in
      ground (
        arith,
        thaw_one-is_frozen s i j t reason w,
        empty_right fs out.1 (thaw_each_failures out.0 is (fs ++ out.1) t reason out.2 e),
        thaw_each_shrinks out.0 is (fs ++ out.1) t reason out.2 j,
        thaw_each_clears out.0 is (fs ++ out.1) t reason out.2 j e,
      )

  pub thaw_identities_clears :
      (s : RuntimeControlState) (is : List RuntimeIdentity) (t : ℕ) (reason : Text) (w : W)
      (j : RuntimeIdentity)
      → (thaw_frozen_identities env s is t reason w).0 ≡ none
      → listed j is ≡ true
      → is_frozen (thaw_frozen_identities env s is t reason w).1 j ≡ false
  unfolding thaw_frozen_identities
  thaw_identities_clears s is t reason w j e m =
      thaw_each_clears s is [] t reason w j (thaw_error-none _ e) m

  thaw_identities_others :
      (s : RuntimeControlState) (is : List RuntimeIdentity) (t : ℕ) (reason : Text) (w : W)
      (j : RuntimeIdentity)
      → listed j is ≡ false
      → is_frozen (thaw_frozen_identities env s is t reason w).1 j ≡ is_frozen s j
  unfolding thaw_frozen_identities
  thaw_identities_others s is t reason w j m = thaw_each_others s is [] t reason w j m

  pub thaw_identities_shrinks :
      (s : RuntimeControlState) (is : List RuntimeIdentity) (t : ℕ) (reason : Text) (w : W)
      (j : RuntimeIdentity)
      → is_frozen (thaw_frozen_identities env s is t reason w).1 j ≡ true
      → is_frozen s j ≡ true
  unfolding thaw_frozen_identities
  thaw_identities_shrinks s is t reason w j e = thaw_each_shrinks s is [] t reason w j e

-- A key of a map is among its keys.
pub listed-keys {ℓ} :
    {V : Type ℓ} (j : RuntimeIdentity) (m : Map RuntimeIdentity V)
    → contains j m ≡ any (λ i. beq i j) (keys m)
unfolding lookup
listed-keys j [] = refl
listed-keys j ((i, v) ∷ m) = ground (arith, listed-keys j m)
