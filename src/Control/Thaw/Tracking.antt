-- ===== src/Control/Thaw/Tracking.antt =====
-- What a thaw leaves of the tracking of each identity: `thaw_frozen_identities` of
-- freezeitDaemon/src/app/controller.rs.
use freezeit_cos.Base.{
  ℕ, Text, List, [], ◌∷◌, ◌++◌, Option, none, Bool, true, false, ◌&&◌, ◌≡◌, ◌≢◌, refl, arith, ◌⊎◌,
  is_empty, lookup, beq, lookup-remove, list_key, nat_key, pair_key, if◌then◌else◌,
}
use freezeit_cos.Domain.Error.{Result, ok, err}
use freezeit_cos.Domain.Process.{RuntimeProcess}
use freezeit_cos.Control.State.{
  RuntimeControlState, RuntimeIdentity, FrozenOwnership, is_frozen, clear_frozen, stamp_and_push,
}
use freezeit_cos.Control.World.{Env}
use freezeit_cos.Control.Thaw.{thaw_discovered, thaw_one, thaw_each, thaw_frozen_identities}
use freezeit_cos.Control.Thaw.Frozen.{listed, thaw_each_failures, thaw_error-none, empty_right}

-- Whether an identity is frozen, since when, and who owns it.
abbrev pub Tracking : Type 0
Tracking = Bool × Option ℕ × Option FrozenOwnership

abbrev pub tracking : RuntimeControlState → RuntimeIdentity → Tracking
tracking s j = (is_frozen s j, lookup j s.frozen_since_ms, lookup j s.frozen_ownership)

abbrev pub untracked : Tracking
untracked = (false, none, none)

clear_frozen-tracking :
    (s : RuntimeControlState) (i j : RuntimeIdentity)
    → tracking (clear_frozen s i) j ≡ (if beq i j then untracked else tracking s j)
unfolding clear_frozen
clear_frozen-tracking s i j = ground (
  arith,
  lookup-remove i j s.frozen_apps,
  lookup-remove i j s.frozen_since_ms,
  lookup-remove i j s.frozen_ownership,
)

module _ {W : Type 0} (env : Env W) where
  thaw_discovered-tracking :
      (s : RuntimeControlState) (i j : RuntimeIdentity) (r : Result (List RuntimeProcess)) (t : ℕ)
      (reason : Text) (w : W)
      → let out = thaw_discovered env s i r t reason w in
        tracking out.0 j ≡ (if beq i j && is_empty out.1 then untracked else tracking s j)
  unfolding thaw_discovered stamp_and_push
  thaw_discovered-tracking s i j (err e) t reason w = ground arith
  thaw_discovered-tracking s i j (ok []) t reason w = ground (arith, clear_frozen-tracking s i j)
  thaw_discovered-tracking s (name, uid) j (ok (p ∷ ps)) t reason w =
      ground (arith, clear_frozen-tracking s (name, uid) j)

  thaw_one-tracking :
      (s : RuntimeControlState) (i j : RuntimeIdentity) (t : ℕ) (reason : Text) (w : W)
      → let out = thaw_one env s i t reason w in
        tracking out.0 j ≡ (if beq i j && is_empty out.1 then untracked else tracking s j)
  unfolding thaw_one
  thaw_one-tracking s i j t reason w = thaw_discovered-tracking s i j _ t reason _

  -- An identity that is not tracked is not tracked by a thaw.
  thaw_each-untracked :
      (s : RuntimeControlState) (is : List RuntimeIdentity) (fs : List Text) (t : ℕ) (reason : Text)
      (w : W) (j : RuntimeIdentity)
      → tracking s j ≡ untracked
      → tracking (thaw_each env s is fs t reason w).0 j ≡ untracked
  unfolding thaw_each
  thaw_each-untracked s [] fs t reason w j e = e
  thaw_each-untracked s (i ∷ is) fs t reason w j e =
      let out = thaw_one env s i t reason w in
      thaw_each-untracked out.0 is (fs ++ out.1) t reason out.2 j
        (ground (arith, e, thaw_one-tracking s i j t reason w))

  thaw_each-others :
      (s : RuntimeControlState) (is : List RuntimeIdentity) (fs : List Text) (t : ℕ) (reason : Text)
      (w : W) (j : RuntimeIdentity)
      → listed env j is ≡ false
      → tracking (thaw_each env s is fs t reason w).0 j ≡ tracking s j
  unfolding thaw_each
  thaw_each-others s [] fs t reason w j e = refl
  thaw_each-others s (i ∷ is) fs t reason w j e =
      let out = thaw_one env s i t reason w in
      ground (
        arith,
        thaw_one-tracking s i j t reason w,
        thaw_each-others out.0 is (fs ++ out.1) t reason out.2 j,
      )

  thaw_each-clears :
      (s : RuntimeControlState) (is : List RuntimeIdentity) (fs : List Text) (t : ℕ) (reason : Text)
      (w : W) (j : RuntimeIdentity)
      → is_empty (thaw_each env s is fs t reason w).1 ≡ true
      → listed env j is ≡ true
      → tracking (thaw_each env s is fs t reason w).0 j ≡ untracked
  unfolding thaw_each
  thaw_each-clears s [] fs t reason w j e m = cc
  thaw_each-clears s (i ∷ is) fs t reason w j e m =
      let out = thaw_one env s i t reason w in
      ground (
        arith,
        thaw_one-tracking s i j t reason w,
        empty_right fs out.1 (thaw_each_failures env out.0 is (fs ++ out.1) t reason out.2 e),
        thaw_each-untracked out.0 is (fs ++ out.1) t reason out.2 j,
        thaw_each-clears out.0 is (fs ++ out.1) t reason out.2 j e,
      )

  -- A thaw of some identities leaves the tracking of an identity that is not among them as it was:
  -- whether it is frozen, since when, and its owner. Of an identity that is among them, it reports
  -- an error, or all three are gone.
  pub thaw_identities-tracking :
      (s : RuntimeControlState) (is : List RuntimeIdentity) (t : ℕ) (reason : Text) (w : W)
      (j : RuntimeIdentity)
      → let out = thaw_frozen_identities env s is t reason w in
        ((listed env j is ≡ false) × (tracking out.1 j ≡ tracking s j))
        ⊎ ((listed env j is ≡ true) × ((out.0 ≢ none) ⊎ (tracking out.1 j ≡ untracked)))
  unfolding thaw_frozen_identities
  thaw_identities-tracking s is t reason w j = ground (
    arith,
    thaw_each-others s is [] t reason w j,
    thaw_error-none (thaw_each env s is [] t reason w).1,
    thaw_each-clears s is [] t reason w j,
  )
