-- ===== src/Control/Thaw/Detached.antt =====
-- Disabling control: `thaw_all_frozen` leaves no owner behind that belongs to nothing frozen.
use freezeit_cos.Base.{
  ℕ, txt, List, [], ◌∷◌, none, Bool, true, false, not, ◌&&◌, ◌≡◌, ◌≢◌, ◌⊎◌, refl, arith, any, keep,
  contains, keys, beq, beq_iff, lookup-remove, list_key, nat_key, pair_key,
}
use freezeit_cos.Control.State.{
  RuntimeControlState, RuntimeIdentity, is_frozen, clear_detached_ownership,
}
use freezeit_cos.Control.World.{Env}
use freezeit_cos.Control.Thaw.{
  thaw_frozen_identities, thaw_all_frozen, clear_detached_each, detached_identities,
}
use freezeit_cos.Control.Thaw.Frozen.{listed-keys, thaw_identities_clears, thaw_identities_shrinks}

clear_detached-frozen :
    (s : RuntimeControlState) (is : List RuntimeIdentity)
    → (clear_detached_each s is).frozen_apps ≡ s.frozen_apps
unfolding clear_detached_each clear_detached_ownership
clear_detached-frozen s [] = refl
clear_detached-frozen s (i ∷ is) =
    ground (arith, clear_detached-frozen (clear_detached_ownership s i) is)

clear_detached_shrinks :
    (s : RuntimeControlState) (is : List RuntimeIdentity) (j : RuntimeIdentity)
    → contains j (clear_detached_each s is).frozen_ownership ≡ true
    → contains j s.frozen_ownership ≡ true
unfolding clear_detached_each clear_detached_ownership
clear_detached_shrinks s [] j e = e
clear_detached_shrinks s (i ∷ is) j e = ground (
  arith,
  clear_detached_shrinks (clear_detached_ownership s i) is j e,
  lookup-remove i j s.frozen_ownership,
)

-- A listed identity that is not frozen has no owner afterwards.
clear_detached_each_clears :
    (s : RuntimeControlState) (is : List RuntimeIdentity) (j : RuntimeIdentity)
    → any (λ i. beq i j) is ≡ true
    → is_frozen s j ≡ false
    → contains j (clear_detached_each s is).frozen_ownership ≡ false
unfolding clear_detached_each clear_detached_ownership
clear_detached_each_clears s [] j m e = cc
clear_detached_each_clears s (i ∷ is) j m e = ground (
  arith,
  beq_iff i j,
  clear_detached_shrinks (clear_detached_ownership s i) is j,
  clear_detached_each_clears (clear_detached_ownership s i) is j,
  lookup-remove i j s.frozen_ownership,
)

listed-keep :
    (p : RuntimeIdentity → Bool) (j : RuntimeIdentity) (l : List RuntimeIdentity)
    → any (λ i. beq i j) (keep p l) ≡ (any (λ i. beq i j) l && p j)
listed-keep p j [] = refl
listed-keep p j (i ∷ l) = ground (arith, beq_iff i j, listed-keep p j l)

-- After the detached owners of a state are cleared, only frozen identities have owners.
pub detached_cleared :
    (s : RuntimeControlState) (j : RuntimeIdentity)
    → contains j (clear_detached_each s (detached_identities s)).frozen_ownership ≡ true
    → is_frozen s j ≡ true
unfolding detached_identities
detached_cleared s j e = ground (
  arith,
  listed-keep (λ i. not (contains i s.frozen_apps)) j (keys s.frozen_ownership),
  listed-keys j s.frozen_ownership,
  clear_detached_shrinks s (detached_identities s) j e,
  clear_detached_each_clears s (detached_identities s) j,
)

module _ {W : Type 0} (env : Env W) where
  -- When control is disabled, the report has an error or nothing stays frozen; and an identity
  -- has no owner afterwards, or it is still frozen and was frozen before.
  pub thaw_all_frozen_lem :
      (s : RuntimeControlState) (t : ℕ) (w : W) (j : RuntimeIdentity)
      → let out = thaw_all_frozen env s t w in
        ((out.0 ≢ none) ⊎ (is_frozen out.1 j ≡ false))
        × ((contains j out.1.frozen_ownership ≡ false)
            ⊎ ((is_frozen out.1 j ≡ true) × (is_frozen s j ≡ true)))
  unfolding thaw_all_frozen
  thaw_all_frozen_lem s t w j =
      let out = thaw_frozen_identities env s (keys s.frozen_apps) t (txt "control disabled") w in
      let all = thaw_identities_clears env s (keys s.frozen_apps) t (txt "control disabled") w j in
      let fewer =
        thaw_identities_shrinks env s (keys s.frozen_apps) t (txt "control disabled") w j in
      let same = clear_detached-frozen out.1 (detached_identities out.1) in
      let listed = listed-keys j s.frozen_apps in
      let cleared = detached_cleared out.1 j in
      (ground (arith, all, fewer, listed, same), ground (arith, fewer, cleared, same))
