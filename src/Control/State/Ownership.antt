-- ===== src/Control/State/Ownership.antt =====
-- How the tracking operations of `RuntimeControlState` treat one identity and leave the others.
use freezeit_cos.Base.{
  ◌≡◌, refl, true, beq, lookup, lookup-remove, contains, map_laws, some, list_key, nat_key,
  pair_key, arith, ℕ, beq_iff, Bool-cases, inl, inr,
}
use freezeit_cos.Control.State.{
  RuntimeControlState, RuntimeIdentity, FrozenOwnership, residual_unknown, signal_only, is_frozen,
  ownership_of, track_frozen, clear_frozen, mark_abnormal_thaw_for_refreeze,
  clear_detached_ownership, merged_ownership,
}

-- Every frozen identity has a freeze time and an owner, and nothing else has a freeze time.
pub record IsTracked (s : RuntimeControlState) : Type 0 where
  pub since : (i : RuntimeIdentity) → contains i s.frozen_since_ms ≡ is_frozen s i
  pub owned : (i : RuntimeIdentity) → is_frozen s i ≡ true → contains i s.frozen_ownership ≡ true

pub track_frozen-IsTracked :
    (s : RuntimeControlState) (i : RuntimeIdentity) (t : ℕ) (o : FrozenOwnership)
    → IsTracked s
    → IsTracked (track_frozen s i t o)
unfolding track_frozen
track_frozen-IsTracked s i t o h = record {
  since = λ j. simp map_laws (ground (arith, h.since j));
  owned = λ j. simp map_laws (ground (arith, h.owned j));
}

pub clear_frozen-IsTracked :
    (s : RuntimeControlState) (i : RuntimeIdentity) → IsTracked s → IsTracked (clear_frozen s i)
unfolding clear_frozen
clear_frozen-IsTracked s i h = record {
  since = λ j. simp map_laws (ground (arith, h.since j));
  owned = λ j. simp map_laws (ground (arith, h.owned j));
}

pub mark_abnormal_thaw-IsTracked :
    (s : RuntimeControlState) (i : RuntimeIdentity)
    → IsTracked s
    → IsTracked (mark_abnormal_thaw_for_refreeze s i)
unfolding mark_abnormal_thaw_for_refreeze
mark_abnormal_thaw-IsTracked s i h = record {
  since = λ j. simp map_laws (ground (arith, h.since j));
  owned = λ j. simp map_laws (ground (arith, h.owned j));
}

pub clear_detached-IsTracked :
    (s : RuntimeControlState) (i : RuntimeIdentity)
    → IsTracked s
    → IsTracked (clear_detached_ownership s i)
unfolding clear_detached_ownership
clear_detached-IsTracked s i h = record {
  since = λ j. ground (arith, h.since j);
  owned = λ j. ground (arith, h.owned j, lookup-remove i j s.frozen_ownership, beq_iff i j);
}

-- What is not known to be undone by SIGCONT alone.
abbrev pub IsResidual : RuntimeControlState → RuntimeIdentity → Type 0
IsResidual s i = lookup i s.frozen_ownership ≡ some residual_unknown

IsResidual-mark :
    (s : RuntimeControlState) (i j : RuntimeIdentity)
    → IsResidual s i
    → IsResidual (mark_abnormal_thaw_for_refreeze s j) i
unfolding mark_abnormal_thaw_for_refreeze ownership_of
IsResidual-mark s i j h = simp map_laws (elim (Bool-cases (beq j i)) [
  | inl e ↦ let same : j ≡ i = (beq_iff j i).0 e in rw (e, same, h) refl
  | inr e ↦ rw (e, h) refl
])

IsResidual-track :
    (s : RuntimeControlState) (i j : RuntimeIdentity) (t : ℕ) (o : FrozenOwnership)
    → IsResidual s i
    → IsResidual (track_frozen s j t o) i
unfolding track_frozen merged_ownership
IsResidual-track s i j t o h = simp map_laws (elim (Bool-cases (beq j i)) [
  | inl e ↦ let same : j ≡ i = (beq_iff j i).0 e in rw (e, same, h) refl
  | inr e ↦ rw (e, h) refl
])

-- An ownership of unknown origin stays so through every later freeze and every abnormal thaw, of
-- this identity and of others.
pub IsResidual-sticks :
    (s : RuntimeControlState) (i j : RuntimeIdentity) (t : ℕ) (o : FrozenOwnership)
    → IsResidual s i
    → IsResidual (track_frozen s j t o) i × IsResidual (mark_abnormal_thaw_for_refreeze s j) i
IsResidual-sticks s i j t o h = (IsResidual-track s i j t o h, IsResidual-mark s i j h)

-- The owner that a freeze after an abnormal thaw may have.
abbrev pub refrozen_owner : FrozenOwnership → FrozenOwnership → FrozenOwnership
refrozen_owner signal_only o = o
refrozen_owner _ o = residual_unknown

-- If an application that the daemon froze is found thawed and is frozen again, the new ownership
-- is recorded if the old one was SIGSTOP alone; else the ownership stays unknown.
pub refreeze_ownership_of :
    (s : RuntimeControlState) (i : RuntimeIdentity) (t : ℕ) (o : FrozenOwnership)
    → ownership_of (track_frozen (mark_abnormal_thaw_for_refreeze s i) i t o) i
      ≡ refrozen_owner (ownership_of s i) o
unfolding track_frozen mark_abnormal_thaw_for_refreeze merged_ownership ownership_of
refreeze_ownership_of s i t o = simp map_laws (ground arith)
