-- ===== src/Control/Thaw/Closed.antt =====
-- Thawing keeps every closed property of the state.
use freezeit_cos.Base.{ℕ, Text, txt, List, [], ◌∷◌, ◌++◌, Bool, true, false, keys, if◌then◌else◌}
use freezeit_cos.Domain.Error.{Result, ok, err}
use freezeit_cos.Domain.Process.{RuntimeProcess}
use freezeit_cos.Control.State.{RuntimeControlState, RuntimeIdentity, clear_detached_ownership}
use freezeit_cos.Control.State.Closed.{IsClosed}
use freezeit_cos.Control.World.{Env}
use freezeit_cos.Control.Thaw.{
  thaw_discovered, thaw_one, thaw_each, thaw_frozen_identities, thaw_all_frozen,
  clear_detached_each, detached_identities,
}

module _ (I : RuntimeControlState → Type 0) (C : IsClosed I) where
  pub closed_if : (b : Bool) (s s' : RuntimeControlState) → I s → I s' → I (if b then s else s')
  closed_if true s s' h h' = h
  closed_if false s s' h h' = h'

  pub clear_detached_each_closed :
      (s : RuntimeControlState) (is : List RuntimeIdentity) → I s → I (clear_detached_each s is)
  unfolding clear_detached_each
  clear_detached_each_closed s [] h = h
  clear_detached_each_closed s (i ∷ is) h =
      clear_detached_each_closed (clear_detached_ownership s i) is (C.detach s i h)

module _ {W : Type 0} (env : Env W) (I : RuntimeControlState → Type 0) (C : IsClosed I) where
  thaw_discovered_closed :
      (s : RuntimeControlState) (i : RuntimeIdentity) (r : Result (List RuntimeProcess)) (t : ℕ)
      (reason : Text) (w : W)
      → I s
      → I (thaw_discovered env s i r t reason w).0
  unfolding thaw_discovered
  thaw_discovered_closed s i (err e) t reason w h = C.log s _ t h
  thaw_discovered_closed s i (ok []) t reason w h = C.clear s i h
  thaw_discovered_closed s (name, uid) (ok (p ∷ ps)) t reason w h =
      C.log _ _ t (closed_if I C _ _ _ (C.clear s (name, uid) h) h)

  thaw_one_closed :
      (s : RuntimeControlState) (i : RuntimeIdentity) (t : ℕ) (reason : Text) (w : W)
      → I s
      → I (thaw_one env s i t reason w).0
  unfolding thaw_one
  thaw_one_closed s i t reason w h = thaw_discovered_closed s i _ t reason _ h

  thaw_each_closed :
      (s : RuntimeControlState) (is : List RuntimeIdentity) (fs : List Text) (t : ℕ) (reason : Text)
      (w : W)
      → I s
      → I (thaw_each env s is fs t reason w).0
  unfolding thaw_each
  thaw_each_closed s [] fs t reason w h = h
  thaw_each_closed s (i ∷ is) fs t reason w h =
      let out = thaw_one env s i t reason w in
      thaw_each_closed out.0 is (fs ++ out.1) t reason out.2 (thaw_one_closed s i t reason w h)

  pub thaw_identities_closed :
      (s : RuntimeControlState) (is : List RuntimeIdentity) (t : ℕ) (reason : Text) (w : W)
      → I s
      → I (thaw_frozen_identities env s is t reason w).1
  unfolding thaw_frozen_identities
  thaw_identities_closed s is t reason w h = thaw_each_closed s is [] t reason w h

  pub thaw_all_closed :
      (s : RuntimeControlState) (t : ℕ) (w : W) → I s → I (thaw_all_frozen env s t w).1
  unfolding thaw_all_frozen
  thaw_all_closed s t w h =
      let out = thaw_frozen_identities env s (keys s.frozen_apps) t (txt "control disabled") w in
      let s2 = clear_detached_each out.1 (detached_identities out.1) in
      C.rest s2 [] [] s2.status_since_ms [] _ s2.audit_started_at_ms s2.next_refreeze_audit_at_ms (
        clear_detached_each_closed I C out.1 (detached_identities out.1)
          (thaw_identities_closed s (keys s.frozen_apps) t (txt "control disabled") w h))
