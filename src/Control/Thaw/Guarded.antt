-- ===== src/Control/Thaw/Guarded.antt =====
-- Unfreezing keeps every property of the world that validated control keeps, and counts what it does.
use freezeit_cos.Base.{
  ℕ, ◌+◌, Text, txt, show, List, [], ◌∷◌, ◌++◌, length, length-append, Option, none, some, true,
  false, ◌≡◌, refl, arith, any, ◌⊎◌, beq, int_key, not, list_key, nat_key,
}
use freezeit_cos.Domain.Error.{Result, ok, err}
use freezeit_cos.Domain.Process.{RuntimeProcess}
use freezeit_cos.Control.State.{RuntimeControlState, RuntimeIdentity, FrozenOwnership, ownership_of}
use freezeit_cos.Control.World.{Env, RespectsThaw}
use freezeit_cos.Control.Transaction.{shared_uid}
use freezeit_cos.Control.Transaction.Guarded.{identity_failure-none}
use freezeit_cos.Control.Thaw.{
  UnfreezeOutcome, control_process, tally, unfreeze_one, unfreeze_each, unfreeze_identity_processes,
  thaw_discovered, thaw_one, thaw_each, thaw_frozen_identities,
}

module _ {W : Type 0} (env : Env W) where
  tally_count :
      (r : UnfreezeOutcome) (f : Option Text)
      → (tally r f).applied + length (tally r f).failures ≡ r.applied + length r.failures + 1
  tally_count r none = omega arith
  tally_count r (some m) = omega (arith, length-append r.failures (m ∷ []))

  -- What the loop adds to its report: one count or one failure for each process.
  unfreeze_each_count :
      (o : FrozenOwnership) (ps : List RuntimeProcess) (r : UnfreezeOutcome) (w : W)
      → let out = (unfreeze_each env o ps r w).0 in
        out.applied + length out.failures ≡ r.applied + length r.failures + length ps
  unfolding unfreeze_each
  unfreeze_each_count o [] r w = omega arith
  unfreeze_each_count o (p ∷ ps) r w =
      let out = unfreeze_one env o p w in
      omega (arith, tally_count r out.0, unfreeze_each_count o ps (tally r out.0) out.1)

  -- If all processes are of the expected package, the report of an unfreeze has a count or a
  -- failure for each of them; else it has only the refusal, and the device was not touched.
  pub unfreeze_report :
      (expected : Text) (ps : List RuntimeProcess) (o : FrozenOwnership) (w : W)
      → let out = unfreeze_identity_processes env expected ps o w in
        let mixed = any (λ (p : RuntimeProcess). not (beq p.package_name expected)) ps in
        ((mixed ≡ false) × (out.0.applied + length out.0.failures ≡ length ps))
        ⊎ ((mixed ≡ true) × (out.0.applied ≡ 0) × (out.0.failures ≡ shared_uid ∷ []) × (out.1 ≡ w))
  unfolding unfreeze_identity_processes
  unfreeze_report expected ps o w =
      ground (arith, unfreeze_each_count o ps (record { applied = 0; failures = [] }) w)

module _ {W : Type 0} (env : Env W) (P : W → Type 0) (R : RespectsThaw env P) where
  unfreeze_one_keeps :
      (o : FrozenOwnership) (p : RuntimeProcess) (w : W) → P w → P (unfreeze_one env o p w).1
  unfolding unfreeze_one
  unfreeze_one_keeps o p w h =
      let target = control_process o p in
      ground (
        arith,
        R.validate target w h,
        identity_failure-none (txt " before unfreeze") target (env.validate target w).0,
        R.unfreeze target target w refl h,
      )

  unfreeze_each_keeps :
      (o : FrozenOwnership) (ps : List RuntimeProcess) (r : UnfreezeOutcome) (w : W)
      → P w
      → P (unfreeze_each env o ps r w).1
  unfolding unfreeze_each
  unfreeze_each_keeps o [] r w h = h
  unfreeze_each_keeps o (p ∷ ps) r w h =
      let out = unfreeze_one env o p w in
      unfreeze_each_keeps o ps (tally r out.0) out.1 (unfreeze_one_keeps o p w h)

  pub unfreeze_keeps :
      (expected : Text) (ps : List RuntimeProcess) (o : FrozenOwnership) (w : W)
      → P w
      → P (unfreeze_identity_processes env expected ps o w).1
  unfolding unfreeze_identity_processes
  unfreeze_keeps expected ps o w h =
      ground (arith, unfreeze_each_keeps o ps (record { applied = 0; failures = [] }) w h)

  thaw_discovered_keeps :
      (s : RuntimeControlState) (i : RuntimeIdentity) (r : Result (List RuntimeProcess)) (t : ℕ)
      (reason : Text) (w : W)
      → P w
      → P (thaw_discovered env s i r t reason w).2
  unfolding thaw_discovered
  thaw_discovered_keeps s i (err e) t reason w h = h
  thaw_discovered_keeps s i (ok []) t reason w h = h
  thaw_discovered_keeps s (name, uid) (ok (p ∷ ps)) t reason w h =
      unfreeze_keeps name (p ∷ ps) (ownership_of s (name, uid)) w h

  thaw_one_keeps :
      (s : RuntimeControlState) (i : RuntimeIdentity) (t : ℕ) (reason : Text) (w : W)
      → P w
      → P (thaw_one env s i t reason w).2
  unfolding thaw_one
  thaw_one_keeps s i t reason w h =
      thaw_discovered_keeps s i _ t reason _ (R.discover (txt "uid" ++ show i.1) i.1 w h)

  thaw_each_keeps :
      (s : RuntimeControlState) (is : List RuntimeIdentity) (fs : List Text) (t : ℕ) (reason : Text)
      (w : W)
      → P w
      → P (thaw_each env s is fs t reason w).2
  unfolding thaw_each
  thaw_each_keeps s [] fs t reason w h = h
  thaw_each_keeps s (i ∷ is) fs t reason w h =
      let out = thaw_one env s i t reason w in
      thaw_each_keeps out.0 is (fs ++ out.1) t reason out.2 (thaw_one_keeps s i t reason w h)

  pub thaw_identities_keeps :
      (s : RuntimeControlState) (is : List RuntimeIdentity) (t : ℕ) (reason : Text) (w : W)
      → P w
      → P (thaw_frozen_identities env s is t reason w).2
  unfolding thaw_frozen_identities
  thaw_identities_keeps s is t reason w h = thaw_each_keeps s is [] t reason w h
