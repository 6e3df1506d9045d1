-- ===== src/Control/Transaction/Guarded.antt =====
-- Every property of the world that validated control keeps, the transactions keep.
use freezeit_cos.Base.{
  ℕ, ◌+◌, Text, txt, List, [], ◌∷◌, Option, none, some, Bool, true, false, ◌≡◌, refl, arith,
}
use freezeit_cos.Domain.Error.{Result, ok, err}
use freezeit_cos.Domain.Process.{RuntimeProcess}
use freezeit_cos.Control.World.{Env, Respects, signal_env, signal_control_process}
use freezeit_cos.Control.Transaction.{
  identity_failure, preflight, preflight_all, freeze_each, rollback, conclude, after_preflight,
  valid_or_false, apply_freeze_transaction, terminate_each, apply_terminate_transaction,
  after_terminate_preflight,
}

-- A validation reports no failure exactly when it returned `Ok(true)`.
pub identity_failure-none :
    (phase : Text) (p : RuntimeProcess) (r : Result Bool)
    → identity_failure phase p r ≡ none
    → r ≡ ok true
unfolding identity_failure
identity_failure-none phase p (ok true) h = refl
identity_failure-none phase p (ok false) h = cc
identity_failure-none phase p (err e) h = cc

valid_lem : (r : Result Bool) → valid_or_false r ≡ true → r ≡ ok true
valid_lem (ok b) h = ground arith
valid_lem (err e) h = cc

module _ {W : Type 0} (env : Env W) (P : W → Type 0) (R : Respects env P) where
  pub preflight_keeps :
      (phase expected : Text) (ps : List RuntimeProcess) (w : W)
      → P w
      → P (preflight env phase expected ps w).1
  unfolding preflight
  preflight_keeps phase expected [] w h = h
  preflight_keeps phase expected (p ∷ ps) w h =
      let h1 = R.validate p w h in
      ground (arith, h1, preflight_keeps phase expected ps (env.validate p w).1 h1)

  pub preflight_all_keeps :
      (phase : Text) (ps : List RuntimeProcess) (w : W) → P w → P (preflight_all env phase ps w).1
  preflight_all_keeps phase [] w h = h
  preflight_all_keeps phase (p ∷ ps) w h = preflight_keeps phase p.package_name (p ∷ ps) w h

  freeze_each_keeps :
      (ps signaled : List RuntimeProcess) (w : W) → P w → P (freeze_each env ps signaled w).2
  unfolding freeze_each
  freeze_each_keeps [] signaled w h = h
  freeze_each_keeps (p ∷ ps) signaled w h = ground (
    arith,
    R.validate p w h,
    identity_failure-none [] p (env.validate p w).0,
    R.freeze p p w refl h,
    freeze_each_keeps ps (p ∷ signaled) (env.freeze p (env.validate p w).1).1,
  )

  rollback_keeps :
      (ps : List RuntimeProcess) (done failures : ℕ) (w : W)
      → P w
      → P (rollback env ps done failures w).2
  unfolding rollback
  rollback_keeps [] done failures w h = h
  rollback_keeps (p ∷ ps) done failures w h =
      let w1 = (env.validate p w).1 in
      ground (
        arith,
        R.validate p w h,
        valid_lem (env.validate p w).0,
        R.unfreeze p p w refl h,
        rollback_keeps ps done (failures + 1) w1,
        rollback_keeps ps done (failures + 1) (env.unfreeze p w1).1,
        rollback_keeps ps (done + 1) failures (env.unfreeze p w1).1,
      )

  conclude_keeps : (r : Option Text × List RuntimeProcess × W) → P r.2 → P (conclude env r).1
  unfolding conclude
  conclude_keeps (none, signaled, w) h = h
  conclude_keeps (some m, signaled, w) h = rollback_keeps signaled 0 0 w h

  after_preflight_keeps :
      (ps : List RuntimeProcess) (r : Option Text × W) → P r.1 → P (after_preflight env ps r).1
  unfolding after_preflight
  after_preflight_keeps ps (none, w) h = conclude_keeps _ (freeze_each_keeps ps [] w h)
  after_preflight_keeps ps (some m, w) h = h

  pub freeze_transaction_keeps :
      (ps : List RuntimeProcess) (w : W) → P w → P (apply_freeze_transaction env ps w).1
  unfolding apply_freeze_transaction
  freeze_transaction_keeps ps w h =
      after_preflight_keeps ps (preflight_all env [] ps w) (preflight_all_keeps [] ps w h)

  terminate_each_keeps :
      (ps : List RuntimeProcess) (applied : ℕ) (w : W) → P w → P (terminate_each env ps applied w).1
  unfolding terminate_each
  terminate_each_keeps [] applied w h = h
  terminate_each_keeps (p ∷ ps) applied w h = ground (
    arith,
    R.validate p w h,
    identity_failure-none (txt " immediately before SIGKILL") p (env.validate p w).0,
    R.terminate p p w refl h,
    terminate_each_keeps ps (applied + 1) (env.terminate p (env.validate p w).1).1,
  )

  after_terminate_keeps :
      (ps : List RuntimeProcess) (r : Option Text × W)
      → P r.1
      → P (after_terminate_preflight env ps r).1
  unfolding after_terminate_preflight
  after_terminate_keeps ps (none, w) h = terminate_each_keeps ps 0 w h
  after_terminate_keeps ps (some m, w) h = h

  pub terminate_transaction_keeps :
      (ps : List RuntimeProcess) (w : W) → P w → P (apply_terminate_transaction env ps w).1
  unfolding apply_terminate_transaction
  terminate_transaction_keeps ps w h =
      after_terminate_keeps ps _ (preflight_all_keeps (txt " before SIGKILL") ps w h)

-- The signal transaction controls the same pids.
pub signal_env-Respects :
    {W : Type 0} (env : Env W) (P : W → Type 0) → Respects env P → Respects (signal_env env) P
unfolding signal_env signal_control_process
signal_env-Respects env P R = record {
  thaw = record {
    discover = R.discover;
    validate = R.validate;
    unfreeze = λ p q w e h v. R.unfreeze p (signal_control_process q) w e h v;
  };
  sample = R.sample;
  recorded = R.recorded;
  promote = R.promote;
  binder = R.binder;
  freeze = λ p q w e h v. R.freeze p (signal_control_process q) w e h v;
  terminate = R.terminate;
}
