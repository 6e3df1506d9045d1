-- ===== src/Control/Transaction.antt =====
-- Freezing, stopping and terminating the processes of one application, all or none: the
-- transactions of freezeitDaemon/src/app/controller.rs.
pub mod Guarded
pub mod Accounting
pub mod Atomic
use freezeit_cos.Base.{
  ℕ, ℤ, zero, suc, ◌+◌, Text, txt, show_int, List, [], ◌∷◌, ◌++◌, length, Option, none, some, Bool,
  true, false, not, ◌&&◌, ◌||◌, is_none, beq, list_key, nat_key, if◌then◌else◌,
}
use freezeit_cos.Domain.Error.{Result, ok, err, DaemonError, display}
use freezeit_cos.Domain.Process.{RuntimeProcess}
use freezeit_cos.Control.State.{
  RuntimeControlState, RuntimeIdentity, FrozenOwnership, signal_only, residual_unknown,
  has_unresolved_freeze_ownership,
}
use freezeit_cos.Control.World.{Env, SignalStopOwnership, signal_control_process, signal_env}

pub record FreezeTransactionOutcome : Type 0 where
  pub applied : ℕ
  pub rolled_back : ℕ
  pub rollback_failures : ℕ
  pub residual_possible : Bool
  pub failure : Option Text

pub record SignalStopTransactionOutcome : Type 0 where
  pub transaction : FreezeTransactionOutcome
  pub all_promotions_persisted : Bool

pub record TerminateTransactionOutcome : Type 0 where
  pub applied : ℕ
  pub failure : Option Text

pub data SignalStopLedgerPromotion : Type 0 where
  never after_completed_direct_transaction : SignalStopLedgerPromotion

unfoldable pub shared_uid : Text
shared_uid = txt "shared uid contains multiple package identities"

unfoldable pub mixed_failure : RuntimeProcess → Text
mixed_failure process = shared_uid ++ (txt "; refusing pid " ++ show_int process.pid)

-- What a validation that did not return `Ok(true)` says; `phase` is empty or begins with a space.
unfoldable pub identity_failure : Text → RuntimeProcess → Result Bool → Option Text
identity_failure phase p (ok true) = none
identity_failure phase p (ok false) =
    some (txt "identity validation failed" ++ (phase ++ (txt " for pid " ++ show_int p.pid)))
identity_failure phase p (err e) = some (
    txt "identity validation failed"
    ++ (phase ++ (txt " for pid " ++ (show_int p.pid ++ (txt ": " ++ display e)))))

unfoldable pub control_failure : Text → RuntimeProcess → DaemonError → Text
control_failure what p e =
    what ++ (txt " failed for pid " ++ (show_int p.pid ++ (txt ": " ++ display e)))

-- `validate_process(process).unwrap_or(false)`
abbrev pub valid_or_false : Result Bool → Bool
valid_or_false (ok b) = b
valid_or_false (err e) = false

module _ {W : Type 0} (env : Env W) where
  -- The first loop: one package, and every identity valid, before anything is touched.
  unfoldable pub preflight : Text → Text → List RuntimeProcess → W → Option Text × W
  preflight phase expected [] w = (none, w)
  preflight phase expected (p ∷ ps) w =
      if not (beq p.package_name expected)
      then (some (mixed_failure p), w)
      else elim (identity_failure phase p (env.validate p w).0) [
        | some m ↦ (some m, (env.validate p w).1)
        | none ↦ preflight phase expected ps (env.validate p w).1
      ]

  abbrev pub preflight_all : Text → List RuntimeProcess → W → Option Text × W
  preflight_all phase [] w = (none, w)
  preflight_all phase (p ∷ ps) w = preflight phase p.package_name (p ∷ ps) w

  -- The second loop: validate again and freeze; the processes frozen so far, newest first.
  unfoldable pub freeze_each :
      List RuntimeProcess → List RuntimeProcess → W → Option Text × List RuntimeProcess × W
  freeze_each [] signaled w = (none, signaled, w)
  freeze_each (p ∷ ps) signaled w =
      let w1 = (env.validate p w).1 in
      elim (identity_failure [] p (env.validate p w).0) [
        | some m ↦ (some m, signaled, w1)
        | none ↦ elim (env.freeze p w1).0 [
          | err e ↦
              (some (control_failure (txt "control apply") p e), signaled, (env.freeze p w1).1)
          | ok u ↦ freeze_each ps (p ∷ signaled) (env.freeze p w1).1
        ]
      ]

  -- The third loop: processes rolled back, failures, the world.
  unfoldable pub rollback : List RuntimeProcess → ℕ → ℕ → W → ℕ × ℕ × W
  rollback [] done failures w = (done, failures, w)
  rollback (p ∷ ps) done failures w =
      let w1 = (env.validate p w).1 in
      elim (valid_or_false (env.validate p w).0) [
        | false ↦ rollback ps done (failures + 1) w1
        | true ↦ elim (env.unfreeze p w1).0 [
          | err e ↦ rollback ps done (failures + 1) (env.unfreeze p w1).1
          | ok u ↦ rollback ps (done + 1) failures (env.unfreeze p w1).1
        ]
      ]

  abbrev refused : Text → FreezeTransactionOutcome
  refused m = record {
    applied = 0;
    rolled_back = 0;
    rollback_failures = 0;
    residual_possible = false;
    failure = some m;
  }

  -- The end of the transaction, from the result of the second loop.
  conclude : Option Text × List RuntimeProcess × W → FreezeTransactionOutcome × W
  conclude (none, signaled, w) = (
    record {
      applied = length signaled;
      rolled_back = 0;
      rollback_failures = 0;
      residual_possible = false;
      failure = none;
    },
    w,
  )
  conclude (some m, signaled, w) =
      let (done, failures, w') = rollback signaled 0 0 w in
      (
        record {
          applied = length signaled;
          rolled_back = done;
          rollback_failures = failures;
          residual_possible = true;
          failure = some m;
        },
        w',
      )

  after_preflight : List RuntimeProcess → Option Text × W → FreezeTransactionOutcome × W
  unfolding conclude
  after_preflight processes (some m, w) = (refused m, w)
  after_preflight processes (none, w) = conclude (freeze_each processes [] w)

  pub apply_freeze_transaction : List RuntimeProcess → W → FreezeTransactionOutcome × W
  unfolding after_preflight
  apply_freeze_transaction processes w = after_preflight processes (preflight_all [] processes w)

  -- The second loop of `apply_terminate_transaction`.
  terminate_each : List RuntimeProcess → ℕ → W → TerminateTransactionOutcome × W
  terminate_each [] applied w = (record { applied = applied; failure = none }, w)
  terminate_each (p ∷ ps) applied w =
      let w1 = (env.validate p w).1 in
      elim (identity_failure (txt " immediately before SIGKILL") p (env.validate p w).0) [
        | some m ↦ (record { applied = applied; failure = some m }, w1)
        | none ↦ elim (env.terminate p w1).0 [
          | err e ↦ (
            record { applied = applied; failure = some (control_failure (txt "SIGKILL") p e) },
            (env.terminate p w1).1,
          )
          | ok u ↦ terminate_each ps (applied + 1) (env.terminate p w1).1
        ]
      ]

  after_terminate_preflight :
      List RuntimeProcess → Option Text × W → TerminateTransactionOutcome × W
  unfolding terminate_each
  after_terminate_preflight processes (some m, w) = (record { applied = 0; failure = some m }, w)
  after_terminate_preflight processes (none, w) = terminate_each processes 0 w

  pub apply_terminate_transaction : List RuntimeProcess → W → TerminateTransactionOutcome × W
  unfolding after_terminate_preflight
  apply_terminate_transaction processes w =
      after_terminate_preflight processes (preflight_all (txt " before SIGKILL") processes w)
