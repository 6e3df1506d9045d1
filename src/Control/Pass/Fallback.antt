-- ===== src/Control/Pass/Fallback.antt =====
-- What follows a freeze transaction that failed: the policy's fallback.
pub mod Closed
use freezeit_cos.Base.{
  ℕ, ℤ, Text, txt, show, show_int, join, contains_text, List, [], ◌∷◌, ◌++◌, map, Option, none,
  some, Bool, true, false, not, ◌&&◌, any, keep, is_empty, ltb, ◌==◌, beq, int_key, if◌then◌else◌,
}
use freezeit_cos.Domain.Error.{Result, ok, err, system}
use freezeit_cos.Domain.Process.{RuntimeProcess}
use freezeit_cos.Domain.Operation.{
  ControlAction, OperationResult, success, partial, failed, postponed, skipped,
}
use freezeit_cos.Backend.{FreezeDecision, DecisionAction, fallback_after_freeze_apply_error}
use freezeit_cos.Control.State.{
  RuntimeControlState, residual_unknown, cgroup_binder, track_frozen, clear_frozen, backend_name,
}
use freezeit_cos.Control.World.{Env}
use freezeit_cos.Control.Transaction.{
  FreezeTransactionOutcome, TerminateTransactionOutcome, SignalStopTransactionOutcome, never,
  shared_uid, apply_freeze_transaction, apply_terminate_transaction,
}
use freezeit_cos.Control.Signal.{
  ownership_of_outcome, signal_stop_ledger_promotion, apply_signal_stop_freeze_transaction,
}
use freezeit_cos.Control.Thaw.{UnfreezeOutcome, unfreeze_identity_processes, operation_details}
use freezeit_cos.Control.Settings.{operation_from_fallback, mode_has_network_restriction}
use freezeit_cos.Control.Pass.Job.{
  Job, Round, identity, policy_of, pending_processes, log_round, remove_pending, drop_since,
  block_signature, request_network, block_if_shared, track_if,
}

-- What a fallback did, and how the log names it.
record Applied (W : Type 0) : Type 0 where
  state : RuntimeControlState
  action : ControlAction
  result : OperationResult
  backend : Text
  details : Text
  world : W

abbrev pub none_left : ℕ → OperationResult
none_left failures = if failures == 0 then failed else partial

is_freeze_success : ControlAction → OperationResult → Bool
is_freeze_success ControlAction.freeze success = true
is_freeze_success _ _ = false

module _ {W : Type 0} (env : Env W) where
  after_fallback_signal : Job → RuntimeControlState → SignalStopTransactionOutcome × W → Applied W
  after_fallback_signal j s (outcome, w) = elim outcome.transaction.failure [
    | none ↦ record {
      state =
          request_network j
            (track_frozen s (identity j) j.timestamp_ms (ownership_of_outcome outcome));
      action = ControlAction.freeze;
      result = success;
      backend = txt "signal.stop";
      details = txt "signal_applied=" ++ show outcome.transaction.applied;
      world = w;
    }
    | some failure ↦ record {
      state = track_if (ltb 0 outcome.transaction.rollback_failures) j s;
      action = ControlAction.fallback;
      result = none_left outcome.transaction.rollback_failures;
      backend = txt "signal.stop";
      details =
          txt "signal_failure="
          ++ (failure
              ++ (txt " signal_applied="
                  ++ (show outcome.transaction.applied
                      ++ (txt " signal_rolled_back="
                          ++ (show outcome.transaction.rolled_back
                              ++ (txt " signal_rollback_failures="
                                  ++ show outcome.transaction.rollback_failures))))));
      world = w;
    }
  ]

  other_fallback : Job → RuntimeControlState → DecisionAction → W → Applied W
  other_fallback j s other w = record {
    state = s;
    action = (operation_from_fallback other).0;
    result = (operation_from_fallback other).1;
    backend = backend_name (pending_processes j.processes);
    details = [];
    world = w;
  }

  apply_fallback : Job → RuntimeControlState → DecisionAction → W → Applied W
  unfolding after_fallback_signal other_fallback
  apply_fallback j s DecisionAction.signal w =
      after_fallback_signal j s
        (apply_signal_stop_freeze_transaction env (pending_processes j.processes) never w)
  apply_fallback j s other w = other_fallback j s other w

  log_fallback : Job → FreezeTransactionOutcome → Text → Text → Applied W → Round W
  unfolding is_freeze_success
  log_fallback j outcome failure reason a = (
    none,
    drop_since j (
        log_round j
          (remove_pending j
            (if is_freeze_success a.action a.result then request_network j a.state else a.state))
          (pending_processes j.processes) a.action a.backend
          (reason
            ++ (txt "; primary_transaction="
                ++ (failure
                    ++ (txt "; primary_rolled_back="
                        ++ (show outcome.rolled_back
                            ++ (txt "/"
                                ++ (show outcome.applied
                                    ++ (txt " rollback_failures="
                                        ++ show outcome.rollback_failures))))))))
          a.result (operation_details (pending_processes j.processes) ++ (txt " " ++ a.details))),
    a.world,
  )

  -- The freeze transaction failed.
  unfoldable pub freeze_failed :
      Job → FreezeTransactionOutcome → Text → RuntimeControlState → W → Round W
  unfolding apply_fallback log_fallback
  freeze_failed j outcome failure s w =
      let s1 = block_if_shared j failure s in
      let s2 = track_if outcome.residual_possible j s1 in
      let fallback = fallback_after_freeze_apply_error (policy_of j) (system failure) in
      log_fallback j outcome failure fallback.reason (apply_fallback j s2 fallback.action w)
