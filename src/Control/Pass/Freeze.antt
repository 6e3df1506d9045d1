-- ===== src/Control/Pass/Freeze.antt =====
-- What a decision does: the `match decision.action` of the control pass.
pub mod Closed
use freezeit_cos.Base.{
  ℕ, ℤ, Text, txt, show, show_int, join, contains_text, List, [], ◌∷◌, ◌++◌, map, Option, none,
  some, Bool, true, false, not, ◌&&◌, any, keep, is_empty, ltb, ◌==◌, beq, int_key, if◌then◌else◌,
}
use freezeit_cos.Domain.Error.{Result, ok, err, system}
use freezeit_cos.Domain.Process.{RuntimeProcess}
use freezeit_cos.Domain.Operation.{
  ControlAction, OperationResult, success, partial, failed, postponed, skipped,
}
use freezeit_cos.Backend.{FreezeDecision, DecisionAction, fallback_after_freeze_apply_error}
use freezeit_cos.Control.State.{
  RuntimeControlState, residual_unknown, cgroup_binder, track_frozen, clear_frozen, backend_name,
}
use freezeit_cos.Control.World.{Env}
use freezeit_cos.Control.Transaction.{
  FreezeTransactionOutcome, TerminateTransactionOutcome, SignalStopTransactionOutcome, never,
  shared_uid, apply_freeze_transaction, apply_terminate_transaction,
}
use freezeit_cos.Control.Signal.{
  ownership_of_outcome, signal_stop_ledger_promotion, apply_signal_stop_freeze_transaction,
}
use freezeit_cos.Control.Thaw.{UnfreezeOutcome, unfreeze_identity_processes, operation_details}
use freezeit_cos.Control.Settings.{operation_from_fallback, mode_has_network_restriction}
use freezeit_cos.Control.Pass.Job.{
  Job, Round, identity, policy_of, pending_processes, log_round, remove_pending, drop_since,
  block_signature, request_network, track_if, block_if_shared,
}
use freezeit_cos.Control.Pass.Fallback.{none_left, freeze_failed}

-- The round is over, or its operation is still to be logged.
pub data Step (W : Type 0) : Type 0 where
  done : Round W → Step W
  go : ControlAction → OperationResult → RuntimeControlState → W → Step W

debug_list : List ℤ → Text
debug_list pids = txt "[" ++ (join (txt ", ") (map show_int pids) ++ txt "]")

-- The pids of the uid that were not among the frozen processes.
unfoldable pub new_pids : Job → List RuntimeProcess → List ℤ
new_pids j found =
    map (λ (p : RuntimeProcess). p.pid)
      (keep
        (λ (p : RuntimeProcess).
          p.uid == j.config.uid
          && not (any (λ (q : RuntimeProcess). beq q.pid p.pid) (pending_processes j.processes)))
        found)

module _ {W : Type 0} (env : Env W) where
  -- New processes appeared: the freeze is taken back.
  take_back : Job → Text → RuntimeControlState → List RuntimeProcess → W → Round W
  unfolding debug_list
  take_back j reason s found w =
      let (outcome, w') = unfreeze_identity_processes env j.package_name found cgroup_binder w in
      let s1 =
        if is_empty outcome.failures then clear_frozen s (identity j) else track_if true j s in
      (
        none,
        drop_since j (
            log_round j (remove_pending j s1) found ControlAction.freeze (backend_name found)
              (reason ++ txt "; new same-uid process appeared after freeze") partial
              (operation_details found
                ++ (txt " new_pids="
                    ++ (debug_list (new_pids j found)
                        ++ (txt " rollback_applied="
                            ++ (show outcome.applied
                                ++ (txt " rollback_failures="
                                    ++ (if is_empty outcome.failures
                                        then txt "none"
                                        else join (txt "; ") outcome.failures)))))))),
        w',
      )

  -- The processes of the uid are listed again after a freeze that succeeded.
  rescan : Job → Text → RuntimeControlState → Result (List RuntimeProcess) × W → Step W
  unfolding take_back
  rescan j reason s (err e, w) = done (some e, s, w)
  rescan j reason s (ok found, w) =
      if not (is_empty (new_pids j found))
      then done (take_back j reason s found w)
      else go ControlAction.freeze success
          (remove_pending j
            (request_network j (track_frozen s (identity j) j.timestamp_ms cgroup_binder)))
          w

  after_freeze : Job → Text → RuntimeControlState → FreezeTransactionOutcome × W → Step W
  unfolding freeze_failed rescan
  after_freeze j reason s (outcome, w) = elim outcome.failure [
    | some failure ↦ done (freeze_failed env j outcome failure s w)
    | none ↦ rescan j reason s (env.discover (txt "uid" ++ show j.config.uid) j.config.uid w)
  ]

  after_signal : Job → Text → RuntimeControlState → SignalStopTransactionOutcome × W → Step W
  after_signal j reason s (outcome, w) = elim outcome.transaction.failure [
    | some failure ↦ done (
      none,
      drop_since j (
          remove_pending j (
            log_round j
              (track_if (ltb 0 outcome.transaction.rollback_failures) j
                (block_if_shared j failure s))
              (pending_processes j.processes) ControlAction.freeze (txt "signal.stop")
              (reason ++ (txt "; " ++ failure)) (none_left outcome.transaction.rollback_failures)
              (operation_details (pending_processes j.processes)
                ++ (txt " signaled="
                    ++ (show outcome.transaction.applied
                        ++ (txt " rolled_back="
                            ++ (show outcome.transaction.rolled_back
                                ++ (txt " rollback_failures="
                                    ++ show outcome.transaction.rollback_failures)))))))),
      w,
    )
    | none ↦
        go ControlAction.freeze success
          (remove_pending j (
            request_network j
              (track_frozen s (identity j) j.timestamp_ms (ownership_of_outcome outcome))))
          w
  ]

  signal_stop : Job → Text → RuntimeControlState → W → Step W
  unfolding after_signal
  signal_stop j reason s w =
      let (promotion, w1) =
        signal_stop_ledger_promotion env s (identity j) (pending_processes j.processes) w in
      after_signal j reason s
        (apply_signal_stop_freeze_transaction env (pending_processes j.processes) promotion w1)

  after_terminate : Job → Text → RuntimeControlState → TerminateTransactionOutcome × W → Step W
  after_terminate j reason s (outcome, w) = elim outcome.failure [
    | some failure ↦ done (
      none,
      log_round j s (pending_processes j.processes) ControlAction.terminate (txt "signal.kill")
          (reason ++ (txt "; " ++ failure)) (none_left outcome.applied)
          (operation_details (pending_processes j.processes)
            ++ (txt " sigkill_applied=" ++ show outcome.applied)),
      w,
    )
    | none ↦ go ControlAction.terminate success (clear_frozen (remove_pending j s) (identity j)) w
  ]

  unfoldable pub act : Job → FreezeDecision → RuntimeControlState → W → Step W
  unfolding after_freeze signal_stop after_terminate
  act j decision s w = elim decision.action [
    | DecisionAction.freeze ↦
        after_freeze j decision.reason s
          (apply_freeze_transaction env (pending_processes j.processes) w)
    | DecisionAction.postpone ↦ go ControlAction.postpone postponed s w
    | DecisionAction.alternate_freezer ↦ go ControlAction.fallback failed s w
    | DecisionAction.signal ↦ signal_stop j decision.reason s w
    | DecisionAction.terminate ↦
        after_terminate j decision.reason s
          (apply_terminate_transaction env (pending_processes j.processes) w)
    | DecisionAction.skip ↦ go ControlAction.skip skipped s w
  ]
