-- ===== src/Control/Pass/Freeze/Closed.antt =====
-- Carrying out a decision keeps every closed property of the state, and every property of the
-- world that validated control keeps.
use freezeit_cos.Base.{Text, txt, show, List, ◌++◌, true, Option-cases, inl, inr, arith, nat_key}
use freezeit_cos.Domain.Error.{Result, ok, err}
use freezeit_cos.Domain.Process.{RuntimeProcess}
use freezeit_cos.Backend.{FreezeDecision, DecisionAction}
use freezeit_cos.Control.State.{RuntimeControlState, cgroup_binder}
use freezeit_cos.Control.State.Closed.{IsClosed}
use freezeit_cos.Control.World.{Env, Respects}
use freezeit_cos.Control.Transaction.{
  FreezeTransactionOutcome, TerminateTransactionOutcome, SignalStopTransactionOutcome,
}
use freezeit_cos.Control.Transaction.Guarded.{freeze_transaction_keeps, terminate_transaction_keeps}
use freezeit_cos.Control.Signal.{ownership_of_outcome}
use freezeit_cos.Control.Signal.Promotion.{
  signal_transaction_keeps, signal_stop_ledger_promotion_keeps,
}
use freezeit_cos.Control.Thaw.Closed.{closed_if}
use freezeit_cos.Control.Thaw.Guarded.{unfreeze_keeps}
use freezeit_cos.Control.Pass.Job.{Job, identity, pending_processes}
use freezeit_cos.Control.Pass.Freeze.{
  Step, done, go, take_back, rescan, after_freeze, after_signal, signal_stop, after_terminate, act,
}
use freezeit_cos.Control.Pass.Job.Closed.{
  log_round_closed, remove_pending_closed, drop_since_closed, block_if_shared_closed,
  request_network_closed, track_if_closed,
}
use freezeit_cos.Control.Pass.Fallback.Closed.{Fine, freeze_failed-Fine}

module _ {W : Type 0} (env : Env W) (I : RuntimeControlState → Type 0) (C : IsClosed I)
    (P : W → Type 0) (R : Respects env P) (j : Job) where
  abbrev pub StepFine : Step W → Type 0
  StepFine (done r) = Fine env I C P R j r
  StepFine (go action result s w) = I s × P w

  take_back-Fine :
      (reason : Text) (s : RuntimeControlState) (found : List RuntimeProcess) (w : W)
      → I s
      → P w
      → Fine env I C P R j (take_back env j reason s found w)
  unfolding take_back
  take_back-Fine reason s found w h q = (
    drop_since_closed I C j _ (
        log_round_closed I C j _ _ _ _ _ _ _ (
          remove_pending_closed I C j _
            (closed_if I C _ _ _ (C.clear s (identity j) h) (track_if_closed I C j true s h)))),
    unfreeze_keeps env P R.thaw j.package_name found cgroup_binder w q,
  )

  rescan_fine :
      (reason : Text) (s : RuntimeControlState) (r : Result (List RuntimeProcess)) (w : W)
      → I s
      → P w
      → StepFine (rescan env j reason s (r, w))
  unfolding rescan
  rescan_fine reason s (err e) w h q = (h, q)
  rescan_fine reason s (ok found) w h q = ground (
    arith,
    take_back-Fine reason s found w h q,
    remove_pending_closed I C j _
        (request_network_closed I C j _ (C.track s (identity j) j.timestamp_ms cgroup_binder h)),
  )

  after_freeze_fine :
      (reason : Text) (s : RuntimeControlState) (o : FreezeTransactionOutcome) (w : W)
      → I s
      → P w
      → StepFine (after_freeze env j reason s (o, w))
  unfolding after_freeze
  after_freeze_fine reason s o w h q = elim (Option-cases o.failure) [
    | inl e ↦
        rw (e, after_freeze)
          (rescan_fine reason s _ _ h
            (R.discover (txt "uid" ++ show j.config.uid) j.config.uid w q))
    | inr (failure, e) ↦ rw (e, after_freeze) (freeze_failed-Fine env I C P R j o failure s w h q)
  ]

  after_signal_fine :
      (reason : Text) (s : RuntimeControlState) (o : SignalStopTransactionOutcome) (w : W)
      → I s
      → P w
      → StepFine (after_signal env j reason s (o, w))
  unfolding after_signal
  after_signal_fine reason s o w h q = elim (Option-cases o.transaction.failure) [
    | inl e ↦
        rw (e, after_signal)
          (
            remove_pending_closed I C j _ (
                request_network_closed I C j _
                  (C.track s (identity j) j.timestamp_ms (ownership_of_outcome o) h)),
            q,
          )
    | inr (failure, e) ↦
        rw (e, after_signal)
          (
            drop_since_closed I C j _ (
                remove_pending_closed I C j _ (
                  log_round_closed I C j _ _ _ _ _ _ _
                    (track_if_closed I C j _ _ (block_if_shared_closed I C j failure s h)))),
            q,
          )
  ]

  signal_stop_fine :
      (reason : Text) (s : RuntimeControlState) (w : W)
      → I s
      → P w
      → StepFine (signal_stop env j reason s w)
  unfolding signal_stop
  signal_stop_fine reason s w h q = after_signal_fine reason s _ _ h (
      signal_transaction_keeps env P R (pending_processes j.processes) _ _ (
        signal_stop_ledger_promotion_keeps env P R s (identity j) (pending_processes j.processes) w
          q))

  after_terminate_fine :
      (reason : Text) (s : RuntimeControlState) (o : TerminateTransactionOutcome) (w : W)
      → I s
      → P w
      → StepFine (after_terminate env j reason s (o, w))
  unfolding after_terminate
  after_terminate_fine reason s o w h q = elim (Option-cases o.failure) [
    | inl e ↦ rw (e, after_terminate) (C.clear _ (identity j) (remove_pending_closed I C j s h), q)
    | inr (failure, e) ↦ rw (e, after_terminate) (log_round_closed I C j _ _ _ _ _ _ _ h, q)
  ]

  act_on :
      (a : DecisionAction) (reason : Text) (s : RuntimeControlState) (w : W)
      → I s
      → P w
      → StepFine (act env j (record { action = a; reason = reason }) s w)
  unfolding act
  act_on DecisionAction.freeze reason s w h q =
      after_freeze_fine reason s _ _ h (freeze_transaction_keeps env P R _ w q)
  act_on DecisionAction.signal reason s w h q = signal_stop_fine reason s w h q
  act_on DecisionAction.terminate reason s w h q =
      after_terminate_fine reason s _ _ h (terminate_transaction_keeps env P R _ w q)
  act_on _ reason s w h q = (h, q)

  pub act_fine :
      (d : FreezeDecision) (s : RuntimeControlState) (w : W)
      → I s
      → P w
      → StepFine (act env j d s w)
  act_fine d s w h q = act_on d.action d.reason s w h q
