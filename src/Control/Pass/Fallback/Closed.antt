-- ===== src/Control/Pass/Fallback/Closed.antt =====
-- A fallback keeps every closed property of the state, and every property of the world that
-- validated control keeps.
use freezeit_cos.Base.{Text, ltb, arith, nat_key}
use freezeit_cos.Backend.{DecisionAction}
use freezeit_cos.Control.State.{RuntimeControlState}
use freezeit_cos.Control.State.Closed.{IsClosed}
use freezeit_cos.Control.World.{Env, Respects}
use freezeit_cos.Control.Transaction.{FreezeTransactionOutcome, SignalStopTransactionOutcome, never}
use freezeit_cos.Control.Signal.{ownership_of_outcome}
use freezeit_cos.Control.Signal.Promotion.{signal_transaction_keeps}
use freezeit_cos.Control.Thaw.Closed.{closed_if}
use freezeit_cos.Control.Pass.Job.{Job, Round, identity, pending_processes}
use freezeit_cos.Control.Pass.Fallback.{
  Applied, is_freeze_success, after_fallback_signal, other_fallback, apply_fallback, log_fallback,
  freeze_failed,
}
use freezeit_cos.Control.Pass.Job.Closed.{
  log_round_closed, remove_pending_closed, drop_since_closed, block_if_shared_closed,
  request_network_closed, track_if_closed,
}

module _ {W : Type 0} (env : Env W) (I : RuntimeControlState → Type 0) (C : IsClosed I)
    (P : W → Type 0) (R : Respects env P) (j : Job) where
  abbrev pub Fine : Round W → Type 0
  Fine r = I r.1 × P r.2

  abbrev AppliedFine : Applied W → Type 0
  AppliedFine a = I a.state × P a.world

  after_fallback_signal_fine :
      (s : RuntimeControlState) (o : SignalStopTransactionOutcome) (w : W)
      → I s
      → P w
      → AppliedFine (after_fallback_signal env j s (o, w))
  unfolding after_fallback_signal
  after_fallback_signal_fine s o w h q = ground (
    arith,
    request_network_closed I C j _
        (C.track s (identity j) j.timestamp_ms (ownership_of_outcome o) h),
    track_if_closed I C j (ltb 0 o.transaction.rollback_failures) s h,
  )

  apply_fallback_fine :
      (s : RuntimeControlState) (a : DecisionAction) (w : W)
      → I s
      → P w
      → AppliedFine (apply_fallback env j s a w)
  unfolding apply_fallback other_fallback
  apply_fallback_fine s DecisionAction.signal w h q =
      after_fallback_signal_fine s _ _ h
        (signal_transaction_keeps env P R (pending_processes j.processes) never w q)
  apply_fallback_fine s _ w h q = (h, q)

  log_fallback-Fine :
      (o : FreezeTransactionOutcome) (failure reason : Text) (a : Applied W)
      → AppliedFine a
      → Fine (log_fallback env j o failure reason a)
  unfolding log_fallback
  log_fallback-Fine o failure reason a h = (
    drop_since_closed I C j _ (
        log_round_closed I C j _ _ _ _ _ _ _ (
          remove_pending_closed I C j _ (
            closed_if I C (is_freeze_success a.action a.result) _ _
              (request_network_closed I C j a.state h.0) h.0))),
    h.1,
  )

  pub freeze_failed-Fine :
      (o : FreezeTransactionOutcome) (failure : Text) (s : RuntimeControlState) (w : W)
      → I s
      → P w
      → Fine (freeze_failed env j o failure s w)
  unfolding freeze_failed
  freeze_failed-Fine o failure s w h q = log_fallback-Fine o failure _ _ (
      apply_fallback_fine _ _ w
        (track_if_closed I C j o.residual_possible _ (block_if_shared_closed I C j failure s h)) q)
