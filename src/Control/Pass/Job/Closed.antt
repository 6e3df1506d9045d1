-- ===== src/Control/Pass/Job/Closed.antt =====
-- The changes that the handling of a record is made of keep every closed property of the state.
use freezeit_cos.Base.{ℕ, Text, List, Bool, contains_text, insert, nat_key}
use freezeit_cos.Domain.Process.{RuntimeProcess}
use freezeit_cos.Domain.Operation.{ControlAction, OperationResult}
use freezeit_cos.Control.State.{RuntimeControlState, residual_unknown}
use freezeit_cos.Control.State.Closed.{IsClosed}
use freezeit_cos.Control.Transaction.{shared_uid}
use freezeit_cos.Control.Thaw.Closed.{closed_if}
use freezeit_cos.Control.Settings.{mode_has_network_restriction}
use freezeit_cos.Control.Pass.Job.{
  block_if_shared, track_if, Job, identity, log_round, remove_pending, insert_pending, drop_since,
  block_signature, request_network,
}

module _ (I : RuntimeControlState → Type 0) (C : IsClosed I) (j : Job) where
  pub log_round_closed :
      (s : RuntimeControlState) (ps : List RuntimeProcess) (action : ControlAction)
      (backend reason : Text) (result : OperationResult) (details : Text)
      → I s
      → I (log_round j s ps action backend reason result details)
  unfolding log_round
  log_round_closed s ps action backend reason result details h = C.log s _ j.timestamp_ms h

  pub remove_pending_closed : (s : RuntimeControlState) → I s → I (remove_pending j s)
  unfolding remove_pending
  remove_pending_closed s h =
      C.rest s _ s.network_restriction_requests s.status_since_ms s.blocked_process_signatures
        s.download_deferral s.audit_started_at_ms s.next_refreeze_audit_at_ms h

  pub insert_pending_closed : (due : ℕ) (s : RuntimeControlState) → I s → I (insert_pending j due s)
  unfolding insert_pending
  insert_pending_closed due s h =
      C.rest s _ s.network_restriction_requests s.status_since_ms s.blocked_process_signatures
        s.download_deferral s.audit_started_at_ms s.next_refreeze_audit_at_ms h

  pub drop_since_closed : (s : RuntimeControlState) → I s → I (drop_since j s)
  unfolding drop_since
  drop_since_closed s h = C.drop s (identity j) h

  pub block_if_shared_closed :
      (failure : Text) (s : RuntimeControlState) → I s → I (block_if_shared j failure s)
  unfolding block_if_shared block_signature
  block_if_shared_closed failure s h =
      closed_if I C (contains_text shared_uid failure) (block_signature j s) s
        (C.rest s s.pending_freezes s.network_restriction_requests s.status_since_ms _
          s.download_deferral s.audit_started_at_ms s.next_refreeze_audit_at_ms h)
        h

  pub request_network_closed : (s : RuntimeControlState) → I s → I (request_network j s)
  unfolding request_network
  request_network_closed s h =
      closed_if I C (mode_has_network_restriction j.config.mode)
        (record s {
          network_restriction_requests = insert j.config.uid tt s.network_restriction_requests;
        })
        s
        (C.rest s s.pending_freezes _ s.status_since_ms s.blocked_process_signatures
          s.download_deferral s.audit_started_at_ms s.next_refreeze_audit_at_ms h)
        h

  pub track_if_closed : (b : Bool) (s : RuntimeControlState) → I s → I (track_if b j s)
  unfolding track_if
  track_if_closed b s h =
      closed_if I C b _ s (C.track s (identity j) j.timestamp_ms residual_unknown h) h
