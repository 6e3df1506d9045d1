-- ===== src/Control/Pass/Record/Closed.antt =====
-- The handling of one record keeps every closed property of the state, and every property of the
-- world that validated control keeps; so does the whole pass.
use freezeit_cos.Base.{
  ℕ, List, [], ◌∷◌, ◌++◌, Option, none, Bool, true, false, is_empty, keys, keep, ◌==◌, Option-cases,
  inl, inr, arith, if◌then◌else◌, lookup, remove, list_key, nat_key, pair_key, beq, option_key,
  int_key,
}
use freezeit_cos.Domain.Error.{Result}
use freezeit_cos.Deferral.{DownloadDeferral, evaluate, missing}
use freezeit_cos.Backend.{FreezeDecision}
use freezeit_cos.Control.State.{
  RuntimeControlState, RuntimeIdentity, is_frozen, ownership_of, clear_frozen,
  mark_abnormal_thaw_for_refreeze, clear_transient_control_state_for_uid,
}
use freezeit_cos.Control.State.Closed.{IsClosed}
use freezeit_cos.Control.World.{Env, Respects}
use freezeit_cos.Control.Thaw.{unfreeze_identity_processes}
use freezeit_cos.Control.Thaw.Closed.{closed_if, thaw_identities_closed, clear_detached_each_closed}
use freezeit_cos.Control.Thaw.Guarded.{unfreeze_keeps, thaw_identities_keeps}
use freezeit_cos.Control.Settings.{manager_policy_delay_ms}
use freezeit_cos.Control.Pass.Job.{Job, Round, identity, remove_pending, process_signature}
use freezeit_cos.Control.Pass.Freeze.{Step, done, go}
use freezeit_cos.Control.Pass.Freeze.Closed.{StepFine, act_fine}
use freezeit_cos.Control.Pass.Job.Closed.{
  log_round_closed, remove_pending_closed, insert_pending_closed, drop_since_closed,
}
use freezeit_cos.Control.Pass.Record.{
  finish, control, after_sample, check_download, check_delay, wake_up, in_background, in_foreground,
  by_visibility, check_signature, forbidden, control_job,
}
use freezeit_cos.Control.Pass.Outcome.{
  clear_frozen_each, vanished, sample_value, is_ok, postpone_download, postpone_delay,
}

module _ (I : RuntimeControlState → Type 0) (C : IsClosed I) where
  clear_frozen_each_closed :
      (s : RuntimeControlState) (is : List RuntimeIdentity) → I s → I (clear_frozen_each s is)
  unfolding clear_frozen_each
  clear_frozen_each_closed s [] h = h
  clear_frozen_each_closed s (i ∷ is) h =
      clear_frozen_each_closed (clear_frozen s i) is (C.clear s i h)

  transient_closed :
      (s : RuntimeControlState) (uid : ℕ) → I s → I (clear_transient_control_state_for_uid s uid)
  unfolding clear_transient_control_state_for_uid
  transient_closed s uid h = C.rest s _ _ _ _ _ s.audit_started_at_ms s.next_refreeze_audit_at_ms h

  pub vanished_closed : (s : RuntimeControlState) (uid : ℕ) → I s → I (vanished s uid)
  unfolding vanished
  vanished_closed s uid h =
      let s1 = clear_transient_control_state_for_uid s uid in
      clear_frozen_each_closed s1
        (keep (λ (i : RuntimeIdentity). i.1 == uid)
          (keys s1.frozen_apps ++ keys s1.frozen_ownership))
        (transient_closed s uid h)

module _ {W : Type 0} (env : Env W) (I : RuntimeControlState → Type 0) (C : IsClosed I)
    (P : W → Type 0) (R : Respects env P) (j : Job) where
  abbrev Ends : Round W → Type 0
  Ends r = I r.1 × P r.2

  postpone_download_closed :
      (b : Bool) (s : RuntimeControlState) → I s → I (postpone_download j b s)
  unfolding postpone_download
  postpone_download_closed b s h = drop_since_closed I C j _ (
      closed_if I C _ _ _ (log_round_closed I C j _ _ _ _ _ _ _ (insert_pending_closed I C j _ s h))
        (insert_pending_closed I C j _ s h))

  postpone_delay_closed : (delay : ℕ) (s : RuntimeControlState) → I s → I (postpone_delay j delay s)
  unfolding postpone_delay
  postpone_delay_closed delay s h =
      drop_since_closed I C j _
        (log_round_closed I C j _ _ _ _ _ _ _ (insert_pending_closed I C j _ s h))

  finish_fine :
      (abnormal : Bool) (d : FreezeDecision) (r : Step W)
      → StepFine env I C P R j r
      → Ends (finish env j abnormal d r)
  unfolding finish
  finish_fine abnormal d (done r) h = h
  finish_fine abnormal d (go action result s w) h =
      (log_round_closed I C j _ _ _ _ _ _ _ (drop_since_closed I C j s h.0), h.1)

  control_fine :
      (abnormal : Bool) (s : RuntimeControlState) (w : W)
      → I s
      → P w
      → Ends (control env j abnormal s w)
  unfolding control
  control_fine abnormal s w h q =
      finish_fine abnormal _ _ (act_fine env I C P R j _ s _ h (R.binder w q))

  deferral_closed :
      (s : RuntimeControlState) (d : DownloadDeferral)
      → I s
      → I (record s { download_deferral = d })
  deferral_closed s d h =
      C.rest s s.pending_freezes s.network_restriction_requests s.status_since_ms
        s.blocked_process_signatures d s.audit_started_at_ms s.next_refreeze_audit_at_ms h

  after_sample_fine :
      (abnormal : Bool) (s : RuntimeControlState) (r : Result (Option ℕ)) (w : W)
      → I s
      → P w
      → Ends (after_sample env j abnormal s (r, w))
  unfolding after_sample
  after_sample_fine abnormal s r w h q =
      let d =
        (evaluate s.download_deferral j.config.uid j.package_name (sample_value r)
          j.timestamp_ms).0 in
      let s1 = record s { download_deferral = d } in
      ground (
        arith,
        postpone_download_closed (is_ok r) s1 (deferral_closed s d h),
        control_fine abnormal s1 w (deferral_closed s d h) q,
      )

  check_download_fine :
      (abnormal : Bool) (s : RuntimeControlState) (w : W)
      → I s
      → P w
      → Ends (check_download env j abnormal s w)
  unfolding check_download
  check_download_fine abnormal s w h q =
      let d = (evaluate s.download_deferral j.config.uid j.package_name missing j.timestamp_ms).0 in
      ground (
        arith,
        control_fine abnormal (record s { download_deferral = d }) w (deferral_closed s d h) q,
        after_sample_fine abnormal s (env.sample_rx_bytes j.config.uid j.package_name w).0
            (env.sample_rx_bytes j.config.uid j.package_name w).1 h
            (R.sample j.config.uid j.package_name w q),
      )

  check_delay_fine :
      (abnormal : Bool) (s : RuntimeControlState) (w : W)
      → I s
      → P w
      → Ends (check_delay env j abnormal s w)
  unfolding check_delay
  check_delay_fine abnormal s w h q = ground (
    arith,
    check_download_fine abnormal s w h q,
    postpone_delay_closed (manager_policy_delay_ms j.config j.settings) s h,
  )

  wake_up_fine : (s : RuntimeControlState) (w : W) → I s → P w → Ends (wake_up env j s w)
  unfolding wake_up
  wake_up_fine s w h q = (
    log_round_closed I C j _ _ _ _ _ _ _
        (closed_if I C _ _ s (insert_pending_closed I C j _ _ (C.clear s (identity j) h)) h),
    unfreeze_keeps env P R.thaw j.package_name j.processes _ w q,
  )

  in_background_fine :
      (s : RuntimeControlState) (w : W) → I s → P w → Ends (in_background env j s w)
  unfolding in_background
  in_background_fine s w h q = ground (
    arith,
    wake_up_fine s w h q,
    check_delay_fine true (mark_abnormal_thaw_for_refreeze s (identity j)) w
        (C.mark s (identity j) h) q,
    check_delay_fine false s w h q,
  )

  in_foreground_fine :
      (s1 : RuntimeControlState) (w : W) → I s1 → P w → Ends (in_foreground env j s1 w)
  unfolding in_foreground
  in_foreground_fine s w h q =
      let s1 = remove_pending j s in
      let h1 = remove_pending_closed I C j s h in
      let out =
        unfreeze_identity_processes env j.package_name j.processes (ownership_of s1 (identity j))
          w in
      let cleared =
        closed_if I C (is_empty out.0.failures) (clear_frozen s1 (identity j)) s1
          (C.clear s1 (identity j) h1) h1 in
      ends_if (is_frozen s1 (identity j)) _ _
        (
          log_round_closed I C j _ _ _ _ _ _ _ cleared,
          unfreeze_keeps env P R.thaw j.package_name j.processes _ w q,
        )
        (h1, q)
    where
      ends_if : (b : Bool) (r r' : Round W) → Ends r → Ends r' → Ends (if b then r else r')
      ends_if true r r' h h' = h
      ends_if false r r' h h' = h'

  by_visibility_fine :
      (s : RuntimeControlState) (w : W) → I s → P w → Ends (by_visibility env j s w)
  unfolding by_visibility
  by_visibility_fine s w h q =
      ground (arith, in_foreground_fine s w h q, in_background_fine s w h q)

  check_signature_fine :
      (s : RuntimeControlState) (w : W) → I s → P w → Ends (check_signature env j s w)
  unfolding check_signature
  check_signature_fine s w h q =
      elim (Option-cases (lookup (identity j) s.blocked_process_signatures)) [
        | inl e ↦ rw (e, check_signature) (by_visibility_fine s w h q)
        | inr (blocked, e) ↦ rw (e, check_signature) (changed blocked)
      ]
    where
      s1 : RuntimeControlState
      s1 = record s {
        blocked_process_signatures = remove (identity j) s.blocked_process_signatures;
      }

      changed :
          (blocked : _)
          → Ends (
              if beq blocked (process_signature j.processes)
              then (none, s, w)
              else by_visibility env j s1 w)
      changed blocked = ground (
        arith,
        by_visibility_fine s1 w
            (C.rest s s.pending_freezes s.network_restriction_requests s.status_since_ms _
              s.download_deferral s.audit_started_at_ms s.next_refreeze_audit_at_ms h)
            q,
      )

  forbidden_fine : (s : RuntimeControlState) (w : W) → I s → P w → Ends (forbidden env j s w)
  unfolding forbidden
  forbidden_fine s w h q =
      let h1 = transient_closed I C s j.config.uid h in
      (
        clear_detached_each_closed I C _ _
            (thaw_identities_closed env I C _ _ j.timestamp_ms _ w h1),
        thaw_identities_keeps env P R.thaw _ _ j.timestamp_ms _ w q,
      )

  pub control_job_fine :
      (s : RuntimeControlState) (w : W) → I s → P w → Ends (control_job env j s w)
  unfolding control_job
  control_job_fine s w h q = ground (arith, forbidden_fine s w h q, check_signature_fine s w h q)
