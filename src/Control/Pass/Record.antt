-- ===== src/Control/Pass/Record.antt =====
-- The handling of one record of the manager's list: the body of the control pass's loop.
pub mod Closed
pub mod Safety
use freezeit_cos.Base.{
  ℕ, Text, txt, show, join, List, [], ◌∷◌, ◌++◌, Option, none, some, Bool, true, false, not, ◌&&◌,
  ◌||◌, any, keep, is_empty, is_none, ltb, ◌==◌, beq, unwrap_or, add_u128, saturating_add, keys,
  contains, lookup, remove, int_key, nat_key, list_key, option_key, pair_key, is_pos, if◌then◌else◌,
}
use freezeit_cos.Domain.Error.{Result, ok, err}
use freezeit_cos.Domain.Process.{RuntimeProcess, is_running}
use freezeit_cos.Domain.Operation.{ControlAction, OperationResult, postponed}
use freezeit_cos.Domain.Policy.{is_control_allowed_for}
use freezeit_cos.Deferral.{
  DownloadDeferralAction, UidRxSample, value, missing, failed, evaluate, is_candidate_package,
  download_retry_delay_ms, initial_sample_delay_ms,
}
use freezeit_cos.Backend.{FreezeDecision, DecisionAction, can_freeze}
use freezeit_cos.Control.State.{
  RuntimeControlState, RuntimeIdentity, is_frozen, ownership_of, clear_frozen,
  mark_abnormal_thaw_for_refreeze, clear_transient_control_state_for_uid, backend_name,
  unfreeze_backend,
}
use freezeit_cos.Control.World.{Env}
use freezeit_cos.Control.Thaw.{
  UnfreezeOutcome, unfreeze_identity_processes, unfreeze_result, operation_details,
  thaw_frozen_identities, clear_detached_each,
}
use freezeit_cos.Control.Settings.{
  ManagerAppConfigRecord, RequestedControlBackend, requested_control_backend, operation_backend,
  periodic_wakeup_due, manager_wakeup_interval_ms, manager_wakeup_duration_ms,
  manager_policy_delay_ms, backend_environment, is_control_policy_mode,
}
use freezeit_cos.Control.Pass.Job.{
  Job, Round, identity, app_of, policy_of, least_package, process_signature, pending_processes,
  log_round, remove_pending, insert_pending, drop_since,
}
use freezeit_cos.Control.Pass.Freeze.{Step, done, go, act}
use freezeit_cos.Control.Pass.Outcome.{
  clear_frozen_each, vanished, detached_of_uid, decide_with, logged_backend, sample_value, is_ok,
  postpone_download, postpone_delay,
}

module _ {W : Type 0} (env : Env W) where
  -- The operation after the `match`.
  finish : Job → Bool → FreezeDecision → Step W → Round W
  unfolding logged_backend
  finish j abnormal decision (done r) = r
  finish j abnormal decision (go action result s w) = (
    none,
    log_round j (drop_since j s) (pending_processes j.processes) action
        (logged_backend j decision.action)
        (if abnormal then txt "abnormal thaw audit; " ++ decision.reason else decision.reason)
        result (operation_details (pending_processes j.processes)),
    w,
  )

  control : Job → Bool → RuntimeControlState → W → Round W
  unfolding decide_with finish
  control j abnormal s w =
      let (binder, w1) = env.binder_available w in
      let decision = decide_with j binder in finish j abnormal decision (act env j decision s w1)

  after_sample : Job → Bool → RuntimeControlState → Result (Option ℕ) × W → Round W
  unfolding control sample_value
  after_sample j abnormal s (sample, w) =
      let (deferral, verdict) =
        evaluate s.download_deferral j.config.uid j.package_name (sample_value sample)
          j.timestamp_ms in
      let s1 = record s { download_deferral = deferral } in
      elim verdict [
        | DownloadDeferralAction.postpone ↦ (none, postpone_download j (is_ok sample) s1, w)
        | DownloadDeferralAction.proceed ↦ control j abnormal s1 w
      ]

  check_download : Job → Bool → RuntimeControlState → W → Round W
  unfolding after_sample
  check_download j abnormal s w =
      if not (is_candidate_package j.package_name)
      then control j abnormal
          (record s {
            download_deferral =
                (evaluate s.download_deferral j.config.uid j.package_name missing j.timestamp_ms).0;
          })
          w
      else after_sample j abnormal s (env.sample_rx_bytes j.config.uid j.package_name w)

  check_delay : Job → Bool → RuntimeControlState → W → Round W
  unfolding check_download
  check_delay j abnormal s w =
      let delay = manager_policy_delay_ms j.config j.settings in
      if not abnormal && ltb 0 delay
      then elim (lookup (identity j) s.pending_freezes) [
        | some due ↦ if ltb j.timestamp_ms due then (none, s, w) else check_download j abnormal s w
        | none ↦ (none, postpone_delay j delay s, w)
      ]
      else check_download j abnormal s w

  -- The periodic wake-up of a frozen application.
  wake_up : Job → RuntimeControlState → W → Round W
  wake_up j s w =
      let ownership = ownership_of s (identity j) in
      let (outcome, w') = unfreeze_identity_processes env j.package_name j.processes ownership w in
      let succeeded = is_empty outcome.failures in
      let duration = manager_wakeup_duration_ms j.settings in
      let s1 =
        if succeeded
        then insert_pending j (saturating_add j.timestamp_ms duration) (clear_frozen s (identity j))
        else s in
      (
        none,
        log_round j s1 j.processes ControlAction.unfreeze (unfreeze_backend ownership j.processes)
            (if succeeded
              then txt "periodic wakeup after "
                ++ (show (unwrap_or (manager_wakeup_interval_ms j.settings) 0)
                    ++ (txt "ms; refreeze in " ++ (show duration ++ txt "ms")))
              else txt "periodic wakeup failed; " ++ join (txt "; ") outcome.failures)
            (unfreeze_result outcome) (operation_details j.processes),
        w',
      )

  in_background : Job → RuntimeControlState → W → Round W
  unfolding wake_up check_delay
  in_background j s w =
      if is_frozen s (identity j)
      then if periodic_wakeup_due s (identity j) j.settings j.timestamp_ms
        then wake_up j s w
        else if not j.audit_due
            || not (any (λ (p : RuntimeProcess). is_running p.control_state) j.processes)
        then (none, s, w)
        else check_delay j true (mark_abnormal_thaw_for_refreeze s (identity j)) w
      else check_delay j false s w

  in_foreground : Job → RuntimeControlState → W → Round W
  in_foreground j s w =
      let s1 = remove_pending j s in
      if is_frozen s1 (identity j)
      then (let ownership = ownership_of s1 (identity j) in
          let (outcome, w') =
            unfreeze_identity_processes env j.package_name j.processes ownership w in
          let succeeded = is_empty outcome.failures in
          (
            none,
            log_round j (if succeeded then clear_frozen s1 (identity j) else s1) j.processes
                ControlAction.unfreeze (unfreeze_backend ownership j.processes)
                (if succeeded
                  then txt "foreground uid active"
                  else join (txt "; ") outcome.failures)
                (unfreeze_result outcome) (operation_details j.processes),
            w',
          ))
      else (none, s1, w)

  by_visibility : Job → RuntimeControlState → W → Round W
  unfolding in_background in_foreground
  by_visibility j s w =
      if any (λ uid. uid == j.config.uid) j.foreground_uids
      then in_foreground j s w
      else in_background j s w

  -- A blocked set of processes is left alone until it changes.
  check_signature : Job → RuntimeControlState → W → Round W
  unfolding by_visibility
  check_signature j s w = elim (lookup (identity j) s.blocked_process_signatures) [
    | none ↦ by_visibility j s w
    | some blocked ↦
        if beq blocked (process_signature j.processes)
        then (none, s, w)
        else by_visibility j
            (record s {
              blocked_process_signatures = remove (identity j) s.blocked_process_signatures;
            })
            w
  ]

  -- The policy or a protected package forbids control.
  forbidden : Job → RuntimeControlState → W → Round W
  forbidden j s w =
      let uid = j.config.uid in
      let s1 = clear_transient_control_state_for_uid s uid in
      let (result, s2, w') =
        thaw_frozen_identities env s1
          (keep (λ (i : RuntimeIdentity). i.1 == uid) (keys s1.frozen_apps)) j.timestamp_ms
          (txt "policy or protected package blocks control") w in
      (none, clear_detached_each s2 (detached_of_uid s2 uid), w')

  unfoldable pub control_job : Job → RuntimeControlState → W → Round W
  unfolding check_signature forbidden
  control_job j s w =
      if not (is_control_allowed_for (policy_of j) (app_of j))
      then forbidden j s w
      else check_signature j s w

  unfoldable pub discovered :
      List ℕ
      → List ℕ
      → Bool
      → ℕ
      → ManagerAppConfigRecord
      → RuntimeControlState
      → Result (List RuntimeProcess) × W
      → Round W
  unfolding control_job
  discovered settings foreground_uids audit_due t config s (err e, w) = (some e, s, w)
  discovered settings foreground_uids audit_due t config s (ok [], w) =
      (none, vanished s config.uid, w)
  discovered settings foreground_uids audit_due t config s (ok (p ∷ ps), w) =
      control_job
        (record {
          config = config;
          settings = settings;
          foreground_uids = foreground_uids;
          audit_due = audit_due;
          timestamp_ms = t;
          processes = p ∷ ps;
          package_name = least_package p.package_name ps;
        })
        s w

  unfoldable pub control_record :
      List ℕ → List ℕ → Bool → ℕ → ManagerAppConfigRecord → RuntimeControlState → W → Round W
  unfolding discovered
  control_record settings foreground_uids audit_due t config s w =
      if not (is_control_policy_mode config.mode)
      then (none, s, w)
      else discovered settings foreground_uids audit_due t config s
          (env.discover (txt "uid" ++ show config.uid) config.uid w)
