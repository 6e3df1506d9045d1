-- ===== src/Control/Pass/Outcome.antt =====
-- The parts of the handling of one record that need no device: what a pass decides, and what it
-- notes when nothing is frozen.
use freezeit_cos.Base.{
  ℕ, Text, txt, show, List, [], ◌∷◌, ◌++◌, Option, none, some, Bool, true, false, not, ◌&&◌, ◌||◌,
  keep, is_none, ◌==◌, add_u128, keys, contains, lookup, int_key, nat_key, list_key, option_key,
  pair_key, is_pos, if◌then◌else◌,
}
use freezeit_cos.Domain.Error.{Result, ok, err}
use freezeit_cos.Domain.Operation.{ControlAction, postponed}
use freezeit_cos.Domain.Policy.{is_control_allowed_for}
use freezeit_cos.Deferral.{
  UidRxSample, value, missing, failed, download_retry_delay_ms, initial_sample_delay_ms,
}
use freezeit_cos.Backend.{FreezeDecision, DecisionAction, can_freeze}
use freezeit_cos.Control.State.{
  RuntimeControlState, RuntimeIdentity, clear_frozen, clear_transient_control_state_for_uid,
  backend_name,
}
use freezeit_cos.Control.Thaw.{operation_details}
use freezeit_cos.Control.Settings.{
  RequestedControlBackend, requested_control_backend, operation_backend, backend_environment,
}
use freezeit_cos.Control.Pass.Job.{
  Job, identity, app_of, policy_of, pending_processes, log_round, insert_pending, drop_since,
}

-- `clear_frozen` of each identity in turn.
unfoldable pub clear_frozen_each : RuntimeControlState → List RuntimeIdentity → RuntimeControlState
clear_frozen_each s [] = s
clear_frozen_each s (i ∷ is) = clear_frozen_each (clear_frozen s i) is

-- No process is left: everything known of the uid is dropped.
unfoldable pub vanished : RuntimeControlState → ℕ → RuntimeControlState
unfolding clear_frozen_each
vanished s uid =
    let s1 = clear_transient_control_state_for_uid s uid in
    clear_frozen_each s1
      (keep (λ (i : RuntimeIdentity). i.1 == uid) (keys s1.frozen_apps ++ keys s1.frozen_ownership))

-- The owners of the uid that belong to no frozen identity.
unfoldable pub detached_of_uid : RuntimeControlState → ℕ → List RuntimeIdentity
detached_of_uid s uid =
    keep (λ (i : RuntimeIdentity). i.1 == uid && not (contains i s.frozen_apps))
      (keys s.frozen_ownership)

-- `(decision, requested backend)` without the device.
unfoldable pub decide_with : Job → Bool → FreezeDecision
decide_with j binder =
    let pending = pending_processes j.processes in
    if not (is_control_allowed_for (policy_of j) (app_of j))
    then (record {
      action = DecisionAction.skip;
      reason = txt "policy or protected package blocks control";
    })
    else elim (requested_control_backend j.config j.settings) [
      | RequestedControlBackend.terminate ↦ record {
        action = DecisionAction.terminate;
        reason = txt "SIGKILL selected by manager policy";
      }
      | RequestedControlBackend.signal ↦ record {
        action = DecisionAction.signal;
        reason =
            if is_pos j.config.mode 20 || is_pos j.config.mode 21
            then txt "SIGSTOP selected by manager policy"
            else txt "global SIGSTOP selected for freezer policy";
      }
      | RequestedControlBackend.freezer ↦
          can_freeze (backend_environment pending binder) (app_of j) (policy_of j) pending
    ]

-- The backend that the final operation names.
unfoldable pub logged_backend : Job → DecisionAction → Text
logged_backend j DecisionAction.signal = txt "signal.stop"
logged_backend j _ =
    operation_backend (requested_control_backend j.config j.settings)
      (pending_processes j.processes)

unfoldable pub sample_value : Result (Option ℕ) → UidRxSample
sample_value (ok (some v)) = value v
sample_value (ok none) = missing
sample_value (err e) = failed

abbrev pub is_ok {ℓ} : {A : Type ℓ} → Result A → Bool
is_ok (ok a) = true
is_ok (err e) = false

-- The download is postponed: a new due time, and an operation if there was none.
unfoldable pub postpone_download : Job → Bool → RuntimeControlState → RuntimeControlState
postpone_download j sampled s =
    let s1 =
      insert_pending j
        (add_u128 j.timestamp_ms
          (if sampled then initial_sample_delay_ms else download_retry_delay_ms))
        s in
    drop_since j (
      if is_none (lookup (identity j) s.pending_freezes)
      then log_round j s1 j.processes ControlAction.postpone (backend_name j.processes)
          (if sampled
            then txt "download activity sampling/threshold"
            else txt "download sampling failed; fail-safe postpone")
          postponed (operation_details j.processes)
      else s1)

-- The first pass that sees the application in the background.
unfoldable pub postpone_delay : Job → ℕ → RuntimeControlState → RuntimeControlState
postpone_delay j delay s = drop_since j (
    log_round j (insert_pending j (add_u128 j.timestamp_ms delay) s) j.processes
      ControlAction.postpone (backend_name j.processes)
      (txt "pending freeze delay " ++ (show delay ++ txt "ms")) postponed
      (operation_details j.processes))
