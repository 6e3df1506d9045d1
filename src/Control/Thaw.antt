-- ===== src/Control/Thaw.antt =====
-- Unfreezing the processes of one identity, and of a list of frozen identities:
-- freezeitDaemon/src/app/controller.rs.
pub mod Frozen
pub mod Tracking
pub mod Resumed
pub mod Closed
pub mod Guarded
pub mod Detached
use freezeit_cos.Base.{
  ℕ, suc, ◌+◌, Text, txt, show, show_int, join, List, [], ◌∷◌, ◌++◌, map, length, Option, none,
  some, Bool, true, false, not, ◌==◌, any, keep, is_empty, is_some, keys, beq, list_key, nat_key,
  pair_key, contains, if◌then◌else◌,
}
use freezeit_cos.Domain.Error.{Result, ok, err, DaemonError, system, display}
use freezeit_cos.Domain.Process.{RuntimeProcess}
use freezeit_cos.Domain.Operation.{
  ControlOperation, ControlAction, OperationResult, success, partial, failed,
}
use freezeit_cos.Deferral.{default_deferral}
use freezeit_cos.Control.State.{
  RuntimeControlState, RuntimeIdentity, FrozenOwnership, signal_only, ownership_of, clear_frozen,
  clear_detached_ownership, unfreeze_backend, stamp_and_push,
}
use freezeit_cos.Control.World.{Env, signal_control_process}
use freezeit_cos.Control.Transaction.{shared_uid, identity_failure, control_failure}

pub record UnfreezeOutcome : Type 0 where
  pub applied : ℕ
  pub failures : List Text

-- The process as the owner's backend controls it.
unfoldable pub control_process : FrozenOwnership → RuntimeProcess → RuntimeProcess
unfolding signal_control_process
control_process signal_only p = signal_control_process p
control_process _ p = p

idle_evidence : List RuntimeProcess → List Text
idle_evidence [] = []
idle_evidence (p ∷ ps) =
    let rest = idle_evidence ps in
    elim p.binder_state [
      | none ↦ rest
      | some state ↦ (txt "pid" ++ (show_int p.pid ++ (txt ":" ++ state))) ∷ rest
    ]

unfoldable pub operation_details : List RuntimeProcess → Text
unfolding idle_evidence
operation_details processes =
    (txt "process_count=" ++ show (length processes))
    ++ (if is_empty (idle_evidence processes)
        then []
        else txt " idle_evidence=" ++ join (txt "|") (idle_evidence processes))

-- An operation before it is stamped.
unfoldable pub operation_with :
    Text
    → ℕ
    → List RuntimeProcess
    → ControlAction
    → Text
    → Text
    → OperationResult
    → Text
    → ControlOperation
operation_with name uid processes action backend reason result details = record {
  operation_id = 0;
  timestamp_ms = 0;
  package_name = name;
  uid = uid;
  pid_list = map (λ (p : RuntimeProcess). p.pid) processes;
  action = action;
  backend = backend;
  reason = reason;
  result = result;
  details = details;
}

unfoldable pub unfreeze_result : UnfreezeOutcome → OperationResult
unfreeze_result outcome =
    if is_empty outcome.failures then success else if outcome.applied == 0 then failed else partial

-- The report after a round: one more process, or one more failure.
abbrev pub tally : UnfreezeOutcome → Option Text → UnfreezeOutcome
tally outcome none = record outcome { applied = outcome.applied + 1 }
tally outcome (some m) = record outcome { failures = outcome.failures ++ m ∷ [] }

-- `none` is `Ok(())`.
unfoldable pub thaw_error : List Text → Option DaemonError
thaw_error [] = none
thaw_error (m ∷ ms) = some (system (join (txt "; ") (m ∷ ms)))

module _ {W : Type 0} (env : Env W) where
  -- One round of the loop of `unfreeze_identity_processes`: its failure, if it has one.
  unfoldable pub unfreeze_one : FrozenOwnership → RuntimeProcess → W → Option Text × W
  unfreeze_one ownership p w =
      let target = control_process ownership p in
      let w1 = (env.validate target w).1 in
      elim (identity_failure (txt " before unfreeze") target (env.validate target w).0) [
        | some m ↦ (some m, w1)
        | none ↦ elim (env.unfreeze target w1).0 [
          | ok u ↦ (none, (env.unfreeze target w1).1)
          | err e ↦ (some (control_failure (txt "unfreeze") target e), (env.unfreeze target w1).1)
        ]
      ]

  unfoldable pub unfreeze_each :
      FrozenOwnership → List RuntimeProcess → UnfreezeOutcome → W → UnfreezeOutcome × W
  unfreeze_each ownership [] outcome w = (outcome, w)
  unfreeze_each ownership (p ∷ ps) outcome w =
      let (failure, w') = unfreeze_one ownership p w in
      unfreeze_each ownership ps (tally outcome failure) w'

  unfoldable pub unfreeze_identity_processes :
      Text → List RuntimeProcess → FrozenOwnership → W → UnfreezeOutcome × W
  unfreeze_identity_processes expected processes ownership w =
      if any (λ p. not (beq p.package_name expected)) processes
      then (record { applied = 0; failures = shared_uid ∷ [] }, w)
      else unfreeze_each ownership processes (record { applied = 0; failures = [] }) w

  -- One round of `thaw_frozen_identities` after the discovery: state, new failures, world.
  thaw_discovered :
      RuntimeControlState
      → RuntimeIdentity
      → Result (List RuntimeProcess)
      → ℕ
      → Text
      → W
      → RuntimeControlState × List Text × W
  unfolding unfreeze_result operation_with
  thaw_discovered s (name, uid) (err e) timestamp_ms reason w =
      let message : Text = reason ++ (txt "; process discovery failed: " ++ display e) in
      (
        stamp_and_push s
            (operation_with name uid [] ControlAction.unfreeze (txt "recovery") message failed
              (txt "process_count=0"))
            timestamp_ms,
        message ∷ [],
        w,
      )
  thaw_discovered s identity (ok []) timestamp_ms reason w = (clear_frozen s identity, [], w)
  thaw_discovered s (name, uid) (ok (p ∷ ps)) timestamp_ms reason w =
      let ownership = ownership_of s (name, uid) in
      let (outcome, w') = unfreeze_identity_processes name (p ∷ ps) ownership w in
      let succeeded = is_empty outcome.failures in
      (
        stamp_and_push (if succeeded then clear_frozen s (name, uid) else s)
            (operation_with name uid (p ∷ ps) ControlAction.unfreeze
              (unfreeze_backend ownership (p ∷ ps))
              (if succeeded
                then reason
                else reason ++ (txt "; " ++ join (txt "; ") outcome.failures))
              (unfreeze_result outcome) (operation_details (p ∷ ps)))
            timestamp_ms,
        outcome.failures,
        w',
      )

  unfoldable pub thaw_one :
      RuntimeControlState → RuntimeIdentity → ℕ → Text → W → RuntimeControlState × List Text × W
  unfolding thaw_discovered
  thaw_one s identity timestamp_ms reason w =
      let (found, w') = env.discover (txt "uid" ++ show identity.1) identity.1 w in
      thaw_discovered s identity found timestamp_ms reason w'

  unfoldable pub thaw_each :
      RuntimeControlState
      → List RuntimeIdentity
      → List Text
      → ℕ
      → Text
      → W
      → RuntimeControlState × List Text × W
  thaw_each s [] failures timestamp_ms reason w = (s, failures, w)
  thaw_each s (i ∷ is) failures timestamp_ms reason w =
      let (s', more, w') = thaw_one s i timestamp_ms reason w in
      thaw_each s' is (failures ++ more) timestamp_ms reason w'

  unfoldable pub thaw_frozen_identities :
      RuntimeControlState
      → List RuntimeIdentity
      → ℕ
      → Text
      → W
      → Option DaemonError × RuntimeControlState × W
  unfolding thaw_error
  thaw_frozen_identities s identities timestamp_ms reason w =
      let (s', failures, w') = thaw_each s identities [] timestamp_ms reason w in
      (thaw_error failures, s', w')

-- `clear_detached_ownership` of each identity in turn.
unfoldable pub clear_detached_each :
    RuntimeControlState → List RuntimeIdentity → RuntimeControlState
clear_detached_each s [] = s
clear_detached_each s (i ∷ is) = clear_detached_each (clear_detached_ownership s i) is

-- The owners that belong to no frozen identity.
unfoldable pub detached_identities : RuntimeControlState → List RuntimeIdentity
detached_identities s = keep (λ i. not (contains i s.frozen_apps)) (keys s.frozen_ownership)

unfoldable pub thaw_all_frozen :
    {W : Type 0}
    → Env W
    → RuntimeControlState
    → ℕ
    → W
    → Option DaemonError × RuntimeControlState × W
unfolding thaw_frozen_identities detached_identities clear_detached_each
thaw_all_frozen env s timestamp_ms w =
    let (result, s1, w') =
      thaw_frozen_identities env s (keys s.frozen_apps) timestamp_ms (txt "control disabled") w in
    let s2 = clear_detached_each s1 (detached_identities s1) in
    (
      result,
      record s2 {
        pending_freezes = [];
        network_restriction_requests = [];
        blocked_process_signatures = [];
        download_deferral = default_deferral;
      },
      w',
    )
