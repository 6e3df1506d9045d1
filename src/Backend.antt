-- ===== src/Backend.antt =====
-- The freezer backend's decisions: freezeitDaemon/src/app/freezer_backend.rs.
pub mod Decisions
use freezeit_cos.Base.{
  Text, txt, show_int, contains_text, to_ascii_lowercase, List, [], ◌∷◌, ◌++◌, map, Option, none,
  some, Bool, true, false, not, ◌&&◌, ◌||◌, any, is_empty, find, length, show, unwrap_or,
  if◌then◌else◌,
}
use freezeit_cos.Domain.Error.{DaemonError, io, display}
use freezeit_cos.Domain.Policy.{
  ManagedApp, FreezePolicy, FallbackAction, FreezeMode, is_control_allowed_for,
  requested_restrictions,
}
use freezeit_cos.Domain.Process.{
  RuntimeProcess, ProcessState, ControlState, foreground, visible, service, cached, empty,
  is_pending, frozen, running,
}
use freezeit_cos.Domain.Operation.{ControlOperation, ControlAction, OperationResult, success}

pub data DecisionAction : Type 0 where
  freeze postpone alternate_freezer signal terminate skip : DecisionAction

pub record FreezeDecision : Type 0 where
  pub action : DecisionAction
  pub reason : Text

pub record BackendEnvironment : Type 0 where
  pub cgroup_available : Bool
  pub binder_available : Bool
  pub network_available : Bool
  pub wakelock_available : Bool
  pub screen_state_available : Bool
  pub hook_fresh : Bool

abbrev pub default_environment : BackendEnvironment
default_environment = record {
  cgroup_available = true;
  binder_available = true;
  network_available = true;
  wakelock_available = true;
  screen_state_available = true;
  hook_fresh = true;
}

abbrev decide : DecisionAction → Text → FreezeDecision
decide action reason = record { action = action; reason = reason }

-- `matches!(process.proc_state, Foreground | Visible | Unknown)`
abbrev pub is_user_facing : ProcessState → Bool
is_user_facing foreground = true
is_user_facing visible = true
is_user_facing ProcessState.unknown = true
is_user_facing _ = false

binder_busy : Text → Bool
binder_busy state =
    let normalized = to_ascii_lowercase state in
    contains_text (txt "binder_queue active") normalized
    || (contains_text (txt "busy") normalized
        || (contains_text (txt "sync_txn") normalized
            || (contains_text (txt "txns_pending") normalized
                || contains_text (txt "binder_pending") normalized)))

-- The closure of `idle_blocker`.
unfoldable pub is_idle_blocked : RuntimeProcess → Bool
unfolding binder_busy
is_idle_blocked process =
    if not (is_pending process.control_state)
    then false
    else elim process.binder_state [ none ↦ false | some state ↦ binder_busy state ]

idle_reason : RuntimeProcess → Text
idle_reason blocked =
    txt "pending freeze idle evidence is not satisfied by binder transaction state for pid "
    ++ (show_int blocked.pid ++ (txt ": " ++ unwrap_or blocked.binder_state (txt "unavailable")))

pub idle_blocker : List RuntimeProcess → Option Text
unfolding is_idle_blocked idle_reason
idle_blocker processes = elim (find is_idle_blocked processes) [
  | none ↦ none
  | some blocked ↦ some (idle_reason blocked)
]

abbrev decision_of : FallbackAction → DecisionAction
decision_of FallbackAction.postpone = postpone
decision_of FallbackAction.alternate_freezer = alternate_freezer
decision_of FallbackAction.signal = signal
decision_of FallbackAction.terminate = terminate
decision_of FallbackAction.skip = skip

abbrev first_or_skip : List FallbackAction → FallbackAction
first_or_skip [] = FallbackAction.skip
first_or_skip (a ∷ rest) = a

unfoldable pub fallback_decision : FreezePolicy → Text → FreezeDecision
fallback_decision policy reason =
    decide (decision_of (first_or_skip policy.fallback_strategy)) reason

-- The last part of `can_freeze`: the mode, then what the device offers.
choose_backend : BackendEnvironment → FreezePolicy → FreezeDecision
unfolding fallback_decision
choose_backend env policy = elim policy.mode [
  | FreezeMode.terminate ↦ decide terminate (txt "terminate policy selected")
  | FreezeMode.signal_stop ↦ decide signal (txt "signal-stop policy selected")
  | _ ↦
      if env.cgroup_available && env.binder_available
      then decide freeze (txt "cgroup and binder freezer available")
      else if env.cgroup_available && not env.binder_available
      then fallback_decision policy (
          txt
            "cgroup freezer available but binder freezer unavailable; freeze_process requires binder")
      else fallback_decision policy (txt "preferred freezer unavailable")
]

-- The middle part of `can_freeze`: the idle evidence and the requested restrictions.
check_idle : BackendEnvironment → FreezePolicy → List RuntimeProcess → FreezeDecision
unfolding idle_blocker choose_backend requested_restrictions
check_idle env policy processes = elim (idle_blocker processes) [
  | some reason ↦ decide postpone reason
  | none ↦
      let requested = requested_restrictions policy in
      if requested.network_break && not env.network_available
      then decide postpone (txt "network restriction requested but backend is unavailable")
      else if requested.wakelock_restriction && not env.wakelock_available
      then decide postpone (txt "wakelock restriction requested but backend is unavailable")
      else choose_backend env policy
]

unfoldable pub can_freeze :
    BackendEnvironment → ManagedApp → FreezePolicy → List RuntimeProcess → FreezeDecision
unfolding is_control_allowed_for check_idle
can_freeze env app policy processes =
    if not (is_control_allowed_for policy app)
    then decide skip (txt "policy or protected package blocks control")
    else if is_empty processes
    then decide skip (txt "no runtime processes")
    else if any (λ process. is_user_facing process.proc_state) processes
    then decide postpone (txt "foreground, visible, or unknown process state")
    else if not env.hook_fresh || not env.screen_state_available
    then decide postpone (txt "fresh hook and screen-state evidence required")
    else check_idle env policy processes

abbrev pub is_permission_denied : DaemonError → Bool
is_permission_denied (io e) = e.permission_denied
is_permission_denied _ = false

unfoldable pub fallback_after_freeze_apply_error : FreezePolicy → DaemonError → FreezeDecision
unfolding fallback_decision
fallback_after_freeze_apply_error policy error = fallback_decision policy (
    if is_permission_denied error
    then txt "permission denied while applying cgroup.freeze: " ++ display error
    else txt "freezer apply failed: " ++ display error)

operation :
    ManagedApp → List RuntimeProcess → ControlAction → OperationResult → Text → ControlOperation
operation app processes action result reason = record {
  operation_id = 0;
  timestamp_ms = 0;
  package_name = app.package_name;
  uid = app.uid;
  pid_list = map (λ process. process.pid) processes;
  action = action;
  backend = txt "SystemAwareCgroupBinderBackend";
  reason = reason;
  result = result;
  details = txt "process_count=" ++ show (length processes);
}

pub freeze_operation : ManagedApp → List RuntimeProcess → Text → ControlOperation
unfolding operation
freeze_operation app processes = operation app processes ControlAction.freeze success

pub unfreeze_operation : ManagedApp → List RuntimeProcess → Text → ControlOperation
unfolding operation
unfreeze_operation app processes = operation app processes ControlAction.unfreeze success

pub mark_processes_frozen : List RuntimeProcess → List RuntimeProcess
mark_processes_frozen = map λ (process : RuntimeProcess). record process { control_state = frozen }

pub mark_processes_running : List RuntimeProcess → List RuntimeProcess
mark_processes_running =
    map λ (process : RuntimeProcess). record process { control_state = running }
