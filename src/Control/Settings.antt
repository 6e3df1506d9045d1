-- ===== src/Control/Settings.antt =====
-- What the manager's records and settings ask for: freezeitDaemon/src/app/controller.rs.
use freezeit_cos.Base.{
  ℕ, ℤ, ◌*◌, ◌%◌, Text, txt, List, [], ◌∷◌, Option, none, some, Bool, true, false, ◌||◌, ◌&&◌, not,
  all, is_empty, is_some, is_pos, ltb, leb, ◌==◌, get_elem?, unwrap_or, or_option, saturating_add,
  lookup, nat_key, list_key, pair_key, if◌then◌else◌,
}
use freezeit_cos.Domain.Process.{RuntimeProcess}
use freezeit_cos.Domain.Operation.{
  ControlAction, OperationResult, success, postponed, skipped, failed,
}
use freezeit_cos.Domain.Policy.{
  ManagedApp, FreezePolicy, FreezeMode, FallbackAction, system_critical, strategy_of,
}
use freezeit_cos.Inventory.{protected_reason_for}
use freezeit_cos.Backend.{BackendEnvironment, DecisionAction}
use freezeit_cos.Control.State.{RuntimeControlState, RuntimeIdentity, backend_name}

-- A record of the manager's application list, freezeitDaemon/src/protocol/manager_v1.rs
pub record ManagerAppConfigRecord : Type 0 where
  pub uid : ℕ
  pub mode : ℤ
  pub permissive : Bool

-- `settings.get(i).copied().unwrap_or(0)`
abbrev pub setting : List ℕ → ℕ → ℕ
setting settings i = unwrap_or (get_elem? settings i) 0

unfoldable pub manager_wakeup_interval_ms : List ℕ → Option ℕ
manager_wakeup_interval_ms settings =
    let choice = setting settings 3 in
    if choice == 1
    then some (5 * 60_000)
    else if choice == 2
    then some (15 * 60_000)
    else if choice == 3
    then some (30 * 60_000)
    else if choice == 4
    then some (60 * 60_000)
    else if choice == 5
    then some (120 * 60_000)
    else none

unfoldable pub manager_wakeup_duration_ms : List ℕ → ℕ
manager_wakeup_duration_ms settings = setting settings 2 * 1_000

unfoldable pub periodic_wakeup_due : RuntimeControlState → RuntimeIdentity → List ℕ → ℕ → Bool
unfolding manager_wakeup_interval_ms saturating_add
periodic_wakeup_due s i settings timestamp_ms = elim (manager_wakeup_interval_ms settings) [
  | none ↦ false
  | some interval ↦ elim (lookup i s.frozen_since_ms) [
    | none ↦ false
    | some since ↦ leb (saturating_add since interval) timestamp_ms
  ]
]

pub data RequestedControlBackend : Type 0 where
  terminate signal freezer : RequestedControlBackend

unfoldable pub operation_backend : RequestedControlBackend → List RuntimeProcess → Text
operation_backend terminate processes = txt "signal.kill"
operation_backend signal processes = txt "signal.stop"
operation_backend freezer processes = backend_name processes

abbrev is_some_two : Option ℕ → Bool
is_some_two none = false
is_some_two (some n) = n == 2

unfoldable pub requested_control_backend : ManagerAppConfigRecord → List ℕ → RequestedControlBackend
requested_control_backend config settings =
    if is_pos config.mode 10
    then terminate
    else if is_pos config.mode 20 || is_pos config.mode 21
    then signal
    else if (is_pos config.mode 30 || is_pos config.mode 31) && is_some_two (get_elem? settings 5)
    then signal
    else freezer

unfoldable pub mode_has_network_restriction : ℤ → Bool
mode_has_network_restriction mode = is_pos mode 21 || is_pos mode 31

unfoldable pub is_control_policy_mode : ℤ → Bool
is_control_policy_mode mode =
    is_pos mode 10 || (is_pos mode 20 || (is_pos mode 21 || (is_pos mode 30 || is_pos mode 31)))

-- The device as `can_freeze` sees it, with the answer of the binder probe.
unfoldable pub backend_environment : List RuntimeProcess → Bool → BackendEnvironment
backend_environment processes binder = record {
  cgroup_available = not (is_empty processes) && all (λ p. is_some p.cgroup_freeze_path) processes;
  binder_available = binder;
  network_available = true;
  wakelock_available = true;
  screen_state_available = true;
  hook_fresh = true;
}

unfoldable pub managed_app_from_record : Text → ℕ → ManagedApp
managed_app_from_record name uid =
    let is_system_app = ltb (uid % 100_000) 10_000 in
    record {
      package_name = name;
      user_id = 0;
      uid = uid;
      label = name;
      is_system_app = is_system_app;
      protected_reason =
          or_option (protected_reason_for name is_system_app)
            (if is_system_app then some system_critical else none);
      policy_id = txt "manager-v1";
      last_seen_baseline = txt "runtime";
    }

unfoldable pub mode_from_record : ℤ → FreezeMode
mode_from_record mode =
    if is_pos mode 10
    then FreezeMode.terminate
    else if is_pos mode 20 || is_pos mode 30
    then FreezeMode.freeze
    else if is_pos mode 21 || is_pos mode 31
    then FreezeMode.freeze_with_restrictions
    else if is_pos mode 40 || is_pos mode 50
    then FreezeMode.protected
    else FreezeMode.free

unfoldable pub policy_from_record : ManagerAppConfigRecord → FreezePolicy
unfolding mode_from_record mode_has_network_restriction
policy_from_record config = record {
  mode = mode_from_record config.mode;
  delay_ms = 0;
  foreground_strategy = strategy_of config.permissive;
  allow_network_restriction = mode_has_network_restriction config.mode;
  allow_wakelock_restriction = false;
  fallback_strategy = FallbackAction.signal ∷ FallbackAction.skip ∷ [];
  updated_at_ms = 0;
}

unfoldable pub manager_policy_delay_ms : ManagerAppConfigRecord → List ℕ → ℕ
manager_policy_delay_ms config settings =
    (if is_pos config.mode 10
      then setting settings 4
      else if is_pos config.mode 20
          || (is_pos config.mode 21 || (is_pos config.mode 30 || is_pos config.mode 31))
      then setting settings 2
      else 0)
    * 1_000

unfoldable pub operation_from_fallback : DecisionAction → ControlAction × OperationResult
operation_from_fallback DecisionAction.freeze = (ControlAction.freeze, success)
operation_from_fallback DecisionAction.postpone = (ControlAction.postpone, postponed)
operation_from_fallback DecisionAction.alternate_freezer = (ControlAction.fallback, skipped)
operation_from_fallback DecisionAction.signal = (ControlAction.fallback, skipped)
operation_from_fallback DecisionAction.terminate = (ControlAction.terminate, failed)
operation_from_fallback DecisionAction.skip = (ControlAction.skip, skipped)
