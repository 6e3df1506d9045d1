-- ===== src/Domain/Policy.antt =====
-- Managed applications and freeze policies: freezeitDaemon/src/domain/policy.rs.
use freezeit_cos.Base.{
  ℕ, ℤ, Text, txt, List, [], ◌∷◌, ◌++◌, Option, none, some, Bool, true, false, ◌||◌, is_some,
  is_pos, or_option, if◌then◌else◌,
}

pub data ProtectedReason : Type 0 where
  manager launcher input_method root_manager hook_manager system_critical user_protected :
      ProtectedReason

pub data FreezeMode : Type 0 where
  protected free freeze freeze_with_restrictions signal_stop terminate : FreezeMode

pub data ControlMethod : Type 0 where
  cgroup_binder_freeze signal_stop terminate : ControlMethod

pub data ForegroundStrategy : Type 0 where
  strict permissive : ForegroundStrategy

pub data FallbackAction : Type 0 where
  postpone alternate_freezer signal terminate skip : FallbackAction

pub record RestrictionRequests : Type 0 where
  pub network_break : Bool
  pub wakelock_restriction : Bool

pub record ManagedApp : Type 0 where
  pub package_name : Text
  pub user_id : ℕ
  pub uid : ℕ
  pub label : Text
  pub is_system_app : Bool
  pub protected_reason : Option ProtectedReason
  pub policy_id : Text
  pub last_seen_baseline : Text

-- The one variant `FreezePolicy::Selected`.
pub record FreezePolicy : Type 0 where
  pub mode : FreezeMode
  pub delay_ms : ℕ
  pub foreground_strategy : ForegroundStrategy
  pub allow_network_restriction : Bool
  pub allow_wakelock_restriction : Bool
  pub fallback_strategy : List FallbackAction
  pub updated_at_ms : ℕ

unfoldable pub is_protected : ManagedApp → Bool
is_protected app = is_some app.protected_reason

pub apply_protected_defaults : ManagedApp → ManagedApp
apply_protected_defaults app =
    if is_some app.protected_reason || app.is_system_app
    then (record app {
      protected_reason = or_option app.protected_reason (some ProtectedReason.system_critical);
      policy_id = txt "protected:" ++ app.package_name;
    })
    else app

abbrev pub strategy_of : Bool → ForegroundStrategy
strategy_of true = permissive
strategy_of false = strict

selected : FreezeMode → Bool → List FallbackAction → Bool → FreezePolicy
selected mode network fallback is_permissive = record {
  mode = mode;
  delay_ms = 0;
  foreground_strategy = strategy_of is_permissive;
  allow_network_restriction = network;
  allow_wakelock_restriction = false;
  fallback_strategy = fallback;
  updated_at_ms = 0;
}

unfoldable pub from_legacy_mode : ℤ → Bool → FreezePolicy
unfolding selected
from_legacy_mode mode is_permissive =
    if is_pos mode 10
    then selected FreezeMode.terminate false (postpone ∷ skip ∷ []) is_permissive
    else if is_pos mode 20
    then selected FreezeMode.signal_stop false (postpone ∷ skip ∷ []) is_permissive
    else if is_pos mode 21
    then selected FreezeMode.signal_stop true (postpone ∷ skip ∷ []) is_permissive
    else if is_pos mode 30
    then selected freeze false (signal ∷ skip ∷ []) is_permissive
    else if is_pos mode 31
    then selected freeze true (signal ∷ skip ∷ []) is_permissive
    else if is_pos mode 40 || is_pos mode 50
    then selected protected false (skip ∷ []) is_permissive
    else selected free false (skip ∷ []) is_permissive

unfoldable pub control_method : FreezePolicy → Option ControlMethod
control_method policy = elim policy.mode [
  | FreezeMode.freeze ↦ some cgroup_binder_freeze
  | FreezeMode.freeze_with_restrictions ↦ some cgroup_binder_freeze
  | FreezeMode.signal_stop ↦ some ControlMethod.signal_stop
  | FreezeMode.terminate ↦ some ControlMethod.terminate
  | FreezeMode.protected ↦ none
  | FreezeMode.free ↦ none
]

unfoldable pub is_control_allowed_for : FreezePolicy → ManagedApp → Bool
unfolding is_protected control_method
is_control_allowed_for policy app =
    if app.is_system_app || is_protected app then false else is_some (control_method policy)

unfoldable pub requested_restrictions : FreezePolicy → RestrictionRequests
requested_restrictions policy = record {
  network_break = policy.allow_network_restriction;
  wakelock_restriction = policy.allow_wakelock_restriction;
}
