-- ===== src/Tests/Decisions.antt =====
-- The theorems on decisions, downloads and the log at concrete inputs.
use freezeit_cos.Base.{
  false, insert, not, is_none, is_some, list_key, pair_key, ◌&&◌, eq_ignore_ascii_case, ◌≡◌, ◌↔◌,
  refl, List, [], ◌∷◌, true, txt, lookup, nat_key,
}
use freezeit_cos.Domain.Process.{RuntimeProcess, foreground}
use freezeit_cos.Inventory.{PackageRecord, default_context, protected_reason_for_with_context}
use freezeit_cos.Inventory.Build.{
  managed_app, collect, build_inventory_with_context, inventory_allowed,
}
use freezeit_cos.Domain.Policy.{is_control_allowed_for, control_method, FreezePolicy, ManagedApp}
use freezeit_cos.Backend.{can_freeze, freeze, default_environment}
use freezeit_cos.Backend.Decisions.{IsIdle, IsRestrictable, WantsFreezer, can_freeze_freeze_iff}
use freezeit_cos.Deferral.{value, proceed, evaluate, is_candidate_package, default_deferral}
use freezeit_cos.Deferral.Rates.{WereSlow, second_proceeds_iff}
use freezeit_cos.Log.{new}
use freezeit_cos.Log.History.{push_all, log_is_tail}
use freezeit_cos.Control.Settings.{managed_app_from_record, policy_from_record}
use freezeit_cos.Tests.Device.{app, two_processes, process, frozen_config, an_operation}

abbrev managed : ManagedApp
managed = managed_app_from_record app 10_123

abbrev frozen_policy : FreezePolicy
frozen_policy = policy_from_record frozen_config

can_freeze_freeze_iff_example :
    ((can_freeze default_environment managed frozen_policy two_processes).action ≡ freeze) ↔ (
      IsIdle default_environment managed frozen_policy two_processes
      × IsRestrictable default_environment frozen_policy
      × WantsFreezer default_environment frozen_policy)
can_freeze_freeze_iff_example =
    can_freeze_freeze_iff default_environment managed frozen_policy two_processes

abbrev in_front : List RuntimeProcess
in_front = (record (process 1 app) { proc_state = foreground }) ∷ two_processes

is_candidate : is_candidate_package (txt "com.pikpak.android") ≡ true
unfolding is_candidate_package txt eq_ignore_ascii_case
is_candidate = refl

second_proceeds_iff_example :
    ((evaluate
        (evaluate default_deferral 7 (txt "com.pikpak.android") (value 0) 0).0
        7
        (txt "com.pikpak.android")
        (value 5_000_000)
        1_000).1
      ≡ proceed)
    ↔ WereSlow (value 0) 0 (value 5_000_000) 1_000
second_proceeds_iff_example =
    second_proceeds_iff default_deferral 7 (txt "com.pikpak.android") (value 0) (value 5_000_000) 0
      1_000 is_candidate

log_is_tail_example :
    (push_all (new 1) (an_operation ∷ an_operation ∷ [])).records ≡ an_operation ∷ []
log_is_tail_example = log_is_tail 1 (an_operation ∷ an_operation ∷ [])

abbrev package_record : PackageRecord
package_record = record {
  package_name = app;
  user_id = 0;
  uid = 10_123;
  label = app;
  is_system_app = false;
}

inventory_allowed_example :
    is_control_allowed_for frozen_policy (managed_app default_context package_record) ≡ (
      not (managed_app default_context package_record).is_system_app
      && (is_none (
            protected_reason_for_with_context app
              (managed_app default_context package_record).is_system_app
              default_context)
          && is_some (control_method frozen_policy)))
unfolding build_inventory_with_context collect lookup insert txt
inventory_allowed_example =
    inventory_allowed (package_record ∷ []) default_context frozen_policy app 0
      (managed_app default_context package_record) refl
