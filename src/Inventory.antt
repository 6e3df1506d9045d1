-- ===== src/Inventory.antt =====
-- Package identities and protected packages: freezeitDaemon/src/app/package_inventory.rs.
pub mod Build
use freezeit_cos.Base.{
  ℕ, Text, txt, List, [], Option, none, some, Bool, ◌||◌, any, beq, nat_key, list_key, ◌==◌, not,
  if◌then◌else◌,
}
use freezeit_cos.Domain.Policy.{
  ManagedApp, ProtectedReason, manager, launcher, input_method, root_manager, hook_manager,
  system_critical,
}

pub record PackageRecord : Type 0 where
  pub package_name : Text
  pub user_id : ℕ
  pub uid : ℕ
  pub label : Text
  pub is_system_app : Bool

pub record ProtectedPackageContext : Type 0 where
  pub launcher_packages : List Text
  pub input_method_packages : List Text
  pub root_manager_packages : List Text
  pub hook_manager_packages : List Text

abbrev pub default_context : ProtectedPackageContext
default_context = record {
  launcher_packages = [];
  input_method_packages = [];
  root_manager_packages = [];
  hook_manager_packages = [];
}

-- The final `match package_name`.
well_known : Text → Bool → Option ProtectedReason
well_known name is_system_app =
    if beq name (txt "io.github.jark006.freezeit")
    then some manager
    else if beq name (txt "com.topjohnwu.magisk") || beq name (txt "io.github.huskydg.magisk")
    then some root_manager
    else if beq name (txt "org.lsposed.manager") || beq name (txt "io.github.lsposed.manager")
    then some hook_manager
    else if beq name (txt "android")
        || (beq name (txt "com.android.systemui") || beq name (txt "com.android.phone"))
    then some system_critical
    else if is_system_app
    then some system_critical
    else none

unfoldable pub protected_reason_for_with_context :
    Text → Bool → ProtectedPackageContext → Option ProtectedReason
unfolding well_known
protected_reason_for_with_context name is_system_app context =
    if any (λ p. beq p name) context.launcher_packages
    then some launcher
    else if any (λ p. beq p name) context.input_method_packages
    then some input_method
    else if any (λ p. beq p name) context.root_manager_packages
    then some root_manager
    else if any (λ p. beq p name) context.hook_manager_packages
    then some hook_manager
    else well_known name is_system_app

unfoldable pub protected_reason_for : Text → Bool → Option ProtectedReason
unfolding protected_reason_for_with_context
protected_reason_for name is_system_app =
    protected_reason_for_with_context name is_system_app default_context

-- `Result<(), String>`: `none` is success.
unfoldable pub reconcile_uid : ManagedApp → PackageRecord → Option Text
reconcile_uid app current =
    if not (beq app.package_name current.package_name) || not (app.user_id == current.user_id)
    then some (txt "package identity mismatch")
    else if not (app.uid == current.uid)
    then some (txt "uid changed; package inventory reconciliation required")
    else none
