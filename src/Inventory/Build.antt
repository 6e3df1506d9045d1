-- ===== src/Inventory/Build.antt =====
-- Building the inventory of managed applications: freezeitDaemon/src/app/package_inventory.rs.
use freezeit_cos.Base.{
  ℕ, Text, txt, show, List, [], ◌∷◌, ◌++◌, some, not, ◌&&◌, is_some, is_none, ◌≡◌, arith, Map,
  lookup, insert, lookup-insert, beq_iff, nat_key, list_key, pair_key,
}
use freezeit_cos.Domain.Policy.{
  ManagedApp, FreezePolicy, is_protected, is_control_allowed_for, control_method,
}
use freezeit_cos.Inventory.{
  PackageRecord, ProtectedPackageContext, default_context, protected_reason_for_with_context,
}

-- The application of one package record.
unfoldable pub managed_app : ProtectedPackageContext → PackageRecord → ManagedApp
managed_app context r = record {
  package_name = r.package_name;
  user_id = r.user_id;
  uid = r.uid;
  label = r.label;
  is_system_app = r.is_system_app;
  protected_reason = protected_reason_for_with_context r.package_name r.is_system_app context;
  policy_id = show r.user_id ++ (txt ":" ++ r.package_name);
  last_seen_baseline = [];
}

-- `collect` into a `BTreeMap`: a later record replaces an earlier one of the same key.
unfoldable pub collect :
    ProtectedPackageContext
    → List PackageRecord
    → Map (Text × ℕ) ManagedApp
    → Map (Text × ℕ) ManagedApp
collect context [] apps = apps
collect context (r ∷ rs) apps =
    collect context rs (insert (r.package_name, r.user_id) (managed_app context r) apps)

unfoldable pub build_inventory_with_context :
    List PackageRecord → ProtectedPackageContext → Map (Text × ℕ) ManagedApp
build_inventory_with_context records context = collect context records []

unfoldable pub build_inventory : List PackageRecord → Map (Text × ℕ) ManagedApp
build_inventory records = build_inventory_with_context records default_context

-- The application stands under its own name, with the protection that the context gives it.
abbrev IsDerived : ProtectedPackageContext → Text × ℕ → ManagedApp → Type 0
IsDerived context i app =
    (app.package_name ≡ i.0)
    × (app.protected_reason ≡ protected_reason_for_with_context i.0 app.is_system_app context)

IsDerived-in :
    (context : ProtectedPackageContext) (r : PackageRecord) (apps : Map (Text × ℕ) ManagedApp)
    → ((i : Text × ℕ) (app : ManagedApp) → lookup i apps ≡ some app → IsDerived context i app)
    → (i : Text × ℕ) (app : ManagedApp)
    → lookup i (insert (r.package_name, r.user_id) (managed_app context r) apps) ≡ some app
    → IsDerived context i app
unfolding managed_app
IsDerived-in context r apps h i app e =
    let k : Text × ℕ = (r.package_name, r.user_id) in
    ground (arith, beq_iff k i, lookup-insert k i (managed_app context r) apps, e, h i app)

collect-IsDerived :
    (context : ProtectedPackageContext) (rs : List PackageRecord) (apps : Map (Text × ℕ) ManagedApp)
    → ((i : Text × ℕ) (app : ManagedApp) → lookup i apps ≡ some app → IsDerived context i app)
    → (i : Text × ℕ) (app : ManagedApp) → lookup i (collect context rs apps) ≡ some app
    → IsDerived context i app
unfolding collect
collect-IsDerived context [] apps h i app e = h i app e
collect-IsDerived context (r ∷ rs) apps h i app e =
    collect-IsDerived context rs _ (IsDerived-in context r apps h) i app e

-- An application of the inventory may be controlled exactly if it is no system application, the
-- context does not protect its package, and the policy's mode has a control method.
pub inventory_allowed :
    (rs : List PackageRecord) (context : ProtectedPackageContext) (policy : FreezePolicy)
    (name : Text) (user_id : ℕ) (app : ManagedApp)
    → lookup (name, user_id) (build_inventory_with_context rs context) ≡ some app
    → is_control_allowed_for policy app ≡ (
        not app.is_system_app
        && (is_none (protected_reason_for_with_context name app.is_system_app context)
            && is_some (control_method policy)))
unfolding build_inventory_with_context is_control_allowed_for is_protected
inventory_allowed rs context policy name user_id app e =
    let derived =
      collect-IsDerived context rs [] (λ i a none_there. absurd (unfold lookup in cc))
        (name, user_id) app e in
    ground (arith, derived)
