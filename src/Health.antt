-- ===== src/Health.antt =====
-- The health of the module: freezeitDaemon/src/app/health.rs.
use freezeit_cos.Base.{
  Text, txt, beq, list_key, nat_key, List, [], ◌∷◌, ◌++◌, Option, none, some, Bool, true, false,
  not, ◌&&◌, ◌||◌, any, ◌≡◌, arith, if◌then◌else◌,
}

pub data HealthStatus : Type 0 where
  active degraded inactive : HealthStatus

pub record ModuleHealth : Type 0 where
  pub manager_ready : Bool
  pub daemon_ready : Bool
  pub hook_ready : Bool
  pub root_ready : Bool
  pub freezer_ready : Bool
  pub policy_ready : Bool
  pub status : HealthStatus
  pub degraded_reasons : List Text

abbrev reason_unless : Bool → Text → List Text
reason_unless true reason = []
reason_unless false reason = reason ∷ []

unfoldable pub health_inactive : Text → ModuleHealth
health_inactive reason = record {
  manager_ready = false;
  daemon_ready = false;
  hook_ready = false;
  root_ready = false;
  freezer_ready = false;
  policy_ready = false;
  status = inactive;
  degraded_reasons = reason ∷ [];
}

status_of : Bool → Bool → Bool → HealthStatus
status_of all_ready manager_ready daemon_ready =
    if all_ready then active else if manager_ready || daemon_ready then degraded else inactive

unfoldable pub evaluate_health : Bool → Bool → Bool → Bool → Bool → Bool → ModuleHealth
unfolding status_of
evaluate_health manager daemon hook root freezer policy = record {
  manager_ready = manager;
  daemon_ready = daemon;
  hook_ready = hook;
  root_ready = root;
  freezer_ready = freezer;
  policy_ready = policy;
  status =
      status_of (manager && (daemon && (hook && (root && (freezer && policy))))) manager daemon;
  degraded_reasons =
      reason_unless daemon (txt "daemon not initialized")
      ++ (reason_unless hook (txt "hook bridge unavailable")
          ++ (reason_unless root (txt "root capability unavailable")
              ++ (reason_unless freezer (txt "freezer capability unavailable")
                  ++ reason_unless policy (txt "policy unavailable"))));
}

abbrev is_active : HealthStatus → Bool
is_active active = true
is_active _ = false

unfoldable pub is_safe_for_control : ModuleHealth → Bool
is_safe_for_control health = is_active health.status

-- `with_hook_bridge`, after the evaluation
unfoldable pub with_hook_reason : ModuleHealth → Option Text → ModuleHealth
with_hook_reason health none = health
with_hook_reason health (some reason) =
    if not (any (λ item. beq item reason) health.degraded_reasons)
    then (record health { degraded_reasons = health.degraded_reasons ++ reason ∷ [] })
    else health

unfoldable pub with_hook_bridge :
    Bool → Bool → Bool → Bool → Bool → Bool → Option Text → ModuleHealth
with_hook_bridge manager daemon root freezer policy hook reason =
    with_hook_reason (evaluate_health manager daemon hook root freezer policy) reason

abbrev downgraded : HealthStatus → HealthStatus
downgraded active = degraded
downgraded s = s

unfoldable pub downgrade_active_health : ModuleHealth → ModuleHealth
downgrade_active_health health = record health { status = downgraded health.status }

abbrev add_reason : Text → ModuleHealth → ModuleHealth
add_reason reason health = record health {
  degraded_reasons = health.degraded_reasons ++ reason ∷ [];
}

-- The four tests at the end of `with_capability_failures`.
unfoldable pub report_failures : Bool → Bool → Bool → Bool → ModuleHealth → ModuleHealth
report_failures inventory network wakelock screen health =
    let h1 =
      if not inventory
      then add_reason (txt "package inventory unavailable") (downgrade_active_health health)
      else health in
    let h2 = if not network then add_reason (txt "network control unavailable") h1 else h1 in
    let h3 = if not wakelock then add_reason (txt "wake-lock control unavailable") h2 else h2 in
    if not screen
    then add_reason (txt "screen-state detection unavailable") (downgrade_active_health h3)
    else h3

unfoldable pub with_capability_failures :
    Bool → Bool → Bool → Bool → Bool → Bool → Bool → Bool → Bool → ModuleHealth
with_capability_failures manager daemon hook root inventory freezer network wakelock screen =
    report_failures inventory network wakelock screen
      (evaluate_health manager daemon hook root freezer true)

report_active :
    (inventory network wakelock screen : Bool) (health : ModuleHealth)
    → is_safe_for_control (report_failures inventory network wakelock screen health)
      ≡ (is_safe_for_control health && (inventory && screen))
unfolding is_safe_for_control report_failures downgrade_active_health
report_active inventory network wakelock screen health = ground arith

evaluate_active :
    (manager daemon hook root freezer : Bool)
    → is_safe_for_control (evaluate_health manager daemon hook root freezer true)
      ≡ (manager && (daemon && (hook && (root && freezer))))
unfolding is_safe_for_control evaluate_health status_of
evaluate_active manager daemon hook root freezer = ground arith

-- Control is safe exactly if manager, daemon, hook, root, inventory, freezer and screen state are
-- all ready; a missing network or wake-lock control does not matter.
pub safe_for_control :
    (manager daemon hook root inventory freezer network wakelock screen : Bool)
    → is_safe_for_control (
        with_capability_failures manager daemon hook root inventory freezer network wakelock screen)
      ≡ ((manager && (daemon && (hook && (root && freezer)))) && (inventory && screen))
unfolding with_capability_failures
safe_for_control manager daemon hook root inventory freezer network wakelock screen = ground (
  arith,
  report_active inventory network wakelock screen
      (evaluate_health manager daemon hook root freezer true),
  evaluate_active manager daemon hook root freezer,
)
