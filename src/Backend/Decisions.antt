-- ===== src/Backend/Decisions.antt =====
-- When the backend decides to freeze.
use freezeit_cos.Base.{
  Text, List, [], ◌∷◌, Bool, true, false, not, any, find, is_empty, is_none, ◌≡◌, ◌≢◌, ◌&&◌, ◌↔◌,
  refl, arith,
}
use freezeit_cos.Domain.Policy.{
  ManagedApp, FreezePolicy, FreezeMode, is_control_allowed_for, requested_restrictions,
}
use freezeit_cos.Domain.Process.{RuntimeProcess}
use freezeit_cos.Backend.{
  BackendEnvironment, freeze, is_user_facing, is_idle_blocked, idle_blocker, check_idle,
  choose_backend, fallback_decision, can_freeze,
}

find_none {ℓ} : {A : Type ℓ} (p : A → Bool) (l : List A) → is_none (find p l) ≡ not (any p l)
find_none p [] = refl
find_none p (x ∷ l) = ground (arith, find_none p l)

idle_blocker_none :
    (ps : List RuntimeProcess) → is_none (idle_blocker ps) ≡ not (any is_idle_blocked ps)
unfolding idle_blocker
idle_blocker_none ps = ground (arith, find_none is_idle_blocked ps)

fallback_never_freezes :
    (policy : FreezePolicy) (reason : Text) → (fallback_decision policy reason).action ≡ freeze → ⊥
unfolding fallback_decision
fallback_never_freezes policy reason h = ground arith

-- What has to hold of a policy and a device for the freezer to be chosen.
abbrev pub WantsFreezer : BackendEnvironment → FreezePolicy → Type 0
WantsFreezer env policy =
    (policy.mode ≢ FreezeMode.terminate)
    × (policy.mode ≢ FreezeMode.signal_stop)
    × (env.cgroup_available ≡ true)
    × (env.binder_available ≡ true)

choose_freeze :
    (env : BackendEnvironment) (policy : FreezePolicy)
    → (choose_backend env policy).action ≡ freeze
    → WantsFreezer env policy
unfolding choose_backend
choose_freeze env policy h = ground (arith, λ (r : Text). fallback_never_freezes policy r)

freeze_chosen :
    (env : BackendEnvironment) (policy : FreezePolicy)
    → WantsFreezer env policy
    → (choose_backend env policy).action ≡ freeze
unfolding choose_backend
freeze_chosen env policy h = ground arith

-- What each part of `can_freeze` asks for.
abbrev pub IsIdle : BackendEnvironment → ManagedApp → FreezePolicy → List RuntimeProcess → Type 0
IsIdle env app policy ps =
    (is_control_allowed_for policy app ≡ true)
    × (is_empty ps ≡ false)
    × (any (λ (p : RuntimeProcess). is_user_facing p.proc_state) ps ≡ false)
    × (env.hook_fresh ≡ true)
    × (env.screen_state_available ≡ true)
    × (any is_idle_blocked ps ≡ false)

abbrev pub IsRestrictable : BackendEnvironment → FreezePolicy → Type 0
IsRestrictable env policy =
    (((requested_restrictions policy).network_break && not env.network_available) ≡ false)
    × (((requested_restrictions policy).wakelock_restriction && not env.wakelock_available) ≡ false)

check_freeze :
    (env : BackendEnvironment) (policy : FreezePolicy) (ps : List RuntimeProcess)
    → ((check_idle env policy ps).action ≡ freeze)
      ↔ ((any is_idle_blocked ps ≡ false) × IsRestrictable env policy × WantsFreezer env policy)
unfolding check_idle
check_freeze env policy ps =
    ground (arith, idle_blocker_none ps, choose_freeze env policy, freeze_chosen env policy)

-- `can_freeze` decides to freeze exactly if control is allowed for the application and its mode,
-- there are processes, none of them is in front of the user or waits for a binder transaction,
-- the hook and the screen state are fresh, every restriction asked for is available, and the
-- mode asks for the freezer, with cgroup and binder both available.
pub can_freeze_freeze_iff :
    (env : BackendEnvironment) (app : ManagedApp) (policy : FreezePolicy) (ps : List RuntimeProcess)
    → ((can_freeze env app policy ps).action ≡ freeze)
      ↔ (IsIdle env app policy ps × IsRestrictable env policy × WantsFreezer env policy)
unfolding can_freeze
can_freeze_freeze_iff env app policy ps = ground (arith, check_freeze env policy ps)
