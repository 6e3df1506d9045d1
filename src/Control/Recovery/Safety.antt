-- ===== src/Control/Recovery/Safety.antt =====
-- What the recovery of a process touches, and in which order.
use freezeit_cos.Base.{
  Text, txt, List, [], ◌∷◌, Option, none, some, Bool, true, false, ◌≡◌, ◌↔◌, ◌⊎◌, inl, inr, refl,
  arith, All,
}
use freezeit_cos.Domain.Error.{Result, ok, err}
use freezeit_cos.Domain.Process.{RuntimeProcess}
use freezeit_cos.Control.World.{SignalStopOwnership}
use freezeit_cos.Control.World.Trace.{is_valid}
use freezeit_cos.Control.Transaction.{identity_failure}
use freezeit_cos.Control.Transaction.Guarded.{identity_failure-none}
use freezeit_cos.Control.Recovery.{
  RecoveryEnv, RestartRecoveryOutcome, FreezeState, thawed, signal_only_recovery,
  restart_identity_is_current, resume, unbind, thaw_path, path_to_thaw, recover_path,
  recover_process_after_restart, default_outcome, note_thaw, note_binder,
}

-- A call of the recovery.
pub data Event : Type 0 where
  checked : Bool → Event
  thawed_cgroup unfroze_binder sent_continue : Event

abbrev note : {A W : Type 0} → Event → List Event → A × W → A × (List Event × W)
note e log (a, w) = (a, (e ∷ log, w))

-- The environment with a record of the calls made to it, newest first.
unfoldable pub traced : {W : Type 0} → RecoveryEnv W → RecoveryEnv (List Event × W)
traced env = record {
  validate = λ p t. note (checked (is_valid (env.validate p t.1).0)) t.0 (env.validate p t.1);
  thaw_cgroup = λ path t. note thawed_cgroup t.0 (env.thaw_cgroup path t.1);
  unfreeze_binder = λ p t. note unfroze_binder t.0 (env.unfreeze_binder p t.1);
  resume_signal = λ p t. note sent_continue t.0 (env.resume_signal p t.1);
}

-- Every call that changes the process comes directly after a check that succeeded.
abbrev AfterCheck : List Event → Type 0
AfterCheck (checked b ∷ log) = b ≡ true
AfterCheck _ = ⊥

abbrev IsGuardedCall : Event → List Event → Type 0
IsGuardedCall (checked b) log = Unit
IsGuardedCall _ log = AfterCheck log

abbrev pub IsGuarded : List Event → Type 0
IsGuarded [] = Unit
IsGuarded (e ∷ log) = IsGuardedCall e log × IsGuarded log

module _ {W : Type 0} (env : RecoveryEnv W) where
  valid_none :
      (phase : Text) (p : RuntimeProcess) (w : W)
      → identity_failure phase p (env.validate p w).0 ≡ none
      → is_valid (env.validate p w).0 ≡ true
  valid_none phase p w e = ground (arith, identity_failure-none phase p (env.validate p w).0)

  resume-IsGuarded :
      (p : RuntimeProcess) (o : Option SignalStopOwnership) (out : RestartRecoveryOutcome)
      (log : List Event) (w : W)
      → IsGuarded log
      → IsGuarded (resume (traced env) p o out (log, w)).1.0
  unfolding resume traced restart_identity_is_current
  resume-IsGuarded p none out log w h = h
  resume-IsGuarded p (some o) out log w h =
      ground (arith, h, valid_none (txt " immediately before SIGCONT") p w)

  unbind-IsGuarded :
      (p : RuntimeProcess) (o : Option SignalStopOwnership) (out : RestartRecoveryOutcome)
      (log : List Event) (w : W)
      → IsGuarded log
      → IsGuarded (unbind (traced env) p o out (log, w)).1.0
  unfolding unbind traced restart_identity_is_current
  unbind-IsGuarded p o out log w h =
      let checked_log = checked (is_valid (env.validate p w).0) ∷ log in
      let w1 = (env.validate p w).1 in
      ground (
        arith,
        h,
        valid_none (txt " before binder unfreeze") p w,
        resume-IsGuarded p o (note_binder p (env.unfreeze_binder p w1).0 out)
            (unfroze_binder ∷ checked_log) (env.unfreeze_binder p w1).1,
      )

  thaw_path-IsGuarded :
      (p : RuntimeProcess) (o : Option SignalStopOwnership) (path : Text) (log : List Event) (w : W)
      → IsGuarded log
      → IsGuarded (thaw_path (traced env) p o path (log, w)).1.0
  unfolding thaw_path traced restart_identity_is_current
  thaw_path-IsGuarded p o path log w h =
      let checked_log = checked (is_valid (env.validate p w).0) ∷ log in
      let w1 = (env.validate p w).1 in
      ground (
        arith,
        h,
        valid_none (txt " before cgroup thaw") p w,
        unbind-IsGuarded p o (note_thaw p (env.thaw_cgroup path w1).0 default_outcome)
            (thawed_cgroup ∷ checked_log) (env.thaw_cgroup path w1).1,
      )

  recover_path-IsGuarded :
      (p : RuntimeProcess) (o : Option SignalStopOwnership) (path : Option Text) (w : W)
      → IsGuarded (recover_path (traced env) p o path ([], w)).1.0
  unfolding recover_path
  recover_path-IsGuarded p o none w = resume-IsGuarded p o default_outcome [] w tt
  recover_path-IsGuarded p o (some path) w = thaw_path-IsGuarded p o path [] w tt

  -- In the record of the calls of a recovery, each cgroup thaw, binder unfreeze and SIGCONT comes
  -- directly after a check of the process's identity that returned `Ok(true)`.
  pub recover-IsGuarded :
      (p : RuntimeProcess) (o : Option SignalStopOwnership) (observed : Option FreezeState) (w : W)
      → IsGuarded (recover_process_after_restart (traced env) p o observed ([], w)).1.0
  unfolding recover_process_after_restart
  recover-IsGuarded p o observed w = recover_path-IsGuarded p o (path_to_thaw p o observed) w

-- A call that leaves the cgroup and the binder alone.
abbrev IsSignalCall : Event → Type 0
IsSignalCall thawed_cgroup = ⊥
IsSignalCall unfroze_binder = ⊥
IsSignalCall _ = Unit

abbrev pub IsSignalOnly : List Event → Type 0
IsSignalOnly = All IsSignalCall

valid_failure :
    (phase : Text) (p : RuntimeProcess) (r : Result Bool)
    → is_valid r ≡ true
    → identity_failure phase p r ≡ none
unfolding identity_failure
valid_failure phase p (ok b) h = ground arith
valid_failure phase p (err e) h = cc

module _ {W : Type 0} (env : RecoveryEnv W) where
  -- The record of a recovery that goes on contains the calls that were made before.
  resume-IsSignalOnly :
      (p : RuntimeProcess) (o : Option SignalStopOwnership) (out : RestartRecoveryOutcome)
      (log : List Event) (w : W)
      → IsSignalOnly (resume (traced env) p o out (log, w)).1.0 ↔ IsSignalOnly log
  unfolding resume traced restart_identity_is_current
  resume-IsSignalOnly p none out log w = ((λ h. h), (λ h. h))
  resume-IsSignalOnly p (some o) out log w = ground arith

  unbind-earlier :
      (p : RuntimeProcess) (o : Option SignalStopOwnership) (out : RestartRecoveryOutcome)
      (log : List Event) (w : W)
      → IsSignalOnly (unbind (traced env) p o out (log, w)).1.0
      → IsSignalOnly log
  unfolding unbind traced restart_identity_is_current
  unbind-earlier p o out log w =
      let w1 = (env.validate p w).1 in
      ground (
        arith,
        resume-IsSignalOnly p o (note_binder p (env.unfreeze_binder p w1).0 out)
            (unfroze_binder ∷ checked (is_valid (env.validate p w).0) ∷ log)
            (env.unfreeze_binder p w1).1,
      )

  thaw_path-IsSignalOnly :
      (p : RuntimeProcess) (o : Option SignalStopOwnership) (path : Text) (w : W)
      → IsSignalOnly (thaw_path (traced env) p o path ([], w)).1.0
        ↔ (is_valid (env.validate p w).0 ≡ false)
  unfolding thaw_path traced restart_identity_is_current
  thaw_path-IsSignalOnly p o path w =
      let w1 = (env.validate p w).1 in
      ground (
        arith,
        valid_none env (txt " before cgroup thaw") p w,
        valid_failure (txt " before cgroup thaw") p (env.validate p w).0,
        unbind-earlier p o (note_thaw p (env.thaw_cgroup path w1).0 default_outcome)
            (thawed_cgroup ∷ checked (is_valid (env.validate p w).0) ∷ [])
            (env.thaw_cgroup path w1).1,
      )

  recover_path-IsSignalOnly :
      (p : RuntimeProcess) (o : Option SignalStopOwnership) (path : Option Text) (w : W)
      → IsSignalOnly (recover_path (traced env) p o path ([], w)).1.0
        ↔ ((path ≡ none) ⊎ (is_valid (env.validate p w).0 ≡ false))
  unfolding recover_path
  recover_path-IsSignalOnly p o none w =
      ((λ h. inl refl), λ h. (resume-IsSignalOnly p o default_outcome [] w).1 tt)
  recover_path-IsSignalOnly p o (some path) w = (
    (λ h. inr ((thaw_path-IsSignalOnly p o path w).0 h)),
    λ h. (thaw_path-IsSignalOnly p o path w).1 (ground (arith, h)),
  )

path_to_thaw-none :
    (p : RuntimeProcess) (o : Option SignalStopOwnership) (observed : Option FreezeState)
    → (path_to_thaw p o observed ≡ none) ↔ (
        (p.cgroup_freeze_path ≡ none)
        ⊎ ((o ≡ some SignalStopOwnership.signal_only) × (observed ≡ some thawed)))
unfolding path_to_thaw signal_only_recovery
path_to_thaw-none p (some SignalStopOwnership.signal_only) (some thawed) = ground arith
path_to_thaw-none p (some SignalStopOwnership.signal_only) (some FreezeState.frozen) = ground arith
path_to_thaw-none p (some SignalStopOwnership.signal_only) none = ground arith
path_to_thaw-none p (some SignalStopOwnership.residual_unknown) observed = ground arith
path_to_thaw-none p none observed = ground arith

-- The cgroup and the binder of a process are left alone exactly if it has no cgroup path, or the
-- ledger marks it as stopped by the signal alone and its cgroup is seen to be thawed, or the first
-- check of its identity does not return `Ok(true)`.
pub recover-IsSignalOnly_iff :
    {W : Type 0} (env : RecoveryEnv W) (p : RuntimeProcess) (o : Option SignalStopOwnership)
    (observed : Option FreezeState) (w : W)
    → IsSignalOnly (recover_process_after_restart (traced env) p o observed ([], w)).1.0 ↔ (
        (p.cgroup_freeze_path ≡ none)
        ⊎ ((o ≡ some SignalStopOwnership.signal_only) × (observed ≡ some thawed))
        ⊎ (is_valid (env.validate p w).0 ≡ false))
unfolding recover_process_after_restart
recover-IsSignalOnly_iff env p o observed w = ground (
  arith,
  recover_path-IsSignalOnly env p o (path_to_thaw p o observed) w,
  path_to_thaw-none p o observed,
)
