-- ===== src/Control/Recovery.antt =====
-- Recovering one process after the daemon was restarted: freezeitDaemon/src/app/controller.rs.
pub mod Safety
pub mod Report
use freezeit_cos.Base.{
  Text, txt, List, [], ◌∷◌, ◌++◌, Option, none, some, Bool, true, false, ◌&&◌, not, is_none,
  if◌then◌else◌,
}
use freezeit_cos.Domain.Error.{Result, ok, err}
use freezeit_cos.Domain.Process.{RuntimeProcess}
use freezeit_cos.Control.World.{SignalStopOwnership, signal_only}
use freezeit_cos.Control.Transaction.{identity_failure, control_failure}

-- `cgroup::FreezeState`, freezeitDaemon/src/sys/cgroup.rs
pub data FreezeState : Type 0 where
  thawed frozen : FreezeState

pub record RestartRecoveryOutcome : Type 0 where
  pub cgroup_thawed : Bool
  pub signal_resumed : Bool
  pub failures : List Text

-- The closures that `recover_process_after_restart` is given.
pub record RecoveryEnv (W : Type 0) : Type 0 where
  pub validate : RuntimeProcess → W → Result Bool × W
  pub thaw_cgroup : Text → W → Result (Unit {0}) × W
  pub unfreeze_binder : RuntimeProcess → W → Result (Unit {0}) × W
  pub resume_signal : RuntimeProcess → W → Result (Unit {0}) × W

abbrev pub default_outcome : RestartRecoveryOutcome
default_outcome = record { cgroup_thawed = false; signal_resumed = false; failures = [] }

abbrev pub failed_by : RestartRecoveryOutcome → Text → RestartRecoveryOutcome
failed_by o m = record o { failures = o.failures ++ m ∷ [] }

-- `signal_only_recovery`
unfoldable pub signal_only_recovery : Option SignalStopOwnership → Option FreezeState → Bool
signal_only_recovery (some SignalStopOwnership.signal_only) (some thawed) = true
signal_only_recovery _ _ = false

-- The path that is to be thawed.
unfoldable pub path_to_thaw :
    RuntimeProcess → Option SignalStopOwnership → Option FreezeState → Option Text
path_to_thaw p ownership observed =
    if signal_only_recovery ownership observed then none else p.cgroup_freeze_path

-- The outcome of a call: a flag for a success, or one more failure.
abbrev pub note_thaw :
    RuntimeProcess → Result (Unit {0}) → RestartRecoveryOutcome → RestartRecoveryOutcome
note_thaw p (ok u) o = record o { cgroup_thawed = true }
note_thaw p (err e) o = failed_by o (control_failure (txt "cgroup thaw") p e)

abbrev pub note_binder :
    RuntimeProcess → Result (Unit {0}) → RestartRecoveryOutcome → RestartRecoveryOutcome
note_binder p (ok u) o = o
note_binder p (err e) o = failed_by o (control_failure (txt "binder unfreeze") p e)

abbrev pub note_resume :
    RuntimeProcess → Result (Unit {0}) → RestartRecoveryOutcome → RestartRecoveryOutcome
note_resume p (ok u) o = record o { signal_resumed = true }
note_resume p (err e) o = failed_by o (control_failure (txt "SIGCONT") p e)

module _ {W : Type 0} (env : RecoveryEnv W) where
  -- `restart_identity_is_current`
  unfoldable pub restart_identity_is_current : RuntimeProcess → Text → W → Option Text × W
  restart_identity_is_current p phase w =
      (identity_failure phase p (env.validate p w).0, (env.validate p w).1)

  -- The last phase: SIGCONT, if the ledger knows of a SIGSTOP.
  unfoldable pub resume :
      RuntimeProcess
      → Option SignalStopOwnership
      → RestartRecoveryOutcome
      → W
      → RestartRecoveryOutcome × W
  resume p none o w = (o, w)
  resume p (some ownership) o w =
      let (stale, w1) = restart_identity_is_current p (txt " immediately before SIGCONT") w in
      elim stale [
        | some m ↦ (failed_by o m, w1)
        | none ↦ (note_resume p (env.resume_signal p w1).0 o, (env.resume_signal p w1).1)
      ]

  -- The second phase: the binder.
  unfoldable pub unbind :
      RuntimeProcess
      → Option SignalStopOwnership
      → RestartRecoveryOutcome
      → W
      → RestartRecoveryOutcome × W
  unbind p ownership o w =
      let (stale, w1) = restart_identity_is_current p (txt " before binder unfreeze") w in
      elim stale [
        | some m ↦ (failed_by o m, w1)
        | none ↦
            resume p ownership (note_binder p (env.unfreeze_binder p w1).0 o)
              (env.unfreeze_binder p w1).1
      ]

  -- The first phase: the cgroup.
  unfoldable pub thaw_path :
      RuntimeProcess → Option SignalStopOwnership → Text → W → RestartRecoveryOutcome × W
  thaw_path p ownership path w =
      let (stale, w1) = restart_identity_is_current p (txt " before cgroup thaw") w in
      elim stale [
        | some m ↦ (failed_by default_outcome m, w1)
        | none ↦
            unbind p ownership (note_thaw p (env.thaw_cgroup path w1).0 default_outcome)
              (env.thaw_cgroup path w1).1
      ]

  -- From the path on: all phases, or the last alone.
  unfoldable pub recover_path :
      RuntimeProcess → Option SignalStopOwnership → Option Text → W → RestartRecoveryOutcome × W
  recover_path p ownership (some path) w = thaw_path p ownership path w
  recover_path p ownership none w = resume p ownership default_outcome w

  unfoldable pub recover_process_after_restart :
      RuntimeProcess
      → Option SignalStopOwnership
      → Option FreezeState
      → W
      → RestartRecoveryOutcome × W
  recover_process_after_restart p ownership observed w =
      recover_path p ownership (path_to_thaw p ownership observed) w
