-- ===== src/Control/World.antt =====
-- The device as the control loop sees it: the closures that controller.rs passes around, as
-- functions on a state `W` of the outside world that each call may change.
pub mod Trace
use freezeit_cos.Base.{ℕ, ℤ, Text, List, Option, none, some, Bool, true, false, ◌≡◌}
use freezeit_cos.Domain.Error.{Result, ok, err}
use freezeit_cos.Domain.Process.{RuntimeProcess}

-- `procfs::SignalStopOwnership`, freezeitDaemon/src/sys/procfs.rs
pub data SignalStopOwnership : Type 0 where
  signal_only residual_unknown : SignalStopOwnership

pub record Env (W : Type 0) : Type 0 where
  pub discover : Text → ℕ → W → Result (List RuntimeProcess) × W
  pub freeze : RuntimeProcess → W → Result (Unit {0}) × W
  pub unfreeze : RuntimeProcess → W → Result (Unit {0}) × W
  pub validate : RuntimeProcess → W → Result Bool × W
  pub sample_rx_bytes : ℕ → Text → W → Result (Option ℕ) × W
  pub terminate : RuntimeProcess → W → Result (Unit {0}) × W
  pub recorded_ownership : ℤ → ℕ → W → Result (Option SignalStopOwnership) × W
  pub promote_signal_stop : RuntimeProcess → W → Result Bool × W
  pub binder_available : W → Bool × W

-- `signal_control_process`
unfoldable pub signal_control_process : RuntimeProcess → RuntimeProcess
signal_control_process process = record process { cgroup_freeze_path = none }

-- The closures that `apply_signal_stop_freeze_transaction` hands on.
unfoldable pub signal_env : {W : Type 0} → Env W → Env W
signal_env env = record env {
  freeze = λ process. env.freeze (signal_control_process process);
  unfreeze = λ process. env.unfreeze (signal_control_process process);
}

-- A property of the world that looking and thawing keep, where an unfreeze is made only in the
-- state that a successful validation of the same pid has left.
pub record RespectsThaw {W : Type 0} (env : Env W) (P : W → Type 0) : Type 0 where
  pub discover : (name : Text) (uid : ℕ) (w : W) → P w → P (env.discover name uid w).1
  pub validate : (p : RuntimeProcess) (w : W) → P w → P (env.validate p w).1
  pub unfreeze :
      (p q : RuntimeProcess) (w : W)
      → q.pid ≡ p.pid
      → P w
      → (env.validate p w).0 ≡ ok true
      → P (env.unfreeze q (env.validate p w).1).1

-- A property of the world that every call keeps, where a freeze or a SIGKILL too is made only
-- after a successful validation.
pub record Respects {W : Type 0} (env : Env W) (P : W → Type 0) : Type 0 where
  pub thaw : RespectsThaw env P
  pub open thaw use *
  pub sample : (uid : ℕ) (name : Text) (w : W) → P w → P (env.sample_rx_bytes uid name w).1
  pub recorded : (pid : ℤ) (t : ℕ) (w : W) → P w → P (env.recorded_ownership pid t w).1
  pub promote : (p : RuntimeProcess) (w : W) → P w → P (env.promote_signal_stop p w).1
  pub binder : (w : W) → P w → P (env.binder_available w).1
  pub freeze :
      (p q : RuntimeProcess) (w : W)
      → q.pid ≡ p.pid
      → P w
      → (env.validate p w).0 ≡ ok true
      → P (env.freeze q (env.validate p w).1).1
  pub terminate :
      (p q : RuntimeProcess) (w : W)
      → q.pid ≡ p.pid
      → P w
      → (env.validate p w).0 ≡ ok true
      → P (env.terminate q (env.validate p w).1).1
