-- ===== src/Domain/Process.antt =====
-- Observed processes: freezeitDaemon/src/domain/runtime.rs.
use freezeit_cos.Base.{ℕ, ℤ, Text, Option, Bool, true, false, ◌&&◌, beq, nat_key, list_key, ◌==◌}

pub data ProcessState : Type 0 where
  foreground visible service cached empty unknown : ProcessState

pub data ControlState : Type 0 where
  running pending_freeze frozen unfreezing unknown : ControlState

pub record RuntimeProcess : Type 0 where
  pub pid : ℤ
  pub uid : ℕ
  pub package_name : Text
  pub process_name : Text
  pub proc_state : ProcessState
  pub control_state : ControlState
  pub cgroup_freeze_path : Option Text
  pub binder_state : Option Text
  pub start_time_ticks : Option ℕ
  pub last_seen_at_ms : ℕ

unfoldable pub identity_matches : RuntimeProcess → Text → ℕ → Bool
identity_matches p package_name uid = beq p.package_name package_name && p.uid == uid

abbrev pub is_pending : ControlState → Bool
is_pending pending_freeze = true
is_pending _ = false

abbrev pub is_running : ControlState → Bool
is_running running = true
is_running _ = false
