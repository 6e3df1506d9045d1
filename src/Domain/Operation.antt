-- ===== src/Domain/Operation.antt =====
-- Records of what the daemon did: freezeitDaemon/src/domain/operation.rs.
use freezeit_cos.Base.{ℕ, ℤ, Text, List}

pub data ControlAction : Type 0 where
  freeze unfreeze terminate postpone fallback skip recover : ControlAction

pub data OperationResult : Type 0 where
  success partial failed skipped postponed : OperationResult

pub record ControlOperation : Type 0 where
  pub operation_id : ℕ
  pub timestamp_ms : ℕ
  pub package_name : Text
  pub uid : ℕ
  pub pid_list : List ℤ
  pub action : ControlAction
  pub backend : Text
  pub reason : Text
  pub result : OperationResult
  pub details : Text
