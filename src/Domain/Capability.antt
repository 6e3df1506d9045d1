-- ===== src/Domain/Capability.antt =====
-- Control capabilities: freezeitDaemon/src/domain/capability.rs.
use freezeit_cos.Base.{ℕ, Text}

pub data CapabilityName : Type 0 where
  root package_inventory lsposed_system_server cgroup_v2_freezer : CapabilityName
  binder_freezer signal_control network_break wakelock_control : CapabilityName

pub data CapabilityStatus : Type 0 where
  available missing degraded untested : CapabilityStatus

pub data RiskLevel : Type 0 where
  normal caution disabled : RiskLevel

pub record ControlCapability : Type 0 where
  pub name : CapabilityName
  pub status : CapabilityStatus
  pub evidence : Text
  pub checked_at_ms : ℕ
  pub risk_level : RiskLevel
