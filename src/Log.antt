-- ===== src/Log.antt =====
-- The bounded operation log: freezeitDaemon/src/app/operation_log.rs.
pub mod History
use freezeit_cos.Base.{ℕ, max, List, [], ◌∷◌, ◌++◌, length, ◌==◌, if◌then◌else◌}
use freezeit_cos.Domain.Operation.{ControlOperation}

-- Oldest record first.
pub record OperationLog : Type 0 where
  pub capacity : ℕ
  pub records : List ControlOperation

unfoldable pub new : ℕ → OperationLog
new capacity = record { capacity = max capacity 1; records = [] }

abbrev pop_front {ℓ} : {A : Type ℓ} → List A → List A
pop_front [] = []
pop_front (x ∷ xs) = xs

unfoldable pub push : OperationLog → ControlOperation → OperationLog
push log operation = record log {
  records =
      (if length log.records == log.capacity then pop_front log.records else log.records)
      ++ operation ∷ [];
}
