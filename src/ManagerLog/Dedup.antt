-- ===== src/ManagerLog/Dedup.antt =====
-- Operations that are pushed again.
use freezeit_cos.Base.{
  ℕ, ◌≤◌, ◌≢◌, ℤ, Text, List, ◌⊎◌, true, false, ltb, ◌≡◌, refl, ap, arith, Bool-cases, inl, inr,
}
use freezeit_cos.Domain.Operation.{ControlOperation}
use freezeit_cos.ManagerLog.{
  LogRecord, operation, ManagerLog, operation_record, is_refused, retained_record_bytes,
  max_retained_log_bytes, store, push_log, bump_content_version,
}

refused_by_id :
    (log : ManagerLog) (op : ControlOperation)
    → op.operation_id ≢ 0
    → op.operation_id ≤ log.highest_operation_id
    → is_refused log (operation op) ≡ true
unfolding is_refused
refused_by_id log op n h = ground arith

module _ (text_capacity : Text → ℕ) (pids_capacity : List ℤ → ℕ) where
  push_refused :
      (log : ManagerLog) (op : ControlOperation)
      → op.operation_id ≢ 0
      → op.operation_id ≤ log.highest_operation_id
      → push_log text_capacity pids_capacity log (operation_record op) ≡ log
  unfolding push_log operation_record
  push_refused log op n h = rw (refused_by_id log op n h) refl

  store_large :
      (log : ManagerLog) (r : LogRecord)
      → ltb max_retained_log_bytes (retained_record_bytes text_capacity pids_capacity r) ≡ true
      → store text_capacity pids_capacity log r ≡ log
  unfolding store
  store_large log r e = rw e refl

  store-highest :
      (log : ManagerLog) (op : ControlOperation)
      → op.operation_id ≢ 0
      → ltb max_retained_log_bytes
          (retained_record_bytes text_capacity pids_capacity (operation_record op))
        ≡ false
      → (store text_capacity pids_capacity log (operation_record op)).highest_operation_id
        ≡ op.operation_id
  unfolding store bump_content_version operation_record
  store-highest log op n e = rw e (ground arith)

  -- Unless it is refused at once, the operation is the latest one that the log has seen, or too
  -- large for it.
  push_cases :
      (log : ManagerLog) (op : ControlOperation)
      → op.operation_id ≢ 0
      → (push_log text_capacity pids_capacity log (operation_record op) ≡ log)
        ⊎ ((push_log text_capacity pids_capacity log (operation_record op)).highest_operation_id
            ≡ op.operation_id)
  unfolding push_log
  push_cases log op n = elim (Bool-cases (is_refused log (operation_record op).payload)) [
    | inl e ↦ inl (rw e refl)
    | inr e ↦
        elim (Bool-cases (
          ltb max_retained_log_bytes
            (retained_record_bytes text_capacity pids_capacity (operation_record op)))) [
              | inl f ↦ inl (rw e (store_large log (operation_record op) f))
              | inr f ↦ inr (rw e (store-highest log op n f))
            ]
  ]

  -- Pushing an operation that has an id a second time changes nothing.
  pub push_log_twice :
      (log : ManagerLog) (op : ControlOperation)
      → op.operation_id ≢ 0
      → (let once = push_log text_capacity pids_capacity log (operation_record op) in
          push_log text_capacity pids_capacity once (operation_record op) ≡ once)
  push_log_twice log op n = elim (push_cases log op n) [
    | inl e ↦ ap (λ l. push_log text_capacity pids_capacity l (operation_record op)) e
    | inr e ↦
        push_refused (push_log text_capacity pids_capacity log (operation_record op)) op n
          (ground (arith, e))
  ]
