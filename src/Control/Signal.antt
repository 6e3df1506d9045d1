-- ===== src/Control/Signal.antt =====
-- SIGSTOP transactions and the promotion of their ledger entries:
-- freezeitDaemon/src/app/controller.rs.
pub mod Promotion
use freezeit_cos.Base.{
  ℕ, List, [], ◌∷◌, Option, none, some, Bool, true, false, ◌&&◌, is_none, if◌then◌else◌,
}
use freezeit_cos.Domain.Error.{Result, ok, err}
use freezeit_cos.Domain.Process.{RuntimeProcess}
use freezeit_cos.Control.State.{
  RuntimeControlState, RuntimeIdentity, FrozenOwnership, signal_only, residual_unknown,
  has_unresolved_freeze_ownership,
}
use freezeit_cos.Control.World.{Env, SignalStopOwnership, signal_env}
use freezeit_cos.Control.Transaction.{
  SignalStopTransactionOutcome, FreezeTransactionOutcome, SignalStopLedgerPromotion, never,
  after_completed_direct_transaction, apply_freeze_transaction,
}

unfoldable pub ownership_of_outcome : SignalStopTransactionOutcome → FrozenOwnership
ownership_of_outcome outcome =
    if outcome.all_promotions_persisted then signal_only else residual_unknown

abbrev is_direct : SignalStopLedgerPromotion → Bool
is_direct after_completed_direct_transaction = true
is_direct never = false

-- `matches!(result, Ok(true))`
abbrev is_ok_true : Result Bool → Bool
is_ok_true (ok b) = b
is_ok_true (err e) = false

-- What the ledger says forbids a promotion.
abbrev forbids : Result (Option SignalStopOwnership) → Bool
forbids (ok none) = false
forbids (ok (some SignalStopOwnership.signal_only)) = false
forbids (ok (some SignalStopOwnership.residual_unknown)) = true
forbids (err e) = true

module _ {W : Type 0} (env : Env W) where
  ledger_promotion : List RuntimeProcess → W → SignalStopLedgerPromotion × W
  ledger_promotion [] w = (after_completed_direct_transaction, w)
  ledger_promotion (p ∷ ps) w = elim p.start_time_ticks [
    | none ↦ (never, w)
    | some start ↦ elim (forbids (env.recorded_ownership p.pid start w).0) [
      | true ↦ (never, (env.recorded_ownership p.pid start w).1)
      | false ↦ ledger_promotion ps (env.recorded_ownership p.pid start w).1
    ]
  ]

  unfoldable pub signal_stop_ledger_promotion :
      RuntimeControlState
      → RuntimeIdentity
      → List RuntimeProcess
      → W
      → SignalStopLedgerPromotion × W
  unfolding ledger_promotion
  signal_stop_ledger_promotion s identity processes w =
      if has_unresolved_freeze_ownership s identity
      then (never, w)
      else ledger_promotion processes w

  -- Every process is tried, also after one that was not persisted.
  unfoldable pub promote_each : List RuntimeProcess → Bool → W → Bool × W
  promote_each [] persisted w = (persisted, w)
  promote_each (p ∷ ps) persisted w =
      promote_each ps (if is_ok_true (env.promote_signal_stop p w).0 then persisted else false)
        (env.promote_signal_stop p w).1

  -- The promotions that follow the transaction.
  unfoldable pub finish :
      List RuntimeProcess
      → SignalStopLedgerPromotion
      → FreezeTransactionOutcome × W
      → SignalStopTransactionOutcome × W
  finish processes promotion (transaction, w) =
      if is_none transaction.failure && is_direct promotion
      then (let (persisted, w') = promote_each processes true w in
          (record { transaction = transaction; all_promotions_persisted = persisted }, w'))
      else (record { transaction = transaction; all_promotions_persisted = false }, w)

  unfoldable pub apply_signal_stop_freeze_transaction :
      List RuntimeProcess → SignalStopLedgerPromotion → W → SignalStopTransactionOutcome × W
  unfolding finish
  apply_signal_stop_freeze_transaction processes promotion w =
      finish processes promotion (apply_freeze_transaction (signal_env env) processes w)
