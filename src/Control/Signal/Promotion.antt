-- ===== src/Control/Signal/Promotion.antt =====
-- When a SIGSTOP transaction may claim that the signal alone holds the processes.
use freezeit_cos.Base.{
  List, [], ◌∷◌, Option, none, some, Bool, true, false, ◌≡◌, ◌↔◌, refl, arith, ℕ, Bool-cases,
  Option-cases, inl, inr, ◌⊎◌,
}
use freezeit_cos.Domain.Error.{Result, ok, err}
use freezeit_cos.Domain.Process.{RuntimeProcess}
use freezeit_cos.Control.State.{
  RuntimeControlState, RuntimeIdentity, signal_only, has_unresolved_freeze_ownership,
}
use freezeit_cos.Control.World.{Env, SignalStopOwnership, signal_env, Respects}
use freezeit_cos.Control.Transaction.{
  FreezeTransactionOutcome, SignalStopLedgerPromotion, never, after_completed_direct_transaction,
  apply_freeze_transaction,
}
use freezeit_cos.Control.Transaction.Guarded.{freeze_transaction_keeps, signal_env-Respects}
use freezeit_cos.Control.Signal.{
  ownership_of_outcome, promote_each, finish, apply_signal_stop_freeze_transaction,
  ledger_promotion, signal_stop_ledger_promotion, is_ok_true, forbids,
}

module _ {W : Type 0} (env : Env W) where
  -- Every promotion returned `Ok(true)`.
  abbrev pub AllPromoted : List RuntimeProcess → W → Type 0
  AllPromoted [] w = Unit
  AllPromoted (p ∷ ps) w =
      ((env.promote_signal_stop p w).0 ≡ ok true) × AllPromoted ps (env.promote_signal_stop p w).1

  promote_each-false : (ps : List RuntimeProcess) (w : W) → (promote_each env ps false w).0 ≡ false
  unfolding promote_each
  promote_each-false [] w = refl
  promote_each-false (p ∷ ps) w =
      ground (arith, promote_each-false ps (env.promote_signal_stop p w).1)

  is_ok_true_iff : (r : Result Bool) → (is_ok_true r ≡ true) ↔ (r ≡ ok true)
  is_ok_true_iff (ok b) = ground arith
  is_ok_true_iff (err e) = ground arith

  promote_each_iff :
      (ps : List RuntimeProcess) (w : W)
      → ((promote_each env ps true w).0 ≡ true) ↔ AllPromoted ps w
  unfolding promote_each
  promote_each_iff [] w = (λ _. tt, λ _. refl)
  promote_each_iff (p ∷ ps) w =
      let w1 = (env.promote_signal_stop p w).1 in
      ground (
        arith,
        is_ok_true_iff (env.promote_signal_stop p w).0,
        promote_each-false ps w1,
        promote_each_iff ps w1,
      )

  finish_iff :
      (ps : List RuntimeProcess) (promotion : SignalStopLedgerPromotion)
      (r : FreezeTransactionOutcome × W)
      → (ownership_of_outcome (finish env ps promotion r).0 ≡ signal_only) ↔ (
          (r.0.failure ≡ none)
          × (promotion ≡ after_completed_direct_transaction)
          × AllPromoted ps r.1)
  unfolding finish ownership_of_outcome
  finish_iff ps never (o, w) = ground arith
  finish_iff ps after_completed_direct_transaction (o, w) = ground (arith, promote_each_iff ps w)

  -- A stopped application counts as held by the signal alone exactly when the transaction stopped
  -- every process, was the direct one, and every promotion was persisted.
  pub signal_only_iff :
      (ps : List RuntimeProcess) (promotion : SignalStopLedgerPromotion) (w : W)
      → let frozen = apply_freeze_transaction (signal_env env) ps w in
        (ownership_of_outcome (apply_signal_stop_freeze_transaction env ps promotion w).0
          ≡ signal_only)
        ↔ ((frozen.0.failure ≡ none)
            × (promotion ≡ after_completed_direct_transaction)
            × AllPromoted ps frozen.1)
  unfolding apply_signal_stop_freeze_transaction
  signal_only_iff ps promotion w =
      finish_iff ps promotion (apply_freeze_transaction (signal_env env) ps w)

  -- Every process has a start time, and the ledger has no record for it or one of the signal.
  abbrev pub AllRecorded : List RuntimeProcess → W → Type 0
  AllRecorded [] w = Unit
  AllRecorded (p ∷ ps) w =
      (start : ℕ) × (p.start_time_ticks ≡ some start)
      × (((env.recorded_ownership p.pid start w).0 ≡ ok none)
          ⊎ ((env.recorded_ownership p.pid start w).0 ≡ ok (some SignalStopOwnership.signal_only)))
      × AllRecorded ps (env.recorded_ownership p.pid start w).1

  forbids_iff :
      (r : Result (Option SignalStopOwnership))
      → (forbids r ≡ false) ↔ ((r ≡ ok none) ⊎ (r ≡ ok (some SignalStopOwnership.signal_only)))
  forbids_iff (ok none) = ground arith
  forbids_iff (ok (some SignalStopOwnership.signal_only)) = ground arith
  forbids_iff (ok (some SignalStopOwnership.residual_unknown)) = ground arith
  forbids_iff (err e) = ground arith

  ledger_promotion_sound :
      (ps : List RuntimeProcess) (w : W)
      → (ledger_promotion env ps w).0 ≡ after_completed_direct_transaction
      → AllRecorded ps w
  unfolding ledger_promotion
  ledger_promotion_sound [] w e = tt
  ledger_promotion_sound (p ∷ ps) w e = elim (Option-cases p.start_time_ticks) [
    | inl n ↦ absurd (ground arith)
    | inr (start, q) ↦ (
      start,
      q,
      ground (arith, forbids_iff (env.recorded_ownership p.pid start w).0),
      ledger_promotion_sound ps (env.recorded_ownership p.pid start w).1 (ground arith),
    )
  ]

  ledger_promotion_complete :
      (ps : List RuntimeProcess) (w : W)
      → AllRecorded ps w
      → (ledger_promotion env ps w).0 ≡ after_completed_direct_transaction
  unfolding ledger_promotion
  ledger_promotion_complete [] w h = refl
  ledger_promotion_complete (p ∷ ps) w (start, q, c, rest) = ground (
    arith,
    forbids_iff (env.recorded_ownership p.pid start w).0,
    ledger_promotion_complete ps (env.recorded_ownership p.pid start w).1 rest,
  )

  -- The ledger may be promoted exactly when the identity has no unresolved freeze, and every process
  -- has a start time for which the ledger answers with no record or one of the signal alone.
  pub ledger_promotion_iff :
      (s : RuntimeControlState) (i : RuntimeIdentity) (ps : List RuntimeProcess) (w : W)
      → ((signal_stop_ledger_promotion env s i ps w).0 ≡ after_completed_direct_transaction)
        ↔ ((has_unresolved_freeze_ownership s i ≡ false) × AllRecorded ps w)
  unfolding signal_stop_ledger_promotion
  ledger_promotion_iff s i ps w = elim (Bool-cases (has_unresolved_freeze_ownership s i)) [
    | inl e ↦ (λ h. absurd (ground arith), λ h. absurd (cc (e, h.0)))
    | inr e ↦ (
      λ h. (e, ledger_promotion_sound ps w (ground arith)),
      λ h. ground (arith, ledger_promotion_complete ps w h.1),
    )
  ]

module _ {W : Type 0} (env : Env W) (P : W → Type 0) (R : Respects env P) where
  promote_each_keeps :
      (ps : List RuntimeProcess) (b : Bool) (w : W) → P w → P (promote_each env ps b w).1
  unfolding promote_each
  promote_each_keeps [] b w h = h
  promote_each_keeps (p ∷ ps) b w h =
      promote_each_keeps ps _ (env.promote_signal_stop p w).1 (R.promote p w h)

  finish_keeps :
      (ps : List RuntimeProcess) (promotion : SignalStopLedgerPromotion)
      (r : FreezeTransactionOutcome × W)
      → P r.1
      → P (finish env ps promotion r).1
  unfolding finish
  finish_keeps ps promotion (o, w) h = ground (arith, promote_each_keeps ps true w h)

  pub signal_transaction_keeps :
      (ps : List RuntimeProcess) (promotion : SignalStopLedgerPromotion) (w : W)
      → P w
      → P (apply_signal_stop_freeze_transaction env ps promotion w).1
  unfolding apply_signal_stop_freeze_transaction
  signal_transaction_keeps ps promotion w h =
      finish_keeps ps promotion _
        (freeze_transaction_keeps (signal_env env) P (signal_env-Respects env P R) ps w h)

  ledger_promotion_keeps :
      (ps : List RuntimeProcess) (w : W) → P w → P (ledger_promotion env ps w).1
  unfolding ledger_promotion
  ledger_promotion_keeps [] w h = h
  ledger_promotion_keeps (p ∷ ps) w h = elim (Option-cases p.start_time_ticks) [
    | inl n ↦ ground arith
    | inr (start, q) ↦ ground (
      arith,
      R.recorded p.pid start w h,
      ledger_promotion_keeps ps (env.recorded_ownership p.pid start w).1
          (R.recorded p.pid start w h),
    )
  ]

  pub signal_stop_ledger_promotion_keeps :
      (s : RuntimeControlState) (i : RuntimeIdentity) (ps : List RuntimeProcess) (w : W)
      → P w
      → P (signal_stop_ledger_promotion env s i ps w).1
  unfolding signal_stop_ledger_promotion
  signal_stop_ledger_promotion_keeps s i ps w h = ground (arith, ledger_promotion_keeps ps w h)
