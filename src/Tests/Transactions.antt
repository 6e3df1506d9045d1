-- ===== src/Tests/Transactions.antt =====
-- The theorems on transactions, thawing and ownership, on the device of `Device`.
use freezeit_cos.Base.{
  pos, ℤ, List, ◌≡◌, ◌≢◌, ◌⊎◌, ◌+◌, ◌↔◌, refl, [], ◌∷◌, length, none, true, false, txt, contains,
  lookup, any, not, beq, list_key, nat_key, pair_key, insert, int_key,
}
use freezeit_cos.Domain.Process.{RuntimeProcess}
use freezeit_cos.Control.State.{
  initial, is_frozen, ownership_of, track_frozen, mark_abnormal_thaw_for_refreeze, signal_only,
  cgroup_binder, residual_unknown, has_unresolved_freeze_ownership, RuntimeControlState,
}
use freezeit_cos.Control.State.Ownership.{
  IsResidual, IsResidual-sticks, refrozen_owner, refreeze_ownership_of,
}
use freezeit_cos.Control.World.{signal_env}
use freezeit_cos.Control.Transaction.{
  identity_failure, apply_freeze_transaction, apply_terminate_transaction,
  after_completed_direct_transaction, shared_uid,
}
use freezeit_cos.Control.Transaction.Atomic.{IsAllOrNone, freeze-IsAllOrNone}
use freezeit_cos.Control.Transaction.Accounting.{
  IsBalanced, freeze_transaction-IsBalanced, Counts, terminate_transaction-Counts,
}
use freezeit_cos.Control.Signal.{
  ownership_of_outcome, apply_signal_stop_freeze_transaction, signal_stop_ledger_promotion,
}
use freezeit_cos.Control.Signal.Promotion.{
  AllPromoted, AllRecorded, signal_only_iff, ledger_promotion_iff,
}
use freezeit_cos.Control.Thaw.{
  thaw_frozen_identities, thaw_all_frozen, unfreeze_identity_processes, unfreeze_each, unfreeze_one,
}
use freezeit_cos.Control.Thaw.Frozen.{listed}
use freezeit_cos.Control.Thaw.Tracking.{tracking, untracked, thaw_identities-tracking}
use freezeit_cos.Control.Thaw.Resumed.{unfreeze_resumes}
use freezeit_cos.Control.Thaw.Guarded.{unfreeze_report}
use freezeit_cos.Control.Thaw.Detached.{thaw_all_frozen_lem}
use freezeit_cos.Tests.Device.{
  device, device-IsHonest, apart_device, apart_device-ThawsApart, stopped, app, two_processes,
  three_processes,
}

freeze-IsAllOrNone_example :
    IsAllOrNone device stopped device-IsHonest
      (pos 1)
      three_processes
      []
      (apply_freeze_transaction device three_processes [])
freeze-IsAllOrNone_example =
    freeze-IsAllOrNone device stopped device-IsHonest (pos 1) three_processes [] (λ e. refl)

freeze_transaction-IsBalanced_example :
    IsBalanced 3 (apply_freeze_transaction device three_processes []).0
freeze_transaction-IsBalanced_example = freeze_transaction-IsBalanced device three_processes []

terminate_transaction-Counts_example :
    Counts device 2 (apply_terminate_transaction device two_processes []).0
terminate_transaction-Counts_example = terminate_transaction-Counts device two_processes []

signal_only_iff_example :
    (ownership_of_outcome
        (apply_signal_stop_freeze_transaction device two_processes
          after_completed_direct_transaction []).0
      ≡ signal_only)
    ↔ (((apply_freeze_transaction (signal_env device) two_processes []).0.failure ≡ none)
        × (after_completed_direct_transaction ≡ after_completed_direct_transaction)
        × AllPromoted device two_processes
            (apply_freeze_transaction (signal_env device) two_processes []).1)
signal_only_iff_example = signal_only_iff device two_processes after_completed_direct_transaction []

ledger_promotion_iff_example :
    ((signal_stop_ledger_promotion device initial (app, 10_123) two_processes []).0
      ≡ after_completed_direct_transaction)
    ↔ ((has_unresolved_freeze_ownership initial (app, 10_123) ≡ false)
        × AllRecorded device two_processes [])
ledger_promotion_iff_example = ledger_promotion_iff device initial (app, 10_123) two_processes []

-- The application is frozen, by the cgroup and by binder.
abbrev tracked : RuntimeControlState
tracked = track_frozen initial (app, 10_123) 1_000 cgroup_binder

thaw_identities-tracking_example :
    let out = thaw_frozen_identities device tracked ((app, 10_123) ∷ []) 2_000 [] (pos 1 ∷ []) in
    ((listed device (app, 10_123) ((app, 10_123) ∷ []) ≡ false)
      × (tracking out.1 (app, 10_123) ≡ tracking tracked (app, 10_123)))
    ⊎ ((listed device (app, 10_123) ((app, 10_123) ∷ []) ≡ true)
        × ((out.0 ≢ none) ⊎ (tracking out.1 (app, 10_123) ≡ untracked)))
thaw_identities-tracking_example =
    thaw_identities-tracking device tracked ((app, 10_123) ∷ []) 2_000 [] (pos 1 ∷ []) (app, 10_123)

thaw_all_frozen_example :
    let out = thaw_all_frozen device tracked 2_000 (pos 1 ∷ pos 2 ∷ []) in
    ((out.0 ≢ none) ⊎ (is_frozen out.1 (app, 10_123) ≡ false))
    × ((contains (app, 10_123) out.1.frozen_ownership ≡ false)
        ⊎ ((is_frozen out.1 (app, 10_123) ≡ true) × (is_frozen tracked (app, 10_123) ≡ true)))
thaw_all_frozen_example =
    thaw_all_frozen_lem device tracked 2_000 (pos 1 ∷ pos 2 ∷ []) (app, 10_123)

unfreeze_report_example :
    let out = unfreeze_identity_processes device app two_processes signal_only (pos 1 ∷ []) in
    let mixed = any (λ (p : RuntimeProcess). not (beq p.package_name app)) two_processes in
    ((mixed ≡ false) × (out.0.applied + length out.0.failures ≡ 2))
    ⊎ ((mixed ≡ true)
        × (out.0.applied ≡ 0)
        × (out.0.failures ≡ shared_uid ∷ [])
        × (out.1 ≡ pos 1 ∷ []))
unfreeze_report_example = unfreeze_report device app two_processes signal_only (pos 1 ∷ [])

-- The first process is stopped by a signal, and both are in frozen cgroups.
abbrev both_stopped : List ℤ × List ℤ
both_stopped = (pos 1 ∷ [], pos 1 ∷ pos 2 ∷ [])

unfreeze_resumes_example :
    let after =
      (unfreeze_identity_processes apart_device app two_processes signal_only both_stopped).1 in
    (stopped after.0 (pos 1) ≡ false) × (stopped after.1 (pos 1) ≡ true)
unfolding unfreeze_identity_processes unfreeze_each unfreeze_one txt identity_failure
unfreeze_resumes_example =
    unfreeze_resumes apart_device (λ w. stopped w.0) (λ w. stopped w.1) apart_device-ThawsApart
      (pos 1) app two_processes signal_only both_stopped refl

abbrev residual : RuntimeControlState
residual = record initial {
  frozen_ownership = insert (app, 10_123) residual_unknown initial.frozen_ownership;
}

IsResidual-sticks_example :
    IsResidual (track_frozen residual (app, 10_123) 5 signal_only) (app, 10_123)
    × IsResidual (mark_abnormal_thaw_for_refreeze residual (app, 10_123)) (app, 10_123)
unfolding initial lookup insert txt
IsResidual-sticks_example =
    IsResidual-sticks residual (app, 10_123) (app, 10_123) 5 signal_only refl

refreeze_ownership_of_example :
    ownership_of
      (track_frozen
        (mark_abnormal_thaw_for_refreeze tracked (app, 10_123))
        (app, 10_123)
        5
        signal_only)
      (app, 10_123)
    ≡ refrozen_owner (ownership_of tracked (app, 10_123)) signal_only
refreeze_ownership_of_example = refreeze_ownership_of tracked (app, 10_123) 5 signal_only
