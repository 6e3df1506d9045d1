-- ===== src/Control/Transaction/Accounting.antt =====
-- The counts that the transactions report.
use freezeit_cos.Base.{
  ℕ, ◌+◌, ◌≤◌, Text, List, [], ◌∷◌, length, Option, none, some, true, false, ◌≡◌, ◌≢◌, refl, arith,
  ◌⊎◌, inl, inr,
}
use freezeit_cos.Domain.Process.{RuntimeProcess}
use freezeit_cos.Control.World.{Env}
use freezeit_cos.Control.Transaction.{
  FreezeTransactionOutcome, TerminateTransactionOutcome, preflight_all, freeze_each, rollback,
  conclude, after_preflight, apply_freeze_transaction, terminate_each, apply_terminate_transaction,
  after_terminate_preflight,
}

-- What a report promises: a success froze all; a failure before the first freeze touched nothing;
-- a later failure stopped short of the end and accounts for every process frozen until then.
abbrev pub IsBalanced : ℕ → FreezeTransactionOutcome → Type 0
IsBalanced total o =
    ((o.failure ≡ none)
      × (o.applied ≡ total)
      × (o.rolled_back + o.rollback_failures ≡ 0)
      × (o.residual_possible ≡ false))
    ⊎ ((o.failure ≢ none)
        × (((o.residual_possible ≡ false) × (o.applied ≡ 0))
            ⊎ ((o.residual_possible ≡ true) × (o.applied + 1 ≤ total)))
        × (o.rolled_back + o.rollback_failures ≡ o.applied))

module _ {W : Type 0} (env : Env W) where
  rollback_count :
      (ps : List RuntimeProcess) (done failures : ℕ) (w : W)
      → (rollback env ps done failures w).0 + (rollback env ps done failures w).1
        ≡ done + failures + length ps
  unfolding rollback
  rollback_count [] done failures w = omega arith
  rollback_count (p ∷ ps) done failures w =
      let w1 = (env.validate p w).1 in
      ground (
        arith,
        rollback_count ps done (failures + 1) w1,
        rollback_count ps done (failures + 1) (env.unfreeze p w1).1,
        rollback_count ps (done + 1) failures (env.unfreeze p w1).1,
      )

  -- The loop ends by a failure with some process left, or has frozen them all.
  freeze_each_count :
      (ps signaled : List RuntimeProcess) (w : W)
      → (((freeze_each env ps signaled w).0 ≡ none)
          × (length (freeze_each env ps signaled w).1 ≡ length signaled + length ps))
        ⊎ (((freeze_each env ps signaled w).0 ≢ none)
            × (length (freeze_each env ps signaled w).1 + 1 ≤ length signaled + length ps))
  unfolding freeze_each
  freeze_each_count [] signaled w = inl (refl, omega arith)
  freeze_each_count (p ∷ ps) signaled w =
      ground (arith, freeze_each_count ps (p ∷ signaled) (env.freeze p (env.validate p w).1).1)

  conclude-IsBalanced :
      (total : ℕ) (r : Option Text × List RuntimeProcess × W)
      → ((r.0 ≡ none) × (length r.1 ≡ total)) ⊎ ((r.0 ≢ none) × (length r.1 + 1 ≤ total))
      → IsBalanced total (conclude env r).0
  unfolding conclude
  conclude-IsBalanced total (none, signaled, w) h = ground arith
  conclude-IsBalanced total (some m, signaled, w) h =
      inr (ground arith, ground arith, ground (arith, rollback_count signaled 0 0 w))

  after_preflight-IsBalanced :
      (ps : List RuntimeProcess) (r : Option Text × W)
      → IsBalanced (length ps) (after_preflight env ps r).0
  unfolding after_preflight
  after_preflight-IsBalanced ps (none, w) =
      conclude-IsBalanced (length ps) (freeze_each env ps [] w)
        (ground (arith, freeze_each_count ps [] w))
  after_preflight-IsBalanced ps (some m, w) = ground arith

  -- The report of a freeze transaction accounts for every process: without a failure all are
  -- applied and none is rolled back; a failure with nothing residual applied none; any other
  -- failure stopped before the last process, and each process that was applied is counted as
  -- rolled back or as a roll-back failure.
  pub freeze_transaction-IsBalanced :
      (ps : List RuntimeProcess) (w : W)
      → IsBalanced (length ps) (apply_freeze_transaction env ps w).0
  unfolding apply_freeze_transaction
  freeze_transaction-IsBalanced ps w = after_preflight-IsBalanced ps (preflight_all env [] ps w)

  abbrev pub Counts : ℕ → TerminateTransactionOutcome → Type 0
  Counts total o =
      ((o.failure ≡ none) × (o.applied ≡ total)) ⊎ ((o.failure ≢ none) × (o.applied + 1 ≤ total))

  terminate_each-Counts :
      (ps : List RuntimeProcess) (applied : ℕ) (w : W)
      → Counts (applied + length ps) (terminate_each env ps applied w).0
  unfolding terminate_each
  terminate_each-Counts [] applied w = ground arith
  terminate_each-Counts (p ∷ ps) applied w =
      ground
        (arith, terminate_each-Counts ps (applied + 1) (env.terminate p (env.validate p w).1).1)

  after_terminate-Counts :
      (p : RuntimeProcess) (ps : List RuntimeProcess) (r : Option Text × W)
      → Counts (length (p ∷ ps)) (after_terminate_preflight env (p ∷ ps) r).0
  unfolding after_terminate_preflight
  after_terminate-Counts p ps (none, w) = ground (arith, terminate_each-Counts (p ∷ ps) 0 w)
  after_terminate-Counts p ps (some m, w) = ground arith

  -- The report of a terminate transaction has no failure and counts every process, or it has a
  -- failure and counts fewer than all of them.
  pub terminate_transaction-Counts :
      (ps : List RuntimeProcess) (w : W)
      → Counts (length ps) (apply_terminate_transaction env ps w).0
  unfolding apply_terminate_transaction after_terminate_preflight terminate_each
  terminate_transaction-Counts [] w = ground arith
  terminate_transaction-Counts (p ∷ ps) w = after_terminate-Counts p ps _
