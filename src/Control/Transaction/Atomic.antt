-- ===== src/Control/Transaction/Atomic.antt =====
-- The transactions on a device whose calls do what they report: all of the processes are stopped,
-- or, once the roll back has succeeded, the device is as it was.
use freezeit_cos.Base.{
  ℕ, ℤ, ◌+◌, ◌≤◌, Text, List, [], ◌∷◌, Option, none, some, Bool, true, false, ◌||◌, ◌≡◌, ◌≢◌, refl,
  arith, ◌⊎◌, inl, inr, any, beq, int_key, if◌then◌else◌,
}
use freezeit_cos.Domain.Error.{Result, ok, err}
use freezeit_cos.Domain.Process.{RuntimeProcess}
use freezeit_cos.Control.World.{Env, signal_env, signal_control_process}
use freezeit_cos.Control.Transaction.{
  FreezeTransactionOutcome, preflight, preflight_all, freeze_each, rollback, conclude,
  after_preflight, apply_freeze_transaction,
}

abbrev pub after_stop : Result (Unit {0}) → ℤ → ℤ → Bool → Bool
after_stop (ok u) pid q before = if beq pid q then true else before
after_stop (err e) pid q before = before

abbrev pub after_resume : Result (Unit {0}) → ℤ → ℤ → Bool → Bool
after_resume (ok u) pid q before = if beq pid q then false else before
after_resume (err e) pid q before = before

-- A call that succeeds stops or resumes the one process that it names; a call that fails, and a
-- validation, stop and resume none.
pub record IsHonest {W : Type 0} (env : Env W) (stopped : W → ℤ → Bool) : Type 0 where
  pub validate : (p : RuntimeProcess) (w : W) (q : ℤ) → stopped (env.validate p w).1 q ≡ stopped w q
  pub freeze :
      (p : RuntimeProcess) (w : W) (q : ℤ)
      → stopped (env.freeze p w).1 q ≡ after_stop (env.freeze p w).0 p.pid q (stopped w q)
  pub unfreeze :
      (p : RuntimeProcess) (w : W) (q : ℤ)
      → stopped (env.unfreeze p w).1 q ≡ after_resume (env.unfreeze p w).0 p.pid q (stopped w q)

abbrev pub has_pid : ℤ → List RuntimeProcess → Bool
has_pid q = any λ p. beq p.pid q

-- The signal backend is as honest as the device.
pub signal_env-IsHonest :
    {W : Type 0} (env : Env W) (stopped : W → ℤ → Bool)
    → IsHonest env stopped
    → IsHonest (signal_env env) stopped
unfolding signal_env signal_control_process
signal_env-IsHonest env stopped h = record {
  validate = h.validate;
  freeze = λ p w q. h.freeze (signal_control_process p) w q;
  unfreeze = λ p w q. h.unfreeze (signal_control_process p) w q;
}

module _ {W : Type 0} (env : Env W) (stopped : W → ℤ → Bool) (h : IsHonest env stopped)
    (q : ℤ) where
  preflight_view :
      (phase expected : Text) (ps : List RuntimeProcess) (w : W)
      → stopped (preflight env phase expected ps w).1 q ≡ stopped w q
  unfolding preflight
  preflight_view phase expected [] w = refl
  preflight_view phase expected (p ∷ ps) w =
      ground (arith, h.validate p w q, preflight_view phase expected ps (env.validate p w).1)

  -- `before` was stopped, and nothing but `before` and the processes `ps` is.
  abbrev Between : Bool → List RuntimeProcess → Bool → Type 0
  Between before ps now =
      (before ≡ true → now ≡ true) × (now ≡ true → (has_pid q ps || before) ≡ true)

  freeze_each-Between :
      (before : Bool) (ps signaled : List RuntimeProcess) (w : W)
      → Between before signaled (stopped w q)
      → Between before
          (freeze_each env ps signaled w).1
          (stopped (freeze_each env ps signaled w).2 q)
  unfolding freeze_each
  freeze_each-Between before [] signaled w b = b
  freeze_each-Between before (p ∷ ps) signaled w b =
      let w1 = (env.validate p w).1 in
      ground (
        arith,
        h.validate p w q,
        h.freeze p w1 q,
        freeze_each-Between before ps (p ∷ signaled) (env.freeze p w1).1,
      )

  -- What was frozen is among the processes.
  freeze_each_among :
      (ps signaled : List RuntimeProcess) (w : W)
      → has_pid q (freeze_each env ps signaled w).1 ≡ true
      → (has_pid q ps || has_pid q signaled) ≡ true
  unfolding freeze_each
  freeze_each_among [] signaled w e = e
  freeze_each_among (p ∷ ps) signaled w e =
      ground (arith, freeze_each_among ps (p ∷ signaled) (env.freeze p (env.validate p w).1).1)

  freeze_each_all :
      (ps signaled : List RuntimeProcess) (w : W)
      → (freeze_each env ps signaled w).0 ≡ none
      → stopped (freeze_each env ps signaled w).2 q ≡ (has_pid q ps || stopped w q)
  unfolding freeze_each
  freeze_each_all [] signaled w e = refl
  freeze_each_all (p ∷ ps) signaled w e =
      let w1 = (env.validate p w).1 in
      ground (
        arith,
        h.validate p w q,
        h.freeze p w1 q,
        freeze_each_all ps (p ∷ signaled) (env.freeze p w1).1,
      )

  rollback_mono :
      (ps : List RuntimeProcess) (done failures : ℕ) (w : W)
      → failures ≤ (rollback env ps done failures w).1
  unfolding rollback
  rollback_mono [] done failures w = omega arith
  rollback_mono (p ∷ ps) done failures w =
      let w1 = (env.validate p w).1 in
      ground (
        arith,
        rollback_mono ps done (failures + 1) w1,
        rollback_mono ps done (failures + 1) (env.unfreeze p w1).1,
        rollback_mono ps (done + 1) failures (env.unfreeze p w1).1,
      )

  rollback_restores :
      (before : Bool) (ps : List RuntimeProcess) (done failures : ℕ) (w : W)
      → (has_pid q ps ≡ true → before ≡ false)
      → Between before ps (stopped w q)
      → (rollback env ps done failures w).1 ≡ failures
      → stopped (rollback env ps done failures w).2 q ≡ before
  unfolding rollback
  rollback_restores before [] done failures w fresh b e = ground arith
  rollback_restores before (p ∷ ps) done failures w fresh b e =
      let w1 = (env.validate p w).1 in
      ground (
        arith,
        h.validate p w q,
        h.unfreeze p w1 q,
        rollback_mono ps done (failures + 1) w1,
        rollback_mono ps done (failures + 1) (env.unfreeze p w1).1,
        rollback_restores before ps (done + 1) failures (env.unfreeze p w1).1,
      )

  -- A success stopped all of `ps`; a failure whose roll back succeeded left `q` as it was in `w`.
  abbrev pub IsAllOrNone : List RuntimeProcess → W → FreezeTransactionOutcome × W → Type 0
  IsAllOrNone ps w r =
      ((r.0.failure ≡ none) × (stopped r.1 q ≡ (has_pid q ps || stopped w q)))
      ⊎ ((r.0.failure ≢ none) × ((r.0.rollback_failures ≢ 0) ⊎ (stopped r.1 q ≡ stopped w q)))

  conclude-IsAllOrNone :
      (ps : List RuntimeProcess) (w : W) (r : Option Text × List RuntimeProcess × W)
      → (has_pid q ps ≡ true → stopped w q ≡ false)
      → (has_pid q r.1 ≡ true → has_pid q ps ≡ true)
      → Between (stopped w q) r.1 (stopped r.2 q)
      → (r.0 ≡ none → stopped r.2 q ≡ (has_pid q ps || stopped w q))
      → IsAllOrNone ps w (conclude env r)
  unfolding conclude
  conclude-IsAllOrNone ps w (none, signaled, w') fresh among b all = inl (refl, all refl)
  conclude-IsAllOrNone ps w (some m, signaled, w') fresh among b all = inr (
    ground arith,
    ground (arith, rollback_restores (stopped w q) signaled 0 0 w' (λ m'. fresh (among m')) b),
  )

  after_preflight-IsAllOrNone :
      (ps : List RuntimeProcess) (w : W) (r : Option Text × W)
      → (has_pid q ps ≡ true → stopped w q ≡ false)
      → stopped r.1 q ≡ stopped w q
      → IsAllOrNone ps w (after_preflight env ps r)
  unfolding after_preflight
  after_preflight-IsAllOrNone ps w (some m, w1) fresh e = ground arith
  after_preflight-IsAllOrNone ps w (none, w1) fresh e =
      conclude-IsAllOrNone ps w (freeze_each env ps [] w1) fresh
        (λ m. ground (arith, freeze_each_among ps [] w1 m))
        (freeze_each-Between (stopped w q) ps [] w1 (ground arith))
        (λ n. ground (arith, freeze_each_all ps [] w1 n))

  preflight_all_view :
      (phase : Text) (ps : List RuntimeProcess) (w : W)
      → stopped (preflight_all env phase ps w).1 q ≡ stopped w q
  preflight_all_view phase [] w = refl
  preflight_all_view phase (p ∷ ps) w = preflight_view phase p.package_name (p ∷ ps) w

  -- On a device whose calls do what they report, and if `q` is not both one of the processes and
  -- stopped already: a transaction without a failure stops `q` if it is one of the processes and
  -- else leaves it, and one with a failure leaves `q` as it was, or reports a roll-back failure.
  pub freeze-IsAllOrNone :
      (ps : List RuntimeProcess) (w : W)
      → (has_pid q ps ≡ true → stopped w q ≡ false)
      → IsAllOrNone ps w (apply_freeze_transaction env ps w)
  unfolding apply_freeze_transaction
  freeze-IsAllOrNone ps w fresh =
      after_preflight-IsAllOrNone ps w (preflight_all env [] ps w) fresh
        (preflight_all_view [] ps w)
