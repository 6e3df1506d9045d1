-- ===== src/Control/Audit/Spacing.antt =====
-- How far apart the audits of the frozen applications are.
use freezeit_cos.Base.{
  ℕ, ◌+◌, ◌-◌, ◌^◌, ◌<◌, ◌≤◌, List, [], ◌∷◌, Option, none, some, Bool, true, false, ◌≡◌, refl,
  arith, All, is_some, Option-cases, inl, inr, unwrap_or, add_u128_lem,
}
use freezeit_cos.Control.State.{RuntimeControlState}
use freezeit_cos.Control.Audit.{audit_interval, audit_step, refreeze_audit_due}

-- The settings and the time of each pass.
abbrev pub Passes : Type 0
Passes = List (List ℕ × ℕ)

-- Whether each of these passes audits.
unfoldable pub audits : RuntimeControlState → Passes → List Bool
audits s [] = []
audits s ((settings, t) ∷ passes) =
    let (due, next) = refreeze_audit_due s settings t in due ∷ audits next passes

-- With the audits running since `start`, the pass comes before `limit`, and its settings do not
-- turn the audits off.
abbrev pub IsEarly : ℕ → ℕ → List ℕ × ℕ → Type 0
IsEarly start limit (settings, t) =
    (t < limit) × (is_some (audit_interval settings (t - start)) ≡ true)

-- The audits run since `start`, and the next is not due before `limit`.
abbrev pub IsWaiting : ℕ → ℕ → RuntimeControlState → Type 0
IsWaiting start limit s =
    (s.audit_started_at_ms ≡ some start)
    × (n : ℕ) × (s.next_refreeze_audit_at_ms ≡ some n)
    × (limit ≤ n)

-- Every interval in force is a minute at least and two hours at most.
interval_range :
    (settings : List ℕ) (elapsed i : ℕ)
    → audit_interval settings elapsed ≡ some i
    → (60_000 ≤ i) × (i ≤ 7_200_000)
unfolding audit_interval
interval_range settings elapsed i h = ground arith

step_waits :
    (limit n t : ℕ) (i : Option ℕ)
    → limit ≤ n
    → t < limit
    → is_some i ≡ true
    → audit_step i n t ≡ (false, some n)
unfolding audit_step
step_waits limit n t none h l e = ground arith
step_waits limit n t (some i) h l e = ground arith

step_fires :
    (i : Option ℕ) (n t : ℕ)
    → t + 7_200_000 < 2 ^ 128
    → ((j : ℕ) → i ≡ some j → (60_000 ≤ j) × (j ≤ 7_200_000))
    → (audit_step i n t).0 ≡ true
    → (x : ℕ) × ((audit_step i n t).1 ≡ some x) × (t + 60_000 ≤ x)
unfolding audit_step
step_fires none n t small range due = ground arith
step_fires (some i) n t small range due =
    let bounds = range i refl in
    (t + i, ground (arith, add_u128_lem t i (omega (arith, bounds))), omega (arith, bounds))

pass_waits :
    (start limit : ℕ) (s : RuntimeControlState) (settings : List ℕ) (t : ℕ)
    → IsWaiting start limit s
    → IsEarly start limit (settings, t)
    → let out = refreeze_audit_due s settings t in (out.0 ≡ false) × IsWaiting start limit out.1
unfolding refreeze_audit_due
pass_waits start limit s settings t (started, n, next, far) early =
    let step = step_waits limit n t (audit_interval settings (t - start)) far early.0 early.1 in
    rw (started, next, step) (refl, (refl, n, refl, far))

-- No pass before the audit is due makes one.
waits_quiet :
    (start limit : ℕ) (s : RuntimeControlState) (passes : Passes)
    → IsWaiting start limit s
    → All (IsEarly start limit) passes
    → All (λ b. b ≡ false) (audits s passes)
unfolding audits
waits_quiet start limit s [] w early = tt
waits_quiet start limit s ((settings, t) ∷ passes) w (early, rest) =
    let step = pass_waits start limit s settings t w early in
    (step.0, waits_quiet start limit (refreeze_audit_due s settings t).1 passes step.1 rest)

fires_waits :
    (s : RuntimeControlState) (settings : List ℕ) (t : ℕ)
    → t + 7_200_000 < 2 ^ 128
    → (refreeze_audit_due s settings t).0 ≡ true
    → IsWaiting (unwrap_or s.audit_started_at_ms t) (t + 60_000) (refreeze_audit_due s settings t).1
unfolding refreeze_audit_due
fires_waits s settings t small due =
    let start = unwrap_or s.audit_started_at_ms t in
    let next =
      step_fires (audit_interval settings (t - start)) _ t small
        (interval_range settings (t - start)) due in
    (refl, next.0, next.1, next.2)

-- After a pass that audits, no pass of the next minute audits, as long as the settings of these
-- passes do not turn the audits off. The time in milliseconds stays clear of its largest value.
pub audits_spaced :
    (s : RuntimeControlState) (settings : List ℕ) (t : ℕ) (passes : Passes)
    → t + 7_200_000 < 2 ^ 128
    → (refreeze_audit_due s settings t).0 ≡ true
    → All (IsEarly (unwrap_or s.audit_started_at_ms t) (t + 60_000)) passes
    → All (λ b. b ≡ false) (audits (refreeze_audit_due s settings t).1 passes)
audits_spaced s settings t passes small due early =
    waits_quiet _ _ _ passes (fires_waits s settings t small due) early

-- Once a pass has found the audits turned off, the first pass whose settings turn them on again
-- audits at once, however long the interval is, if the daemon has run for a minute.
pub reenabled_audits :
    (s : RuntimeControlState) (start : ℕ) (off on : List ℕ) (t later : ℕ)
    → start + 60_000 < 2 ^ 128
    → s.audit_started_at_ms ≡ some start
    → audit_interval off (t - start) ≡ none
    → is_some (audit_interval on (later - start)) ≡ true
    → start + 60_000 ≤ later
    → audits s ((off, t) ∷ (on, later) ∷ []) ≡ false ∷ true ∷ []
unfolding audits refreeze_audit_due audit_step
reenabled_audits s start off on t later small started none_off some_on late =
    elim (Option-cases (audit_interval on (later - start))) [
      | inl e ↦ ground arith
      | inr (i, e) ↦ rw (started, none_off, e) (ground (arith, add_u128_lem start 60_000 small))
    ]
