-- ===== src/Deferral/Rates.antt =====
-- When a download postpones a freeze.
use freezeit_cos.Base.{
  ℕ, ◌+◌, ◌*◌, ◌-◌, ◌/◌, ◌<◌, ◌≤◌, Text, true, ◌≡◌, ◌≢◌, ◌↔◌, arith, lookup, lookup-remove,
  map_laws, nat_key, beq_iff,
}
use native.Mathlib.Nat.{div-lt_iff_lt-mul}
use freezeit_cos.Deferral.{
  DownloadDeferral, proceed, UidRxSample, value, missing, failed, Sample, clear_uid,
  is_candidate_package, rate_action, compare_with, evaluate_candidate, evaluate,
}

-- Between the two readings the clock went on, the counter did not go back, and the bytes received
-- are at most five MiB for each second.
abbrev pub IsSlow : Sample → Sample → Type 0
IsSlow previous now =
    (previous.sampled_at_ms < now.sampled_at_ms)
    × (previous.rx_bytes ≤ now.rx_bytes)
    × ((now.rx_bytes - previous.rx_bytes) * 1_000
        < (5_242_880 + 1) * (now.sampled_at_ms - previous.sampled_at_ms))

slow_rate :
    (bytes millis : ℕ)
    → 0 < millis
    → (bytes * 1_000 / millis < 5_242_881) ↔ (bytes * 1_000 < 5_242_881 * millis)
slow_rate bytes millis pos =
    let law = div-lt_iff_lt-mul {k = millis} {x = bytes * 1_000} {y = 5_242_881} pos in
    (λ h. law.0 h, λ h. law.1 h)

rate_iff : (previous now : Sample) → (rate_action previous now ≡ proceed) ↔ IsSlow previous now
unfolding rate_action
rate_iff previous now = ground (
  arith,
  slow_rate (now.rx_bytes - previous.rx_bytes) (now.sampled_at_ms - previous.sampled_at_ms),
)

-- Both readings of the counter succeeded and make a slow download.
abbrev pub WereSlow : UidRxSample → ℕ → UidRxSample → ℕ → Type 0
WereSlow (value before) earlier (value rx) at_ms =
    IsSlow (record { rx_bytes = before; sampled_at_ms = earlier })
      (record { rx_bytes = rx; sampled_at_ms = at_ms })
WereSlow _ earlier _ at_ms = ⊥

evaluate_slow :
    (d : DownloadDeferral) (uid : ℕ) (a b : UidRxSample) (earlier at_ms : ℕ)
    → ((evaluate_candidate (evaluate_candidate d uid a earlier).0 uid b at_ms).1 ≡ proceed)
      ↔ WereSlow a earlier b at_ms
unfolding evaluate_candidate clear_uid compare_with
evaluate_slow d uid (value before) (value rx) earlier at_ms = simp map_laws (
    rate_iff (record { rx_bytes = before; sampled_at_ms = earlier })
      (record { rx_bytes = rx; sampled_at_ms = at_ms }))
evaluate_slow d uid (value before) missing earlier at_ms = ground arith
evaluate_slow d uid (value before) failed earlier at_ms = ground arith
evaluate_slow d uid missing (value rx) earlier at_ms = simp map_laws (ground arith)
evaluate_slow d uid missing missing earlier at_ms = ground arith
evaluate_slow d uid missing failed earlier at_ms = ground arith
evaluate_slow d uid failed (value rx) earlier at_ms = simp map_laws (ground arith)
evaluate_slow d uid failed missing earlier at_ms = ground arith
evaluate_slow d uid failed failed earlier at_ms = ground arith

-- Of two evaluations in a row of a download application, whatever was sampled before, the second
-- lets the freeze proceed exactly if both readings succeeded, the clock went on, the counter did
-- not go back, and the rate between them is at most five MiB per second.
pub second_proceeds_iff :
    (d : DownloadDeferral) (uid : ℕ) (name : Text) (a b : UidRxSample) (earlier at_ms : ℕ)
    → is_candidate_package name ≡ true
    → ((evaluate (evaluate d uid name a earlier).0 uid name b at_ms).1 ≡ proceed)
      ↔ WereSlow a earlier b at_ms
unfolding evaluate
second_proceeds_iff d uid name a b earlier at_ms h = rw h (evaluate_slow d uid a b earlier at_ms)

candidate_others :
    (d : DownloadDeferral) (uid other : ℕ) (a : UidRxSample) (at_ms : ℕ)
    → uid ≢ other
    → lookup other (evaluate_candidate d uid a at_ms).0.samples ≡ lookup other d.samples
unfolding evaluate_candidate clear_uid
candidate_others d uid other (value rx) at_ms h = simp map_laws (ground (arith, beq_iff uid other))
candidate_others d uid other missing at_ms h = simp map_laws (ground (arith, beq_iff uid other))
candidate_others d uid other failed at_ms h = simp map_laws (ground (arith, beq_iff uid other))

-- An evaluation leaves the samples of every other uid as they are.
pub others_kept :
    (d : DownloadDeferral) (uid other : ℕ) (name : Text) (a : UidRxSample) (at_ms : ℕ)
    → uid ≢ other
    → lookup other (evaluate d uid name a at_ms).0.samples ≡ lookup other d.samples
unfolding evaluate clear_uid
others_kept d uid other name a at_ms h = ground (
  arith,
  beq_iff uid other,
  lookup-remove uid other d.samples,
  candidate_others d uid other a at_ms h,
)
