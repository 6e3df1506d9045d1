-- ===== src/Control/World/Trace.antt =====
-- Any environment with a record of the calls made to it, newest first.
use freezeit_cos.Base.{ℤ, List, [], ◌∷◌, Bool, true, false, ◌≡◌, arith, All}
use freezeit_cos.Domain.Error.{Result, ok, err}
use freezeit_cos.Control.World.{Env, Respects, RespectsThaw}

pub data Event : Type 0 where
  validated : ℤ → Bool → Event
  froze unfroze terminated : ℤ → Event
  observed : Event

abbrev pub is_valid : Result Bool → Bool
is_valid (ok b) = b
is_valid (err e) = false

-- The call controls a process, and the call before it validated that process.
abbrev Follows : ℤ → List Event → Type 0
Follows pid (validated q b ∷ log) = (pid ≡ q) × (b ≡ true)
Follows pid _ = ⊥

abbrev IsGuardedCall : Event → List Event → Type 0
IsGuardedCall (froze pid) log = Follows pid log
IsGuardedCall (unfroze pid) log = Follows pid log
IsGuardedCall (terminated pid) log = Follows pid log
IsGuardedCall _ log = Unit

abbrev pub IsGuarded : List Event → Type 0
IsGuarded [] = Unit
IsGuarded (e ∷ log) = IsGuardedCall e log × IsGuarded log

abbrev pub Traced : Type 0 → Type 0
Traced W = List Event × W

abbrev note {ℓ} : {A : Type ℓ} {W : Type ℓ} → Event → List Event → A × W → A × (List Event × W)
note e log (a, w) = (a, (e ∷ log, w))

unfoldable pub traced : {W : Type 0} → Env W → Env (Traced W)
traced env = record {
  discover = λ name uid t. note observed t.0 (env.discover name uid t.1);
  freeze = λ p t. note (froze p.pid) t.0 (env.freeze p t.1);
  unfreeze = λ p t. note (unfroze p.pid) t.0 (env.unfreeze p t.1);
  validate =
      λ p t. note (validated p.pid (is_valid (env.validate p t.1).0)) t.0 (env.validate p t.1);
  sample_rx_bytes = λ uid name t. note observed t.0 (env.sample_rx_bytes uid name t.1);
  terminate = λ p t. note (terminated p.pid) t.0 (env.terminate p t.1);
  recorded_ownership = λ pid start t. note observed t.0 (env.recorded_ownership pid start t.1);
  promote_signal_stop = λ p t. note observed t.0 (env.promote_signal_stop p t.1);
  binder_available = λ t. note observed t.0 (env.binder_available t.1);
}

pub traced-Respects : {W : Type 0} (env : Env W) → Respects (traced env) (λ t. IsGuarded t.0)
unfolding traced
traced-Respects env = record {
  thaw = record {
    discover = λ name uid t h. (tt, h);
    validate = λ p t h. (tt, h);
    unfreeze = λ p q t e h v. ((e, ground arith), (tt, h));
  };
  sample = λ uid name t h. (tt, h);
  recorded = λ pid start t h. (tt, h);
  promote = λ p t h. (tt, h);
  binder = λ t h. (tt, h);
  freeze = λ p q t e h v. ((e, ground arith), (tt, h));
  terminate = λ p q t e h v. ((e, ground arith), (tt, h));
}

-- No call froze or terminated a process.
abbrev IsGentle : Event → Type 0
IsGentle (froze pid) = ⊥
IsGentle (terminated pid) = ⊥
IsGentle _ = Unit

abbrev pub IsHarmless : List Event → Type 0
IsHarmless = All IsGentle

pub traced-RespectsThaw :
    {W : Type 0} (env : Env W) → RespectsThaw (traced env) (λ t. IsHarmless t.0)
unfolding traced
traced-RespectsThaw env = record {
  discover = λ name uid t h. (tt, h);
  validate = λ p t h. (tt, h);
  unfreeze = λ p q t e h v. (tt, (tt, h));
}
