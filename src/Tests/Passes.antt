-- ===== src/Tests/Passes.antt =====
-- The theorems on control passes and audits, on the device of `Device`.
use freezeit_cos.Base.{◌≡◌, refl, inl, [], ◌∷◌, some, true, false, All, arith, add_u128, lookup}
use freezeit_cos.Control.State.{initial, RuntimeControlState}
use freezeit_cos.Control.State.Ownership.{IsTracked}
use freezeit_cos.Control.World.Trace.{traced, IsGuarded, IsHarmless}
use freezeit_cos.Control.Audit.{audit_interval, audit_step, refreeze_audit_due}
use freezeit_cos.Control.Audit.Spacing.{audits, audits_spaced, reenabled_audits}
use freezeit_cos.Control.Pass.{run_control_pass}
use freezeit_cos.Control.Pass.Job.{Job}
use freezeit_cos.Control.Pass.Record.{control_job}
use freezeit_cos.Control.Pass.Record.Safety.{spared-IsHarmless}
use freezeit_cos.Control.Pass.Invariants.{IsLogged, pass-IsGuarded, pass-IsTracked, pass-IsLogged}
use freezeit_cos.Tests.Device.{device, app, two_processes, frozen_config}

pass-IsGuarded_example :
    IsGuarded
      (run_control_pass (traced device) initial (frozen_config ∷ []) [] [] 100_000 ([], [])).2.0
pass-IsGuarded_example = pass-IsGuarded device initial (frozen_config ∷ []) [] [] 100_000 []

initial-IsTracked : IsTracked initial
unfolding initial lookup
initial-IsTracked = record { since = λ i. refl; owned = λ i e. e }

pass-IsTracked_example :
    IsTracked (run_control_pass device initial (frozen_config ∷ []) [] [] 100_000 []).1
pass-IsTracked_example =
    pass-IsTracked device initial (frozen_config ∷ []) [] [] 100_000 [] initial-IsTracked

initial-IsLogged : IsLogged initial
unfolding initial
initial-IsLogged = (refl, omega arith)

pass-IsLogged_example :
    IsLogged (run_control_pass device initial (frozen_config ∷ []) [] [] 100_000 []).1
pass-IsLogged_example =
    pass-IsLogged device initial (frozen_config ∷ []) [] [] 100_000 [] initial-IsLogged

-- The application is in front of the user.
abbrev foreground_job : Job
foreground_job = record {
  config = frozen_config;
  settings = [];
  foreground_uids = 10_123 ∷ [];
  audit_due = false;
  timestamp_ms = 100_000;
  processes = two_processes;
  package_name = app;
}

spared-IsHarmless_example :
    IsHarmless (control_job (traced device) foreground_job initial ([], [])).2.0
spared-IsHarmless_example = spared-IsHarmless device foreground_job initial [] (inl refl)

abbrev started : RuntimeControlState
started = record initial { audit_started_at_ms = some 0 }

audits_spaced_example :
    All
      (λ b. b ≡ false)
      (audits (refreeze_audit_due started [] 60_000).1 (([], 90_000) ∷ ([], 110_000) ∷ []))
unfolding initial refreeze_audit_due audit_interval audit_step add_u128
audits_spaced_example =
    audits_spaced started [] 60_000 (([], 90_000) ∷ ([], 110_000) ∷ []) (omega arith) refl
      ((omega arith, refl), ((omega arith, refl), tt))

-- The seventh setting is 0, which turns the audits off, and then 1, which asks for half an hour.
reenabled_audits_example :
    audits started (([], 900_000) ∷ (0 ∷ 0 ∷ 0 ∷ 0 ∷ 0 ∷ 0 ∷ 1 ∷ [], 900_001) ∷ [])
    ≡ false ∷ true ∷ []
unfolding initial audit_interval
reenabled_audits_example =
    reenabled_audits started 0 [] (0 ∷ 0 ∷ 0 ∷ 0 ∷ 0 ∷ 0 ∷ 1 ∷ []) 900_000 900_001 (omega arith)
      refl refl refl (omega arith)
