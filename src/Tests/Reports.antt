-- ===== src/Tests/Reports.antt =====
-- The theorems on status records, live states, the scheduler, health and settings.
use freezeit_cos.Base.{
  ℕ, ℤ, ◌≡◌, refl, List, get_elem?, [], ◌∷◌, some, true, false, All, list_key, nat_key, pair_key,
  txt,
}
use freezeit_cos.Domain.Error.{Result, ok}
use freezeit_cos.Foreground.{ForegroundSignals}
use freezeit_cos.Scheduler.{PendingFreeze, FreezeScheduler, due_at}
use freezeit_cos.Scheduler.Claims.{due_at_lem}
use freezeit_cos.Health.{is_safe_for_control, with_capability_failures, safe_for_control}
use freezeit_cos.Settings.{normalize_settings, normalize_settings_lem}
use freezeit_cos.Control.State.{initial}
use freezeit_cos.Control.Recovery.{FreezeState, thawed}
use freezeit_cos.Control.Live.{reconcile_live_process_control_states}
use freezeit_cos.Control.Live.Evidence.{AllReconciled, reconcile-AllReconciled}
use freezeit_cos.Control.Status.{freeze_status_records}
use freezeit_cos.Control.Status.Reports.{IsTrue}
use freezeit_cos.Control.Status.Order.{IsSorted, status_told}
use freezeit_cos.Tests.Device.{app, two_processes, frozen_config}

status_told_example :
    All
      (IsTrue initial (10_123 ∷ []))
      (freeze_status_records initial
        (frozen_config ∷ [])
        ((10_123, two_processes) ∷ [])
        (10_123 ∷ [])
        5).0
    × IsSorted
        (freeze_status_records initial
          (frozen_config ∷ [])
          ((10_123, two_processes) ∷ [])
          (10_123 ∷ [])
          5).0
status_told_example =
    status_told initial (frozen_config ∷ []) ((10_123, two_processes) ∷ []) (10_123 ∷ []) 5

-- Every cgroup reads as thawed, and every process sleeps (`S`).
abbrev cgroup_thawed : List ℕ → Unit {0} → Result FreezeState × Unit {0}
cgroup_thawed path w = (ok thawed, w)

abbrev asleep : ℤ → Unit {0} → Result ℕ × Unit {0}
asleep pid w = (ok 83, w)

reconcile-AllReconciled_example :
    AllReconciled
      (λ path. ok thawed)
      (λ pid. ok 83)
      two_processes
      (reconcile_live_process_control_states cgroup_thawed asleep two_processes tt).0
reconcile-AllReconciled_example =
    reconcile-AllReconciled cgroup_thawed asleep (λ path. ok thawed) (λ pid. ok 83) (λ path w. refl)
      (λ pid w. refl) two_processes tt

abbrev with_audio : ForegroundSignals
with_audio = record {
  has_visible_ui = false;
  has_foreground_service = false;
  has_overlay = false;
  has_audio = true;
}

abbrev job : PendingFreeze
job = record { package_name = app; uid = 10_123; due_at_ms = 100 }

abbrev later_job : PendingFreeze
later_job = record { package_name = app; uid = 10_124; due_at_ms = 200 }

abbrev queue : FreezeScheduler
queue = ((app, 10_123), job) ∷ ((app, 10_124), later_job) ∷ []

due_at_lem_example : due_at 150 queue ≡ (job ∷ [], ((app, 10_124), later_job) ∷ [])
unfolding txt
due_at_lem_example = due_at_lem 150 queue refl

safe_for_control_example :
    is_safe_for_control (with_capability_failures true true true true true true false false true)
    ≡ true
safe_for_control_example = safe_for_control true true true true true true false false true

normalize_settings_lem_example : get_elem? (normalize_settings (some (7 ∷ 3 ∷ []))) 1 ≡ some 3
normalize_settings_lem_example = normalize_settings_lem (some (7 ∷ 3 ∷ [])) 1
