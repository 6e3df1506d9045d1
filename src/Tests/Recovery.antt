-- ===== src/Tests/Recovery.antt =====
-- The theorems on recovery after a restart, on a device that always succeeds.
use freezeit_cos.Base.{some, none, true, false, [], ◌≡◌, ◌↔◌, ◌⊎◌}
use freezeit_cos.Domain.Error.{ok}
use freezeit_cos.Control.World.{SignalStopOwnership, residual_unknown}
use freezeit_cos.Control.Recovery.{RecoveryEnv, recover_process_after_restart, frozen, thawed}
use freezeit_cos.Control.Recovery.Safety.{
  traced, IsGuarded, IsSignalOnly, recover-IsGuarded, recover-IsSignalOnly_iff,
}
use freezeit_cos.Tests.Device.{process, app}

abbrev obedient : RecoveryEnv (Unit {0})
obedient = record {
  validate = λ p w. (ok true, w);
  thaw_cgroup = λ path w. (ok tt, w);
  unfreeze_binder = λ p w. (ok tt, w);
  resume_signal = λ p w. (ok tt, w);
}

recover-IsGuarded_example :
    IsGuarded
      (recover_process_after_restart
        (traced obedient)
        (process 1 app)
        (some residual_unknown)
        (some frozen)
        ([], tt)).1.0
recover-IsGuarded_example =
    recover-IsGuarded obedient (process 1 app) (some residual_unknown) (some frozen) tt

recover-IsSignalOnly_iff_example :
    IsSignalOnly
      (recover_process_after_restart
        (traced obedient)
        (process 1 app)
        (some SignalStopOwnership.signal_only)
        (some thawed)
        ([], tt)).1.0
    ↔ (((process 1 app).cgroup_freeze_path ≡ none)
        ⊎ ((some SignalStopOwnership.signal_only ≡ some SignalStopOwnership.signal_only)
            × (some thawed ≡ some thawed))
        ⊎ (true ≡ false))
recover-IsSignalOnly_iff_example =
    recover-IsSignalOnly_iff obedient (process 1 app) (some SignalStopOwnership.signal_only)
      (some thawed) tt
