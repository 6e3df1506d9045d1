-- ===== src/Tests/Device.antt =====
-- A device that is a list of stopped pids, where the freezer fails for pid 3.
use freezeit_cos.Base.{
  ℕ, ℤ, pos, is_some, ◌&&◌, Text, txt, List, [], ◌∷◌, none, some, Bool, true, false, not, any, keep,
  beq, beq_iff, int_key, ◌≡◌, refl, arith, if◌then◌else◌,
}
use freezeit_cos.Domain.Error.{ok, err, system}
use freezeit_cos.Domain.Process.{RuntimeProcess, cached, running}
use freezeit_cos.Control.World.{Env}
use freezeit_cos.Control.Transaction.Atomic.{IsHonest}
use freezeit_cos.Control.Thaw.Resumed.{ThawsApart}
use freezeit_cos.Control.Settings.{ManagerAppConfigRecord}
use freezeit_cos.Domain.Operation.{ControlOperation, ControlAction, success}

abbrev pub Stopped : Type 0
Stopped = List ℤ

abbrev pub process : ℕ → Text → RuntimeProcess
process pid name = record {
  pid = pos pid;
  uid = 10_123;
  package_name = name;
  process_name = name;
  proc_state = cached;
  control_state = running;
  cgroup_freeze_path = some (txt "/sys/fs/cgroup/uid_10123/cgroup.freeze");
  binder_state = none;
  start_time_ticks = some 77;
  last_seen_at_ms = 0;
}

abbrev pub app : Text
app = txt "org.example"

abbrev pub two_processes : List RuntimeProcess
two_processes = process 1 app ∷ process 2 app ∷ []

-- The third cannot be frozen.
abbrev pub three_processes : List RuntimeProcess
three_processes = process 1 app ∷ process 3 app ∷ process 4 app ∷ []

abbrev pub stopped : Stopped → ℤ → Bool
stopped w q = any (λ pid. beq pid q) w

abbrev pub device : Env Stopped
device = record {
  discover = λ name uid w. (ok two_processes, w);
  freeze = λ p w. if beq p.pid (pos 3) then (err (system []), w) else (ok tt, p.pid ∷ w);
  unfreeze = λ p w. (ok tt, keep (λ pid. not (beq p.pid pid)) w);
  validate = λ p w. (ok true, w);
  sample_rx_bytes = λ uid name w. (ok (some 0), w);
  terminate = λ p w. (ok tt, w);
  recorded_ownership = λ pid start w. (ok none, w);
  promote_signal_stop = λ p w. (ok true, w);
  binder_available = λ w. (true, w);
}

resumed :
    (pid : ℤ) (w : Stopped) (q : ℤ)
    → stopped (keep (λ x. not (beq pid x)) w) q ≡ (if beq pid q then false else stopped w q)
resumed pid [] q = ground arith
resumed pid (x ∷ w) q = ground (arith, resumed pid w q, beq_iff pid x, beq_iff pid q, beq_iff x q)

pub device-IsHonest : IsHonest device stopped
device-IsHonest = record {
  validate = λ p w q. refl;
  freeze = λ p w q. ground arith;
  unfreeze = λ p w q. resumed p.pid w q;
}

-- A device with the pids that are stopped by a signal, and those in a frozen cgroup.
abbrev pub apart_device : Env (List ℤ × List ℤ)
apart_device = record {
  discover = λ name uid w. (ok two_processes, w);
  freeze = λ p w. (ok tt, w);
  unfreeze = λ p w. (
    ok tt,
    (
      keep (λ pid. not (beq p.pid pid)) w.0,
      keep (λ pid. not (beq p.pid pid && is_some p.cgroup_freeze_path)) w.1,
    ),
  );
  validate = λ p w. (ok true, w);
  sample_rx_bytes = λ uid name w. (ok (some 0), w);
  terminate = λ p w. (ok tt, w);
  recorded_ownership = λ pid start w. (ok none, w);
  promote_signal_stop = λ p w. (ok true, w);
  binder_available = λ w. (true, w);
}

thawed_if :
    (pid : ℤ) (b : Bool) (w : List ℤ) (q : ℤ)
    → stopped (keep (λ x. not (beq pid x && b)) w) q
      ≡ (if beq pid q && b then false else stopped w q)
thawed_if pid b [] q = ground arith
thawed_if pid b (x ∷ w) q =
    ground (arith, thawed_if pid b w q, beq_iff pid x, beq_iff pid q, beq_iff x q)

pub apart_device-ThawsApart : ThawsApart apart_device (λ w. stopped w.0) λ w. stopped w.1
apart_device-ThawsApart = record {
  signal_kept = λ p w q. refl;
  cgroup_kept = λ p w q. refl;
  continued = λ p w q e. resumed p.pid w.0 q;
  thawed = λ p w q e. thawed_if p.pid (is_some p.cgroup_freeze_path) w.1 q;
}

abbrev pub frozen_config : ManagerAppConfigRecord
frozen_config = record { uid = 10_123; mode = pos 30; permissive = false }

abbrev pub an_operation : ControlOperation
an_operation = record {
  operation_id = 1;
  timestamp_ms = 5;
  package_name = app;
  uid = 10_123;
  pid_list = pos 1 ∷ [];
  action = ControlAction.freeze;
  backend = txt "cgroup.freeze";
  reason = [];
  result = success;
  details = [];
}
