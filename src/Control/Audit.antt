-- ===== src/Control/Audit.antt =====
-- When a control pass looks for applications that were thawed behind the daemon's back:
-- freezeitDaemon/src/app/controller.rs.
pub mod Spacing
use freezeit_cos.Base.{
  ℕ, ◌+◌, ◌-◌, ◌*◌, List, Option, none, some, Bool, true, false, ltb, ◌==◌, unwrap_or, add_u128,
  if◌then◌else◌,
}
use freezeit_cos.Control.State.{RuntimeControlState}
use freezeit_cos.Control.Settings.{setting}

-- The interval in force: a minute for the first quarter of an hour, then what the settings say.
unfoldable pub audit_interval : List ℕ → ℕ → Option ℕ
audit_interval settings elapsed =
    if ltb elapsed (15 * 60_000)
    then some 60_000
    else (let choice = setting settings 6 in
        if choice == 1
        then some (30 * 60_000)
        else if choice == 2
        then some (60 * 60_000)
        else if choice == 3
        then some (120 * 60_000)
        else none)

-- Whether the audit runs now, and when the next one is due.
unfoldable pub audit_step : Option ℕ → ℕ → ℕ → Bool × Option ℕ
audit_step none next timestamp_ms = (false, none)
audit_step (some interval) next timestamp_ms =
    if ltb timestamp_ms next
    then (false, some next)
    else (true, some (add_u128 timestamp_ms interval))

unfoldable pub refreeze_audit_due : RuntimeControlState → List ℕ → ℕ → Bool × RuntimeControlState
unfolding audit_interval audit_step
refreeze_audit_due s settings timestamp_ms =
    let started_at = unwrap_or s.audit_started_at_ms timestamp_ms in
    let (due, next) =
      audit_step (audit_interval settings (timestamp_ms - started_at))
        (unwrap_or s.next_refreeze_audit_at_ms (add_u128 started_at 60_000)) timestamp_ms in
    (due, record s { audit_started_at_ms = some started_at; next_refreeze_audit_at_ms = next })
