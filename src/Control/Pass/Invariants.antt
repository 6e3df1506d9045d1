-- ===== src/Control/Pass/Invariants.antt =====
-- What a whole control pass keeps, whatever the device answers.
use freezeit_cos.Base.{ℕ, ◌≤◌, length, txt, show, List, [], ◌∷◌, ◌++◌, Bool, ◌≡◌, arith}
use freezeit_cos.Domain.Error.{Result, ok, err}
use freezeit_cos.Domain.Process.{RuntimeProcess}
use freezeit_cos.Domain.Operation.{ControlOperation}
use freezeit_cos.Log.{push}
use freezeit_cos.Log.History.{push-IsBounded}
use freezeit_cos.Control.State.{
  RuntimeControlState, track_frozen, clear_frozen, mark_abnormal_thaw_for_refreeze,
  clear_detached_ownership, stamp_and_push,
}
use freezeit_cos.Control.State.Ownership.{IsTracked}
use freezeit_cos.Control.State.Closed.{IsClosed, IsTracked-closed}
use freezeit_cos.Control.World.{Env, Respects}
use freezeit_cos.Control.World.Trace.{traced, IsGuarded, traced-Respects}
use freezeit_cos.Control.Thaw.Closed.{thaw_identities_closed, clear_detached_each_closed}
use freezeit_cos.Control.Thaw.Guarded.{thaw_identities_keeps}
use freezeit_cos.Control.Settings.{ManagerAppConfigRecord}
use freezeit_cos.Control.Audit.{refreeze_audit_due}
use freezeit_cos.Control.Pass.Job.{Round}
use freezeit_cos.Control.Pass.Record.{discovered, control_record}
use freezeit_cos.Control.Pass.Record.Closed.{vanished_closed, control_job_fine}
use freezeit_cos.Control.Pass.{drop_stale, control_records, thaw_stale, run_control_pass}

module _ {W : Type 0} (env : Env W) (I : RuntimeControlState → Type 0) (C : IsClosed I)
    (P : W → Type 0) (R : Respects env P) where
  abbrev Ends : Round W → Type 0
  Ends r = I r.1 × P r.2

  discovered_fine :
      (settings foreground_uids : List ℕ) (audit_due : Bool) (t : ℕ) (c : ManagerAppConfigRecord)
      (s : RuntimeControlState) (r : Result (List RuntimeProcess)) (w : W)
      → I s
      → P w
      → Ends (discovered env settings foreground_uids audit_due t c s (r, w))
  unfolding discovered
  discovered_fine settings fg due t c s (err e) w h q = (h, q)
  discovered_fine settings fg due t c s (ok []) w h q = (vanished_closed I C s c.uid h, q)
  discovered_fine settings fg due t c s (ok (p ∷ ps)) w h q = control_job_fine env I C P R _ s w h q

  control_record_fine :
      (settings foreground_uids : List ℕ) (audit_due : Bool) (t : ℕ) (c : ManagerAppConfigRecord)
      (s : RuntimeControlState) (w : W)
      → I s
      → P w
      → Ends (control_record env settings foreground_uids audit_due t c s w)
  unfolding control_record
  control_record_fine settings fg due t c s w h q = ground (
    arith,
    discovered_fine settings fg due t c s (env.discover (txt "uid" ++ show c.uid) c.uid w).0
        (env.discover (txt "uid" ++ show c.uid) c.uid w).1 h
        (R.discover (txt "uid" ++ show c.uid) c.uid w q),
  )

  control_records_fine :
      (settings foreground_uids : List ℕ) (audit_due : Bool) (t : ℕ)
      (cs : List ManagerAppConfigRecord) (s : RuntimeControlState) (w : W)
      → I s
      → P w
      → Ends (control_records env settings foreground_uids audit_due t cs s w)
  unfolding control_records
  control_records_fine settings fg due t [] s w h q = (h, q)
  control_records_fine settings fg due t (c ∷ cs) s w h q =
      let out = control_record env settings fg due t c s w in
      let fine = control_record_fine settings fg due t c s w h q in
      ground (arith, fine, control_records_fine settings fg due t cs out.1 out.2 fine.0 fine.1)

  thaw_stale_fine :
      (cs : List ManagerAppConfigRecord) (t : ℕ) (s : RuntimeControlState) (w : W)
      → I s
      → P w
      → let out = thaw_stale env cs t s w in I out.0 × P out.1
  unfolding thaw_stale drop_stale
  thaw_stale_fine cs t s w h q = (
    clear_detached_each_closed I C _ _ (
        thaw_identities_closed env I C _ _ t _ w
          (C.rest s _ _ _ _ _ s.audit_started_at_ms s.next_refreeze_audit_at_ms h)),
    thaw_identities_keeps env P R.thaw _ _ t _ w q,
  )

  audit_closed :
      (s : RuntimeControlState) (settings : List ℕ) (t : ℕ)
      → I s
      → I (refreeze_audit_due s settings t).1
  unfolding refreeze_audit_due
  audit_closed s settings t h =
      C.rest s s.pending_freezes s.network_restriction_requests s.status_since_ms
        s.blocked_process_signatures s.download_deferral _ _ h

  -- A control pass keeps every closed property of the state and every property of the world that
  -- validated control keeps, also when it ends by an error.
  pub pass_keeps :
      (s : RuntimeControlState) (cs : List ManagerAppConfigRecord) (settings fg : List ℕ) (t : ℕ)
      (w : W)
      → I s
      → P w
      → Ends (run_control_pass env s cs settings fg t w)
  unfolding run_control_pass
  pass_keeps s cs settings fg t w h q =
      let stale = thaw_stale_fine cs t s w h q in
      control_records_fine settings fg _ t cs _ _ (audit_closed _ settings t stale.0) stale.1

anything : {W : Type 0} (env : Env W) → Respects env (λ w. Unit)
anything env = record {
  thaw = record {
    discover = λ name uid w q. tt;
    validate = λ p w q. tt;
    unfreeze = λ p q w e h v. tt;
  };
  sample = λ uid name w q. tt;
  recorded = λ pid start w q. tt;
  promote = λ p w q. tt;
  binder = λ w q. tt;
  freeze = λ p q w e h v. tt;
  terminate = λ p q w e h v. tt;
}

-- A control pass keeps the tracking consistent: every frozen identity has a freeze time and an
-- owner, and no other identity has a freeze time; so it is also after an error.
pub pass-IsTracked :
    {W : Type 0} (env : Env W) (s : RuntimeControlState) (cs : List ManagerAppConfigRecord)
    (settings fg : List ℕ) (t : ℕ) (w : W)
    → IsTracked s
    → IsTracked (run_control_pass env s cs settings fg t w).1
pass-IsTracked {W} env s cs settings fg t w h =
    (pass_keeps env IsTracked IsTracked-closed (λ w. Unit) (anything env) s cs settings fg t w h
      tt).0

-- In the record of the calls that a control pass makes of any device, every freeze, unfreeze and
-- SIGKILL of a pid comes directly after a validation of that pid that returned `Ok(true)`.
pub pass-IsGuarded :
    {W : Type 0} (env : Env W) (s : RuntimeControlState) (cs : List ManagerAppConfigRecord)
    (settings fg : List ℕ) (t : ℕ) (w : W)
    → IsGuarded (run_control_pass (traced env) s cs settings fg t ([], w)).2.0
pass-IsGuarded env s cs settings fg t w =
    (pass_keeps (traced env) (λ s. Unit)
      (record {
        track = λ s i t o h. tt;
        clear = λ s i h. tt;
        mark = λ s i h. tt;
        detach = λ s i h. tt;
        drop = λ s i h. tt;
        log = λ s o t h. tt;
        rest = λ s p n st b d a x h. tt;
      })
      (λ t. IsGuarded t.0) (traced-Respects env) s cs settings fg t ([], w) tt tt).1

-- The log has room for 128 records and holds no more.
abbrev pub IsLogged : RuntimeControlState → Type 0
IsLogged s = (s.operation_log.capacity ≡ 128) × (length s.operation_log.records ≤ 128)

stamp-IsLogged :
    (s : RuntimeControlState) (o : ControlOperation) (t : ℕ)
    → IsLogged s
    → IsLogged (stamp_and_push s o t)
unfolding stamp_and_push push
stamp-IsLogged s o t h =
    let pushed =
      push-IsBounded s.operation_log
        (record o { operation_id = s.next_operation_id; timestamp_ms = t })
        (record { positive = omega (arith, h); bounded = omega (arith, h) }) in
    (h.0, omega (arith, pushed.bounded, h))

IsLogged-closed : IsClosed IsLogged
unfolding track_frozen clear_frozen mark_abnormal_thaw_for_refreeze clear_detached_ownership
IsLogged-closed = record {
  track = λ s i t o h. h;
  clear = λ s i h. h;
  mark = λ s i h. h;
  detach = λ s i h. ground (arith, h);
  drop = λ s i h. ground (arith, h);
  log = stamp-IsLogged;
  rest = λ s p n st b d a x h. h;
}

-- However many operations a control pass records, the operation log keeps at most 128 records.
pub pass-IsLogged :
    {W : Type 0} (env : Env W) (s : RuntimeControlState) (cs : List ManagerAppConfigRecord)
    (settings fg : List ℕ) (t : ℕ) (w : W)
    → IsLogged s
    → IsLogged (run_control_pass env s cs settings fg t w).1
pass-IsLogged {W} env s cs settings fg t w h =
    (pass_keeps env IsLogged IsLogged-closed (λ w. Unit) (anything env) s cs settings fg t w h tt).0
