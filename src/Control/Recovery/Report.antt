-- ===== src/Control/Recovery/Report.antt =====
-- What the recovery of a process has done when it reports no failure.
use freezeit_cos.Base.{
  Text, txt, List, [], ◌∷◌, ◌++◌, Option, none, some, true, false, ◌&&◌, ◌||◌, not, is_some, ◌≡◌,
  refl, ap, arith, Option-cases, inl, inr, is_empty,
}
use freezeit_cos.Domain.Error.{Result, ok, err}
use freezeit_cos.Domain.Process.{RuntimeProcess}
use freezeit_cos.Control.World.{SignalStopOwnership}
use freezeit_cos.Control.Transaction.{control_failure}
use freezeit_cos.Control.Recovery.{
  RecoveryEnv, RestartRecoveryOutcome, FreezeState, signal_only_recovery,
  restart_identity_is_current, resume, unbind, thaw_path, path_to_thaw, recover_path,
  recover_process_after_restart, default_outcome, note_thaw, note_binder, note_resume, failed_by,
}

module _ {W : Type 0} (env : RecoveryEnv W) where
  abbrev Clean : RestartRecoveryOutcome → Type 0
  Clean o = is_empty o.failures ≡ true

  failed_dirty : (o : RestartRecoveryOutcome) (m : Text) → is_empty (failed_by o m).failures ≡ false
  failed_dirty o m = go o.failures
    where
      go : (l : List Text) → is_empty (l ++ m ∷ []) ≡ false
      go [] = refl
      go (x ∷ l) = refl

  note_resume-Clean :
      (p : RuntimeProcess) (r : Result (Unit {0})) (out : RestartRecoveryOutcome)
      → Clean (note_resume p r out)
      → Clean out
        × ((note_resume p r out).cgroup_thawed ≡ out.cgroup_thawed)
        × ((note_resume p r out).signal_resumed ≡ true)
  note_resume-Clean p (ok u) out h = (h, refl, refl)
  note_resume-Clean p (err e) out h =
      ground (arith, h, failed_dirty out (control_failure (txt "SIGCONT") p e))

  note_binder-Clean :
      (p : RuntimeProcess) (r : Result (Unit {0})) (out : RestartRecoveryOutcome)
      → Clean (note_binder p r out)
      → note_binder p r out ≡ out
  note_binder-Clean p (ok u) out h = refl
  note_binder-Clean p (err e) out h =
      ground (arith, h, failed_dirty out (control_failure (txt "binder unfreeze") p e))

  note_thaw-Clean :
      (p : RuntimeProcess) (r : Result (Unit {0})) (out : RestartRecoveryOutcome)
      → Clean (note_thaw p r out)
      → ((note_thaw p r out).cgroup_thawed ≡ true)
        × ((note_thaw p r out).signal_resumed ≡ out.signal_resumed)
  note_thaw-Clean p (ok u) out h = (refl, refl)
  note_thaw-Clean p (err e) out h =
      ground (arith, h, failed_dirty out (control_failure (txt "cgroup thaw") p e))

  resume-Clean :
      (p : RuntimeProcess) (o : Option SignalStopOwnership) (out : RestartRecoveryOutcome) (w : W)
      → Clean (resume env p o out w).0
      → Clean out
        × ((resume env p o out w).0.cgroup_thawed ≡ out.cgroup_thawed)
        × ((resume env p o out w).0.signal_resumed ≡ (is_some o || out.signal_resumed))
  unfolding resume
  resume-Clean p none out w h = (h, refl, refl)
  resume-Clean p (some o) out w h =
      let (stale, w1) = restart_identity_is_current env p (txt " immediately before SIGCONT") w in
      elim (Option-cases stale) [
        | inl e ↦ ground (arith, e, note_resume-Clean p (env.resume_signal p w1).0 out)
        | inr (m, e) ↦ ground (arith, e, failed_dirty out m)
      ]

  unbind-Clean :
      (p : RuntimeProcess) (o : Option SignalStopOwnership) (out : RestartRecoveryOutcome) (w : W)
      → Clean (unbind env p o out w).0
      → Clean out
        × ((unbind env p o out w).0.cgroup_thawed ≡ out.cgroup_thawed)
        × ((unbind env p o out w).0.signal_resumed ≡ (is_some o || out.signal_resumed))
  unfolding unbind
  unbind-Clean p o out w h =
      let (stale, w1) = restart_identity_is_current env p (txt " before binder unfreeze") w in
      elim (Option-cases stale) [
        | inl e ↦ ground (
          arith,
          e,
          note_binder-Clean p (env.unfreeze_binder p w1).0 out,
          resume-Clean p o (note_binder p (env.unfreeze_binder p w1).0 out)
              (env.unfreeze_binder p w1).1,
        )
        | inr (m, e) ↦ ground (arith, e, failed_dirty out m)
      ]

  thaw_path-Clean :
      (p : RuntimeProcess) (o : Option SignalStopOwnership) (path : Text) (w : W)
      → Clean (thaw_path env p o path w).0
      → ((thaw_path env p o path w).0.cgroup_thawed ≡ true)
        × ((thaw_path env p o path w).0.signal_resumed ≡ is_some o)
  unfolding thaw_path
  thaw_path-Clean p o path w h =
      let (stale, w1) = restart_identity_is_current env p (txt " before cgroup thaw") w in
      elim (Option-cases stale) [
        | inl e ↦ ground (
          arith,
          e,
          note_thaw-Clean p (env.thaw_cgroup path w1).0 default_outcome,
          unbind-Clean p o (note_thaw p (env.thaw_cgroup path w1).0 default_outcome)
              (env.thaw_cgroup path w1).1,
        )
        | inr (m, e) ↦ ground (arith, e, failed_dirty default_outcome m)
      ]

  recover_path-Clean :
      (p : RuntimeProcess) (o : Option SignalStopOwnership) (path : Option Text) (w : W)
      → Clean (recover_path env p o path w).0
      → ((recover_path env p o path w).0.cgroup_thawed ≡ is_some path)
        × ((recover_path env p o path w).0.signal_resumed ≡ is_some o)
  unfolding recover_path
  recover_path-Clean p o none w h = ground (arith, resume-Clean p o default_outcome w h)
  recover_path-Clean p o (some path) w h = thaw_path-Clean p o path w h

  -- If a recovery reports no failure, it thawed the cgroup exactly if the process has one and is
  -- not known to be stopped by the signal alone, and it sent SIGCONT exactly if the ledger knows
  -- of a SIGSTOP.
  pub recover_clean :
      (p : RuntimeProcess) (o : Option SignalStopOwnership) (observed : Option FreezeState) (w : W)
      → (recover_process_after_restart env p o observed w).0.failures ≡ []
      → ((recover_process_after_restart env p o observed w).0.cgroup_thawed
          ≡ (is_some p.cgroup_freeze_path && not (signal_only_recovery o observed)))
        × ((recover_process_after_restart env p o observed w).0.signal_resumed ≡ is_some o)
  unfolding recover_process_after_restart path_to_thaw
  recover_clean p o observed w h =
      ground (arith, recover_path-Clean p o (path_to_thaw p o observed) w (ap is_empty h))
