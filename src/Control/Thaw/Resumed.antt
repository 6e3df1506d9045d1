-- ===== src/Control/Thaw/Resumed.antt =====
-- What unfreezing by the owner's backend undoes: `unfreeze_identity_processes` of
-- freezeitDaemon/src/app/controller.rs.
use freezeit_cos.Base.{
  ℤ, Text, List, [], ◌∷◌, ◌++◌, Option, none, some, Bool, true, false, ◌&&◌, ◌≡◌, refl, arith, any,
  is_empty, is_some, beq, int_key, list_key, nat_key, if◌then◌else◌,
}
use freezeit_cos.Domain.Error.{ok}
use freezeit_cos.Domain.Process.{RuntimeProcess}
use freezeit_cos.Control.State.{FrozenOwnership, signal_only, cgroup_binder, residual_unknown}
use freezeit_cos.Control.World.{Env, signal_control_process}
use freezeit_cos.Control.Transaction.Atomic.{has_pid}
use freezeit_cos.Control.Thaw.{
  UnfreezeOutcome, control_process, tally, unfreeze_one, unfreeze_each, unfreeze_identity_processes,
}

-- A device that keeps a stop signal and a frozen cgroup apart: a validation changes neither, and a
-- call that succeeds continues the one process that it names, and thaws its cgroup if, and only if,
-- the process comes with the path of one.
pub record ThawsApart {W : Type 0} (env : Env W) (signaled in_frozen_cgroup : W → ℤ → Bool)
    : Type 0 where
  pub signal_kept :
      (p : RuntimeProcess) (w : W) (q : ℤ) → signaled (env.validate p w).1 q ≡ signaled w q
  pub cgroup_kept :
      (p : RuntimeProcess) (w : W) (q : ℤ)
      → in_frozen_cgroup (env.validate p w).1 q ≡ in_frozen_cgroup w q
  pub continued :
      (p : RuntimeProcess) (w : W) (q : ℤ)
      → (env.unfreeze p w).0 ≡ ok tt
      → signaled (env.unfreeze p w).1 q ≡ (if beq p.pid q then false else signaled w q)
  pub thawed :
      (p : RuntimeProcess) (w : W) (q : ℤ)
      → (env.unfreeze p w).0 ≡ ok tt
      → in_frozen_cgroup (env.unfreeze p w).1 q
        ≡ (if beq p.pid q && is_some p.cgroup_freeze_path then false else in_frozen_cgroup w q)

-- An owner other than the signal alone may have frozen the cgroup.
abbrev pub owns_cgroup : FrozenOwnership → Bool
owns_cgroup signal_only = false
owns_cgroup cgroup_binder = true
owns_cgroup residual_unknown = true

abbrev pub has_cgroup : ℤ → List RuntimeProcess → Bool
has_cgroup q = any λ p. beq p.pid q && is_some p.cgroup_freeze_path

control_process_pid : (o : FrozenOwnership) (p : RuntimeProcess) → (control_process o p).pid ≡ p.pid
unfolding control_process
control_process_pid signal_only p = refl
control_process_pid cgroup_binder p = refl
control_process_pid residual_unknown p = refl

control_process_path :
    (o : FrozenOwnership) (p : RuntimeProcess)
    → is_some (control_process o p).cgroup_freeze_path
      ≡ (owns_cgroup o && is_some p.cgroup_freeze_path)
unfolding control_process signal_control_process
control_process_path signal_only p = refl
control_process_path cgroup_binder p = refl
control_process_path residual_unknown p = refl

tally_empty :
    (r : UnfreezeOutcome) (f : Option Text)
    → is_empty (tally r f).failures ≡ true
    → (is_empty r.failures ≡ true) × (f ≡ none)
tally_empty r none e = (e, refl)
tally_empty r (some m) e = go r.failures e
  where
    go : (l : List Text) → is_empty (l ++ m ∷ []) ≡ true → (is_empty l ≡ true) × (some m ≡ none)
    go [] e = cc
    go (x ∷ l) e = cc

module _ {W : Type 0} (env : Env W) (signaled in_frozen_cgroup : W → ℤ → Bool)
    (h : ThawsApart env signaled in_frozen_cgroup) (q : ℤ) where
  unfreeze_one_signal :
      (o : FrozenOwnership) (p : RuntimeProcess) (w : W)
      → (unfreeze_one env o p w).0 ≡ none
      → signaled (unfreeze_one env o p w).1 q ≡ (if beq p.pid q then false else signaled w q)
  unfolding unfreeze_one
  unfreeze_one_signal o p w =
      let target = control_process o p in
      ground (
        arith,
        control_process_pid o p,
        h.signal_kept target w q,
        h.continued target (env.validate target w).1 q,
      )

  unfreeze_one_cgroup :
      (o : FrozenOwnership) (p : RuntimeProcess) (w : W)
      → (unfreeze_one env o p w).0 ≡ none
      → in_frozen_cgroup (unfreeze_one env o p w).1 q ≡ (
          if owns_cgroup o && (beq p.pid q && is_some p.cgroup_freeze_path)
          then false
          else in_frozen_cgroup w q)
  unfolding unfreeze_one
  unfreeze_one_cgroup o p w =
      let target = control_process o p in
      ground (
        arith,
        control_process_pid o p,
        control_process_path o p,
        h.cgroup_kept target w q,
        h.thawed target (env.validate target w).1 q,
      )

  unfreeze_each_clean :
      (o : FrozenOwnership) (ps : List RuntimeProcess) (r : UnfreezeOutcome) (w : W)
      → is_empty (unfreeze_each env o ps r w).0.failures ≡ true
      → is_empty r.failures ≡ true
  unfolding unfreeze_each
  unfreeze_each_clean o [] r w e = e
  unfreeze_each_clean o (p ∷ ps) r w e =
      let out = unfreeze_one env o p w in
      (tally_empty r out.0 (unfreeze_each_clean o ps (tally r out.0) out.1 e)).0

  abbrev Resumed : FrozenOwnership → List RuntimeProcess → W → W → Type 0
  Resumed o ps before after =
      (signaled after q ≡ (if has_pid q ps then false else signaled before q))
      × (in_frozen_cgroup after q
          ≡ (if owns_cgroup o && has_cgroup q ps then false else in_frozen_cgroup before q))

  unfreeze_each_view :
      (o : FrozenOwnership) (ps : List RuntimeProcess) (r : UnfreezeOutcome) (w : W)
      → is_empty (unfreeze_each env o ps r w).0.failures ≡ true
      → Resumed o ps w (unfreeze_each env o ps r w).1
  unfolding unfreeze_each
  unfreeze_each_view o [] r w e = ground arith
  unfreeze_each_view o (p ∷ ps) r w e =
      let out = unfreeze_one env o p w in
      ground (
        arith,
        tally_empty r out.0 (unfreeze_each_clean o ps (tally r out.0) out.1 e),
        unfreeze_one_signal o p w,
        unfreeze_one_cgroup o p w,
        unfreeze_each_view o ps (tally r out.0) out.1 e,
      )

  -- On a device that keeps stop signals and frozen cgroups apart, an unfreeze without a failure
  -- leaves `q` without a stop signal if it is one of the processes, and as it was if it is not. The
  -- cgroup of `q` is thawed if `q` is one of the processes, comes with a path, and the owner is not
  -- the signal alone; in all other cases it stays as it was.
  pub unfreeze_resumes :
      (expected : Text) (ps : List RuntimeProcess) (o : FrozenOwnership) (w : W)
      → (unfreeze_identity_processes env expected ps o w).0.failures ≡ []
      → let after = (unfreeze_identity_processes env expected ps o w).1 in
        (signaled after q ≡ (if has_pid q ps then false else signaled w q))
        × (in_frozen_cgroup after q
            ≡ (if owns_cgroup o && has_cgroup q ps then false else in_frozen_cgroup w q))
  unfolding unfreeze_identity_processes
  unfreeze_resumes expected ps o w e =
      ground (arith, unfreeze_each_view o ps (record { applied = 0; failures = [] }) w)
