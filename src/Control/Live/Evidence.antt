-- ===== src/Control/Live/Evidence.antt =====
-- On what evidence a live process counts as running or as frozen:
-- `reconcile_live_process_control_states` of freezeitDaemon/src/app/controller.rs.
use freezeit_cos.Base.{
  ℕ, ℤ, Text, List, [], ◌∷◌, Option, none, some, ==_iff, ◌≡◌, ◌≢◌, ◌↔◌, ◌⊎◌, arith, if◌then◌else◌,
}
use freezeit_cos.Domain.Error.{Result, ok, err}
use freezeit_cos.Domain.Process.{RuntimeProcess, running, frozen}
use freezeit_cos.Control.Recovery.{FreezeState, thawed}
use freezeit_cos.Control.Live.{
  ok_option, is_frozen_state, observed_cgroup, reconciled_state, reconcile_process,
  reconcile_live_process_control_states,
}

-- The process is in no cgroup that could freeze it, or in one that is read as thawed.
abbrev pub IsThawedAt : (Text → Result FreezeState) → Option Text → Type 0
IsThawedAt cgroup_state none = Unit
IsThawedAt cgroup_state (some path) = cgroup_state path ≡ ok thawed

abbrev pub IsFrozenAt : (Text → Result FreezeState) → Option Text → Type 0
IsFrozenAt cgroup_state none = ⊥
IsFrozenAt cgroup_state (some path) = cgroup_state path ≡ ok FreezeState.frozen

-- A state in /proc that was read, and is neither `T`, which is 84, nor `t`, which is 116.
abbrev pub IsProcActive : Result ℕ → Type 0
IsProcActive (ok c) = (c ≢ 84) × (c ≢ 116)
IsProcActive (err e) = ⊥

abbrev pub IsProcStopped : Result ℕ → Type 0
IsProcStopped r = (r ≡ ok 84) ⊎ (r ≡ ok 116)

-- What the cgroup of a process and its state in /proc are, where they can be read.
module _ (cgroup_state : Text → Result FreezeState) (proc_state : ℤ → Result ℕ) where
  abbrev pub Reconciled : RuntimeProcess → RuntimeProcess → Type 0
  Reconciled p q =
      (q ≡ record p { control_state = q.control_state })
      × ((q.control_state ≡ running)
          ↔ (IsThawedAt cgroup_state p.cgroup_freeze_path × IsProcActive (proc_state p.pid)))
      × ((q.control_state ≡ frozen)
          ↔ (IsFrozenAt cgroup_state p.cgroup_freeze_path ⊎ IsProcStopped (proc_state p.pid)))

  -- Each process of the first list against the one at its place in the second.
  abbrev pub AllReconciled : List RuntimeProcess → List RuntimeProcess → Type 0
  AllReconciled [] [] = Unit
  AllReconciled [] (q ∷ qs) = ⊥
  AllReconciled (p ∷ ps) [] = ⊥
  AllReconciled (p ∷ ps) (q ∷ qs) = Reconciled p q × AllReconciled ps qs

state_by :
    (cgroup : Option FreezeState) (r : Result ℕ)
    → let state =
        (if is_frozen_state cgroup then frozen else reconciled_state cgroup (ok_option r)) in
      ((state ≡ running) ↔ ((cgroup ≡ some thawed) × IsProcActive r))
      × ((state ≡ frozen) ↔ ((cgroup ≡ some FreezeState.frozen) ⊎ IsProcStopped r))
unfolding reconciled_state
state_by cgroup (ok c) = ground (arith, ==_iff c 84, ==_iff c 116)
state_by cgroup (err e) = ground arith

module _ {W : Type 0} (read_cgroup_state : Text → W → Result FreezeState × W)
    (read_proc_state : ℤ → W → Result ℕ × W) (cgroup_state : Text → Result FreezeState)
    (proc_state : ℤ → Result ℕ)
    (cgroup_read : (path : Text) (w : W) → (read_cgroup_state path w).0 ≡ cgroup_state path)
    (proc_read : (pid : ℤ) (w : W) → (read_proc_state pid w).0 ≡ proc_state pid) where
  observed_state :
      (p : RuntimeProcess) (w : W)
      → let seen = (observed_cgroup read_cgroup_state read_proc_state p w).0 in
        ((seen ≡ some thawed) ↔ IsThawedAt cgroup_state p.cgroup_freeze_path)
        × ((seen ≡ some FreezeState.frozen) ↔ IsFrozenAt cgroup_state p.cgroup_freeze_path)
  unfolding observed_cgroup
  observed_state p w = go p.cgroup_freeze_path
    where
      go :
          (o : Option Text)
          → let seen =
              (elim o as (λ x. Option FreezeState × W) [
                | none ↦ (some thawed, w)
                | some path ↦ (ok_option (read_cgroup_state path w).0, (read_cgroup_state path w).1)
              ]).0 in
            ((seen ≡ some thawed) ↔ IsThawedAt cgroup_state o)
            × ((seen ≡ some FreezeState.frozen) ↔ IsFrozenAt cgroup_state o)
      go none = ground arith
      go (some path) = ground (arith, cgroup_read path w)

  reconcile_process-Reconciled :
      (p : RuntimeProcess) (w : W)
      → Reconciled cgroup_state proc_state p
          (reconcile_process read_cgroup_state read_proc_state p w).0
  unfolding reconcile_process
  reconcile_process-Reconciled p w =
      let seen = observed_cgroup read_cgroup_state read_proc_state p w in
      ground (arith, observed_state p w, state_by seen.0 (proc_state p.pid), proc_read p.pid seen.1)

  -- While the states that can be read stay as they are, reconciling a list of processes changes
  -- nothing of a process but its control state. It is running exactly if its cgroup is absent or
  -- read as thawed and its state in /proc is read and is neither `T` nor `t`; it is frozen exactly
  -- if its cgroup is read as frozen or its state in /proc as `T` or `t`. A read that fails makes it
  -- neither by itself.
  pub reconcile-AllReconciled :
      (ps : List RuntimeProcess) (w : W)
      → AllReconciled cgroup_state proc_state ps
          (reconcile_live_process_control_states read_cgroup_state read_proc_state ps w).0
  unfolding reconcile_live_process_control_states
  reconcile-AllReconciled [] w = tt
  reconcile-AllReconciled (p ∷ ps) w =
      (reconcile_process-Reconciled p w, reconcile-AllReconciled ps _)
