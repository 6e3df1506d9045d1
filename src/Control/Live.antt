-- ===== src/Control/Live.antt =====
-- Reconciling the control states of live processes with what the kernel shows:
-- freezeitDaemon/src/app/controller.rs.
pub mod Evidence
use freezeit_cos.Base.{
  ℕ, ℤ, Text, List, [], ◌∷◌, Option, none, some, Bool, true, false, ◌&&◌, ◌||◌, ◌==◌, is_some, ◌≡◌,
  ◌↔◌, arith, if◌then◌else◌,
}
use freezeit_cos.Domain.Error.{Result, ok, err}
use freezeit_cos.Domain.Process.{RuntimeProcess, ControlState, running, frozen}
use freezeit_cos.Control.Recovery.{FreezeState, thawed}

-- `Result::ok`
abbrev pub ok_option {ℓ} : {A : Type ℓ} → Result A → Option A
ok_option (ok a) = some a
ok_option (err e) = none

-- `Some('T' | 't')`, by the codes of the characters
abbrev pub is_stop_state : Option ℕ → Bool
is_stop_state none = false
is_stop_state (some c) = c == 84 || c == 116

abbrev pub is_frozen_state : Option FreezeState → Bool
is_frozen_state (some FreezeState.frozen) = true
is_frozen_state _ = false

abbrev pub is_thawed_state : Option FreezeState → Bool
is_thawed_state (some thawed) = true
is_thawed_state _ = false

unfoldable pub reconciled_state : Option FreezeState → Option ℕ → ControlState
reconciled_state cgroup proc =
    if is_stop_state proc
    then frozen
    else if is_thawed_state cgroup && is_some proc
    then running
    else ControlState.unknown

module _ {W : Type 0} (read_cgroup_state : Text → W → Result FreezeState × W)
    (read_proc_state : ℤ → W → Result ℕ × W) where
  unfoldable pub observed_cgroup : RuntimeProcess → W → Option FreezeState × W
  observed_cgroup p w = elim p.cgroup_freeze_path [
    | none ↦ (some thawed, w)
    | some path ↦ (ok_option (read_cgroup_state path w).0, (read_cgroup_state path w).1)
  ]

  -- One round of the loop.
  unfoldable pub reconcile_process : RuntimeProcess → W → RuntimeProcess × W
  reconcile_process p w =
      let (cgroup, w1) = observed_cgroup p w in
      if is_frozen_state cgroup then ((record p { control_state = frozen }), w1) else (
        (record p {
          control_state = reconciled_state cgroup (ok_option (read_proc_state p.pid w1).0);
        }),
        (read_proc_state p.pid w1).1,
      )

  unfoldable pub reconcile_live_process_control_states :
      List RuntimeProcess → W → List RuntimeProcess × W
  reconcile_live_process_control_states [] w = ([], w)
  reconcile_live_process_control_states (p ∷ ps) w =
      let (q, w1) = reconcile_process p w in
      let (qs, w2) = reconcile_live_process_control_states ps w1 in (q ∷ qs, w2)
