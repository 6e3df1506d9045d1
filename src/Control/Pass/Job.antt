-- ===== src/Control/Pass/Job.antt =====
-- What the handling of one record knows once its processes are discovered.
pub mod Closed
use freezeit_cos.Base.{
  contains_text, ℕ, Text, List, [], ◌∷◌, map, Option, Bool, not, cmp_list, Ordering, contains,
  insert, remove, list_key, nat_key, int_key, option_key, pair_key, sort, if◌then◌else◌,
}
use freezeit_cos.Domain.Error.{DaemonError}
use freezeit_cos.Domain.Process.{RuntimeProcess, ControlState}
use freezeit_cos.Domain.Operation.{ControlAction, OperationResult}
use freezeit_cos.Domain.Policy.{ManagedApp, FreezePolicy}
use freezeit_cos.Control.State.{
  RuntimeControlState, RuntimeIdentity, ProcessSignature, stamp_and_push, track_frozen,
  residual_unknown,
}
use freezeit_cos.Control.Transaction.{shared_uid}
use freezeit_cos.Control.Thaw.{operation_with}
use freezeit_cos.Control.Settings.{
  ManagerAppConfigRecord, managed_app_from_record, policy_from_record, mode_has_network_restriction,
}

pub record Job : Type 0 where
  pub config : ManagerAppConfigRecord
  pub settings : List ℕ
  pub foreground_uids : List ℕ
  pub audit_due : Bool
  pub timestamp_ms : ℕ
  pub processes : List RuntimeProcess
  pub package_name : Text

-- `Ok` is `none`; the state and the world are as the round leaves them.
abbrev pub Round : Type 0 → Type 0
Round W = Option DaemonError × RuntimeControlState × W

abbrev pub identity : Job → RuntimeIdentity
identity j = (j.package_name, j.config.uid)

abbrev pub app_of : Job → ManagedApp
app_of j = managed_app_from_record j.package_name j.config.uid

abbrev pub policy_of : Job → FreezePolicy
policy_of j = policy_from_record j.config

smaller : Text → Text → Text
smaller s t = elim (cmp_list t s) [ Ordering.lt ↦ t | _ ↦ s ]

-- The least package name of a list of processes that is not empty.
unfoldable pub least_package : Text → List RuntimeProcess → Text
unfolding smaller
least_package name [] = name
least_package name (p ∷ ps) = least_package (smaller name p.package_name) ps

unfoldable pub process_signature : List RuntimeProcess → ProcessSignature
process_signature processes =
    sort (map (λ (p : RuntimeProcess). (p.pid, (p.package_name, p.start_time_ticks))) processes)

unfoldable pub pending_processes : List RuntimeProcess → List RuntimeProcess
pending_processes =
    map λ (p : RuntimeProcess). record p { control_state = ControlState.pending_freeze }

-- The operation is stamped and pushed.
unfoldable pub log_round :
    Job
    → RuntimeControlState
    → List RuntimeProcess
    → ControlAction
    → Text
    → Text
    → OperationResult
    → Text
    → RuntimeControlState
unfolding operation_with
log_round j s processes action backend reason result details =
    stamp_and_push s
      (operation_with j.package_name j.config.uid processes action backend reason result details)
      j.timestamp_ms

unfoldable pub remove_pending : Job → RuntimeControlState → RuntimeControlState
remove_pending j s = record s { pending_freezes = remove (identity j) s.pending_freezes }

unfoldable pub insert_pending : Job → ℕ → RuntimeControlState → RuntimeControlState
insert_pending j due s = record s { pending_freezes = insert (identity j) due s.pending_freezes }

-- `if !state.frozen_apps.contains(&identity) { state.frozen_since_ms.remove(&identity); }`
unfoldable pub drop_since : Job → RuntimeControlState → RuntimeControlState
drop_since j s =
    if not (contains (identity j) s.frozen_apps)
    then (record s { frozen_since_ms = remove (identity j) s.frozen_since_ms })
    else s

unfoldable pub block_signature : Job → RuntimeControlState → RuntimeControlState
block_signature j s = record s {
  blocked_process_signatures =
      insert (identity j) (process_signature j.processes) s.blocked_process_signatures;
}

unfoldable pub request_network : Job → RuntimeControlState → RuntimeControlState
request_network j s =
    if mode_has_network_restriction j.config.mode
    then (record s {
      network_restriction_requests = insert j.config.uid tt s.network_restriction_requests;
    })
    else s

-- A mixed uid is not tried again while its processes stay the same.
unfoldable pub block_if_shared : Job → Text → RuntimeControlState → RuntimeControlState
block_if_shared j failure s = if contains_text shared_uid failure then block_signature j s else s

unfoldable pub track_if : Bool → Job → RuntimeControlState → RuntimeControlState
track_if b j s = if b then track_frozen s (identity j) j.timestamp_ms residual_unknown else s
