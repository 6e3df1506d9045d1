-- ===== src/Control/State.antt =====
-- `RuntimeControlState`: what the daemon knows about the applications that it has frozen.
pub mod Ownership
pub mod Closed
use freezeit_cos.Base.{
  ℕ, ℤ, zero, suc, ◌+◌, ◌%◌, ◌^◌, Text, txt, List, [], ◌∷◌, map, Option, none, some, Bool, true,
  false, not, ◌&&◌, ◌||◌, all, is_empty, is_some, beq, ◌==◌, Map, Set, keys, lookup, insert, remove,
  retain, contains, nat_key, list_key, pair_key, option_key, int_key, unwrap_or, if◌then◌else◌,
}
use freezeit_cos.Domain.Process.{RuntimeProcess}
use freezeit_cos.Domain.Operation.{ControlOperation}
use freezeit_cos.Deferral.{DownloadDeferral, default_deferral, clear_uid}
use freezeit_cos.Log
use freezeit_cos.Log.{OperationLog}

-- Package name and uid.
abbrev pub RuntimeIdentity : Type 0
RuntimeIdentity = Text × ℕ

abbrev pub ProcessSignature : Type 0
ProcessSignature = List (ℤ × (Text × Option ℕ))

pub data FrozenOwnership : Type 0 where
  signal_only cgroup_binder residual_unknown : FrozenOwnership

pub record RuntimeControlState : Type 0 where
  pub operation_log : OperationLog
  pub frozen_apps : Set RuntimeIdentity
  pub frozen_since_ms : Map RuntimeIdentity ℕ
  pub frozen_ownership : Map RuntimeIdentity FrozenOwnership
  pub pending_freezes : Map RuntimeIdentity ℕ
  pub network_restriction_requests : Set ℕ
  pub next_operation_id : ℕ
  pub status_since_ms : Map ℕ (ℤ × ℕ)
  pub blocked_process_signatures : Map RuntimeIdentity ProcessSignature
  pub download_deferral : DownloadDeferral
  pub audit_started_at_ms : Option ℕ
  pub next_refreeze_audit_at_ms : Option ℕ

unfoldable pub initial : RuntimeControlState
unfolding Log.new
initial = record {
  operation_log = Log.new 128;
  frozen_apps = [];
  frozen_since_ms = [];
  frozen_ownership = [];
  pending_freezes = [];
  network_restriction_requests = [];
  next_operation_id = 1;
  status_since_ms = [];
  blocked_process_signatures = [];
  download_deferral = default_deferral;
  audit_started_at_ms = none;
  next_refreeze_audit_at_ms = none;
}

abbrev pub is_residual : Option FrozenOwnership → Bool
is_residual (some residual_unknown) = true
is_residual _ = false

abbrev pub is_frozen : RuntimeControlState → RuntimeIdentity → Bool
is_frozen s i = contains i s.frozen_apps

unfoldable pub ownership_of : RuntimeControlState → RuntimeIdentity → FrozenOwnership
ownership_of s i = unwrap_or (lookup i s.frozen_ownership) residual_unknown

-- The ownership that `track_frozen` records.
unfoldable pub merged_ownership :
    RuntimeControlState → RuntimeIdentity → FrozenOwnership → FrozenOwnership
merged_ownership s i ownership =
    if is_residual (lookup i s.frozen_ownership)
      || (contains i s.frozen_apps && not (contains i s.frozen_ownership))
    then residual_unknown
    else ownership

unfoldable pub track_frozen :
    RuntimeControlState → RuntimeIdentity → ℕ → FrozenOwnership → RuntimeControlState
unfolding merged_ownership
track_frozen s i timestamp_ms ownership = record s {
  frozen_apps = insert i tt s.frozen_apps;
  frozen_since_ms =
      insert i (unwrap_or (lookup i s.frozen_since_ms) timestamp_ms) s.frozen_since_ms;
  frozen_ownership = insert i (merged_ownership s i ownership) s.frozen_ownership;
}

abbrev is_unresolved : Option FrozenOwnership → Bool
is_unresolved (some cgroup_binder) = true
is_unresolved (some residual_unknown) = true
is_unresolved _ = false

unfoldable pub has_unresolved_freeze_ownership : RuntimeControlState → RuntimeIdentity → Bool
has_unresolved_freeze_ownership s i =
    is_unresolved (lookup i s.frozen_ownership)
    || (contains i s.frozen_apps && not (contains i s.frozen_ownership))

unfoldable pub clear_frozen : RuntimeControlState → RuntimeIdentity → RuntimeControlState
clear_frozen s i = record s {
  frozen_apps = remove i s.frozen_apps;
  frozen_since_ms = remove i s.frozen_since_ms;
  frozen_ownership = remove i s.frozen_ownership;
}

abbrev pub after_abnormal_thaw : FrozenOwnership → FrozenOwnership
after_abnormal_thaw signal_only = signal_only
after_abnormal_thaw _ = residual_unknown

unfoldable pub mark_abnormal_thaw_for_refreeze :
    RuntimeControlState → RuntimeIdentity → RuntimeControlState
unfolding ownership_of
mark_abnormal_thaw_for_refreeze s i = record s {
  frozen_apps = remove i s.frozen_apps;
  frozen_since_ms = remove i s.frozen_since_ms;
  frozen_ownership = insert i (after_abnormal_thaw (ownership_of s i)) s.frozen_ownership;
}

unfoldable pub clear_detached_ownership :
    RuntimeControlState → RuntimeIdentity → RuntimeControlState
clear_detached_ownership s i =
    if not (contains i s.frozen_apps)
    then (record s { frozen_ownership = remove i s.frozen_ownership })
    else s

-- `BTreeSet::from_iter`, in order.
unfoldable pub to_set : List ℕ → Set ℕ
to_set [] = []
to_set (u ∷ us) = insert u tt (to_set us)

unfoldable pub pending_freeze_uids : RuntimeControlState → List ℕ
unfolding to_set
pending_freeze_uids s = keys (to_set (map (λ i. i.1) (keys s.pending_freezes)))

unfoldable pub take_network_restriction_uids : RuntimeControlState → List ℕ × RuntimeControlState
take_network_restriction_uids s =
    (keys s.network_restriction_requests, record s { network_restriction_requests = [] })

unfoldable pub requeue_network_restriction_uid : RuntimeControlState → ℕ → RuntimeControlState
requeue_network_restriction_uid s uid = record s {
  network_restriction_requests = insert uid tt s.network_restriction_requests;
}

unfoldable pub clear_transient_control_state_for_uid : RuntimeControlState → ℕ → RuntimeControlState
clear_transient_control_state_for_uid s uid = record s {
  pending_freezes = retain (λ i. not (i.1 == uid)) s.pending_freezes;
  network_restriction_requests = remove uid s.network_restriction_requests;
  blocked_process_signatures = retain (λ i. not (i.1 == uid)) s.blocked_process_signatures;
  download_deferral = clear_uid uid s.download_deferral;
  status_since_ms = remove uid s.status_since_ms;
}

-- `backend_name`
unfoldable pub backend_name : List RuntimeProcess → Text
backend_name processes =
    if not (is_empty processes) && all (λ p. is_some p.cgroup_freeze_path) processes
    then txt "cgroup.freeze"
    else txt "signal-control-pass"

unfoldable pub unfreeze_backend : FrozenOwnership → List RuntimeProcess → Text
unfreeze_backend signal_only processes = txt "signal.cont"
unfreeze_backend cgroup_binder processes = backend_name processes
unfreeze_backend residual_unknown processes = backend_name processes

-- `stamp_operation`, then `operation_log.push`.
unfoldable pub stamp_and_push : RuntimeControlState → ControlOperation → ℕ → RuntimeControlState
stamp_and_push s operation timestamp_ms = record s {
  next_operation_id = (s.next_operation_id + 1) % 2 ^ 64;
  operation_log =
      Log.push s.operation_log
        (record operation { operation_id = s.next_operation_id; timestamp_ms = timestamp_ms });
}
