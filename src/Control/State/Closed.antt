-- ===== src/Control/State/Closed.antt =====
-- The ways in which the control loop changes its state, as closure conditions on a property.
use freezeit_cos.Base.{
  ℕ, ℤ, not, Option, arith, Map, Set, remove, contains, list_key, nat_key, pair_key, if◌then◌else◌,
  lookup-remove, beq_iff,
}
use freezeit_cos.Domain.Operation.{ControlOperation}
use freezeit_cos.Deferral.{DownloadDeferral}
use freezeit_cos.Control.State.{
  RuntimeControlState, RuntimeIdentity, FrozenOwnership, ProcessSignature, track_frozen,
  clear_frozen, mark_abnormal_thaw_for_refreeze, clear_detached_ownership, stamp_and_push,
}
use freezeit_cos.Control.State.Ownership.{
  IsTracked, track_frozen-IsTracked, clear_frozen-IsTracked, mark_abnormal_thaw-IsTracked,
  clear_detached-IsTracked,
}

-- `if !frozen_apps.contains(i) { frozen_since_ms.remove(i) }`
abbrev pub without_since : RuntimeControlState → RuntimeIdentity → RuntimeControlState
without_since s i =
    if not (contains i s.frozen_apps)
    then (record s { frozen_since_ms = remove i s.frozen_since_ms })
    else s

-- The fields that say nothing of what is frozen or logged.
abbrev pub with_rest :
    RuntimeControlState
    → Map RuntimeIdentity ℕ
    → Set ℕ
    → Map ℕ (ℤ × ℕ)
    → Map RuntimeIdentity ProcessSignature
    → DownloadDeferral
    → Option ℕ
    → Option ℕ
    → RuntimeControlState
with_rest s pending network status blocked deferral started next = record s {
  pending_freezes = pending;
  network_restriction_requests = network;
  status_since_ms = status;
  blocked_process_signatures = blocked;
  download_deferral = deferral;
  audit_started_at_ms = started;
  next_refreeze_audit_at_ms = next;
}

-- A property that every primitive change of the state keeps.
pub record IsClosed (I : RuntimeControlState → Type 0) : Type 0 where
  pub track :
      (s : RuntimeControlState) (i : RuntimeIdentity) (t : ℕ) (o : FrozenOwnership)
      → I s
      → I (track_frozen s i t o)
  pub clear : (s : RuntimeControlState) (i : RuntimeIdentity) → I s → I (clear_frozen s i)
  pub mark :
      (s : RuntimeControlState) (i : RuntimeIdentity)
      → I s
      → I (mark_abnormal_thaw_for_refreeze s i)
  pub detach :
      (s : RuntimeControlState) (i : RuntimeIdentity) → I s → I (clear_detached_ownership s i)
  pub drop : (s : RuntimeControlState) (i : RuntimeIdentity) → I s → I (without_since s i)
  pub log :
      (s : RuntimeControlState) (o : ControlOperation) (t : ℕ) → I s → I (stamp_and_push s o t)
  pub rest :
      (s : RuntimeControlState) (pending : Map RuntimeIdentity ℕ) (network : Set ℕ)
      (status : Map ℕ (ℤ × ℕ)) (blocked : Map RuntimeIdentity ProcessSignature)
      (deferral : DownloadDeferral) (started next : Option ℕ)
      → I s
      → I (with_rest s pending network status blocked deferral started next)

without_since-IsTracked :
    (s : RuntimeControlState) (i : RuntimeIdentity) → IsTracked s → IsTracked (without_since s i)
without_since-IsTracked s i h = record {
  since =
      λ j. ground (arith, h.since j, h.since i, lookup-remove i j s.frozen_since_ms, beq_iff i j);
  owned = λ j. ground (arith, h.owned j);
}

stamp-IsTracked :
    (s : RuntimeControlState) (o : ControlOperation) (t : ℕ)
    → IsTracked s
    → IsTracked (stamp_and_push s o t)
unfolding stamp_and_push
stamp-IsTracked s o t h = record { since = h.since; owned = h.owned }

pub IsTracked-closed : IsClosed IsTracked
IsTracked-closed = record {
  track = track_frozen-IsTracked;
  clear = clear_frozen-IsTracked;
  mark = mark_abnormal_thaw-IsTracked;
  detach = clear_detached-IsTracked;
  drop = without_since-IsTracked;
  log = stamp-IsTracked;
  rest = λ s p n st b d a x h. record { since = h.since; owned = h.owned };
}
