-- ===== src/Control/Status/Reports.antt =====
-- What the reported records say, and their order.
use freezeit_cos.Base.{
  ℕ, ◌≤◌, ℤ, pos, min, List, [], ◌∷◌, map, Bool, not, ◌||◌, any, is_some, is_empty, ◌==◌, ◌≡◌, refl,
  arith, All, Bool-cases, inl, inr, i32_max, Map, lookup, lookup-insert, keys, contains, nat_key,
  if◌then◌else◌, insert, unwrap_or, length,
}
use freezeit_cos.Domain.Process.{RuntimeProcess}
use freezeit_cos.Control.State.{RuntimeControlState, RuntimeIdentity, to_set}
use freezeit_cos.Control.Settings.{ManagerAppConfigRecord, is_control_policy_mode}
use freezeit_cos.Control.Status.{
  ManagerFreezeStatusRecord, pending_by_uid, frozen_uids, status_state, status_record, unseen,
  status_each, sight_of, since_of, next_status,
}

-- Some identity of the uid is among these.
abbrev pub has_uid : ℕ → List RuntimeIdentity → Bool
has_uid uid = any λ i. i.1 == uid

pending_by_uid-lookup :
    (m : Map RuntimeIdentity ℕ) (acc : Map ℕ ℕ) (uid : ℕ)
    → is_some (lookup uid (pending_by_uid m acc))
      ≡ (has_uid uid (keys m) || is_some (lookup uid acc))
unfolding pending_by_uid
pending_by_uid-lookup [] acc uid = refl
pending_by_uid-lookup ((i, due) ∷ m) acc uid =
    let next = insert i.1 (min (unwrap_or (lookup i.1 acc) due) due) acc in
    ground (
      arith,
      pending_by_uid-lookup m next uid,
      lookup-insert i.1 uid (min (unwrap_or (lookup i.1 acc) due) due) acc,
    )

pending-lookup :
    (m : Map RuntimeIdentity ℕ) (uid : ℕ)
    → is_some (lookup uid (pending_by_uid m [])) ≡ has_uid uid (keys m)
unfolding lookup
pending-lookup m uid = ground (arith, pending_by_uid-lookup m [] uid)

to_set-contains :
    (is : List RuntimeIdentity) (uid : ℕ)
    → contains uid (to_set (map (λ (i : RuntimeIdentity). i.1) is)) ≡ has_uid uid is
unfolding to_set lookup
to_set-contains [] uid = refl
to_set-contains (i ∷ is) uid = ground (
  arith,
  to_set-contains is uid,
  lookup-insert i.1 uid tt (to_set (map (λ (i : RuntimeIdentity). i.1) is)),
)

-- The state that the manager is told: the foreground first, then a pending freeze, then a freeze.
abbrev pub told_state : Bool → Bool → Bool → ℤ
told_state is_foreground is_pending is_frozen =
    if is_foreground
    then pos 1
    else if is_pending
    then pos 2
    else if is_frozen
    then pos 3
    else pos 0

-- A record tells the truth of its uid, and its counts fit `i32`.
abbrev pub IsTrue : RuntimeControlState → List ℕ → ManagerFreezeStatusRecord → Type 0
IsTrue s foreground_uids r =
    (r.state
      ≡ told_state (any (λ u. u == r.uid) foreground_uids) (has_uid r.uid (keys s.pending_freezes))
          (has_uid r.uid (keys s.frozen_apps)))
    × (r.foreground ≡ any (λ u. u == r.uid) foreground_uids)
    × (r.seconds ≤ i32_max)
    × (r.process_count ≤ i32_max)

sight-state :
    (s : RuntimeControlState) (fg : List ℕ) (uid : ℕ)
    → status_state (sight_of s fg uid)
      ≡ told_state
          (any (λ u. u == uid) fg)
          (has_uid uid (keys s.pending_freezes))
          (has_uid uid (keys s.frozen_apps))
unfolding status_state sight_of frozen_uids
sight-state s fg uid =
    ground (arith, pending-lookup s.pending_freezes uid, to_set-contains (keys s.frozen_apps) uid)

record-IsTrue :
    (s : RuntimeControlState) (fg : List ℕ) (uid since processes t : ℕ)
    → IsTrue s fg (status_record uid (sight_of s fg uid) since processes t)
unfolding status_record sight_of
record-IsTrue s fg uid since processes t =
    let seen = sight_of s fg uid in (sight-state s fg uid, refl, ground arith, ground arith)

pub each-IsTrue :
    (s : RuntimeControlState) (fg : List ℕ) (processes_by_uid : Map ℕ (List RuntimeProcess)) (t : ℕ)
    (cs : List ManagerAppConfigRecord) (status : Map ℕ (ℤ × ℕ))
    → All (IsTrue s fg) (status_each (sight_of s fg) processes_by_uid t cs status).0
unfolding status_each
each-IsTrue s fg processes_by_uid t [] status = tt
each-IsTrue s fg processes_by_uid t (c ∷ cs) status =
    let seen = sight_of s fg c.uid in
    let processes = unwrap_or (lookup c.uid processes_by_uid) [] in
    let since = since_of status c.uid (status_state seen) t in
    elim (Bool-cases (not (is_control_policy_mode c.mode) || unseen seen (is_empty processes))) [
      | inl e ↦ rw e (each-IsTrue s fg processes_by_uid t cs status)
      | inr e ↦ rw e (
        record-IsTrue s fg c.uid since (length processes) t,
        each-IsTrue s fg processes_by_uid t cs (next_status status c.uid seen t),
      )
    ]
