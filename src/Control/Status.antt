-- ===== src/Control/Status.antt =====
-- What the manager is told of each application: `freeze_status_records` of
-- freezeitDaemon/src/app/controller.rs.
pub mod Reports
pub mod Order
use freezeit_cos.Base.{
  ℕ, ◌+◌, ◌-◌, ◌/◌, ℤ, pos, min, List, [], ◌∷◌, map, Option, none, some, Bool, true, false, not,
  ◌&&◌, ◌||◌, any, is_empty, is_none, is_pos, length, ltb, leb, ◌==◌, unwrap_or, i32_max, Map, Set,
  lookup, insert, retain, keys, contains, nat_key, if◌then◌else◌,
}
use freezeit_cos.Domain.Process.{RuntimeProcess}
use freezeit_cos.Control.State.{RuntimeControlState, RuntimeIdentity, to_set}
use freezeit_cos.Control.Settings.{ManagerAppConfigRecord, is_control_policy_mode}

-- freezeitDaemon/src/protocol/manager_v1.rs
pub record ManagerFreezeStatusRecord : Type 0 where
  pub uid : ℕ
  pub foreground : Bool
  pub state : ℤ
  pub seconds : ℕ
  pub process_count : ℕ

-- The earliest due time of each uid.
unfoldable pub pending_by_uid : Map RuntimeIdentity ℕ → Map ℕ ℕ → Map ℕ ℕ
pending_by_uid [] pending = pending
pending_by_uid ((i, due) ∷ rest) pending =
    pending_by_uid rest (insert i.1 (min (unwrap_or (lookup i.1 pending) due) due) pending)

unfoldable pub frozen_uids : RuntimeControlState → Set ℕ
unfolding to_set
frozen_uids s = to_set (map (λ (i : RuntimeIdentity). i.1) (keys s.frozen_apps))

-- What the loop knows of one uid.
pub record Sight : Type 0 where
  pub is_foreground : Bool
  pub pending_due : Option ℕ
  pub is_frozen : Bool

unfoldable pub status_state : Sight → ℤ
status_state v =
    if v.is_foreground
    then pos 1
    else elim v.pending_due [ some due ↦ pos 2 | none ↦ if v.is_frozen then pos 3 else pos 0 ]

abbrev same_state : ℤ → ℤ → Bool
same_state (pos n) s = is_pos s n
same_state _ s = false

-- Since when the uid is in this state.
unfoldable pub since_of : Map ℕ (ℤ × ℕ) → ℕ → ℤ → ℕ → ℕ
since_of status uid state timestamp_ms = elim (lookup uid status) [
  | none ↦ timestamp_ms
  | some entry ↦ if same_state entry.0 state then entry.1 else timestamp_ms
]

-- `div_ceil`
abbrev div_ceil : ℕ → ℕ → ℕ
div_ceil n d = (n + (d - 1)) / d

unfoldable pub status_record : ℕ → Sight → ℕ → ℕ → ℕ → ManagerFreezeStatusRecord
unfolding status_state
status_record uid v since processes timestamp_ms = record {
  uid = uid;
  foreground = v.is_foreground;
  state = status_state v;
  seconds = elim v.pending_due [
    | some due ↦ min (div_ceil (due - timestamp_ms) 1_000) i32_max
    | none ↦ min ((timestamp_ms - since) / 1_000) i32_max
  ];
  process_count = min processes i32_max;
}

abbrev pub unseen : Sight → Bool → Bool
unseen v no_processes =
    no_processes && (not v.is_foreground && (is_none v.pending_due && not v.is_frozen))

-- The times kept: those of an application with a pending freeze stay as they are.
unfoldable pub next_status : Map ℕ (ℤ × ℕ) → ℕ → Sight → ℕ → Map ℕ (ℤ × ℕ)
next_status status uid v timestamp_ms = elim v.pending_due [
  | some due ↦ status
  | none ↦ insert uid (status_state v, since_of status uid (status_state v) timestamp_ms) status
]

module _ (sight : ℕ → Sight) (processes_by_uid : Map ℕ (List RuntimeProcess))
    (timestamp_ms : ℕ) where
  -- The loop: records, visible uids, the times.
  unfoldable pub status_each :
      List ManagerAppConfigRecord
      → Map ℕ (ℤ × ℕ)
      → List ManagerFreezeStatusRecord × List ℕ × Map ℕ (ℤ × ℕ)
  status_each [] status = ([], [], status)
  status_each (c ∷ cs) status =
      let processes = unwrap_or (lookup c.uid processes_by_uid) [] in
      let v = sight c.uid in
      let skipped = status_each cs status in
      let (records, uids, last) = status_each cs (next_status status c.uid v timestamp_ms) in
      if not (is_control_policy_mode c.mode) || unseen v (is_empty processes) then skipped else (
        status_record c.uid v (since_of status c.uid (status_state v) timestamp_ms)
              (length processes) timestamp_ms
            ∷ records,
        c.uid ∷ uids,
        last,
      )

abbrev rank : ℤ → ℕ
rank state =
    if is_pos state 1
    then 0
    else if is_pos state 2
    then 1
    else if is_pos state 0
    then 2
    else if is_pos state 3
    then 3
    else 4

-- The order of the keys `(rank, uid)`.
abbrev pub not_after : ManagerFreezeStatusRecord → ManagerFreezeStatusRecord → Bool
not_after a b =
    ltb (rank a.state) (rank b.state) || (rank a.state == rank b.state && leb a.uid b.uid)

unfoldable pub insert_record :
    ManagerFreezeStatusRecord → List ManagerFreezeStatusRecord → List ManagerFreezeStatusRecord
insert_record r [] = r ∷ []
insert_record r (q ∷ qs) =
    let rest = insert_record r qs in if not_after r q then r ∷ q ∷ qs else q ∷ rest

-- `sort_by_key`, which is stable
unfoldable pub sort_records : List ManagerFreezeStatusRecord → List ManagerFreezeStatusRecord
sort_records [] = []
sort_records (r ∷ rs) = insert_record r (sort_records rs)

unfoldable pub sight_of : RuntimeControlState → List ℕ → ℕ → Sight
sight_of s foreground_uids uid = record {
  is_foreground = any (λ u. u == uid) foreground_uids;
  pending_due = lookup uid (pending_by_uid s.pending_freezes []);
  is_frozen = contains uid (frozen_uids s);
}

unfoldable pub freeze_status_records :
    RuntimeControlState
    → List ManagerAppConfigRecord
    → Map ℕ (List RuntimeProcess)
    → List ℕ
    → ℕ
    → List ManagerFreezeStatusRecord × RuntimeControlState
freeze_status_records s app_config processes_by_uid foreground_uids timestamp_ms =
    let (records, visible_uids, status) =
      status_each (sight_of s foreground_uids) processes_by_uid timestamp_ms app_config
        s.status_since_ms in
    (
      sort_records records,
      record s { status_since_ms = retain (λ uid. contains uid (to_set visible_uids)) status },
    )
