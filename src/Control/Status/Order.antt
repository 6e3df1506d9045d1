-- ===== src/Control/Status/Order.antt =====
-- The order of the reported records.
use freezeit_cos.Base.{
  ℕ, List, [], ◌∷◌, Bool, true, false, ◌&&◌, ◌||◌, ◌==◌, ltb, leb, ◌≡◌, arith, All, Map, Bool-cases,
  inl, inr,
}
use freezeit_cos.Domain.Process.{RuntimeProcess}
use freezeit_cos.Control.State.{RuntimeControlState}
use freezeit_cos.Control.Settings.{ManagerAppConfigRecord}
use freezeit_cos.Control.Status.{
  ManagerFreezeStatusRecord, not_after, rank, insert_record, sort_records, freeze_status_records,
  status_each, sight_of,
}
use freezeit_cos.Control.Status.Reports.{IsTrue, each-IsTrue}

-- The lexicographic order of two numbers.
abbrev lex : ℕ → ℕ → ℕ → ℕ → Bool
lex x u y v = ltb x y || (x == y && leb u v)

lex_trans : (x u y v z w : ℕ) → lex x u y v ≡ true → lex y v z w ≡ true → lex x u z w ≡ true
lex_trans x u y v z w h k = ground arith

lex_total : (x u y v : ℕ) → lex x u y v ≡ false → lex y v x u ≡ true
lex_total x u y v h = ground arith

abbrev Before : ManagerFreezeStatusRecord → ManagerFreezeStatusRecord → Type 0
Before r q = not_after r q ≡ true

Before-trans : (a b c : ManagerFreezeStatusRecord) → Before a b → Before b c → Before a c
Before-trans a b c h k =
    lex_trans (rank a.state) a.uid (rank b.state) b.uid (rank c.state) c.uid h k

-- Every record stands before all that follow it.
abbrev pub IsSorted : List ManagerFreezeStatusRecord → Type 0
IsSorted [] = Unit
IsSorted (r ∷ rs) = All (Before r) rs × IsSorted rs

All-Before :
    (a b : ManagerFreezeStatusRecord) (rs : List ManagerFreezeStatusRecord)
    → Before a b
    → All (Before b) rs
    → All (Before a) rs
All-Before a b [] h k = tt
All-Before a b (r ∷ rs) h (k, ks) = (Before-trans a b r h k, All-Before a b rs h ks)

All-insert :
    (P : ManagerFreezeStatusRecord → Type 0) (r : ManagerFreezeStatusRecord)
    (rs : List ManagerFreezeStatusRecord)
    → P r
    → All P rs
    → All P (insert_record r rs)
unfolding insert_record
All-insert P r [] p ps = (p, tt)
All-insert P r (q ∷ qs) p (pq, ps) = elim (Bool-cases (not_after r q)) [
  | inl e ↦ rw e (p, (pq, ps))
  | inr e ↦ rw e (pq, All-insert P r qs p ps)
]

insert-IsSorted :
    (r : ManagerFreezeStatusRecord) (rs : List ManagerFreezeStatusRecord)
    → IsSorted rs
    → IsSorted (insert_record r rs)
unfolding insert_record
insert-IsSorted r [] h = (tt, tt)
insert-IsSorted r (q ∷ qs) (before, sorted) = elim (Bool-cases (not_after r q)) [
  | inl e ↦ rw e ((e, All-Before r q qs e before), (before, sorted))
  | inr e ↦ rw e (
    All-insert (Before q) r qs (lex_total (rank r.state) r.uid (rank q.state) q.uid e) before,
    insert-IsSorted r qs sorted,
  )
]

sort-IsSorted : (rs : List ManagerFreezeStatusRecord) → IsSorted (sort_records rs)
unfolding sort_records
sort-IsSorted [] = tt
sort-IsSorted (r ∷ rs) = insert-IsSorted r (sort_records rs) (sort-IsSorted rs)

All-sort :
    (P : ManagerFreezeStatusRecord → Type 0) (rs : List ManagerFreezeStatusRecord)
    → All P rs
    → All P (sort_records rs)
unfolding sort_records
All-sort P [] h = tt
All-sort P (r ∷ rs) (p, ps) = All-insert P r (sort_records rs) p (All-sort P rs ps)

-- Every record that the manager is told has the state that the daemon's own bookkeeping gives
-- its uid, the foreground before a pending freeze before a freeze, and counts that fit `i32`; and
-- the records are in the order of the state's rank, those of one rank by uid.
pub status_told :
    (s : RuntimeControlState) (cs : List ManagerAppConfigRecord)
    (processes_by_uid : Map ℕ (List RuntimeProcess)) (fg : List ℕ) (t : ℕ)
    → All (IsTrue s fg) (freeze_status_records s cs processes_by_uid fg t).0
      × IsSorted (freeze_status_records s cs processes_by_uid fg t).0
unfolding freeze_status_records
status_told s cs processes_by_uid fg t =
    let records = (status_each (sight_of s fg) processes_by_uid t cs s.status_since_ms).0 in
    (
      All-sort (IsTrue s fg) records (each-IsTrue s fg processes_by_uid t cs s.status_since_ms),
      sort-IsSorted records,
    )
