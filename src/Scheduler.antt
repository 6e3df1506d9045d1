-- ===== src/Scheduler.antt =====
-- The queue of pending freezes: freezeitDaemon/src/app/scheduler.rs. The mutex is not modelled:
-- each operation runs to its end under it.
pub mod Claims
use freezeit_cos.Base.{
  ℕ, Text, List, [], ◌∷◌, Option, none, some, Bool, leb, Map, lookup, insert, remove, list_key,
  nat_key, pair_key, if◌then◌else◌, add_u128,
}

pub record PendingFreeze : Type 0 where
  pub package_name : Text
  pub uid : ℕ
  pub due_at_ms : ℕ

abbrev pub FreezeScheduler : Type 0
FreezeScheduler = Map (Text × ℕ) PendingFreeze

unfoldable pub schedule_background : FreezeScheduler → Text → ℕ → ℕ → ℕ → FreezeScheduler
schedule_background pending name uid now_ms delay_ms =
    insert (name, uid)
      (record { package_name = name; uid = uid; due_at_ms = add_u128 now_ms delay_ms }) pending

unfoldable pub cancel_foreground :
    FreezeScheduler → Text → ℕ → Option PendingFreeze × FreezeScheduler
cancel_foreground pending name uid = (lookup (name, uid) pending, remove (name, uid) pending)

unfoldable pub due_keys : ℕ → FreezeScheduler → List (Text × ℕ)
due_keys now_ms [] = []
due_keys now_ms ((i, p) ∷ pending) =
    let rest = due_keys now_ms pending in if leb p.due_at_ms now_ms then i ∷ rest else rest

-- The jobs of the keys, each removed as it is found.
unfoldable pub claim : List (Text × ℕ) → FreezeScheduler → List PendingFreeze × FreezeScheduler
claim [] pending = ([], pending)
claim (i ∷ is) pending =
    let (jobs, rest) = claim is (remove i pending) in
    (elim (lookup i pending) [ none ↦ jobs | some p ↦ p ∷ jobs ], rest)

unfoldable pub due_at : ℕ → FreezeScheduler → List PendingFreeze × FreezeScheduler
due_at now_ms pending = claim (due_keys now_ms pending) pending
