-- ===== src/Scheduler/Claims.antt =====
-- Which jobs are claimed, and which stay: `due_at` of freezeitDaemon/src/app/scheduler.rs.
use freezeit_cos.Base.{
  ℕ, Text, List, [], ◌∷◌, map, Bool, true, not, ◌&&◌, ◌≡◌, refl, arith, keep, leb, lookup, remove,
  retain, beq, beq_iff, beq_self, list_key, nat_key, pair_key,
}
use freezeit_cos.Base.Maps.Sorted.{is_sorted, all_above}
use freezeit_cos.Scheduler.{PendingFreeze, FreezeScheduler, due_keys, claim, due_at}

abbrev pub is_due : ℕ → (Text × ℕ) × PendingFreeze → Bool
is_due now_ms entry = leb entry.1.due_at_ms now_ms

-- The jobs that are due, in the order of their keys, and the queue of the others.
abbrev pub due_and_rest : ℕ → FreezeScheduler → List PendingFreeze × FreezeScheduler
due_and_rest now_ms pending = (
  map (λ (entry : (Text × ℕ) × PendingFreeze). entry.1) (keep (is_due now_ms) pending),
  keep (λ entry. not (is_due now_ms entry)) pending,
)

-- No key of the map is `i`.
abbrev lacks : Text × ℕ → FreezeScheduler → Bool
lacks i [] = true
lacks i ((j, p) ∷ pending) = not (beq i j) && lacks i pending

above-lacks :
    (i : Text × ℕ) (pending : FreezeScheduler) → all_above i pending ≡ true → lacks i pending ≡ true
above-lacks i [] h = refl
above-lacks i ((j, p) ∷ pending) h = ground (arith, above-lacks i pending)

remove-lacks :
    (i : Text × ℕ) (pending : FreezeScheduler) → lacks i pending ≡ true → remove i pending ≡ pending
unfolding remove retain
remove-lacks i [] h = refl
remove-lacks i ((j, p) ∷ pending) h =
    ground (arith, remove-lacks i pending, beq_iff i j, beq_iff j i)

abbrev without : Text × ℕ → List (Text × ℕ) → Bool
without i [] = true
without i (j ∷ is) = not (beq i j) && without i is

due_keys-without :
    (now_ms : ℕ) (i : Text × ℕ) (pending : FreezeScheduler)
    → lacks i pending ≡ true
    → without i (due_keys now_ms pending) ≡ true
unfolding due_keys
due_keys-without now_ms i [] h = refl
due_keys-without now_ms i ((j, p) ∷ pending) h = ground (arith, due_keys-without now_ms i pending)

-- A job whose key is not claimed stays at its place.
claim-without :
    (is : List (Text × ℕ)) (i : Text × ℕ) (p : PendingFreeze) (pending : FreezeScheduler)
    → without i is ≡ true
    → claim is ((i, p) ∷ pending) ≡ ((claim is pending).0, (i, p) ∷ (claim is pending).1)
unfolding claim lookup remove retain
claim-without [] i p pending h = refl
claim-without (j ∷ is) i p pending h =
    ground (arith, claim-without is i p (remove j pending), beq_iff i j)

claim_first :
    (is : List (Text × ℕ)) (i : Text × ℕ) (p : PendingFreeze) (pending : FreezeScheduler)
    → lacks i pending ≡ true
    → claim (i ∷ is) ((i, p) ∷ pending) ≡ (p ∷ (claim is pending).0, (claim is pending).1)
unfolding claim lookup remove retain
claim_first is i p pending h = ground (arith, beq_self i, remove-lacks i pending)

-- Claiming the due jobs of a queue, whose keys are in their order, returns exactly the jobs that
-- are due, each once and in the order of the keys, and leaves exactly the others.
pub due_at_lem :
    (now_ms : ℕ) (pending : FreezeScheduler)
    → is_sorted pending ≡ true
    → due_at now_ms pending ≡ due_and_rest now_ms pending
unfolding due_at due_keys
due_at_lem now_ms [] h = unfold claim in refl
due_at_lem now_ms ((i, p) ∷ pending) h = ground (
  arith,
  above-lacks i pending,
  due_at_lem now_ms pending,
  claim_first (due_keys now_ms pending) i p pending,
  claim-without (due_keys now_ms pending) i p pending,
  due_keys-without now_ms i pending,
)
