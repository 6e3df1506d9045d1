-- ===== src/Log/History.antt =====
-- The log is the end of the history of what was pushed.
use freezeit_cos.Base.{
  ℕ, zero, suc, ◌-◌, ◌≤◌, max, List, [], ◌∷◌, ◌++◌, length, length-append, ◌==◌, ◌≡◌, ◌≢◌, refl,
  sym, ap, arith, ==_iff, Bool-cases, inl, inr, ◌∙◌,
}
use mathlib.Core.List.{append_assoc, append-nil}
use freezeit_cos.Domain.Operation.{ControlOperation}
use freezeit_cos.Log.{OperationLog, new, push, pop_front}

-- What is left of a list without its first `n` elements.
abbrev pub drop {ℓ} : {A : Type ℓ} → ℕ → List A → List A
drop zero xs = xs
drop (suc n) [] = []
drop (suc n) (x ∷ xs) = drop n xs

unfoldable pub push_all : OperationLog → List ControlOperation → OperationLog
push_all log [] = log
push_all log (o ∷ os) = push_all (push log o) os

pub record IsBounded (log : OperationLog) : Type 0 where
  pub positive : 1 ≤ log.capacity
  pub bounded : length log.records ≤ log.capacity

length-pop_front {ℓ} : {A : Type ℓ} (xs : List A) → length (pop_front xs) ≡ length xs - 1
length-pop_front [] = omega arith
length-pop_front (x ∷ xs) = omega arith

pub new-IsBounded : (c : ℕ) → IsBounded (new c)
unfolding new
new-IsBounded c = record { positive = omega arith; bounded = omega arith }

-- Pushing keeps the log within its capacity, and the newest record last.
pub push-IsBounded :
    (log : OperationLog) (o : ControlOperation) → IsBounded log → IsBounded (push log o)
unfolding push
push-IsBounded log o h = record {
  positive = h.positive;
  bounded = ground (
    arith,
    length-append (pop_front log.records) (o ∷ []),
    length-append log.records (o ∷ []),
    length-pop_front log.records,
  );
}

drop_nil : (n : ℕ) → drop {A = ControlOperation} n [] ≡ []
drop_nil zero = refl
drop_nil (suc n) = refl

drop-append {ℓ} :
    {A : Type ℓ} (n : ℕ) (xs ys : List A) → n ≤ length xs → drop n (xs ++ ys) ≡ drop n xs ++ ys
drop-append zero xs ys h = refl
drop-append (suc n) [] ys h = absurd (omega arith)
drop-append (suc n) (x ∷ xs) ys h = drop-append n xs ys (omega arith)

pop_front-drop {ℓ} : {A : Type ℓ} (n : ℕ) (xs : List A) → pop_front (drop n xs) ≡ drop (suc n) xs
pop_front-drop zero [] = refl
pop_front-drop zero (x ∷ xs) = refl
pop_front-drop (suc n) [] = refl
pop_front-drop (suc n) (x ∷ xs) = pop_front-drop n xs

length-drop {ℓ} : {A : Type ℓ} (n : ℕ) (xs : List A) → length (drop n xs) ≡ length xs - n
length-drop zero xs = omega arith
length-drop (suc n) [] = omega arith
length-drop (suc n) (x ∷ xs) = omega (arith, length-drop n xs)

-- The records are the last `capacity` of the history.
abbrev IsEnd : List ControlOperation → OperationLog → Type 0
IsEnd history log = log.records ≡ drop (length history - log.capacity) history

length_of_end :
    (history : List ControlOperation) (log : OperationLog)
    → IsEnd history log
    → length log.records ≡ length history - (length history - log.capacity)
length_of_end history log h = ap length h ∙ length-drop (length history - log.capacity) history

push-IsEnd :
    (history : List ControlOperation) (log : OperationLog) (o : ControlOperation)
    → 1 ≤ log.capacity
    → IsEnd history log
    → IsEnd (history ++ o ∷ []) (push log o)
unfolding push
push-IsEnd history log o pos h =
    let n = length history - log.capacity in
    let size = length_of_end history log h in
    let grown = length-append history (o ∷ []) in
    elim (Bool-cases (length log.records == log.capacity)) [
      | inl e ↦
          let full : length log.records ≡ log.capacity = (==_iff _ _).0 e in
          let next : length (history ++ o ∷ []) - log.capacity ≡ suc n = omega (arith, grown) in
          rw (
            e,
            next,
            ap (λ l. l ++ o ∷ []) (ap pop_front h ∙ pop_front-drop n history)
                ∙ sym (drop-append (suc n) history (o ∷ []) (omega arith)),
          )
      | inr e ↦
          let short : length log.records ≢ log.capacity = λ q. ground arith in
          let same : length (history ++ o ∷ []) - log.capacity ≡ n = omega (arith, grown) in
          rw (e, same, ap (λ l. l ++ o ∷ []) h ∙ sym (drop-append n history (o ∷ []) (omega arith)))
    ]

push_all-IsEnd :
    (os history : List ControlOperation) (log : OperationLog)
    → 1 ≤ log.capacity
    → IsEnd history log
    → (push_all log os).records ≡ drop (length (history ++ os) - log.capacity) (history ++ os)
unfolding push push_all
push_all-IsEnd [] history log pos h = rw (append-nil history, h)
push_all-IsEnd (o ∷ os) history log pos h =
    push_all-IsEnd os (history ++ o ∷ []) (push log o) pos (push-IsEnd history log o pos h)
    ∙ ap (λ l. drop (length l - log.capacity) l) (append_assoc history (o ∷ []) os)

-- A log that started empty holds, oldest first, the last records of what was pushed, as many as
-- its capacity, and its capacity is at least one.
pub log_is_tail :
    (c : ℕ) (os : List ControlOperation)
    → (push_all (new c) os).records ≡ drop (length os - max c 1) os
unfolding new
log_is_tail c os = push_all-IsEnd os [] (new c) (omega arith) (sym (drop_nil (0 - max c 1)))
