-- ===== src/ManagerLog/Bounded.antt =====
-- The capacity and the bytes of the manager's log, over runs of calls.
use freezeit_cos.Base.{
  ℕ, ◌+◌, ◌-◌, ◌≤◌, ◌<◌, ℤ, Text, List, [], ◌∷◌, ◌++◌, some, Bool, true, false, length,
  length-append, ltb, if◌then◌else◌, is_empty, ◌≡◌, refl, arith, Bool-cases, inl, inr,
}
use freezeit_cos.ManagerLog.{
  LogRecord, ManagerLog, max_retained_log_bytes, is_refused, retained_record_bytes, evict, store,
  push_log, push_once, clear_log, new_log, bump_content_version, is_repeated,
}

module _ (text_capacity : Text → ℕ) (pids_capacity : List ℤ → ℕ) where
  abbrev bytes_of : LogRecord → ℕ
  bytes_of r = retained_record_bytes text_capacity pids_capacity r

  abbrev pub sum_bytes : List LogRecord → ℕ
  sum_bytes [] = 0
  sum_bytes (r ∷ records) = bytes_of r + sum_bytes records

  sum_bytes-append :
      (xs : List LogRecord) (r : LogRecord) → sum_bytes (xs ++ r ∷ []) ≡ sum_bytes xs + bytes_of r
  sum_bytes-append [] r = omega arith
  sum_bytes-append (x ∷ xs) r = omega (arith, sum_bytes-append xs r)

  -- The number of records is within the capacity, the bytes are those of the records, and within
  -- the limit.
  abbrev pub IsBounded : ManagerLog → Type 0
  IsBounded log =
      (length log.records ≤ log.capacity)
      × (log.retained_bytes ≡ sum_bytes log.records)
      × (log.retained_bytes ≤ max_retained_log_bytes)

  evict-fits :
      (capacity bytes : ℕ) (records : List LogRecord) (retained : ℕ)
      → 1 ≤ capacity
      → bytes ≤ max_retained_log_bytes
      → retained ≡ sum_bytes records
      → (let kept = evict text_capacity pids_capacity capacity bytes records retained in
          (length kept.0 < capacity)
          × (kept.1 ≡ sum_bytes kept.0)
          × (kept.1 + bytes ≤ max_retained_log_bytes))
  unfolding evict
  evict-fits capacity bytes [] retained c b e = ground arith
  evict-fits capacity bytes (r ∷ records) retained c b e =
      ground (arith, evict-fits capacity bytes records (retained - bytes_of r) c b)

  store-IsBounded :
      (log : ManagerLog) (r : LogRecord)
      → 1 ≤ log.capacity
      → IsBounded log
      → IsBounded (store text_capacity pids_capacity log r)
  unfolding store bump_content_version
  store-IsBounded log r c h =
      let bytes = bytes_of r in
      let kept =
        evict text_capacity pids_capacity log.capacity bytes log.records log.retained_bytes in
      elim (Bool-cases (ltb max_retained_log_bytes bytes)) [
        | inl e ↦ rw e h
        | inr e ↦ rw e (
            let f =
              evict-fits log.capacity bytes log.records log.retained_bytes c (ground arith) h.1 in
            ground (arith, f.0, f.1, f.2, length-append kept.0 (r ∷ []), sum_bytes-append kept.0 r))
      ]

  abbrev Kept : ManagerLog → Type 0
  Kept log = (1 ≤ log.capacity) × IsBounded log

  store-capacity :
      (log : ManagerLog) (r : LogRecord)
      → (store text_capacity pids_capacity log r).capacity ≡ log.capacity
  unfolding store bump_content_version
  store-capacity log r = elim (Bool-cases (ltb max_retained_log_bytes (bytes_of r))) [
    | inl e ↦ rw e refl
    | inr e ↦ rw e refl
  ]

  push-Kept :
      (log : ManagerLog) (r : LogRecord)
      → Kept log
      → Kept (push_log text_capacity pids_capacity log r)
  unfolding push_log
  push-Kept log r h = elim (Bool-cases (is_refused log r.payload)) [
    | inl e ↦ rw e h
    | inr e ↦ rw e (ground (arith, store-capacity log r, h.0), store-IsBounded log r h.0 h.1)
  ]

  if_Kept : (b : Bool) (x y : ManagerLog) → Kept x → Kept y → Kept (if b then x else y)
  if_Kept true x y p q = p
  if_Kept false x y p q = q

  push_once-Kept :
      (log : ManagerLog) (r : LogRecord)
      → Kept log
      → Kept (push_once text_capacity pids_capacity log r)
  unfolding push_once
  push_once-Kept log r h =
      if_Kept (is_repeated log r) log (push_log text_capacity pids_capacity log r) h
        (push-Kept log r h)

  clear-Kept : (now_ms : ℕ) (log : ManagerLog) → Kept log → Kept (clear_log now_ms log)
  unfolding clear_log bump_content_version
  clear-Kept now_ms log h =
      let cleared = record log {
        operation_timestamp_cutoff_ms = some now_ms;
        records = [];
        retained_bytes = 0;
      } in
      if_Kept (is_empty log.records) cleared (bump_content_version cleared) (ground (arith, h.0))
        (ground (arith, h.0))

-- One call on the log.
pub data LogCall : Type 0 where
  push_call push_once_call : LogRecord → LogCall
  clear_call : ℕ → LogCall

module _ (text_capacity : Text → ℕ) (pids_capacity : List ℤ → ℕ) where
  abbrev pub run_log : List LogCall → ManagerLog → ManagerLog
  run_log [] log = log
  run_log (push_call r ∷ calls) log = run_log calls (push_log text_capacity pids_capacity log r)
  run_log (push_once_call r ∷ calls) log =
      run_log calls (push_once text_capacity pids_capacity log r)
  run_log (clear_call now_ms ∷ calls) log = run_log calls (clear_log now_ms log)

  run-Kept :
      (calls : List LogCall) (log : ManagerLog)
      → Kept text_capacity pids_capacity log
      → Kept text_capacity pids_capacity (run_log calls log)
  run-Kept [] log h = h
  run-Kept (push_call r ∷ calls) log h =
      run-Kept calls (push_log text_capacity pids_capacity log r)
        (push-Kept text_capacity pids_capacity log r h)
  run-Kept (push_once_call r ∷ calls) log h =
      run-Kept calls (push_once text_capacity pids_capacity log r)
        (push_once-Kept text_capacity pids_capacity log r h)
  run-Kept (clear_call now_ms ∷ calls) log h =
      run-Kept calls (clear_log now_ms log) (clear-Kept text_capacity pids_capacity now_ms log h)

  -- In every run from a new log the number of records is within the capacity, and the bytes that
  -- are counted are those of the records and within the limit.
  pub run-IsBounded :
      (capacity : ℕ) (calls : List LogCall)
      → IsBounded text_capacity pids_capacity (run_log calls (new_log capacity))
  unfolding new_log
  run-IsBounded capacity calls = (run-Kept calls (new_log capacity) (ground arith)).1
