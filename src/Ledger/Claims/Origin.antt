-- ===== src/Ledger/Claims/Origin.antt =====
-- The origin of a claim of the ledger, over runs of calls.
use freezeit_cos.Base.{
  lookup, insert, remove, pair_key, int_key, nat_key, beq, is_some, List, [], ◌∷◌, all, Option,
  none, some, Bool, true, false, ◌&&◌, if◌then◌else◌, ◌≡◌, ◌⊎◌, refl, ap, sym, ◌∙◌, arith, inl, inr,
  Bool-cases,
}
use freezeit_cos.Domain.Error.{Result, ok, err, DaemonError}
use freezeit_cos.Control.World.{SignalStopOwnership}
use freezeit_cos.Ledger.{
  SignalStopIdentity, MainLedger, SignalStopLedgerGeneration, SignalStopProvenanceRecord, canonical,
  is_canonical, retain_current_generation, retain_canonical_main_provenance,
}
use freezeit_cos.Ledger.Files.{FileSystem, LedgerFile, IsFileSystem, write_signal_stop_ledger_file}
use freezeit_cos.Ledger.Files.Writes.{Result-cases, write_other, write_err}
use freezeit_cos.Ledger.Encoding.{provenance_lines}
use freezeit_cos.Ledger.Encoding.RoundTrip.{in_range}
use freezeit_cos.Ledger.Operations.{
  recorded_signal_stop_ownership, main_ledger, generation, provenance, record_in,
  record_freezeit_signal_stop, take_from, take_freezeit_signal_stop, then_return, forbids,
  write_promoted, promote_canonical, promote_in, promote_freezeit_signal_stop, kept_provenance,
  rewrite_main_ledger_with_rebound_provenance,
}
use freezeit_cos.Ledger.Operations.Outcome.{
  rewrite_err, recorded-Unchanged, main_not_sidecar, main_not_temporary, sidecar_not_temporary,
}
use freezeit_cos.Ledger.Refinement.{record_freezeit_signal_stop_lem, take_freezeit_signal_stop_lem}
use freezeit_cos.Ledger.Claims.{
  LedgerCall, record_call, promote_call, take_call, step, promotes, answered_true, run, promotes_in,
  call_in_range, promote_freezeit_signal_stop_lem, promote_declined,
}

module _ {W : Type 0} (fs : FileSystem W) (laws : IsFileSystem fs) where
  abbrev pub IsSignalOnly : SignalStopIdentity → W → Type 0
  IsSignalOnly k w =
      recorded_signal_stop_ownership fs k w ≡ ok (some SignalStopOwnership.signal_only)

  record_in_err :
      (i k : SignalStopIdentity) (r : Result MainLedger) (w : W) (e : DaemonError)
      → (record_in fs i r w).0 ≡ err e
      → IsSignalOnly k (record_in fs i r w).1
      → IsSignalOnly k w
  unfolding record_in
  record_in_err i k (err d) w e h s = s
  record_in_err i k (ok m) w e h s =
      rewrite_err fs laws (insert i canonical m) (kept_provenance fs i (insert i canonical m) w) w k
        e h s

  then_return_err :
      (a : Bool) (p : Result (Unit {0}) × W) (e : DaemonError)
      → (then_return fs a p).0 ≡ err e
      → (p.0 ≡ err e) × ((then_return fs a p).1 ≡ p.1)
  then_return_err a (ok u, w) e h = ground arith
  then_return_err a (err d, w) e h = ground arith

  take_from_err :
      (i k : SignalStopIdentity) (r : Result MainLedger) (w : W) (e : DaemonError)
      → (take_from fs i r w).0 ≡ err e
      → IsSignalOnly k (take_from fs i r w).1
      → IsSignalOnly k w
  unfolding take_from
  take_from_err i k (err d) w e h s = s
  take_from_err i k (ok m) w e h s =
      let p =
        rewrite_main_ledger_with_rebound_provenance fs (remove i m)
          (kept_provenance fs i (remove i m) w) w in
      let t = then_return_err (is_some (lookup i m)) p e h in
      rewrite_err fs laws (remove i m) (kept_provenance fs i (remove i m) w) w k e t.0
        (sym (ap (recorded_signal_stop_ownership fs k) t.1) ∙ s)

  write_promoted_err :
      (i k : SignalStopIdentity) (m : MainLedger) (g : SignalStopLedgerGeneration) (w : W)
      (e : DaemonError)
      → (write_promoted fs i m g w).0 ≡ err e
      → recorded_signal_stop_ownership fs k (write_promoted fs i m g w).1
        ≡ recorded_signal_stop_ownership fs k w
  unfolding write_promoted
  write_promoted_err i k m g w e h =
      let claims =
        insert i (SignalStopProvenanceRecord.signal_only g)
          (retain_canonical_main_provenance m
            (retain_current_generation (some g) (provenance fs w))).records in
      let ls = provenance_lines claims in
      let p = write_signal_stop_ledger_file fs LedgerFile.sidecar ls w in
      let t = then_return_err true p e h in
      ap (recorded_signal_stop_ownership fs k) t.1
      ∙ recorded-Unchanged fs laws k p.1 w
          (write_other fs laws LedgerFile.sidecar LedgerFile.main ls w main_not_sidecar
            (main_not_temporary LedgerFile.sidecar))
          (write_err fs laws LedgerFile.sidecar ls w e (sidecar_not_temporary LedgerFile.sidecar)
            t.0)

  passed_if :
      (k : SignalStopIdentity) (w : W) (e : DaemonError) (t : Bool) (x : Result Bool × W)
      → (x.0 ≡ err e
          → recorded_signal_stop_ownership fs k x.1 ≡ recorded_signal_stop_ownership fs k w)
      → (if t then x else (ok false, w)).0 ≡ err e
      → recorded_signal_stop_ownership fs k (if t then x else (ok false, w)).1
        ≡ recorded_signal_stop_ownership fs k w
  passed_if k w e true x f h = f h
  passed_if k w e false x f h = refl

  passed_unless :
      (k : SignalStopIdentity) (w : W) (e : DaemonError) (t : Bool) (x : Result Bool × W)
      → (x.0 ≡ err e
          → recorded_signal_stop_ownership fs k x.1 ≡ recorded_signal_stop_ownership fs k w)
      → (if t then (ok false, w) else x).0 ≡ err e
      → recorded_signal_stop_ownership fs k (if t then (ok false, w) else x).1
        ≡ recorded_signal_stop_ownership fs k w
  passed_unless k w e true x f h = refl
  passed_unless k w e false x f h = f h

  promote_canonical_err :
      (i k : SignalStopIdentity) (m : MainLedger) (o : Option SignalStopLedgerGeneration) (w : W)
      (e : DaemonError)
      → (promote_canonical fs i m o w).0 ≡ err e
      → recorded_signal_stop_ownership fs k (promote_canonical fs i m o w).1
        ≡ recorded_signal_stop_ownership fs k w
  unfolding promote_canonical
  promote_canonical_err i k m none w e h = refl
  promote_canonical_err i k m (some g) w e h =
      let f = forbids fs g (lookup i (provenance fs w).records) in
      passed_unless k w e (provenance fs w).globally_untrusted
        (if f then (ok false, w) else write_promoted fs i m g w)
        (passed_unless k w e f (write_promoted fs i m g w) (write_promoted_err i k m g w e)) h

  promote_in_err :
      (i k : SignalStopIdentity) (r : Result MainLedger) (w : W) (e : DaemonError)
      → (promote_in fs i r w).0 ≡ err e
      → recorded_signal_stop_ownership fs k (promote_in fs i r w).1
        ≡ recorded_signal_stop_ownership fs k w
  unfolding promote_in
  promote_in_err i k (err d) w e h = refl
  promote_in_err i k (ok m) w e h =
      passed_if k w e (is_canonical (lookup i m)) (promote_canonical fs i m (generation fs w) w)
        (promote_canonical_err i k m (generation fs w) w e) h

  failed_record :
      (i k : SignalStopIdentity) (w : W) (e : DaemonError)
      → (record_freezeit_signal_stop fs i w).0 ≡ err e
      → IsSignalOnly k (record_freezeit_signal_stop fs i w).1
      → IsSignalOnly k w
  unfolding record_freezeit_signal_stop
  failed_record i k w e = record_in_err i k (main_ledger fs w) w e

  failed_take :
      (i k : SignalStopIdentity) (w : W) (e : DaemonError)
      → (take_freezeit_signal_stop fs i w).0 ≡ err e
      → IsSignalOnly k (take_freezeit_signal_stop fs i w).1
      → IsSignalOnly k w
  unfolding take_freezeit_signal_stop
  failed_take i k w e = take_from_err i k (main_ledger fs w) w e

  failed_promote :
      (i k : SignalStopIdentity) (w : W) (e : DaemonError)
      → (promote_freezeit_signal_stop fs i w).0 ≡ err e
      → recorded_signal_stop_ownership fs k (promote_freezeit_signal_stop fs i w).1
        ≡ recorded_signal_stop_ownership fs k w
  unfolding promote_freezeit_signal_stop
  failed_promote i k w e = promote_in_err i k (main_ledger fs w) w e

  after_record :
      (i k : SignalStopIdentity) (w : W)
      → in_range i ≡ true
      → IsSignalOnly k (record_freezeit_signal_stop fs i w).1
      → IsSignalOnly k w
  after_record i k w n s = elim (Result-cases (record_freezeit_signal_stop fs i w).0) [
    | inl (u, h) ↦ ground (arith, record_freezeit_signal_stop_lem fs laws i k w n h, s)
    | inr (e, h) ↦ failed_record i k w e h s
  ]

  after_take :
      (i k : SignalStopIdentity) (w : W)
      → IsSignalOnly k (take_freezeit_signal_stop fs i w).1
      → IsSignalOnly k w
  after_take i k w s = elim (Result-cases (take_freezeit_signal_stop fs i w).0) [
    | inl (b, h) ↦ ground (arith, (take_freezeit_signal_stop_lem fs laws i k w b h).0, s)
    | inr (e, h) ↦ failed_take i k w e h s
  ]

  after_promote_ok :
      (i k : SignalStopIdentity) (w : W) (b : Bool)
      → in_range i ≡ true
      → (beq i k && b) ≡ false
      → (promote_freezeit_signal_stop fs i w).0 ≡ ok b
      → IsSignalOnly k (promote_freezeit_signal_stop fs i w).1
      → IsSignalOnly k w
  after_promote_ok i k w true n p h s =
      ground (arith, (promote_freezeit_signal_stop_lem fs laws i k w n h).0, s)
  after_promote_ok i k w false n p h s =
      sym (ap (recorded_signal_stop_ownership fs k) (promote_declined fs laws i w n h)) ∙ s

  after_promote :
      (i k : SignalStopIdentity) (w : W)
      → in_range i ≡ true
      → promotes fs k (promote_call i) w ≡ false
      → IsSignalOnly k (promote_freezeit_signal_stop fs i w).1
      → IsSignalOnly k w
  unfolding promotes
  after_promote i k w n p s = elim (Result-cases (promote_freezeit_signal_stop fs i w).0) [
    | inl (b, h) ↦
        after_promote_ok i k w b n (ap (λ r. beq i k && answered_true fs r) (sym h) ∙ p) h s
    | inr (e, h) ↦ sym (failed_promote i k w e h) ∙ s
  ]

  step_origin :
      (k : SignalStopIdentity) (c : LedgerCall) (w : W)
      → call_in_range c ≡ true
      → promotes fs k c w ≡ false
      → IsSignalOnly k (step fs c w)
      → IsSignalOnly k w
  unfolding step
  step_origin k (record_call i) w n p s = after_record i k w n s
  step_origin k (promote_call i) w n p s = after_promote i k w n p s
  step_origin k (take_call i) w n p s = after_take i k w s

  -- In every run of calls, failed ones included, a process counts as stopped by signal only if it
  -- did before the run or a promotion of it in the run has succeeded.
  pub IsSignalOnly-origin :
      (k : SignalStopIdentity) (calls : List LedgerCall) (w : W)
      → all call_in_range calls ≡ true
      → IsSignalOnly k (run fs calls w)
      → IsSignalOnly k w ⊎ (promotes_in fs k calls w ≡ true)
  unfolding run promotes_in
  IsSignalOnly-origin k [] w n s = inl s
  IsSignalOnly-origin k (c ∷ cs) w n s = elim (Bool-cases (promotes fs k c w)) [
    | inl p ↦ inr (ground arith)
    | inr p ↦ elim (IsSignalOnly-origin k cs (step fs c w) (ground arith) s) [
      | inl t ↦ inl (step_origin k c w (ground arith) p t)
      | inr q ↦ inr (ground arith)
    ]
  ]
