-- ===== src/Ledger/Operations/Outcome.antt =====
-- The whole rewriting of the two files: what it records when it succeeds, and what a failure on
-- the way leaves.
use freezeit_cos.Base.{
  lookup, pair_key, int_key, nat_key, is_empty, [], ◌∷◌, Option, none, some, Bool, true,
  if◌then◌else◌, ◌≡◌, ◌≢◌, refl, ap, sym, ◌∙◌, arith,
}
use freezeit_cos.Domain.Error.{Result, ok, err, DaemonError}
use freezeit_cos.Control.World.{SignalStopOwnership}
use freezeit_cos.Ledger.{
  SignalStopIdentity, SignalStopLedgerRecord, SignalStopLedgerGeneration,
  SignalStopProvenanceLedger, MainLedger, rebind_records, rebind_to_generation, is_signal_only,
}
use freezeit_cos.Ledger.Files.{
  FileSystem, LedgerFile, temporary, not_found, write_signal_stop_ledger_file, and_then,
  IsFileSystem, Unchanged,
}
use freezeit_cos.Ledger.Files.Writes.{and_then-ok, and_then-err, write_ok, write_other, write_err}
use freezeit_cos.Ledger.Encoding.{main_lines, provenance_lines, no_provenance}
use freezeit_cos.Ledger.Encoding.Bounds.{is_main, is_sidecar}
use freezeit_cos.Ledger.Provenance.{Claims}
use freezeit_cos.Ledger.Operations.{
  ownership_in, recorded_signal_stop_ownership, main_ledger, generation, ledger_ownership,
  found_ownership, rebind_and_write, write_signal_stop_ledger,
  rewrite_main_ledger_with_rebound_provenance,
}
use freezeit_cos.Ledger.Operations.Rewrite.{
  IsWritten, ownership_by, recorded_without_sidecar, recorded_with_sidecar, read_none,
}

pub main_not_sidecar : LedgerFile.main ≢ LedgerFile.sidecar
main_not_sidecar = ground arith

sidecar_not_main : LedgerFile.sidecar ≢ LedgerFile.main
sidecar_not_main = ground arith

pub main_not_temporary : (f : LedgerFile) → LedgerFile.main ≢ temporary f
main_not_temporary f = ground arith

pub sidecar_not_temporary : (f : LedgerFile) → LedgerFile.sidecar ≢ temporary f
sidecar_not_temporary f = ground arith

module _ {W : Type 0} (fs : FileSystem W) (laws : IsFileSystem fs) where
  pub recorded-Unchanged :
      (k : SignalStopIdentity) (v w : W)
      → Unchanged fs LedgerFile.main v w
      → Unchanged fs LedgerFile.sidecar v w
      → recorded_signal_stop_ownership fs k v ≡ recorded_signal_stop_ownership fs k w
  unfolding recorded_signal_stop_ownership
  recorded-Unchanged k v w m s = rw (m.0, m.1, s.0) refl

  no_sidecar_found :
      (k : SignalStopIdentity) (r : Option SignalStopLedgerRecord)
      (o : Option SignalStopLedgerGeneration)
      → found_ownership k r o no_provenance ≢ some SignalStopOwnership.signal_only
  unfolding ledger_ownership is_signal_only lookup
  no_sidecar_found k none o = ground arith
  no_sidecar_found k (some SignalStopLedgerRecord.canonical) none = ground arith
  no_sidecar_found k (some SignalStopLedgerRecord.canonical) (some g) = ground arith
  no_sidecar_found k (some SignalStopLedgerRecord.residual_unknown) o = ground arith

  no_sidecar_in :
      (k : SignalStopIdentity) (r : Result MainLedger) (o : Option SignalStopLedgerGeneration)
      → ownership_in k r o no_provenance ≢ ok (some SignalStopOwnership.signal_only)
  unfolding ownership_in
  no_sidecar_in k (ok m) o = ground (arith, no_sidecar_found k (lookup k m) o)
  no_sidecar_in k (err e) o = ground arith

  -- Without a sidecar nothing counts as stopped by signal only.
  pub no_sidecar :
      (k : SignalStopIdentity) (w : W)
      → fs.read_to_string LedgerFile.sidecar w ≡ not_found
      → recorded_signal_stop_ownership fs k w ≢ ok (some SignalStopOwnership.signal_only)
  unfolding recorded_signal_stop_ownership
  no_sidecar k w s = rw (s, read_none) (no_sidecar_in k (main_ledger fs w) (generation fs w))

  -- The last step of the rewriting: the claims, if there are any.
  abbrev write_claims : Claims → Bool → W → Result (Unit {0}) × W
  write_claims claims flag w =
      if is_empty claims
      then (ok tt, w)
      else rebind_and_write fs (record { records = claims; globally_untrusted = flag })
          (fs.metadata LedgerFile.main w) w

  rebind_ok :
      (m : MainLedger) (claims : Claims) (flag : Bool) (w : W)
      (q : Result SignalStopLedgerGeneration) (k : SignalStopIdentity)
      → is_main m ≡ true
      → is_sidecar claims ≡ true
      → IsWritten fs laws m w
      → fs.metadata LedgerFile.main w ≡ q
      → (rebind_and_write fs (record { records = claims; globally_untrusted = flag }) q w).0 ≡ ok tt
      → recorded_signal_stop_ownership fs k
          (rebind_and_write fs (record { records = claims; globally_untrusted = flag }) q w).1
        ≡ ok (ownership_by m claims k)
  unfolding rebind_and_write rebind_to_generation
  rebind_ok m claims flag w (ok g) k h c e i r =
      let ls = provenance_lines (rebind_records g claims) in
      let u =
        write_other fs laws LedgerFile.sidecar LedgerFile.main ls w main_not_sidecar
          (main_not_temporary LedgerFile.sidecar) in
      recorded_with_sidecar fs laws m claims g
        (write_signal_stop_ledger_file fs LedgerFile.sidecar ls w).1 k h c (u.0 ∙ e) (u.1 ∙ i)
        (write_ok fs laws LedgerFile.sidecar ls w r)
  rebind_ok m claims flag w (err d) k h c e i r = ground arith

  write_claims_ok :
      (m : MainLedger) (claims : Claims) (flag : Bool) (w : W) (k : SignalStopIdentity)
      → is_main m ≡ true
      → is_sidecar claims ≡ true
      → IsWritten fs laws m w
      → fs.read_to_string LedgerFile.sidecar w ≡ not_found
      → (write_claims claims flag w).0 ≡ ok tt
      → recorded_signal_stop_ownership fs k (write_claims claims flag w).1
        ≡ ok (ownership_by m claims k)
  write_claims_ok m [] flag w k h c e s r = recorded_without_sidecar fs laws m w k h e s
  write_claims_ok m (x ∷ claims) flag w k h c e s r =
      rebind_ok m (x ∷ claims) flag w (fs.metadata LedgerFile.main w) k h c e refl r

  -- A rewriting that succeeds records the identities of the main ledger, by the claims.
  pub rewrite_ok :
      (m : MainLedger) (kept : SignalStopProvenanceLedger) (w : W) (k : SignalStopIdentity)
      → is_main m ≡ true
      → is_sidecar kept.records ≡ true
      → (rewrite_main_ledger_with_rebound_provenance fs m kept w).0 ≡ ok tt
      → recorded_signal_stop_ownership fs k
          (rewrite_main_ledger_with_rebound_provenance fs m kept w).1
        ≡ ok (ownership_by m kept.records k)
  unfolding rewrite_main_ledger_with_rebound_provenance
  rewrite_ok m kept w k h c r =
      let step1 = write_signal_stop_ledger_file fs LedgerFile.sidecar [] w in
      let w1 = step1.1 in
      let step2 = write_signal_stop_ledger fs m w1 in
      let a =
        and_then-ok fs laws step1
          (λ v.
            and_then fs (write_signal_stop_ledger fs m v)
              (write_claims kept.records kept.globally_untrusted))
          r in
      let b = and_then-ok fs laws step2 (write_claims kept.records kept.globally_untrusted) a.1 in
      let s =
        (write_other fs laws LedgerFile.main LedgerFile.sidecar (main_lines m) w1 sidecar_not_main
          (sidecar_not_temporary LedgerFile.main)).0
        ∙ write_ok fs laws LedgerFile.sidecar [] w a.0 in
      ap (λ (p : Result (Unit {0}) × W). recorded_signal_stop_ownership fs k p.1) (a.2 ∙ b.2)
      ∙ write_claims_ok m kept.records kept.globally_untrusted step2.1 k h c
          (write_ok fs laws LedgerFile.main (main_lines m) w1 b.0) s b.1

  -- The identity counts as stopped by signal only in the first state at most.
  abbrev NoNewClaim : SignalStopIdentity → W → W → Type 0
  NoNewClaim k w v =
      recorded_signal_stop_ownership fs k v ≡ ok (some SignalStopOwnership.signal_only)
      → recorded_signal_stop_ownership fs k w ≡ ok (some SignalStopOwnership.signal_only)

  no_claim :
      (k : SignalStopIdentity) (w v : W)
      → fs.read_to_string LedgerFile.sidecar v ≡ not_found
      → NoNewClaim k w v
  no_claim k w v s p = ground (arith, no_sidecar k v s)

  rebind_err :
      (claims : Claims) (flag : Bool) (w v : W) (q : Result SignalStopLedgerGeneration)
      (k : SignalStopIdentity) (e : DaemonError)
      → fs.read_to_string LedgerFile.sidecar v ≡ not_found
      → (rebind_and_write fs (record { records = claims; globally_untrusted = flag }) q v).0 ≡ err e
      → NoNewClaim k w
          (rebind_and_write fs (record { records = claims; globally_untrusted = flag }) q v).1
  unfolding rebind_and_write rebind_to_generation
  rebind_err claims flag w v (ok g) k e s r =
      let ls = provenance_lines (rebind_records g claims) in
      no_claim k w (write_signal_stop_ledger_file fs LedgerFile.sidecar ls v).1 (
        (write_err fs laws LedgerFile.sidecar ls v e (sidecar_not_temporary LedgerFile.sidecar) r).0
        ∙ s)
  rebind_err claims flag w v (err d) k e s r = no_claim k w v s

  write_claims_err :
      (claims : Claims) (flag : Bool) (w v : W) (k : SignalStopIdentity) (e : DaemonError)
      → fs.read_to_string LedgerFile.sidecar v ≡ not_found
      → (write_claims claims flag v).0 ≡ err e
      → NoNewClaim k w (write_claims claims flag v).1
  write_claims_err [] flag w v k e s r = no_claim k w v s
  write_claims_err (x ∷ claims) flag w v k e s r =
      rebind_err (x ∷ claims) flag w v (fs.metadata LedgerFile.main v) k e s r

  -- A rewriting that fails makes no new claim.
  pub rewrite_err :
      (m : MainLedger) (kept : SignalStopProvenanceLedger) (w : W) (k : SignalStopIdentity)
      (e : DaemonError)
      → (rewrite_main_ledger_with_rebound_provenance fs m kept w).0 ≡ err e
      → recorded_signal_stop_ownership fs k
          (rewrite_main_ledger_with_rebound_provenance fs m kept w).1
        ≡ ok (some SignalStopOwnership.signal_only)
      → recorded_signal_stop_ownership fs k w ≡ ok (some SignalStopOwnership.signal_only)
  unfolding rewrite_main_ledger_with_rebound_provenance
  rewrite_err m kept w k e =
      let step1 = write_signal_stop_ledger_file fs LedgerFile.sidecar [] w in
      let w1 = step1.1 in
      let step2 = write_signal_stop_ledger fs m w1 in
      let finish = write_claims kept.records kept.globally_untrusted in
      λ r.
        and_then-err fs laws (NoNewClaim k w) step1
          (λ v. and_then fs (write_signal_stop_ledger fs m v) finish) e r
          (λ a p.
            sym (
              recorded-Unchanged k w1 w
                (write_other fs laws LedgerFile.sidecar LedgerFile.main [] w main_not_sidecar
                  (main_not_temporary LedgerFile.sidecar))
                (write_err fs laws LedgerFile.sidecar [] w e
                  (sidecar_not_temporary LedgerFile.sidecar) a))
            ∙ p)
          λ a b.
            let s =
              (write_other fs laws LedgerFile.main LedgerFile.sidecar (main_lines m) w1
                sidecar_not_main (sidecar_not_temporary LedgerFile.main)).0
              ∙ write_ok fs laws LedgerFile.sidecar [] w a in
            and_then-err fs laws (NoNewClaim k w) step2 finish e b (λ _. no_claim k w step2.1 s)
              λ _ c. write_claims_err kept.records kept.globally_untrusted w step2.1 k e s c
