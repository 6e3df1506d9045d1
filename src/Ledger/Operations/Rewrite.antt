-- ===== src/Ledger/Operations/Rewrite.antt =====
-- What the two files say of every identity after they were rewritten.
use freezeit_cos.Base.{
  lookup, pair_key, int_key, nat_key, [], Option, none, some, Bool, true, false, contains,
  if◌then◌else◌, ◌≡◌, ◌≢◌, refl, ap, ◌∙◌, arith,
}
use freezeit_cos.Domain.Error.{Result, ok, err}
use freezeit_cos.Control.World.{SignalStopOwnership}
use freezeit_cos.Ledger.{
  SignalStopIdentity, SignalStopLedgerRecord, canonical, SignalStopLedgerGeneration,
  SignalStopProvenanceRecord, SignalStopProvenanceLedger, MainLedger, found_proves, is_signal_only,
  rebind_records,
}
use freezeit_cos.Ledger.Files.{FileSystem, LedgerFile, not_found, IsFileSystem}
use freezeit_cos.Ledger.Files.Writes.{written}
use freezeit_cos.Ledger.Encoding.{
  read_signal_stop_ledger, read_signal_stop_provenance, main_lines, provenance_lines,
  add_main_lines, no_provenance,
}
use freezeit_cos.Ledger.Encoding.RoundTrip.{
  lookup-add_main_lines, read_written_main, main_lines-are_lines, read_written_provenance,
}
use freezeit_cos.Ledger.Encoding.Sidecar.{
  bounded, merged, lookup-add_provenance_lines, trusted-add_provenance_lines,
  provenance_lines-are_lines,
}
use freezeit_cos.Ledger.Encoding.Bounds.{is_main, is_sidecar}
use freezeit_cos.Ledger.Provenance.{
  Claims, rebound_claim, lookup-rebind_records, is_sidecar-rebind_records, same_generation_self,
}
use freezeit_cos.Ledger.Operations.{
  ledger_ownership, found_ownership, ownership_in, recorded_signal_stop_ownership, generation,
  provenance,
}

main_not_sidecar : LedgerFile.main ≢ LedgerFile.sidecar
main_not_sidecar = ground arith

abbrev pub has_proof : Option SignalStopProvenanceRecord → Bool
has_proof (some (SignalStopProvenanceRecord.signal_only g)) = true
has_proof _ = false

abbrev pub by_proof : Bool → SignalStopOwnership
by_proof true = SignalStopOwnership.signal_only
by_proof false = SignalStopOwnership.residual_unknown

-- The ownership that a main ledger and the claims stand for.
abbrev pub ownership_by : MainLedger → Claims → SignalStopIdentity → Option SignalStopOwnership
ownership_by records claims k =
    if contains k records then some (by_proof (has_proof (lookup k claims))) else none

found_proves_rebound :
    (g : SignalStopLedgerGeneration) (c : Option SignalStopProvenanceRecord)
    → found_proves g (merged (rebound_claim g c) none) ≡ has_proof c
found_proves_rebound g none = refl
found_proves_rebound g (some SignalStopProvenanceRecord.invalid) = refl
found_proves_rebound g (some (SignalStopProvenanceRecord.signal_only h)) = same_generation_self g

-- The claims of a sidecar that was written for the generation of the main ledger.
signal_only-written :
    (g : SignalStopLedgerGeneration) (claims : Claims) (k : SignalStopIdentity)
    → bounded (SignalStopProvenanceRecord.signal_only g) ≡ true
    → is_sidecar claims ≡ true
    → is_signal_only
        (read_signal_stop_provenance (written (provenance_lines (rebind_records g claims))))
        k
        g
      ≡ has_proof (lookup k claims)
unfolding is_signal_only lookup
signal_only-written g claims k b h =
    let r = rebind_records g claims in
    let s = is_sidecar-rebind_records g claims b h in
    rw
      (
        read_written_provenance (provenance_lines r) (provenance_lines-are_lines r),
        trusted-add_provenance_lines r no_provenance (ground arith),
        lookup-add_provenance_lines r no_provenance k (ground arith) (ground arith),
        lookup-rebind_records g k claims,
      )
      (found_proves_rebound g (lookup k claims))

main_lines-read :
    (m : MainLedger)
    → read_signal_stop_ledger (written (main_lines m)) ≡ ok (add_main_lines (main_lines m) [])
main_lines-read m = read_written_main (main_lines m) (main_lines-are_lines m)

lookup-main_lines :
    (m : MainLedger) (k : SignalStopIdentity)
    → is_main m ≡ true
    → lookup k (add_main_lines (main_lines m) []) ≡ (if contains k m then some canonical else none)
unfolding lookup
lookup-main_lines m k h = lookup-add_main_lines m [] k (ground arith) (ground arith)

abbrev pub found_in :
    SignalStopIdentity → Result MainLedger → Result (Option SignalStopLedgerRecord)
found_in k (ok m) = ok (lookup k m)
found_in k (err e) = err e

-- A main ledger that is written and read again has the same identities, each of them canonical:
-- a record that was extended or duplicated does not stay marked.
pub main_ledger_round_trip :
    (m : MainLedger) (k : SignalStopIdentity)
    → is_main m ≡ true
    → found_in k (read_signal_stop_ledger (written (main_lines m)))
      ≡ ok (if contains k m then some canonical else none)
main_ledger_round_trip m k h = ap (found_in k) (main_lines-read m) ∙ ap ok (lookup-main_lines m k h)

ledger_ownership_of_proof :
    (k : SignalStopIdentity) (g : SignalStopLedgerGeneration) (p : SignalStopProvenanceLedger)
    → ledger_ownership k canonical (some g) p ≡ by_proof (is_signal_only p k g)
unfolding ledger_ownership
ledger_ownership_of_proof k g p = ground arith

pub no_claim_ownership :
    (k : SignalStopIdentity) (o : Option SignalStopLedgerGeneration)
    → ledger_ownership k canonical o no_provenance ≡ SignalStopOwnership.residual_unknown
unfolding ledger_ownership is_signal_only lookup
no_claim_ownership k none = refl
no_claim_ownership k (some g) = refl

-- Without a sidecar every identity of the main ledger is of unknown provenance.
found_without_sidecar :
    (k : SignalStopIdentity) (b : Bool) (o : Option SignalStopLedgerGeneration)
    → found_ownership k (if b then some canonical else none) o no_provenance
      ≡ (if b then some SignalStopOwnership.residual_unknown else none)
found_without_sidecar k true o = ap some (no_claim_ownership k o)
found_without_sidecar k false o = refl

found_with_sidecar :
    (k : SignalStopIdentity) (b : Bool) (g : SignalStopLedgerGeneration)
    (p : SignalStopProvenanceLedger)
    → found_ownership k (if b then some canonical else none) (some g) p
      ≡ (if b then some (by_proof (is_signal_only p k g)) else none)
found_with_sidecar k true g p = ap some (ledger_ownership_of_proof k g p)
found_with_sidecar k false g p = refl

pub read_none : read_signal_stop_provenance not_found ≡ no_provenance
unfolding read_signal_stop_provenance
read_none = refl

module _ {W : Type 0} (fs : FileSystem W) (laws : IsFileSystem fs) where
  -- The main ledger of the state is the one that was written.
  abbrev pub IsWritten : MainLedger → W → Type 0
  IsWritten m w = fs.read_to_string LedgerFile.main w ≡ written (main_lines m)

  recorded_written :
      (m : MainLedger) (w : W) (k : SignalStopIdentity)
      → is_main m ≡ true
      → IsWritten m w
      → recorded_signal_stop_ownership fs k w
        ≡ ok (
            found_ownership k
              (if contains k m then some canonical else none)
              (generation fs w)
              (provenance fs w))
  unfolding recorded_signal_stop_ownership ownership_in
  recorded_written m w k h e = rw (e, main_lines-read m, lookup-main_lines m k h) refl

  pub recorded_without_sidecar :
      (m : MainLedger) (w : W) (k : SignalStopIdentity)
      → is_main m ≡ true
      → IsWritten m w
      → fs.read_to_string LedgerFile.sidecar w ≡ not_found
      → recorded_signal_stop_ownership fs k w ≡ ok (ownership_by m [] k)
  unfolding lookup
  recorded_without_sidecar m w k h e s =
      recorded_written m w k h e
      ∙ rw (s, read_none) (ap ok (found_without_sidecar k (contains k m) (generation fs w)))

  pub bounded_generation :
      (w : W) (g : SignalStopLedgerGeneration)
      → fs.metadata LedgerFile.main w ≡ ok g
      → bounded (SignalStopProvenanceRecord.signal_only g) ≡ true
  bounded_generation w g i =
      let b = laws.generation_bounds LedgerFile.main w g i in ground (arith, b.0, b.1)

  pub recorded_with_sidecar :
      (m : MainLedger) (claims : Claims) (g : SignalStopLedgerGeneration) (w : W)
      (k : SignalStopIdentity)
      → is_main m ≡ true
      → is_sidecar claims ≡ true
      → IsWritten m w
      → fs.metadata LedgerFile.main w ≡ ok g
      → fs.read_to_string LedgerFile.sidecar w
        ≡ written (provenance_lines (rebind_records g claims))
      → recorded_signal_stop_ownership fs k w ≡ ok (ownership_by m claims k)
  recorded_with_sidecar m claims g w k h c e i s =
      recorded_written m w k h e
      ∙ rw (i, s)
          (ap ok (
            found_with_sidecar k (contains k m) g
              (read_signal_stop_provenance (written (provenance_lines (rebind_records g claims))))
            ∙ rw (signal_only-written g claims k (bounded_generation w g i) c) refl))
