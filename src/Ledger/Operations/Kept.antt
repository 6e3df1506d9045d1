-- ===== src/Ledger/Operations/Kept.antt =====
-- The claims of the sidecar that an operation keeps.
use freezeit_cos.Base.{
  lookup, remove, pair_key, int_key, nat_key, beq, lookup-remove, [], Option, none, some, Bool,
  true, false, not, ◌&&◌, if◌then◌else◌, ◌≡◌, refl, arith,
}
use freezeit_cos.Base.Maps.Sorted.{is_sorted-retain}
use freezeit_cos.Control.World.{SignalStopOwnership}
use freezeit_cos.Ledger.{
  SignalStopIdentity, SignalStopLedgerRecord, SignalStopLedgerGeneration,
  SignalStopProvenanceRecord, SignalStopProvenanceLedger, MainLedger, is_canonical, proves,
  is_proof, found_proves, is_signal_only, retain_entries, discard_untrusted_records,
  retain_current_generation, retain_canonical_main_provenance,
}
use freezeit_cos.Ledger.Files.{FileSystem, LedgerFile}
use freezeit_cos.Ledger.Encoding.RoundTrip.{in_range}
use freezeit_cos.Ledger.Encoding.Sidecar.{bounded}
use freezeit_cos.Ledger.Encoding.Bounds.{is_sidecar, read-is_sidecar}
use freezeit_cos.Ledger.Provenance.{
  Claims, filtered, lookup-retain_entries, is_sidecar-retain_entries, all-retain,
}
use freezeit_cos.Ledger.Operations.{
  ledger_ownership, found_ownership, generation, provenance, kept_provenance,
}
use freezeit_cos.Ledger.Operations.Rewrite.{has_proof, by_proof}

-- The sidecar claims the identity for the generation.
abbrev pub claimed :
    SignalStopIdentity → Option SignalStopLedgerGeneration → SignalStopProvenanceLedger → Bool
claimed k none p = false
claimed k (some g) p = is_signal_only p k g

abbrev pub recorded_as :
    SignalStopIdentity
    → Option SignalStopLedgerRecord
    → Option SignalStopLedgerGeneration
    → SignalStopProvenanceLedger
    → Option SignalStopOwnership
recorded_as k none o p = none
recorded_as k (some r) o p = some (by_proof (is_canonical (some r) && claimed k o p))

pub found_ownership_lem :
    (k : SignalStopIdentity) (r : Option SignalStopLedgerRecord)
    (o : Option SignalStopLedgerGeneration) (p : SignalStopProvenanceLedger)
    → found_ownership k r o p ≡ recorded_as k r o p
unfolding ledger_ownership
found_ownership_lem k none o p = refl
found_ownership_lem k (some SignalStopLedgerRecord.canonical) none p = refl
found_ownership_lem k (some SignalStopLedgerRecord.canonical) (some g) p = ground arith
found_ownership_lem k (some SignalStopLedgerRecord.residual_unknown) o p = refl

-- `retain_current_generation`, on the claims
abbrev current : Bool → Option SignalStopLedgerGeneration → Claims → Claims
current flag o m =
    retain_entries (λ i. proves o) (if flag then [] else retain_entries (λ i. is_proof) m)

abbrev claim_of : Option SignalStopLedgerGeneration → Option SignalStopProvenanceRecord → Bool
claim_of none c = false
claim_of (some g) c = found_proves g c

abbrev trusted_claim :
    Bool → Option SignalStopLedgerGeneration → Option SignalStopProvenanceRecord → Bool
trusted_claim flag none c = false
trusted_claim flag (some g) c = not flag && found_proves g c

twice_filtered :
    (o : Option SignalStopLedgerGeneration) (k : SignalStopIdentity)
    (c : Option SignalStopProvenanceRecord)
    → has_proof (filtered (λ i. proves o) k (filtered (λ i. is_proof) k c)) ≡ claim_of o c
twice_filtered none k none = refl
twice_filtered none k (some (SignalStopProvenanceRecord.signal_only h)) = refl
twice_filtered none k (some SignalStopProvenanceRecord.invalid) = refl
twice_filtered (some g) k none = refl
twice_filtered (some g) k (some (SignalStopProvenanceRecord.signal_only h)) = ground arith
twice_filtered (some g) k (some SignalStopProvenanceRecord.invalid) = refl

not_claimed_without :
    (o : Option SignalStopLedgerGeneration) (c : Option SignalStopProvenanceRecord)
    → trusted_claim true o c ≡ false
not_claimed_without none c = refl
not_claimed_without (some g) c = refl

trusted_claim_lem :
    (o : Option SignalStopLedgerGeneration) (c : Option SignalStopProvenanceRecord)
    → trusted_claim false o c ≡ claim_of o c
trusted_claim_lem none c = refl
trusted_claim_lem (some g) c = refl

claim_in :
    (flag : Bool) (o : Option SignalStopLedgerGeneration) (m : Claims) (k : SignalStopIdentity)
    → is_sidecar m ≡ true
    → has_proof (lookup k (current flag o m)) ≡ trusted_claim flag o (lookup k m)
unfolding retain_entries lookup
claim_in true o m k h = ground (arith, not_claimed_without o (lookup k m))
claim_in false o m k h =
    let proofs = retain_entries (λ i. is_proof) m in
    rw
      (
        lookup-retain_entries (λ i. proves o) k proofs
            (ground (arith, is_sidecar-retain_entries (λ i. is_proof) m h)),
        lookup-retain_entries (λ i. is_proof) k m (ground arith),
        trusted_claim_lem o (lookup k m),
      )
      (twice_filtered o k (lookup k m))

sidecar_in :
    (flag : Bool) (o : Option SignalStopLedgerGeneration) (m : Claims)
    → is_sidecar m ≡ true
    → is_sidecar (current flag o m) ≡ true
sidecar_in true o m h = is_sidecar-retain_entries (λ i. proves o) [] refl
sidecar_in false o m h =
    is_sidecar-retain_entries (λ i. proves o) (retain_entries (λ i. is_proof) m)
      (is_sidecar-retain_entries (λ i. is_proof) m h)

-- A claim that is not of the generation is dropped, and all of them if one cannot be trusted.
pub current_claim :
    (o : Option SignalStopLedgerGeneration) (p : SignalStopProvenanceLedger)
    (k : SignalStopIdentity)
    → is_sidecar p.records ≡ true
    → has_proof (lookup k (retain_current_generation o p).records) ≡ claimed k o p
unfolding retain_current_generation discard_untrusted_records is_signal_only
current_claim none p k h = claim_in p.globally_untrusted none p.records k h
current_claim (some g) p k h = claim_in p.globally_untrusted (some g) p.records k h

pub is_sidecar-current :
    (o : Option SignalStopLedgerGeneration) (p : SignalStopProvenanceLedger)
    → is_sidecar p.records ≡ true
    → is_sidecar (retain_current_generation o p).records ≡ true
unfolding retain_current_generation discard_untrusted_records
is_sidecar-current o p h = sidecar_in p.globally_untrusted o p.records h

has_proof-filtered :
    (p : SignalStopIdentity → SignalStopProvenanceRecord → Bool) (k : SignalStopIdentity)
    (c : Option SignalStopProvenanceRecord) (b : Bool)
    → ((r : SignalStopProvenanceRecord) → p k r ≡ b)
    → has_proof (filtered p k c) ≡ (b && has_proof c)
has_proof-filtered p k none b e = ground arith
has_proof-filtered p k (some r) b e = ground (arith, e r)

pub canonical_claim :
    (records : MainLedger) (p : SignalStopProvenanceLedger) (k : SignalStopIdentity)
    → is_sidecar p.records ≡ true
    → has_proof (lookup k (retain_canonical_main_provenance records p).records)
      ≡ (is_canonical (lookup k records) && has_proof (lookup k p.records))
unfolding retain_canonical_main_provenance
canonical_claim records p k h =
    let canon = λ (i : SignalStopIdentity) (r : SignalStopProvenanceRecord).
      is_canonical (lookup i records) in
    rw (lookup-retain_entries canon k p.records (ground arith))
      (has_proof-filtered canon k (lookup k p.records) (is_canonical (lookup k records)) λ r. refl)

module _ {W : Type 0} (fs : FileSystem W) where
  provenance-is_sidecar : (w : W) → is_sidecar (provenance fs w).records ≡ true
  provenance-is_sidecar w = read-is_sidecar (fs.read_to_string LedgerFile.sidecar w)

  -- The claims that are kept: those of the current sidecar for a canonical record, but for the
  -- identity itself.
  pub kept_claim :
      (i : SignalStopIdentity) (records : MainLedger) (w : W) (k : SignalStopIdentity)
      → has_proof (lookup k (kept_provenance fs i records w).records) ≡ (
          not (beq i k)
          && (is_canonical (lookup k records) && claimed k (generation fs w) (provenance fs w)))
  unfolding kept_provenance
  kept_claim i records w k =
      let p = retain_current_generation (generation fs w) (provenance fs w) in
      let h = provenance-is_sidecar w in
      ground (
        arith,
        lookup-remove i k (retain_canonical_main_provenance records p).records,
        canonical_claim records p k (is_sidecar-current (generation fs w) (provenance fs w) h),
        current_claim (generation fs w) (provenance fs w) k h,
      )

  pub kept-is_sidecar :
      (i : SignalStopIdentity) (records : MainLedger) (w : W)
      → is_sidecar (kept_provenance fs i records w).records ≡ true
  unfolding kept_provenance retain_canonical_main_provenance remove
  kept-is_sidecar i records w =
      let p = retain_current_generation (generation fs w) (provenance fs w) in
      let c =
        retain_entries (λ j (r : SignalStopProvenanceRecord). is_canonical (lookup j records))
          p.records in
      ground (
        arith,
        is_sorted-retain (λ j. not (beq j i)) c,
        all-retain (λ j. not (beq j i)) (λ entry. in_range entry.0 && bounded entry.1) c,
        is_sidecar-retain_entries (λ j r. is_canonical (lookup j records)) p.records
            (is_sidecar-current (generation fs w) (provenance fs w) (provenance-is_sidecar w)),
      )
