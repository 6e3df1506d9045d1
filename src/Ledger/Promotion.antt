-- ===== src/Ledger/Promotion.antt =====
-- Promoting a recorded stop, and the failures of the operations.
use freezeit_cos.Base.{
  lookup, insert, lookup-insert, pair_key, int_key, nat_key, beq, beq_iff, Option, none, some, Bool,
  true, false, ◌&&◌, if◌then◌else◌, ◌≡◌, refl, ap, sym, ◌∙◌, arith,
}
use freezeit_cos.Base.Maps.Sorted.{is_sorted-insert, all-insert, pair_order, int_order, nat_order}
use freezeit_cos.Domain.Error.{Result, ok, err}
use freezeit_cos.Control.World.{SignalStopOwnership}
use freezeit_cos.Ledger.{
  SignalStopIdentity, SignalStopLedgerRecord, SignalStopLedgerGeneration,
  SignalStopProvenanceRecord, SignalStopProvenanceLedger, MainLedger, is_canonical, is_signal_only,
  proves, is_proof, found_proves, retain_entries, discard_untrusted_records,
  retain_current_generation, retain_canonical_main_provenance,
}
use freezeit_cos.Ledger.Files.{FileSystem, LedgerFile, IsFileSystem, write_signal_stop_ledger_file}
use freezeit_cos.Ledger.Files.Writes.{written, write_ok, write_other}
use freezeit_cos.Ledger.Encoding.{
  read_signal_stop_ledger, read_signal_stop_provenance, provenance_lines, no_provenance,
}
use freezeit_cos.Ledger.Encoding.RoundTrip.{in_range, read_written_provenance}
use freezeit_cos.Ledger.Encoding.Sidecar.{
  bounded, merged, lookup-add_provenance_lines, trusted-add_provenance_lines,
  provenance_lines-are_lines,
}
use freezeit_cos.Ledger.Encoding.Bounds.{is_sidecar, read-is_sidecar}
use freezeit_cos.Ledger.Provenance.{
  Claims, filtered, lookup-retain_entries, is_sidecar-retain_entries, same_generation_self,
}
use freezeit_cos.Ledger.Operations.{
  recorded_signal_stop_ownership, main_ledger, provenance, then_return, write_promoted,
}
use freezeit_cos.Ledger.Operations.Rewrite.{bounded_generation}
use freezeit_cos.Ledger.Operations.Outcome.{main_not_sidecar, main_not_temporary}
use freezeit_cos.Ledger.Operations.Kept.{recorded_as}
use freezeit_cos.Ledger.Refinement.{set_to, recorded_of}

found_proves-merged :
    (g : SignalStopLedgerGeneration) (c : Option SignalStopProvenanceRecord)
    → found_proves g (merged c none) ≡ found_proves g c
found_proves-merged g none = refl
found_proves-merged g (some SignalStopProvenanceRecord.invalid) = refl
found_proves-merged g (some (SignalStopProvenanceRecord.signal_only h)) = refl

found_proves-current :
    (g : SignalStopLedgerGeneration) (k : SignalStopIdentity)
    (c : Option SignalStopProvenanceRecord)
    → found_proves g (filtered (λ i. proves (some g)) k (filtered (λ i. is_proof) k c))
      ≡ found_proves g c
found_proves-current g k none = refl
found_proves-current g k (some SignalStopProvenanceRecord.invalid) = refl
found_proves-current g k (some (SignalStopProvenanceRecord.signal_only h)) = ground arith

found_proves-filtered :
    (g : SignalStopLedgerGeneration) (p : SignalStopIdentity → SignalStopProvenanceRecord → Bool)
    (k : SignalStopIdentity) (c : Option SignalStopProvenanceRecord) (b : Bool)
    → ((r : SignalStopProvenanceRecord) → p k r ≡ b)
    → found_proves g (filtered p k c) ≡ (b && found_proves g c)
found_proves-filtered g p k none b e = ground arith
found_proves-filtered g p k (some r) b e = ground (arith, e r)

-- The claims of a trusted sidecar that promotion keeps.
abbrev kept : MainLedger → SignalStopLedgerGeneration → Claims → Claims
kept records g m =
    retain_entries (λ i r. is_canonical (lookup i records))
      (retain_entries (λ i. proves (some g)) (retain_entries (λ i. is_proof) m))

kept-is_sidecar :
    (records : MainLedger) (g : SignalStopLedgerGeneration) (m : Claims)
    → is_sidecar m ≡ true
    → is_sidecar (kept records g m) ≡ true
kept-is_sidecar records g m h =
    is_sidecar-retain_entries (λ i r. is_canonical (lookup i records))
      (retain_entries (λ i. proves (some g)) (retain_entries (λ i. is_proof) m))
      (is_sidecar-retain_entries (λ i. proves (some g)) (retain_entries (λ i. is_proof) m)
        (is_sidecar-retain_entries (λ i. is_proof) m h))

kept_proves :
    (records : MainLedger) (g : SignalStopLedgerGeneration) (m : Claims) (k : SignalStopIdentity)
    → is_sidecar m ≡ true
    → found_proves g (lookup k (kept records g m))
      ≡ (is_canonical (lookup k records) && found_proves g (lookup k m))
kept_proves records g m k h =
    let proofs = retain_entries (λ i. is_proof) m in
    let now = retain_entries (λ i. proves (some g)) proofs in
    let canon = λ (i : SignalStopIdentity) (r : SignalStopProvenanceRecord).
      is_canonical (lookup i records) in
    let s1 = is_sidecar-retain_entries (λ i. is_proof) m h in
    let s2 = is_sidecar-retain_entries (λ i. proves (some g)) proofs s1 in
    rw (lookup-retain_entries canon k now (ground arith)) (
      found_proves-filtered g canon k (lookup k now) (is_canonical (lookup k records)) (λ r. refl)
      ∙ rw
          (
            lookup-retain_entries (λ i. proves (some g)) k proofs (ground arith),
            lookup-retain_entries (λ i. is_proof) k m (ground arith),
            found_proves-current g k (lookup k m),
          )
          refl)

-- The claims of a sidecar that was written for the generation.
written_proves :
    (g : SignalStopLedgerGeneration) (claims : Claims) (k : SignalStopIdentity)
    → is_sidecar claims ≡ true
    → is_signal_only (read_signal_stop_provenance (written (provenance_lines claims))) k g
      ≡ found_proves g (lookup k claims)
unfolding is_signal_only lookup
written_proves g claims k h =
    rw
      (
        read_written_provenance (provenance_lines claims) (provenance_lines-are_lines claims),
        trusted-add_provenance_lines claims no_provenance (ground arith),
        lookup-add_provenance_lines claims no_provenance k (ground arith) (ground arith),
      )
      (found_proves-merged g (lookup k claims))

promoted_as :
    (same : Bool) (g : SignalStopLedgerGeneration) (before : Option SignalStopLedgerRecord)
    (k : SignalStopIdentity) (p now : SignalStopProvenanceLedger)
    → (same ≡ true → is_canonical before ≡ true)
    → is_signal_only now k g
      ≡ (if same then true else (is_canonical before && is_signal_only p k g))
    → ok (recorded_as k before (some g) now) ≡ (
        if same
        then ok (some SignalStopOwnership.signal_only)
        else ok (recorded_as k before (some g) p))
promoted_as true g none k p now h e = ground (arith, h refl)
promoted_as true g (some r) k p now h e = rw e (ground (arith, h refl))
promoted_as false g none k p now h e = refl
promoted_as false g (some SignalStopLedgerRecord.canonical) k p now h e = rw e refl
promoted_as false g (some SignalStopLedgerRecord.residual_unknown) k p now h e = refl

kept_lem :
    (records : MainLedger) (g : SignalStopLedgerGeneration) (p : SignalStopProvenanceLedger)
    → p.globally_untrusted ≡ false
    → (retain_canonical_main_provenance records (retain_current_generation (some g) p)).records
      ≡ kept records g p.records
unfolding retain_canonical_main_provenance retain_current_generation discard_untrusted_records
kept_lem records g p e = rw e refl

proves_trusted :
    (p : SignalStopProvenanceLedger) (k : SignalStopIdentity) (g : SignalStopLedgerGeneration)
    → p.globally_untrusted ≡ false
    → is_signal_only p k g ≡ found_proves g (lookup k p.records)
unfolding is_signal_only
proves_trusted p k g e = rw e refl

proves_inserted :
    (g : SignalStopLedgerGeneration) (i k : SignalStopIdentity) (m : Claims)
    → found_proves g (lookup k (insert i (SignalStopProvenanceRecord.signal_only g) m))
      ≡ (if beq i k then true else found_proves g (lookup k m))
proves_inserted g i k m =
    rw (lookup-insert i k (SignalStopProvenanceRecord.signal_only g) m) (go (beq i k) (lookup k m))
  where
    go :
        (b : Bool) (c : Option SignalStopProvenanceRecord)
        → found_proves g (if b then some (SignalStopProvenanceRecord.signal_only g) else c)
          ≡ (if b then true else found_proves g c)
    go true c = same_generation_self g
    go false c = refl

is_sidecar-insert :
    (i : SignalStopIdentity) (r : SignalStopProvenanceRecord) (m : Claims)
    → in_range i ≡ true
    → bounded r ≡ true
    → is_sidecar m ≡ true
    → is_sidecar (insert i r m) ≡ true
is_sidecar-insert i r m n b h = ground (
  arith,
  is_sorted-insert i r m,
  all-insert (λ entry. in_range entry.0 && bounded entry.1) i r m (ground arith),
)

module _ {W : Type 0} (fs : FileSystem W) (laws : IsFileSystem fs) where
  -- After new claims were written beside a main ledger that stays.
  recorded_claims :
      (k : SignalStopIdentity) (m : MainLedger) (g : SignalStopLedgerGeneration) (claims : Claims)
      (w : W)
      → main_ledger fs w ≡ ok m
      → fs.metadata LedgerFile.main w ≡ ok g
      → (write_signal_stop_ledger_file fs LedgerFile.sidecar (provenance_lines claims) w).0 ≡ ok tt
      → recorded_signal_stop_ownership fs k
          (write_signal_stop_ledger_file fs LedgerFile.sidecar (provenance_lines claims) w).1
        ≡ ok (
            recorded_as k
              (lookup k m)
              (some g)
              (read_signal_stop_provenance (written (provenance_lines claims))))
  recorded_claims k m g claims w q d h =
      let ls = provenance_lines claims in
      let v = (write_signal_stop_ledger_file fs LedgerFile.sidecar ls w).1 in
      let u =
        write_other fs laws LedgerFile.sidecar LedgerFile.main ls w main_not_sidecar
          (main_not_temporary LedgerFile.sidecar) in
      recorded_of fs laws m v k (ap read_signal_stop_ledger u.0 ∙ q)
      ∙ rw (u.1 ∙ d, write_ok fs laws LedgerFile.sidecar ls w h) refl

  then_true_world : (p : Result (Unit {0}) × W) → (then_return fs true p).1 ≡ p.1
  then_true_world (ok u, w) = refl
  then_true_world (err e, w) = refl

  then_true_ok :
      (b : Bool) (p : Result (Unit {0}) × W)
      → (then_return fs true p).0 ≡ ok b
      → (p.0 ≡ ok tt) × (b ≡ true)
  then_true_ok b (ok u, w) h = ground arith
  then_true_ok b (err e, w) h = ground arith

  recorded_before :
      (k : SignalStopIdentity) (m : MainLedger) (g : SignalStopLedgerGeneration) (w : W)
      → main_ledger fs w ≡ ok m
      → fs.metadata LedgerFile.main w ≡ ok g
      → recorded_signal_stop_ownership fs k w
        ≡ ok (recorded_as k (lookup k m) (some g) (provenance fs w))
  recorded_before k m g w q d = recorded_of fs laws m w k q ∙ rw d refl

  pub write_promoted_lem :
      (i k : SignalStopIdentity) (m : MainLedger) (g : SignalStopLedgerGeneration) (w : W)
      (b : Bool)
      → in_range i ≡ true
      → main_ledger fs w ≡ ok m
      → fs.metadata LedgerFile.main w ≡ ok g
      → (provenance fs w).globally_untrusted ≡ false
      → is_canonical (lookup i m) ≡ true
      → (write_promoted fs i m g w).0 ≡ ok b
      → (recorded_signal_stop_ownership fs k (write_promoted fs i m g w).1
          ≡ set_to i
              (some SignalStopOwnership.signal_only)
              k
              (recorded_signal_stop_ownership fs k w))
        × (b ≡ true)
  unfolding write_promoted
  write_promoted_lem i k m g w b n q d u c h =
      let p = provenance fs w in
      let s = read-is_sidecar (fs.read_to_string LedgerFile.sidecar w) in
      let others =
        (retain_canonical_main_provenance m (retain_current_generation (some g) p)).records in
      let e = kept_lem m g p u in
      let claims = insert i (SignalStopProvenanceRecord.signal_only g) others in
      let step = write_signal_stop_ledger_file fs LedgerFile.sidecar (provenance_lines claims) w in
      let done = then_true_ok b step h in
      (
        ap (recorded_signal_stop_ownership fs k) (then_true_world step)
            ∙ recorded_claims k m g claims w q d done.0
            ∙ promoted_as (beq i k) g (lookup k m) k p
                (read_signal_stop_provenance (written (provenance_lines claims)))
                (λ same. ap (λ j. is_canonical (lookup j m)) (sym ((beq_iff i k).0 same)) ∙ c)
                (written_proves g claims k (
                    is_sidecar-insert i (SignalStopProvenanceRecord.signal_only g) others n
                      (bounded_generation fs laws w g d)
                      (ap is_sidecar e ∙ kept-is_sidecar m g p.records s))
                  ∙ proves_inserted g i k others
                  ∙ ap (λ (m' : Claims). if beq i k then true else found_proves g (lookup k m')) e
                  ∙ rw (kept_proves m g p.records k s, proves_trusted p k g u) refl)
            ∙ rw (recorded_before k m g w q d) refl,
        done.1,
      )
