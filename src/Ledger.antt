-- ===== src/Ledger.antt =====
-- The ledger of processes that the daemon has stopped by SIGSTOP, and the sidecar that says which
-- of the stops were by signal only: freezeitDaemon/src/sys/procfs.rs.
pub mod Files
pub mod Encoding
pub mod Provenance
pub mod Operations
pub mod Refinement
pub mod Promotion
pub mod Claims
use freezeit_cos.Base.{
  ℕ, ℤ, Text, Key, Map, lookup, insert, remove, keys, beq, int_key, nat_key, pair_key, List, [],
  ◌∷◌, Option, none, some, Bool, true, false, not, ◌&&◌, contains, if◌then◌else◌, ◌==◌,
}

abbrev pub SignalStopIdentity : Type 0
SignalStopIdentity = ℤ × ℕ

pub data SignalStopLedgerRecord : Type 0 where
  canonical residual_unknown : SignalStopLedgerRecord

pub record SignalStopLedgerGeneration : Type 0 where
  pub device : ℕ
  pub inode : ℕ

pub data SignalStopProvenanceRecord : Type 0 where
  signal_only : SignalStopLedgerGeneration → SignalStopProvenanceRecord
  invalid : SignalStopProvenanceRecord

pub record SignalStopProvenanceLedger : Type 0 where
  pub records : Map SignalStopIdentity SignalStopProvenanceRecord
  pub globally_untrusted : Bool

abbrev pub MainLedger : Type 0
MainLedger = Map SignalStopIdentity SignalStopLedgerRecord

abbrev pub same_generation : SignalStopLedgerGeneration → SignalStopLedgerGeneration → Bool
same_generation g h = g.device == h.device && g.inode == h.inode

abbrev pub is_canonical : Option SignalStopLedgerRecord → Bool
is_canonical (some canonical) = true
is_canonical _ = false

-- A provenance record of the generation.
abbrev pub proves : Option SignalStopLedgerGeneration → SignalStopProvenanceRecord → Bool
proves (some h) (signal_only g) = same_generation g h
proves _ _ = false

abbrev pub found_proves : SignalStopLedgerGeneration → Option SignalStopProvenanceRecord → Bool
found_proves g none = false
found_proves g (some r) = proves (some g) r

unfoldable pub is_signal_only :
    SignalStopProvenanceLedger → SignalStopIdentity → SignalStopLedgerGeneration → Bool
is_signal_only provenance identity generation =
    not provenance.globally_untrusted
    && found_proves generation (lookup identity provenance.records)

-- `BTreeMap::retain`, by a test on key and value
unfoldable pub retain_entries {ℓ κ} : {K : Type ℓ} {V : Type κ} → (K → V → Bool) → Map K V → Map K V
retain_entries p [] = []
retain_entries p ((j, w) ∷ m) =
    let rest = retain_entries p m in if p j w then (j, w) ∷ rest else rest

abbrev pub is_proof : SignalStopProvenanceRecord → Bool
is_proof (signal_only g) = true
is_proof invalid = false

unfoldable pub discard_untrusted_records : SignalStopProvenanceLedger → SignalStopProvenanceLedger
unfolding retain_entries
discard_untrusted_records provenance = record {
  records =
      if provenance.globally_untrusted
      then []
      else retain_entries (λ identity. is_proof) provenance.records;
  globally_untrusted = false;
}

unfoldable pub retain_current_generation :
    Option SignalStopLedgerGeneration → SignalStopProvenanceLedger → SignalStopProvenanceLedger
unfolding retain_entries discard_untrusted_records
retain_current_generation generation provenance =
    let trusted = discard_untrusted_records provenance in
    record trusted { records = retain_entries (λ identity. proves generation) trusted.records }

abbrev pub rebound :
    SignalStopLedgerGeneration → SignalStopProvenanceRecord → SignalStopProvenanceRecord
rebound generation (signal_only g) = signal_only generation
rebound generation invalid = invalid

unfoldable pub rebind_records :
    SignalStopLedgerGeneration
    → Map SignalStopIdentity SignalStopProvenanceRecord
    → Map SignalStopIdentity SignalStopProvenanceRecord
rebind_records generation [] = []
rebind_records generation ((identity, r) ∷ m) =
    (identity, rebound generation r) ∷ rebind_records generation m

unfoldable pub rebind_to_generation :
    SignalStopLedgerGeneration → SignalStopProvenanceLedger → SignalStopProvenanceLedger
rebind_to_generation generation provenance = record provenance {
  records = rebind_records generation provenance.records;
}

unfoldable pub retain_canonical_main_provenance :
    MainLedger → SignalStopProvenanceLedger → SignalStopProvenanceLedger
retain_canonical_main_provenance main provenance = record provenance {
  records = retain_entries (λ identity r. is_canonical (lookup identity main)) provenance.records;
}
