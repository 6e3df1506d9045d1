-- ===== src/Ledger/Operations.antt =====
-- Recording, promoting, taking and looking up a SIGSTOP of the daemon, each under the lock of the
-- ledger: freezeitDaemon/src/sys/procfs.rs.
pub mod Rewrite
pub mod Outcome
pub mod Kept
use freezeit_cos.Base.{
  Map, lookup, insert, remove, pair_key, int_key, nat_key, is_some, is_empty, List, [], Option,
  none, some, Bool, true, false, not, ◌&&◌, if◌then◌else◌,
}
use freezeit_cos.Domain.Error.{Result, ok, err}
use freezeit_cos.Control.World.{SignalStopOwnership}
use freezeit_cos.Ledger.{
  SignalStopIdentity, SignalStopLedgerRecord, canonical, SignalStopLedgerGeneration,
  SignalStopProvenanceRecord, SignalStopProvenanceLedger, MainLedger, is_canonical, is_signal_only,
  same_generation, retain_current_generation, rebind_to_generation,
  retain_canonical_main_provenance,
}
use freezeit_cos.Ledger.Files.{
  FileSystem, LedgerFile, ReadText, write_signal_stop_ledger_file, and_then,
}
use freezeit_cos.Ledger.Encoding.{
  read_signal_stop_ledger, read_signal_stop_provenance, main_lines, provenance_lines,
}

-- `Result::ok`
abbrev pub ok_of {ℓ} : {A : Type ℓ} → Result A → Option A
ok_of (ok a) = some a
ok_of (err e) = none

unfoldable pub ledger_ownership :
    SignalStopIdentity
    → SignalStopLedgerRecord
    → Option SignalStopLedgerGeneration
    → SignalStopProvenanceLedger
    → SignalStopOwnership
ledger_ownership identity canonical (some generation) provenance =
    if is_signal_only provenance identity generation
    then SignalStopOwnership.signal_only
    else SignalStopOwnership.residual_unknown
ledger_ownership identity _ _ provenance = SignalStopOwnership.residual_unknown

abbrev pub found_ownership :
    SignalStopIdentity
    → Option SignalStopLedgerRecord
    → Option SignalStopLedgerGeneration
    → SignalStopProvenanceLedger
    → Option SignalStopOwnership
found_ownership identity none generation provenance = none
found_ownership identity (some r) generation provenance =
    some (ledger_ownership identity r generation provenance)

unfoldable pub ownership_in :
    SignalStopIdentity
    → Result MainLedger
    → Option SignalStopLedgerGeneration
    → SignalStopProvenanceLedger
    → Result (Option SignalStopOwnership)
ownership_in identity (ok records) generation provenance =
    ok (found_ownership identity (lookup identity records) generation provenance)
ownership_in identity (err e) generation provenance = err e

module _ {W : Type 0} (fs : FileSystem W) where
  abbrev pub main_ledger : W → Result MainLedger
  main_ledger w = read_signal_stop_ledger (fs.read_to_string LedgerFile.main w)

  -- `signal_stop_ledger_generation(..).ok()`
  abbrev pub generation : W → Option SignalStopLedgerGeneration
  generation w = ok_of (fs.metadata LedgerFile.main w)

  abbrev pub provenance : W → SignalStopProvenanceLedger
  provenance w = read_signal_stop_provenance (fs.read_to_string LedgerFile.sidecar w)

  unfoldable pub recorded_signal_stop_ownership :
      SignalStopIdentity → W → Result (Option SignalStopOwnership)
  unfolding ownership_in
  recorded_signal_stop_ownership identity w =
      ownership_in identity (main_ledger w) (generation w) (provenance w)

  abbrev pub write_signal_stop_ledger : MainLedger → W → Result (Unit {0}) × W
  write_signal_stop_ledger records =
      write_signal_stop_ledger_file fs LedgerFile.main (main_lines records)

  abbrev pub write_signal_stop_provenance :
      Map SignalStopIdentity SignalStopProvenanceRecord → W → Result (Unit {0}) × W
  write_signal_stop_provenance records =
      write_signal_stop_ledger_file fs LedgerFile.sidecar (provenance_lines records)

  unfoldable pub rebind_and_write :
      SignalStopProvenanceLedger → Result SignalStopLedgerGeneration → W → Result (Unit {0}) × W
  rebind_and_write kept (ok g) w =
      write_signal_stop_provenance (rebind_to_generation g kept).records w
  rebind_and_write kept (err e) w = (err e, w)

  unfoldable pub rewrite_main_ledger_with_rebound_provenance :
      MainLedger → SignalStopProvenanceLedger → W → Result (Unit {0}) × W
  unfolding rebind_and_write
  rewrite_main_ledger_with_rebound_provenance records kept w =
      and_then fs (write_signal_stop_ledger_file fs LedgerFile.sidecar [] w) λ w1.
        and_then fs (write_signal_stop_ledger records w1) λ w2.
          if is_empty kept.records
          then (ok tt, w2)
          else rebind_and_write kept (fs.metadata LedgerFile.main w2) w2

  -- The claims of the sidecar that survive, but for those of the identity.
  unfoldable pub kept_provenance : SignalStopIdentity → MainLedger → W → SignalStopProvenanceLedger
  kept_provenance identity records w =
      let current =
        retain_canonical_main_provenance records
          (retain_current_generation (generation w) (provenance w)) in
      record current { records = remove identity current.records }

  unfoldable pub record_in : SignalStopIdentity → Result MainLedger → W → Result (Unit {0}) × W
  unfolding kept_provenance rewrite_main_ledger_with_rebound_provenance
  record_in identity (err e) w = (err e, w)
  record_in identity (ok before) w =
      let records = insert identity canonical before in
      rewrite_main_ledger_with_rebound_provenance records (kept_provenance identity records w) w

  unfoldable pub record_freezeit_signal_stop : SignalStopIdentity → W → Result (Unit {0}) × W
  unfolding record_in
  record_freezeit_signal_stop identity w = record_in identity (main_ledger w) w

  abbrev pub then_return {ℓ} : {A : Type ℓ} → A → Result (Unit {0}) × W → Result A × W
  then_return a (ok u, w) = (ok a, w)
  then_return a (err e, w) = (err e, w)

  unfoldable pub take_from : SignalStopIdentity → Result MainLedger → W → Result Bool × W
  unfolding kept_provenance rewrite_main_ledger_with_rebound_provenance
  take_from identity (err e) w = (err e, w)
  take_from identity (ok before) w =
      let records = remove identity before in
      then_return (is_some (lookup identity before))
        (rewrite_main_ledger_with_rebound_provenance records (kept_provenance identity records w) w)

  unfoldable pub take_freezeit_signal_stop : SignalStopIdentity → W → Result Bool × W
  unfolding take_from
  take_freezeit_signal_stop identity w = take_from identity (main_ledger w) w

  -- An earlier claim of the identity that forbids to promote it.
  abbrev pub forbids : SignalStopLedgerGeneration → Option SignalStopProvenanceRecord → Bool
  forbids g none = false
  forbids g (some SignalStopProvenanceRecord.invalid) = true
  forbids g (some (SignalStopProvenanceRecord.signal_only h)) = not (same_generation h g)

  unfoldable pub write_promoted :
      SignalStopIdentity → MainLedger → SignalStopLedgerGeneration → W → Result Bool × W
  write_promoted identity records g w = then_return true (
      write_signal_stop_provenance
        (insert identity (SignalStopProvenanceRecord.signal_only g)
          (retain_canonical_main_provenance records
            (retain_current_generation (some g) (provenance w))).records)
        w)

  unfoldable pub promote_canonical :
      SignalStopIdentity → MainLedger → Option SignalStopLedgerGeneration → W → Result Bool × W
  unfolding write_promoted
  promote_canonical identity records none w = (ok false, w)
  promote_canonical identity records (some g) w =
      if (provenance w).globally_untrusted
      then (ok false, w)
      else if forbids g (lookup identity (provenance w).records)
      then (ok false, w)
      else write_promoted identity records g w

  unfoldable pub promote_in : SignalStopIdentity → Result MainLedger → W → Result Bool × W
  unfolding promote_canonical
  promote_in identity (err e) w = (err e, w)
  promote_in identity (ok records) w =
      if is_canonical (lookup identity records)
      then promote_canonical identity records (generation w) w
      else (ok false, w)

  unfoldable pub promote_freezeit_signal_stop : SignalStopIdentity → W → Result Bool × W
  unfolding promote_in
  promote_freezeit_signal_stop identity w = promote_in identity (main_ledger w) w
