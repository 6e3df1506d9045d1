-- ===== src/Ledger/Refinement.antt =====
-- The ledger of stopped processes as one map from identities to ownership: recording and taking.
use freezeit_cos.Base.{
  lookup, insert, remove, lookup-insert, lookup-remove, pair_key, int_key, nat_key, beq, is_some,
  Option, none, some, Bool, true, false, not, ◌&&◌, if◌then◌else◌, ◌≡◌, refl, ap, ◌∙◌, arith,
}
use freezeit_cos.Base.Maps.Sorted.{
  is_sorted-insert, is_sorted-retain, all-insert, pair_order, int_order, nat_order,
}
use freezeit_cos.Domain.Error.{Result, ok, err}
use freezeit_cos.Control.World.{SignalStopOwnership}
use freezeit_cos.Ledger.{
  SignalStopIdentity, SignalStopLedgerRecord, canonical, SignalStopLedgerGeneration,
  SignalStopProvenanceLedger, MainLedger, is_canonical,
}
use freezeit_cos.Ledger.Files.{FileSystem, LedgerFile, IsFileSystem}
use freezeit_cos.Ledger.Encoding.RoundTrip.{in_range}
use freezeit_cos.Ledger.Encoding.Bounds.{is_main, read-is_main}
use freezeit_cos.Ledger.Provenance.{all-retain}
use freezeit_cos.Ledger.Operations.{
  ownership_in, recorded_signal_stop_ownership, main_ledger, generation, provenance,
  kept_provenance, record_in, record_freezeit_signal_stop, take_from, take_freezeit_signal_stop,
  then_return, rewrite_main_ledger_with_rebound_provenance,
}
use freezeit_cos.Ledger.Operations.Rewrite.{by_proof}
use freezeit_cos.Ledger.Operations.Outcome.{rewrite_ok}
use freezeit_cos.Ledger.Operations.Kept.{
  recorded_as, found_ownership_lem, claimed, kept_claim, kept-is_sidecar,
}

is_main-insert :
    (i : SignalStopIdentity) (m : MainLedger)
    → in_range i ≡ true
    → is_main m ≡ true
    → is_main (insert i canonical m) ≡ true
is_main-insert i m r h =
    ground (
      arith,
      is_sorted-insert i canonical m,
      all-insert (λ entry. in_range entry.0) i canonical m r,
    )

is_main-remove :
    (i : SignalStopIdentity) (m : MainLedger) → is_main m ≡ true → is_main (remove i m) ≡ true
unfolding remove
is_main-remove i m h = ground (
  arith,
  is_sorted-retain (λ j. not (beq j i)) m,
  all-retain (λ j. not (beq j i)) (λ entry. in_range entry.0) m,
)

-- What the abstract ledger holds after the identity was set.
abbrev pub set_to :
    SignalStopIdentity
    → Option SignalStopOwnership
    → SignalStopIdentity
    → Result (Option SignalStopOwnership)
    → Result (Option SignalStopOwnership)
set_to identity ownership k before = if beq identity k then ok ownership else before

set_recorded :
    (same : Bool) (before : Option SignalStopLedgerRecord) (k : SignalStopIdentity)
    (o : Option SignalStopLedgerGeneration) (p : SignalStopProvenanceLedger)
    → ok (
        let now = if same then some canonical else before in
        if is_some now
        then some (by_proof (not same && (is_canonical now && claimed k o p)))
        else none)
      ≡ (if same
          then ok (some SignalStopOwnership.residual_unknown)
          else ok (recorded_as k before o p))
set_recorded true before k o p = refl
set_recorded false none k o p = refl
set_recorded false (some r) k o p = refl

set_unrecorded :
    (same : Bool) (before : Option SignalStopLedgerRecord) (k : SignalStopIdentity)
    (o : Option SignalStopLedgerGeneration) (p : SignalStopProvenanceLedger)
    → ok (
        let now = if same then none else before in
        if is_some now
        then some (by_proof (not same && (is_canonical now && claimed k o p)))
        else none)
      ≡ (if same then ok none else ok (recorded_as k before o p))
set_unrecorded true before k o p = refl
set_unrecorded false none k o p = refl
set_unrecorded false (some r) k o p = refl

-- The lookup finds an owner.
abbrev pub is_owned : Result (Option SignalStopOwnership) → Bool
is_owned (ok o) = is_some o
is_owned (err e) = false

pub owned_as :
    (k : SignalStopIdentity) (r : Option SignalStopLedgerRecord)
    (o : Option SignalStopLedgerGeneration) (p : SignalStopProvenanceLedger)
    → is_some (recorded_as k r o p) ≡ is_some r
owned_as k none o p = refl
owned_as k (some r) o p = refl

module _ {W : Type 0} (fs : FileSystem W) (laws : IsFileSystem fs) where
  then_return_world : (a : Bool) (p : Result (Unit {0}) × W) → (then_return fs a p).1 ≡ p.1
  then_return_world a (ok u, w) = refl
  then_return_world a (err e, w) = refl

  then_return_ok :
      (a b : Bool) (p : Result (Unit {0}) × W)
      → (then_return fs a p).0 ≡ ok b
      → (p.0 ≡ ok tt) × (a ≡ b)
  then_return_ok a b (ok u, w) h = ground arith
  then_return_ok a b (err e, w) h = ground arith

  pub recorded_of :
      (m : MainLedger) (w : W) (k : SignalStopIdentity)
      → main_ledger fs w ≡ ok m
      → recorded_signal_stop_ownership fs k w
        ≡ ok (recorded_as k (lookup k m) (generation fs w) (provenance fs w))
  unfolding recorded_signal_stop_ownership ownership_in
  recorded_of m w k e =
      rw e (ap ok (found_ownership_lem k (lookup k m) (generation fs w) (provenance fs w)))

  record_in_lem :
      (i : SignalStopIdentity) (r : Result MainLedger) (w : W) (k : SignalStopIdentity)
      → in_range i ≡ true
      → main_ledger fs w ≡ r
      → (record_in fs i r w).0 ≡ ok tt
      → recorded_signal_stop_ownership fs k (record_in fs i r w).1
        ≡ set_to i
            (some SignalStopOwnership.residual_unknown)
            k
            (recorded_signal_stop_ownership fs k w)
  unfolding record_in
  record_in_lem i (err e) w k n q h = ground arith
  record_in_lem i (ok m) w k n q h =
      let records = insert i canonical m in
      let s = read-is_main (fs.read_to_string LedgerFile.main w) m q in
      rewrite_ok fs laws records (kept_provenance fs i records w) w k (is_main-insert i m n s)
        (kept-is_sidecar fs i records w) h
      ∙ rw (kept_claim fs i records w k, recorded_of m w k q, lookup-insert i k canonical m)
          (set_recorded (beq i k) (lookup k m) k (generation fs w) (provenance fs w))

  take_from_lem :
      (i : SignalStopIdentity) (r : Result MainLedger) (w : W) (k : SignalStopIdentity) (b : Bool)
      → main_ledger fs w ≡ r
      → (take_from fs i r w).0 ≡ ok b
      → recorded_signal_stop_ownership fs k (take_from fs i r w).1
        ≡ set_to i none k (recorded_signal_stop_ownership fs k w)
  unfolding take_from
  take_from_lem i (err e) w k b q h = ground arith
  take_from_lem i (ok m) w k b q h =
      let records = remove i m in
      let s = read-is_main (fs.read_to_string LedgerFile.main w) m q in
      let rewritten =
        rewrite_main_ledger_with_rebound_provenance fs records (kept_provenance fs i records w) w in
      ap (recorded_signal_stop_ownership fs k) (then_return_world (is_some (lookup i m)) rewritten)
      ∙ rewrite_ok fs laws records (kept_provenance fs i records w) w k (is_main-remove i m s)
          (kept-is_sidecar fs i records w) (then_return_ok (is_some (lookup i m)) b rewritten h).0
      ∙ rw (kept_claim fs i records w k, recorded_of m w k q, lookup-remove i k m)
          (set_unrecorded (beq i k) (lookup k m) k (generation fs w) (provenance fs w))

  take_from_owned :
      (i : SignalStopIdentity) (r : Result MainLedger) (w : W) (b : Bool)
      → main_ledger fs w ≡ r
      → (take_from fs i r w).0 ≡ ok b
      → is_owned (recorded_signal_stop_ownership fs i w) ≡ b
  unfolding take_from
  take_from_owned i (err e) w b q h = ground arith
  take_from_owned i (ok m) w b q h =
      let records = remove i m in
      ap is_owned (recorded_of m w i q)
      ∙ owned_as i (lookup i m) (generation fs w) (provenance fs w)
      ∙ (then_return_ok (is_some (lookup i m)) b
          (rewrite_main_ledger_with_rebound_provenance fs records (kept_provenance fs i records w)
            w)
          h).1

  -- Recording a stop that succeeds makes the identity one of unknown provenance, and leaves the
  -- ownership of every other identity as it was.
  pub record_freezeit_signal_stop_lem :
      (i k : SignalStopIdentity) (w : W)
      → in_range i ≡ true
      → (record_freezeit_signal_stop fs i w).0 ≡ ok tt
      → recorded_signal_stop_ownership fs k (record_freezeit_signal_stop fs i w).1
        ≡ set_to i
            (some SignalStopOwnership.residual_unknown)
            k
            (recorded_signal_stop_ownership fs k w)
  unfolding record_freezeit_signal_stop
  record_freezeit_signal_stop_lem i k w n h = record_in_lem i (main_ledger fs w) w k n refl h

  -- Taking a stop that succeeds removes the identity and no other, and says whether it was there.
  pub take_freezeit_signal_stop_lem :
      (i k : SignalStopIdentity) (w : W) (b : Bool)
      → (take_freezeit_signal_stop fs i w).0 ≡ ok b
      → (recorded_signal_stop_ownership fs k (take_freezeit_signal_stop fs i w).1
          ≡ set_to i none k (recorded_signal_stop_ownership fs k w))
        × (is_owned (recorded_signal_stop_ownership fs i w) ≡ b)
  unfolding take_freezeit_signal_stop
  take_freezeit_signal_stop_lem i k w b h = (
    take_from_lem i (main_ledger fs w) w k b refl h,
    take_from_owned i (main_ledger fs w) w b refl h,
  )
