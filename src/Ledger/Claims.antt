-- ===== src/Ledger/Claims.antt =====
-- Where a claim of the ledger can come from: the calls of the daemon on it, in any order.
pub mod Origin
use freezeit_cos.Base.{
  ℕ, lookup, pair_key, int_key, nat_key, beq, beq_iff, is_some, List, [], ◌∷◌, all, Option, none,
  some, Bool, true, false, not, ◌&&◌, ◌||◌, if◌then◌else◌, ◌≡◌, ◌⊎◌, refl, ap, sym, ◌∙◌, arith, inl,
  inr, Bool-cases,
}
use freezeit_cos.Domain.Error.{Result, ok, err, DaemonError}
use freezeit_cos.Control.World.{SignalStopOwnership}
use freezeit_cos.Ledger.{
  SignalStopIdentity, SignalStopLedgerRecord, MainLedger, SignalStopLedgerGeneration, is_canonical,
  SignalStopProvenanceRecord,
}
use freezeit_cos.Ledger.Files.{
  FileSystem, LedgerFile, IsFileSystem, Unchanged, write_signal_stop_ledger_file,
}
use freezeit_cos.Ledger.Files.Writes.{Result-cases, write_other, write_err}
use freezeit_cos.Ledger.Encoding.{provenance_lines, read_signal_stop_ledger}
use freezeit_cos.Ledger.Encoding.RoundTrip.{in_range}
use freezeit_cos.Ledger.Operations.{
  recorded_signal_stop_ownership, main_ledger, generation, provenance, ok_of, record_in,
  record_freezeit_signal_stop, take_from, take_freezeit_signal_stop, then_return, forbids,
  write_promoted, promote_canonical, promote_in, promote_freezeit_signal_stop, kept_provenance,
  rewrite_main_ledger_with_rebound_provenance, ownership_in,
}
use freezeit_cos.Ledger.Operations.Outcome.{
  rewrite_err, recorded-Unchanged, main_not_sidecar, main_not_temporary, sidecar_not_temporary,
}
use freezeit_cos.Ledger.Operations.Kept.{recorded_as, found_ownership_lem}
use freezeit_cos.Ledger.Refinement.{
  set_to, is_owned, owned_as, recorded_of, record_freezeit_signal_stop_lem,
  take_freezeit_signal_stop_lem,
}
use freezeit_cos.Ledger.Promotion.{write_promoted_lem}

module _ {W : Type 0} (fs : FileSystem W) (laws : IsFileSystem fs) where
  -- What holds after a promotion that answers `b`.
  abbrev Promoted : SignalStopIdentity → SignalStopIdentity → W → Bool → W → Type 0
  Promoted i k w true v =
      (recorded_signal_stop_ownership fs k v
        ≡ set_to i (some SignalStopOwnership.signal_only) k (recorded_signal_stop_ownership fs k w))
      × (is_owned (recorded_signal_stop_ownership fs i w) ≡ true)
  Promoted i k w false v = v ≡ w

  owned_canonical :
      (i : SignalStopIdentity) (m : MainLedger) (w : W)
      → main_ledger fs w ≡ ok m
      → is_canonical (lookup i m) ≡ true
      → is_owned (recorded_signal_stop_ownership fs i w) ≡ true
  owned_canonical i m w q c =
      ap is_owned (recorded_of fs laws m w i q)
      ∙ owned_as i (lookup i m) (generation fs w) (provenance fs w)
      ∙ go (lookup i m) c
    where
      go : (r : Option SignalStopLedgerRecord) → is_canonical r ≡ true → is_some r ≡ true
      go none h = h
      go (some r) h = refl

  guarded :
      (i k : SignalStopIdentity) (w : W) (b t : Bool) (x : Result Bool × W)
      → (t ≡ false → x.0 ≡ ok b → Promoted i k w b x.1)
      → (if t then (ok false, w) else x).0 ≡ ok b
      → Promoted i k w b (if t then (ok false, w) else x).1
  guarded i k w true true x f h = ground arith
  guarded i k w false true x f h = refl
  guarded i k w b false x f h = f refl h

  guarded_not :
      (i k : SignalStopIdentity) (w : W) (b t : Bool) (x : Result Bool × W)
      → (t ≡ true → x.0 ≡ ok b → Promoted i k w b x.1)
      → (if t then x else (ok false, w)).0 ≡ ok b
      → Promoted i k w b (if t then x else (ok false, w)).1
  guarded_not i k w true false x f h = ground arith
  guarded_not i k w false false x f h = refl
  guarded_not i k w b true x f h = f refl h

  Promoted-of :
      (i k : SignalStopIdentity) (m : MainLedger) (g : SignalStopLedgerGeneration) (w : W)
      (b : Bool)
      → in_range i ≡ true
      → main_ledger fs w ≡ ok m
      → fs.metadata LedgerFile.main w ≡ ok g
      → (provenance fs w).globally_untrusted ≡ false
      → is_canonical (lookup i m) ≡ true
      → (write_promoted fs i m g w).0 ≡ ok b
      → Promoted i k w b (write_promoted fs i m g w).1
  Promoted-of i k m g w true n p d u c h =
      ((write_promoted_lem fs laws i k m g w true n p d u c h).0, owned_canonical i m w p c)
  Promoted-of i k m g w false n p d u c h =
      ground (arith, (write_promoted_lem fs laws i k m g w false n p d u c h).1)

  promote_canonical_lem :
      (i k : SignalStopIdentity) (m : MainLedger) (q : Result SignalStopLedgerGeneration) (w : W)
      (b : Bool)
      → in_range i ≡ true
      → main_ledger fs w ≡ ok m
      → fs.metadata LedgerFile.main w ≡ q
      → is_canonical (lookup i m) ≡ true
      → (promote_canonical fs i m (ok_of q) w).0 ≡ ok b
      → Promoted i k w b (promote_canonical fs i m (ok_of q) w).1
  unfolding promote_canonical
  promote_canonical_lem i k m (err e) w true n p d c h = ground arith
  promote_canonical_lem i k m (err e) w false n p d c h = refl
  promote_canonical_lem i k m (ok g) w b n p d c h =
      let flag = (provenance fs w).globally_untrusted in
      let other =
        if forbids fs g (lookup i (provenance fs w).records)
        then (ok false, w)
        else write_promoted fs i m g w in
      guarded i k w b flag other
        (λ u.
          guarded i k w b (forbids fs g (lookup i (provenance fs w).records))
            (write_promoted fs i m g w) λ f r. Promoted-of i k m g w b n p d u c r)
        h

  promote_in_lem :
      (i k : SignalStopIdentity) (r : Result MainLedger) (w : W) (b : Bool)
      → in_range i ≡ true
      → main_ledger fs w ≡ r
      → (promote_in fs i r w).0 ≡ ok b
      → Promoted i k w b (promote_in fs i r w).1
  unfolding promote_in
  promote_in_lem i k (err e) w b n p h = ground arith
  promote_in_lem i k (ok m) w b n p h =
      guarded_not i k w b (is_canonical (lookup i m)) (promote_canonical fs i m (generation fs w) w)
        (λ c r. promote_canonical_lem i k m (fs.metadata LedgerFile.main w) w b n p refl c r) h

  -- A promotion that answers true was of a recorded identity, and makes that identity and no
  -- other one that was stopped by signal only.
  pub promote_freezeit_signal_stop_lem :
      (i k : SignalStopIdentity) (w : W)
      → in_range i ≡ true
      → (promote_freezeit_signal_stop fs i w).0 ≡ ok true
      → (recorded_signal_stop_ownership fs k (promote_freezeit_signal_stop fs i w).1
          ≡ set_to i
              (some SignalStopOwnership.signal_only)
              k
              (recorded_signal_stop_ownership fs k w))
        × (is_owned (recorded_signal_stop_ownership fs i w) ≡ true)
  unfolding promote_freezeit_signal_stop
  promote_freezeit_signal_stop_lem i k w n h = promote_in_lem i k (main_ledger fs w) w true n refl h

  -- A promotion that answers false changes nothing.
  pub promote_declined :
      (i : SignalStopIdentity) (w : W)
      → in_range i ≡ true
      → (promote_freezeit_signal_stop fs i w).0 ≡ ok false
      → (promote_freezeit_signal_stop fs i w).1 ≡ w
  unfolding promote_freezeit_signal_stop
  promote_declined i w n h = promote_in_lem i i (main_ledger fs w) w false n refl h

-- One call on the ledger.
pub data LedgerCall : Type 0 where
  record_call promote_call take_call : SignalStopIdentity → LedgerCall

module _ {W : Type 0} (fs : FileSystem W) where
  -- The state after the call, and whether it was a promotion of the identity that was answered by
  -- true.
  abbrev pub answered_true : Result Bool → Bool
  answered_true (ok b) = b
  answered_true (err e) = false

  unfoldable pub step : LedgerCall → W → W
  step (record_call i) w = (record_freezeit_signal_stop fs i w).1
  step (promote_call i) w = (promote_freezeit_signal_stop fs i w).1
  step (take_call i) w = (take_freezeit_signal_stop fs i w).1

  unfoldable pub promotes : SignalStopIdentity → LedgerCall → W → Bool
  promotes k (promote_call i) w = beq i k && answered_true (promote_freezeit_signal_stop fs i w).0
  promotes k (record_call i) w = false
  promotes k (take_call i) w = false

  unfoldable pub run : List LedgerCall → W → W
  unfolding step
  run [] w = w
  run (c ∷ cs) w = run cs (step c w)

  -- Some call of the run is a promotion of the identity that succeeds.
  unfoldable pub promotes_in : SignalStopIdentity → List LedgerCall → W → Bool
  unfolding step promotes
  promotes_in k [] w = false
  promotes_in k (c ∷ cs) w = promotes k c w || promotes_in k cs (step c w)

abbrev pub call_in_range : LedgerCall → Bool
call_in_range (record_call i) = in_range i
call_in_range (promote_call i) = in_range i
call_in_range (take_call i) = in_range i
