-- ===== src/Ledger/Provenance.antt =====
-- What the changes of the claims in memory do to the claim of an identity.
use freezeit_cos.Base.{
  Key, Map, lookup, retain, pair_key, int_key, nat_key, beq_iff, [], ◌∷◌, Option, none, some, Bool,
  true, ◌&&◌, all, ==_iff, if◌then◌else◌, ◌≡◌, refl, arith,
}
use freezeit_cos.Base.Maps.Sorted.{is_sorted, all_above, lookup-above}
use freezeit_cos.Ledger.{
  SignalStopIdentity, SignalStopLedgerGeneration, SignalStopProvenanceRecord, signal_only, invalid,
  same_generation, retain_entries, rebound, rebind_records,
}
use freezeit_cos.Ledger.Encoding.RoundTrip.{in_range}
use freezeit_cos.Ledger.Encoding.Sidecar.{bounded, all_bounded}
use freezeit_cos.Ledger.Encoding.Bounds.{is_sidecar}

module _ {ℓ κ} {K : Type ℓ} {V : Type κ} ⦃e : Key K⦄ (p : K → V → Bool) where
  abbrev pub filtered : K → Option V → Option V
  filtered k none = none
  filtered k (some v) = if p k v then some v else none

  pub lookup-retain_entries :
      (k : K) (m : Map K V)
      → is_sorted m ≡ true
      → lookup k (retain_entries p m) ≡ filtered k (lookup k m)
  unfolding lookup retain_entries
  lookup-retain_entries k [] s = refl
  lookup-retain_entries k ((j, w) ∷ m) s =
      ground (arith, lookup-retain_entries k m, lookup-above j m, beq_iff j k)

  above-retain_entries :
      (k : K) (m : Map K V) → all_above k m ≡ true → all_above k (retain_entries p m) ≡ true
  unfolding retain_entries
  above-retain_entries k [] h = refl
  above-retain_entries k ((j, w) ∷ m) h = ground (arith, above-retain_entries k m)

  pub sorted-retain_entries :
      (m : Map K V) → is_sorted m ≡ true → is_sorted (retain_entries p m) ≡ true
  unfolding retain_entries
  sorted-retain_entries [] h = refl
  sorted-retain_entries ((j, w) ∷ m) h =
      ground (arith, sorted-retain_entries m, above-retain_entries j m)

  pub all-retain_entries :
      (q : K × V → Bool) (m : Map K V) → all q m ≡ true → all q (retain_entries p m) ≡ true
  unfolding retain_entries
  all-retain_entries q [] h = refl
  all-retain_entries q ((j, w) ∷ m) h = ground (arith, all-retain_entries q m)

pub all-retain {ℓ κ} :
    {K : Type ℓ} {V : Type κ} (p : K → Bool) (q : K × V → Bool) (m : Map K V)
    → all q m ≡ true
    → all q (retain p m) ≡ true
unfolding retain
all-retain p q [] h = refl
all-retain p q ((j, w) ∷ m) h = ground (arith, all-retain p q m)

abbrev pub Claims : Type 0
Claims = Map SignalStopIdentity SignalStopProvenanceRecord

pub is_sidecar-retain_entries :
    (p : SignalStopIdentity → SignalStopProvenanceRecord → Bool) (m : Claims)
    → is_sidecar m ≡ true
    → is_sidecar (retain_entries p m) ≡ true
is_sidecar-retain_entries p m h = ground (
  arith,
  sorted-retain_entries p m,
  all-retain_entries p (λ entry. in_range entry.0 && bounded entry.1) m,
)

-- The claim bound to the new generation.
abbrev pub rebound_claim :
    SignalStopLedgerGeneration
    → Option SignalStopProvenanceRecord
    → Option SignalStopProvenanceRecord
rebound_claim g none = none
rebound_claim g (some r) = some (rebound g r)

pub lookup-rebind_records :
    (g : SignalStopLedgerGeneration) (k : SignalStopIdentity) (m : Claims)
    → lookup k (rebind_records g m) ≡ rebound_claim g (lookup k m)
unfolding lookup rebind_records
lookup-rebind_records g k [] = refl
lookup-rebind_records g k ((i, r) ∷ m) = ground (arith, lookup-rebind_records g k m)

above-rebind_records :
    (g : SignalStopLedgerGeneration) (k : SignalStopIdentity) (m : Claims)
    → all_above k (rebind_records g m) ≡ all_above k m
unfolding rebind_records
above-rebind_records g k [] = refl
above-rebind_records g k ((i, r) ∷ m) = ground (arith, above-rebind_records g k m)

sorted-rebind_records :
    (g : SignalStopLedgerGeneration) (m : Claims) → is_sorted (rebind_records g m) ≡ is_sorted m
unfolding rebind_records
sorted-rebind_records g [] = refl
sorted-rebind_records g ((i, r) ∷ m) =
    ground (arith, sorted-rebind_records g m, above-rebind_records g i m)

bounded-rebound :
    (g : SignalStopLedgerGeneration) (r : SignalStopProvenanceRecord)
    → bounded (signal_only g) ≡ true
    → bounded (rebound g r) ≡ true
bounded-rebound g (signal_only h) b = b
bounded-rebound g invalid b = refl

all_bounded-rebind_records :
    (g : SignalStopLedgerGeneration) (m : Claims)
    → bounded (signal_only g) ≡ true
    → all_bounded m ≡ true
    → all_bounded (rebind_records g m) ≡ true
unfolding rebind_records
all_bounded-rebind_records g [] b h = refl
all_bounded-rebind_records g ((i, r) ∷ m) b h =
    ground (arith, all_bounded-rebind_records g m b, bounded-rebound g r b)

pub is_sidecar-rebind_records :
    (g : SignalStopLedgerGeneration) (m : Claims)
    → bounded (signal_only g) ≡ true
    → is_sidecar m ≡ true
    → is_sidecar (rebind_records g m) ≡ true
is_sidecar-rebind_records g m b h =
    ground (arith, sorted-rebind_records g m, all_bounded-rebind_records g m b)

pub same_generation_self : (g : SignalStopLedgerGeneration) → same_generation g g ≡ true
same_generation_self g = ground (arith, ==_iff g.device g.device, ==_iff g.inode g.inode)
