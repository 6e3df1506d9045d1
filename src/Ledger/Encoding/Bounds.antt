-- ===== src/Ledger/Encoding/Bounds.antt =====
-- What is read from the files of the ledger is in order and within the widths of the kernel.
use freezeit_cos.Base.{
  ℕ, ℤ, Text, Map, pair_key, int_key, nat_key, list_key, List, [], ◌∷◌, Option, none, some, Bool,
  true, false, ◌&&◌, ltb, ◌^◌, contains, if◌then◌else◌, ◌≡◌, refl, arith,
}
use freezeit_cos.Base.Maps.Sorted.{
  is_sorted, is_sorted-insert, all-insert, pair_order, int_order, nat_order,
}
use freezeit_cos.Base.Parse.{split_whitespace, lines, parse_unsigned, parse_i32}
use freezeit_cos.Base.Parse.Bounds.{parse_unsigned-bound, parse_i32-bound}
use freezeit_cos.Domain.Error.{ok}
use freezeit_cos.Ledger.{
  SignalStopIdentity, SignalStopLedgerRecord, canonical, residual_unknown,
  SignalStopProvenanceRecord, invalid, SignalStopProvenanceLedger, MainLedger,
}
use freezeit_cos.Ledger.Files.{ReadText, content, not_found, failed}
use freezeit_cos.Ledger.Encoding.{
  split_once_colon, parse_token, from_sidecar_token, generation_from, identity_of, parse_identity,
  add_main_entry, add_main_line, add_main_lines, read_signal_stop_ledger, proof_or_invalid,
  provenance_record, add_provenance_entry, add_provenance_line, add_provenance_lines,
  read_signal_stop_provenance,
}
use freezeit_cos.Ledger.Encoding.RoundTrip.{in_range, all_in_range}
use freezeit_cos.Ledger.Encoding.Sidecar.{bounded, all_bounded}

-- A main ledger as the daemon holds it in memory.
abbrev pub is_main : MainLedger → Bool
is_main m = is_sorted m && all_in_range m

identity_bound :
    (p : Option ℤ) (t : Option ℕ) (i : SignalStopIdentity)
    → identity_of p t ≡ some i
    → (p ≡ some i.0) × (t ≡ some i.1)
identity_bound none t i h = ground arith
identity_bound (some p) none i h = ground arith
identity_bound (some p) (some t) i h = ground arith

parse_identity-bound :
    (s t : Text) (i : SignalStopIdentity) → parse_identity s t ≡ some i → in_range i ≡ true
unfolding parse_identity
parse_identity-bound s t i h =
    let b = identity_bound (parse_i32 s) (parse_unsigned 64 t) i h in
    ground (arith, parse_i32-bound s i.0 b.0, parse_unsigned-bound 64 t i.1 b.1)

add_main_entry-is_main :
    (o : Option SignalStopIdentity) (r : SignalStopLedgerRecord) (m : MainLedger)
    → ((i : SignalStopIdentity) → o ≡ some i → in_range i ≡ true)
    → is_main m ≡ true
    → is_main (add_main_entry o r m) ≡ true
add_main_entry-is_main none r m b h = h
add_main_entry-is_main (some i) r m b h =
    let v = if contains i m then residual_unknown else r in
    ground (arith, is_sorted-insert i v m, all-insert (λ entry. in_range entry.0) i v m (b i refl))

add_main_line-is_main :
    (fields : List Text) (m : MainLedger)
    → is_main m ≡ true
    → is_main (add_main_line fields m) ≡ true
unfolding add_main_line
add_main_line-is_main [] m h = h
add_main_line-is_main (p ∷ []) m h = h
add_main_line-is_main (p ∷ t ∷ []) m h =
    add_main_entry-is_main (parse_identity p t) canonical m (parse_identity-bound p t) h
add_main_line-is_main (p ∷ t ∷ o ∷ rest) m h =
    add_main_entry-is_main (parse_identity p t) residual_unknown m (parse_identity-bound p t) h

add_main_lines-is_main :
    (ls : List Text) (m : MainLedger) → is_main m ≡ true → is_main (add_main_lines ls m) ≡ true
unfolding add_main_lines
add_main_lines-is_main [] m h = h
add_main_lines-is_main (l ∷ ls) m h =
    add_main_lines-is_main ls (add_main_line (split_whitespace l) m)
      (add_main_line-is_main (split_whitespace l) m h)

pub read-is_main :
    (r : ReadText) (m : MainLedger) → read_signal_stop_ledger r ≡ ok m → is_main m ≡ true
unfolding read_signal_stop_ledger
read-is_main (content s) m h = ground (arith, add_main_lines-is_main (lines s) [] refl)
read-is_main not_found m h = ground arith
read-is_main (failed e) m h = ground arith

abbrev pub is_sidecar : Map SignalStopIdentity SignalStopProvenanceRecord → Bool
is_sidecar m = is_sorted m && all_bounded m

generation_bound :
    (d i : Option ℕ)
    → ((n : ℕ) → d ≡ some n → ltb n (2 ^ 64) ≡ true)
    → ((n : ℕ) → i ≡ some n → ltb n (2 ^ 64) ≡ true)
    → bounded (proof_or_invalid (generation_from d i)) ≡ true
generation_bound none i a b = refl
generation_bound (some d) none a b = refl
generation_bound (some d) (some i) a b = ground (arith, a d refl, b i refl)

token_bound : (o : Option (Text × Text)) → bounded (proof_or_invalid (parse_token o)) ≡ true
unfolding parse_token
token_bound none = refl
token_bound (some (d, i)) = ground (
  arith,
  generation_bound (parse_unsigned 64 d) (parse_unsigned 64 i) (parse_unsigned-bound 64 d)
      (parse_unsigned-bound 64 i),
)

provenance_record-bound : (fields : List Text) → bounded (provenance_record fields) ≡ true
unfolding provenance_record from_sidecar_token
provenance_record-bound [] = refl
provenance_record-bound (k ∷ []) = refl
provenance_record-bound (k ∷ t ∷ []) = ground (arith, token_bound (split_once_colon t))
provenance_record-bound (k ∷ t ∷ o ∷ rest) = refl

add_provenance_entry-is_sidecar :
    (o : Option SignalStopIdentity) (r : SignalStopProvenanceRecord)
    (m : SignalStopProvenanceLedger)
    → ((i : SignalStopIdentity) → o ≡ some i → in_range i ≡ true)
    → bounded r ≡ true
    → is_sidecar m.records ≡ true
    → is_sidecar (add_provenance_entry o r m).records ≡ true
add_provenance_entry-is_sidecar none r m b c h = h
add_provenance_entry-is_sidecar (some i) r m b c h =
    let v = if contains i m.records then invalid else r in
    ground (
      arith,
      is_sorted-insert i v m.records,
      all-insert (λ entry. in_range entry.0 && bounded entry.1) i v m.records
          (ground (arith, b i refl)),
    )

add_provenance_line-is_sidecar :
    (fields : List Text) (m : SignalStopProvenanceLedger)
    → is_sidecar m.records ≡ true
    → is_sidecar (add_provenance_line fields m).records ≡ true
unfolding add_provenance_line
add_provenance_line-is_sidecar [] m h = h
add_provenance_line-is_sidecar (p ∷ []) m h = h
add_provenance_line-is_sidecar (p ∷ t ∷ rest) m h =
    add_provenance_entry-is_sidecar (parse_identity p t) (provenance_record rest) m
      (parse_identity-bound p t) (provenance_record-bound rest) h

add_provenance_lines-is_sidecar :
    (ls : List Text) (m : SignalStopProvenanceLedger)
    → is_sidecar m.records ≡ true
    → is_sidecar (add_provenance_lines ls m).records ≡ true
unfolding add_provenance_lines
add_provenance_lines-is_sidecar [] m h = h
add_provenance_lines-is_sidecar (l ∷ ls) m h =
    add_provenance_lines-is_sidecar ls (add_provenance_line (split_whitespace l) m)
      (add_provenance_line-is_sidecar (split_whitespace l) m h)

pub read-is_sidecar : (r : ReadText) → is_sidecar (read_signal_stop_provenance r).records ≡ true
unfolding read_signal_stop_provenance
read-is_sidecar (content s) =
    add_provenance_lines-is_sidecar (lines s) (record { records = []; globally_untrusted = false })
      refl
read-is_sidecar not_found = refl
read-is_sidecar (failed e) = refl
