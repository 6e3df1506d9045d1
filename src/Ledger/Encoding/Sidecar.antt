-- ===== src/Ledger/Encoding/Sidecar.antt =====
-- What is written into the sidecar of the ledger is read back.
use freezeit_cos.Base.{
  Text, txt, show, show_int, Map, lookup, pair_key, int_key, nat_key, list_key, beq_iff, beq_self,
  [], ◌∷◌, ◌++◌, Option, none, some, Bool, true, all, ◌&&◌, contains, ltb, ◌^◌, if◌then◌else◌, ◌≡◌,
  refl, ap, ◌∙◌, arith, lookup-insert,
}
use freezeit_cos.Base.Maps.Sorted.{is_sorted, lookup-above}
use freezeit_cos.Base.Parse.{split_whitespace, is_whitespace, blank_free}
use freezeit_cos.Base.Parse.RoundTrip.{
  show-is_word, show_int-is_word, is_word, all_digits-blank_free, all_digits, all_digits-show,
}
use freezeit_cos.Base.Parse.Words.{
  split_whitespace-cons, split_whitespace-word, is_line, is_line-append,
}
use freezeit_cos.Ledger.{
  SignalStopIdentity, SignalStopLedgerGeneration, SignalStopProvenanceRecord, signal_only, invalid,
  SignalStopProvenanceLedger,
}
use freezeit_cos.Ledger.Encoding.{
  sidecar_token, add_entry, provenance_record, add_provenance_line, add_provenance_lines,
  provenance_lines,
}
use freezeit_cos.Ledger.Encoding.RoundTrip.{
  in_range, parse_identity_lem, from_sidecar_token-sidecar_token, word-is_line,
}

abbrev pub bounded : SignalStopProvenanceRecord → Bool
bounded (signal_only g) = ltb g.device (2 ^ 64) && ltb g.inode (2 ^ 64)
bounded invalid = true

-- Identities and generations of the widths that the kernel has.
abbrev pub all_bounded : Map SignalStopIdentity SignalStopProvenanceRecord → Bool
all_bounded = all λ entry. in_range entry.0 && bounded entry.1

digits_blank_free :
    (s t : Text) → all_digits s ≡ true → blank_free t ≡ true → blank_free (s ++ t) ≡ true
unfolding is_whitespace
digits_blank_free [] t h b = b
digits_blank_free (c ∷ s) t h b = ground (arith, digits_blank_free s t)

digits_word :
    (s t : Text)
    → all_digits s ≡ true
    → is_word s ≡ true
    → blank_free t ≡ true
    → is_word (s ++ t) ≡ true
digits_word [] t h w b = ground arith
digits_word (c ∷ s) t h w b = digits_blank_free (c ∷ s) t h b

colon_blank_free : (s : Text) → all_digits s ≡ true → blank_free (b':' ∷ s) ≡ true
unfolding is_whitespace
colon_blank_free s h = all_digits-blank_free s h

pub token-is_word : (g : SignalStopLedgerGeneration) → is_word (sidecar_token g) ≡ true
unfolding sidecar_token
token-is_word g =
    digits_word (show g.device) (b':' ∷ show g.inode) (all_digits-show g.device)
      (show-is_word g.device) (colon_blank_free (show g.inode) (all_digits-show g.inode))

abbrev provenance_line : SignalStopIdentity → SignalStopLedgerGeneration → Text
provenance_line (pid, start) g =
    show_int pid ++ (b' ' ∷ show start ++ (b' ' ∷ txt "SignalOnly" ++ (b' ' ∷ sidecar_token g)))

kind-is_word : is_word (txt "SignalOnly") ≡ true
unfolding txt is_whitespace
kind-is_word = refl

fields_of_provenance :
    (identity : SignalStopIdentity) (g : SignalStopLedgerGeneration)
    → split_whitespace (provenance_line identity g)
      ≡ show_int identity.0 ∷ show identity.1 ∷ txt "SignalOnly" ∷ sidecar_token g ∷ []
fields_of_provenance (pid, start) g =
    rw
      (
        split_whitespace-cons (show_int pid)
            (show start ++ (b' ' ∷ txt "SignalOnly" ++ (b' ' ∷ sidecar_token g)))
            (show_int-is_word pid),
        split_whitespace-cons (show start) (txt "SignalOnly" ++ (b' ' ∷ sidecar_token g))
            (show-is_word start),
        split_whitespace-cons (txt "SignalOnly") (sidecar_token g) kind-is_word,
        split_whitespace-word (sidecar_token g) (token-is_word g),
      )
      refl

abbrev with_proof :
    SignalStopIdentity
    → SignalStopLedgerGeneration
    → SignalStopProvenanceLedger
    → SignalStopProvenanceLedger
with_proof identity g acc = record acc {
  records = add_entry invalid identity (signal_only g) acc.records;
}

add_provenance_line_lem :
    (identity : SignalStopIdentity) (g : SignalStopLedgerGeneration)
    (acc : SignalStopProvenanceLedger)
    → in_range identity ≡ true
    → bounded (signal_only g) ≡ true
    → add_provenance_line (split_whitespace (provenance_line identity g)) acc
      ≡ with_proof identity g acc
unfolding add_provenance_line provenance_record
add_provenance_line_lem identity g acc r b =
    rw
      (
        fields_of_provenance identity g,
        parse_identity_lem identity r,
        beq_self (txt "SignalOnly"),
        from_sidecar_token-sidecar_token g (ground arith) (ground arith),
      )
      refl

-- An entry that is read after an earlier one of the same identity is invalid.
abbrev pub merged :
    Option SignalStopProvenanceRecord
    → Option SignalStopProvenanceRecord
    → Option SignalStopProvenanceRecord
merged (some (signal_only g)) none = some (signal_only g)
merged (some (signal_only g)) (some earlier) = some invalid
merged _ earlier = earlier

add_provenance_lines-cons :
    (i : SignalStopIdentity) (g : SignalStopLedgerGeneration)
    (m : Map SignalStopIdentity SignalStopProvenanceRecord) (acc : SignalStopProvenanceLedger)
    → in_range i ≡ true
    → bounded (signal_only g) ≡ true
    → add_provenance_lines (provenance_lines ((i, signal_only g) ∷ m)) acc
      ≡ add_provenance_lines (provenance_lines m) (with_proof i g acc)
unfolding add_provenance_lines provenance_lines
add_provenance_lines-cons (pid, start) g m acc r b =
    ap (add_provenance_lines (provenance_lines m)) (add_provenance_line_lem (pid, start) g acc r b)

pub lookup-add_provenance_lines :
    (m : Map SignalStopIdentity SignalStopProvenanceRecord) (acc : SignalStopProvenanceLedger)
    (k : SignalStopIdentity)
    → is_sorted m ≡ true
    → all_bounded m ≡ true
    → lookup k (add_provenance_lines (provenance_lines m) acc).records
      ≡ merged (lookup k m) (lookup k acc.records)
unfolding add_provenance_lines provenance_lines lookup
lookup-add_provenance_lines [] acc k s b = refl
lookup-add_provenance_lines ((i, invalid) ∷ m) acc k s b = ground (
  arith,
  lookup-add_provenance_lines m acc k (ground arith) (ground arith),
  lookup-above i m (ground arith),
  beq_iff i k,
)
lookup-add_provenance_lines ((i, signal_only g) ∷ m) acc k s b =
    ap (λ (p : SignalStopProvenanceLedger). lookup k p.records)
      (add_provenance_lines-cons i g m acc (ground arith) (ground arith))
    ∙ ground (
      arith,
      lookup-add_provenance_lines m (with_proof i g acc) k (ground arith) (ground arith),
      lookup-insert i k (if contains i acc.records then invalid else signal_only g) acc.records,
      lookup-above i m (ground arith),
      beq_iff i k,
    )

pub trusted-add_provenance_lines :
    (m : Map SignalStopIdentity SignalStopProvenanceRecord) (acc : SignalStopProvenanceLedger)
    → all_bounded m ≡ true
    → (add_provenance_lines (provenance_lines m) acc).globally_untrusted ≡ acc.globally_untrusted
unfolding add_provenance_lines provenance_lines
trusted-add_provenance_lines [] acc b = refl
trusted-add_provenance_lines ((i, invalid) ∷ m) acc b =
    trusted-add_provenance_lines m acc (ground arith)
trusted-add_provenance_lines ((i, signal_only g) ∷ m) acc b =
    ap (λ (p : SignalStopProvenanceLedger). p.globally_untrusted)
      (add_provenance_lines-cons i g m acc (ground arith) (ground arith))
    ∙ trusted-add_provenance_lines m (with_proof i g acc) (ground arith)

provenance_line-is_line :
    (i : SignalStopIdentity) (g : SignalStopLedgerGeneration) → is_line (provenance_line i g) ≡ true
unfolding txt
provenance_line-is_line (pid, start) g = ground (
  arith,
  is_line-append (show_int pid)
      (b' ' ∷ show start ++ (b' ' ∷ txt "SignalOnly" ++ (b' ' ∷ sidecar_token g))),
  is_line-append (show start) (b' ' ∷ txt "SignalOnly" ++ (b' ' ∷ sidecar_token g)),
  word-is_line (show_int pid) (show_int-is_word pid),
  word-is_line (show start) (show-is_word start),
  word-is_line (sidecar_token g) (token-is_word g),
)

pub provenance_lines-are_lines :
    (m : Map SignalStopIdentity SignalStopProvenanceRecord)
    → all is_line (provenance_lines m) ≡ true
unfolding provenance_lines
provenance_lines-are_lines [] = refl
provenance_lines-are_lines ((i, invalid) ∷ m) = provenance_lines-are_lines m
provenance_lines-are_lines ((i, signal_only g) ∷ m) =
    ground (arith, provenance_line-is_line i g, provenance_lines-are_lines m)
