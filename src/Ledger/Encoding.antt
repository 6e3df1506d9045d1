-- ===== src/Ledger/Encoding.antt =====
-- The text of the two files of the signal-stop ledger: freezeitDaemon/src/sys/procfs.rs.
pub mod RoundTrip
pub mod Sidecar
pub mod Bounds
use freezeit_cos.Base.{
  ℕ, ℤ, Text, txt, show, show_int, Map, lookup, insert, keys, int_key, nat_key, pair_key, list_key,
  beq, List, [], ◌∷◌, ◌++◌, map, Option, none, some, Bool, true, false, any, contains,
  if◌then◌else◌, ◌==◌,
}
use freezeit_cos.Base.Parse.{split_whitespace, lines, parse_unsigned, parse_i32}
use freezeit_cos.Domain.Error.{Result, ok, err}
use freezeit_cos.Ledger.{
  SignalStopIdentity, SignalStopLedgerRecord, canonical, residual_unknown,
  SignalStopLedgerGeneration, SignalStopProvenanceRecord, signal_only, invalid,
  SignalStopProvenanceLedger, MainLedger,
}
use freezeit_cos.Ledger.Files.{ReadText, content, not_found, failed}

unfoldable pub sidecar_token : SignalStopLedgerGeneration → Text
sidecar_token g = show g.device ++ (b':' ∷ show g.inode)

abbrev pub at_front : ℕ → Option (Text × Text) → Option (Text × Text)
at_front c none = none
at_front c (some (s, t)) = some (c ∷ s, t)

-- `str::split_once(':')`
unfoldable pub split_once_colon : Text → Option (Text × Text)
split_once_colon [] = none
split_once_colon (c ∷ s) =
    let rest = split_once_colon s in if c == b':' then some ([], s) else at_front c rest

abbrev pub generation_from : Option ℕ → Option ℕ → Option SignalStopLedgerGeneration
generation_from (some device) (some inode) = some (record { device = device; inode = inode })
generation_from _ _ = none

unfoldable pub parse_token : Option (Text × Text) → Option SignalStopLedgerGeneration
parse_token none = none
parse_token (some (device, inode)) =
    if any (λ c. c == b':') inode
    then none
    else generation_from (parse_unsigned 64 device) (parse_unsigned 64 inode)

unfoldable pub from_sidecar_token : Text → Option SignalStopLedgerGeneration
unfolding parse_token split_once_colon
from_sidecar_token token = parse_token (split_once_colon token)

abbrev pub identity_of : Option ℤ → Option ℕ → Option SignalStopIdentity
identity_of (some pid) (some start_time_ticks) = some (pid, start_time_ticks)
identity_of _ _ = none

unfoldable pub parse_identity : Text → Text → Option SignalStopIdentity
parse_identity pid start_time_ticks =
    identity_of (parse_i32 pid) (parse_unsigned 64 start_time_ticks)

-- `entry(identity).and_modify(|current| *current = worst).or_insert(value)`
abbrev pub add_entry {ℓ} :
    {V : Type ℓ} → V → SignalStopIdentity → V → Map SignalStopIdentity V → Map SignalStopIdentity V
add_entry worst identity value m = insert identity (if contains identity m then worst else value) m

abbrev pub add_main_entry :
    Option SignalStopIdentity → SignalStopLedgerRecord → MainLedger → MainLedger
add_main_entry none r m = m
add_main_entry (some identity) r m = add_entry residual_unknown identity r m

-- One line of the main ledger, by its fields.
unfoldable pub add_main_line : List Text → MainLedger → MainLedger
unfolding parse_identity
add_main_line [] m = m
add_main_line (pid ∷ []) m = m
add_main_line (pid ∷ start ∷ []) m = add_main_entry (parse_identity pid start) canonical m
add_main_line (pid ∷ start ∷ other ∷ rest) m =
    add_main_entry (parse_identity pid start) residual_unknown m

unfoldable pub add_main_lines : List Text → MainLedger → MainLedger
unfolding add_main_line
add_main_lines [] m = m
add_main_lines (line ∷ rest) m = add_main_lines rest (add_main_line (split_whitespace line) m)

unfoldable pub read_signal_stop_ledger : ReadText → Result MainLedger
unfolding add_main_lines
read_signal_stop_ledger (content s) = ok (add_main_lines (lines s) [])
read_signal_stop_ledger not_found = ok []
read_signal_stop_ledger (failed e) = err e

abbrev pub proof_or_invalid : Option SignalStopLedgerGeneration → SignalStopProvenanceRecord
proof_or_invalid none = invalid
proof_or_invalid (some generation) = signal_only generation

-- What the fields after the identity say.
unfoldable pub provenance_record : List Text → SignalStopProvenanceRecord
unfolding from_sidecar_token
provenance_record (kind ∷ token ∷ []) =
    if beq kind (txt "SignalOnly") then proof_or_invalid (from_sidecar_token token) else invalid
provenance_record _ = invalid

abbrev pub untrusted : SignalStopProvenanceLedger → SignalStopProvenanceLedger
untrusted provenance = record provenance { globally_untrusted = true }

abbrev pub add_provenance_entry :
    Option SignalStopIdentity
    → SignalStopProvenanceRecord
    → SignalStopProvenanceLedger
    → SignalStopProvenanceLedger
add_provenance_entry none r provenance = untrusted provenance
add_provenance_entry (some identity) r provenance = record provenance {
  records = add_entry invalid identity r provenance.records;
}

unfoldable pub add_provenance_line :
    List Text → SignalStopProvenanceLedger → SignalStopProvenanceLedger
unfolding parse_identity provenance_record
add_provenance_line [] provenance = untrusted provenance
add_provenance_line (pid ∷ []) provenance = untrusted provenance
add_provenance_line (pid ∷ start ∷ rest) provenance =
    add_provenance_entry (parse_identity pid start) (provenance_record rest) provenance

unfoldable pub add_provenance_lines :
    List Text → SignalStopProvenanceLedger → SignalStopProvenanceLedger
unfolding add_provenance_line
add_provenance_lines [] provenance = provenance
add_provenance_lines (line ∷ rest) provenance =
    add_provenance_lines rest (add_provenance_line (split_whitespace line) provenance)

abbrev pub no_provenance : SignalStopProvenanceLedger
no_provenance = record { records = []; globally_untrusted = false }

unfoldable pub read_signal_stop_provenance : ReadText → SignalStopProvenanceLedger
unfolding add_provenance_lines
read_signal_stop_provenance (content s) = add_provenance_lines (lines s) no_provenance
read_signal_stop_provenance not_found = no_provenance
read_signal_stop_provenance (failed e) = untrusted no_provenance

unfoldable pub identity_line : SignalStopIdentity → Text
identity_line (pid, start_time_ticks) = show_int pid ++ (b' ' ∷ show start_time_ticks)

-- The lines of `write_signal_stop_ledger`.
unfoldable pub main_lines : MainLedger → List Text
unfolding identity_line
main_lines [] = []
main_lines ((identity, r) ∷ m) = identity_line identity ∷ main_lines m

-- The lines of `write_signal_stop_provenance`.
unfoldable pub provenance_lines : Map SignalStopIdentity SignalStopProvenanceRecord → List Text
unfolding sidecar_token
provenance_lines [] = []
provenance_lines (((pid, start_time_ticks), signal_only g) ∷ m) =
    (show_int pid
      ++ (b' ' ∷ show start_time_ticks ++ (b' ' ∷ txt "SignalOnly" ++ (b' ' ∷ sidecar_token g))))
    ∷ provenance_lines m
provenance_lines ((identity, invalid) ∷ m) = provenance_lines m
