-- ===== src/Ledger/Encoding/RoundTrip.antt =====
-- The main file of the ledger, written and read again.
use freezeit_cos.Base.{
  Text, show, show_int, Map, lookup, int_key, nat_key, pair_key, list_key, beq_iff, List, [], ◌∷◌,
  ◌++◌, some, Bool, true, false, any, all, ◌&&◌, contains, ◌==◌, if◌then◌else◌, ltb, ◌^◌, ◌<◌, ◌≡◌,
  refl, ap, ◌∙◌, arith, lookup-insert,
}
use freezeit_cos.Base.Maps.Sorted.{is_sorted, lookup-above}
use freezeit_cos.Base.Parse.{split_whitespace, in_i32}
use freezeit_cos.Base.Parse.RoundTrip.{
  all_digits, all_digits-show, parse_unsigned-show, parse_i32-show, show-is_word, show_int-is_word,
  is_word,
}
use freezeit_cos.Base.Parse.Words.{
  split_whitespace-cons, split_whitespace-word, is_line, is_line-append, blank_free-is_line,
  lines-join,
}
use freezeit_cos.Domain.Error.{ok}
use freezeit_cos.Ledger.{
  SignalStopIdentity, SignalStopLedgerRecord, canonical, residual_unknown,
  SignalStopLedgerGeneration, MainLedger,
}
use freezeit_cos.Ledger.Files.Writes.{written}
use freezeit_cos.Ledger.Encoding.{
  sidecar_token, split_once_colon, parse_token, from_sidecar_token, parse_identity, add_entry,
  add_main_line, add_main_lines, read_signal_stop_ledger, add_provenance_lines,
  read_signal_stop_provenance, identity_line, main_lines, no_provenance,
}

-- An identity of the kernel: a process id of 32 bits and a start time of 64.
abbrev pub in_range : SignalStopIdentity → Bool
in_range (pid, start_time_ticks) = in_i32 pid && ltb start_time_ticks (2 ^ 64)

abbrev pub all_in_range {ℓ} : {V : Type ℓ} → Map SignalStopIdentity V → Bool
all_in_range = all λ entry. in_range entry.0

fields_of_identity :
    (identity : SignalStopIdentity)
    → split_whitespace (identity_line identity) ≡ show_int identity.0 ∷ show identity.1 ∷ []
unfolding identity_line
fields_of_identity (pid, start) =
    rw
      (
        split_whitespace-cons (show_int pid) (show start) (show_int-is_word pid),
        split_whitespace-word (show start) (show-is_word start),
      )
      refl

pub parse_identity_lem :
    (identity : SignalStopIdentity)
    → in_range identity ≡ true
    → parse_identity (show_int identity.0) (show identity.1) ≡ some identity
unfolding parse_identity
parse_identity_lem (pid, start) h =
    rw
      (
        parse_i32-show pid (ground arith),
        parse_unsigned-show 64 start (ground arith) (ground arith),
      )
      refl

-- The line of an identity adds it to what was read.
add_main_line_lem :
    (identity : SignalStopIdentity) (m : MainLedger)
    → in_range identity ≡ true
    → add_main_line (split_whitespace (identity_line identity)) m
      ≡ add_entry residual_unknown identity canonical m
unfolding add_main_line
add_main_line_lem identity m h =
    rw (fields_of_identity identity, parse_identity_lem identity h) refl

add_main_lines-cons :
    (j : SignalStopIdentity) (v : SignalStopLedgerRecord) (m acc : MainLedger)
    → in_range j ≡ true
    → add_main_lines (main_lines ((j, v) ∷ m)) acc
      ≡ add_main_lines (main_lines m) (add_entry residual_unknown j canonical acc)
unfolding add_main_lines main_lines
add_main_lines-cons j v m acc r = ap (add_main_lines (main_lines m)) (add_main_line_lem j acc r)

pub lookup-add_main_lines :
    (m acc : MainLedger) (k : SignalStopIdentity)
    → is_sorted m ≡ true
    → all_in_range m ≡ true
    → lookup k (add_main_lines (main_lines m) acc) ≡ (
        if contains k m
        then some (if contains k acc then residual_unknown else canonical)
        else lookup k acc)
unfolding add_main_lines main_lines lookup
lookup-add_main_lines [] acc k s r = refl
lookup-add_main_lines ((j, v) ∷ m) acc k s r =
    ap (lookup k) (add_main_lines-cons j v m acc (ground arith))
    ∙ ground (
      arith,
      lookup-add_main_lines m (add_entry residual_unknown j canonical acc) k,
      lookup-insert j k (if contains j acc then residual_unknown else canonical) acc,
      lookup-above j m,
      beq_iff j k,
    )

pub word-is_line : (w : Text) → is_word w ≡ true → is_line w ≡ true
word-is_line [] h = refl
word-is_line (c ∷ w) h = blank_free-is_line (c ∷ w) h

identity_line-is_line : (i : SignalStopIdentity) → is_line (identity_line i) ≡ true
unfolding identity_line
identity_line-is_line (pid, start) = ground (
  arith,
  is_line-append (show_int pid) (b' ' ∷ show start),
  word-is_line (show_int pid) (show_int-is_word pid),
  word-is_line (show start) (show-is_word start),
)

pub main_lines-are_lines : (m : MainLedger) → all is_line (main_lines m) ≡ true
unfolding main_lines
main_lines-are_lines [] = refl
main_lines-are_lines ((i, v) ∷ m) = ground (arith, identity_line-is_line i, main_lines-are_lines m)

pub read_written_main :
    (ls : List Text)
    → all is_line ls ≡ true
    → read_signal_stop_ledger (written ls) ≡ ok (add_main_lines ls [])
unfolding read_signal_stop_ledger add_main_lines
read_written_main [] h = refl
read_written_main (l ∷ ls) h = rw (lines-join l ls h) refl

pub read_written_provenance :
    (ls : List Text)
    → all is_line ls ≡ true
    → read_signal_stop_provenance (written ls) ≡ add_provenance_lines ls no_provenance
unfolding read_signal_stop_provenance add_provenance_lines
read_written_provenance [] h = refl
read_written_provenance (l ∷ ls) h = rw (lines-join l ls h) refl

split_once_colon-append :
    (s t : Text) → all_digits s ≡ true → split_once_colon (s ++ (b':' ∷ t)) ≡ some (s, t)
unfolding split_once_colon
split_once_colon-append [] t h = refl
split_once_colon-append (c ∷ s) t h = ground (arith, split_once_colon-append s t)

no_colon : (s : Text) → all_digits s ≡ true → any (λ c. c == b':') s ≡ false
no_colon [] h = refl
no_colon (c ∷ s) h = ground (arith, no_colon s)

-- A token is read back as the generation it was made of.
pub from_sidecar_token-sidecar_token :
    (g : SignalStopLedgerGeneration)
    → g.device < 2 ^ 64
    → g.inode < 2 ^ 64
    → from_sidecar_token (sidecar_token g) ≡ some g
unfolding from_sidecar_token sidecar_token parse_token
from_sidecar_token-sidecar_token g d i =
    rw
      (
        split_once_colon-append (show g.device) (show g.inode) (all_digits-show g.device),
        no_colon (show g.inode) (all_digits-show g.inode),
        parse_unsigned-show 64 g.device (ground arith) d,
        parse_unsigned-show 64 g.inode (ground arith) i,
      )
      refl
