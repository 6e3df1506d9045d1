-- ===== src/Tests/Ledger.antt =====
-- The ledger of stopped processes on a disk in memory.
use freezeit_cos.Base.{
  pos, txt, show, show_int, digits, lookup, insert, remove, retain, join, [], ◌∷◌, some, none, true,
  ◌≡◌, ◌⊎◌, refl, pair_key, int_key, nat_key,
}
use freezeit_cos.Base.Parse.{
  is_whitespace, split_word, split_whitespace, lines, digits_value, parse_unsigned, parse_i32,
}
use freezeit_cos.Domain.Error.{ok}
use freezeit_cos.Control.World.{SignalStopOwnership}
use freezeit_cos.Ledger.{
  SignalStopIdentity, canonical, residual_unknown, retain_entries, is_signal_only,
  discard_untrusted_records, retain_current_generation, rebind_records, rebind_to_generation,
  retain_canonical_main_provenance,
}
use freezeit_cos.Ledger.Files.{write_signal_stop_ledger_file}
use freezeit_cos.Ledger.Files.Writes.{written}
use freezeit_cos.Ledger.Encoding.{
  sidecar_token, split_once_colon, parse_token, from_sidecar_token, parse_identity, add_main_line,
  add_main_lines, read_signal_stop_ledger, provenance_record, add_provenance_line,
  add_provenance_lines, read_signal_stop_provenance, identity_line, main_lines, provenance_lines,
}
use freezeit_cos.Ledger.Operations.{
  ledger_ownership, ownership_in, recorded_signal_stop_ownership, rebind_and_write,
  rewrite_main_ledger_with_rebound_provenance, kept_provenance, record_in,
  record_freezeit_signal_stop, take_from, take_freezeit_signal_stop, write_promoted,
  promote_canonical, promote_in, promote_freezeit_signal_stop,
}
use freezeit_cos.Ledger.Operations.Rewrite.{main_ledger_round_trip, found_in}
use freezeit_cos.Ledger.Refinement.{
  set_to, is_owned, record_freezeit_signal_stop_lem, take_freezeit_signal_stop_lem,
}
use freezeit_cos.Ledger.Claims.{
  record_call, promote_call, step, run, promotes_in, promote_freezeit_signal_stop_lem,
}
use freezeit_cos.Ledger.Claims.Origin.{IsSignalOnly, IsSignalOnly-origin}
use freezeit_cos.Tests.Disk.{Disk, disk, disk-IsFileSystem, empty_disk}

abbrev first : SignalStopIdentity
first = (pos 42, 7)

abbrev second : SignalStopIdentity
second = (pos 43, 9)

recorded_disk : Disk
unfolding record_freezeit_signal_stop record_in rewrite_main_ledger_with_rebound_provenance
    rebind_and_write kept_provenance retain_canonical_main_provenance retain_current_generation
    discard_untrusted_records retain_entries remove retain insert lookup read_signal_stop_ledger
    read_signal_stop_provenance write_signal_stop_ledger_file main_lines identity_line show show_int
    digits join
recorded_disk = (record_freezeit_signal_stop disk first empty_disk).1

record_freezeit_signal_stop_lem_example :
    recorded_signal_stop_ownership disk first (record_freezeit_signal_stop disk first empty_disk).1
    ≡ set_to first
        (some SignalStopOwnership.residual_unknown)
        first
        (recorded_signal_stop_ownership disk first empty_disk)
unfolding record_freezeit_signal_stop record_in rewrite_main_ledger_with_rebound_provenance
    rebind_and_write kept_provenance retain_canonical_main_provenance retain_current_generation
    discard_untrusted_records retain_entries remove retain insert lookup read_signal_stop_ledger
    read_signal_stop_provenance write_signal_stop_ledger_file main_lines identity_line show show_int
    digits join
record_freezeit_signal_stop_lem_example =
    record_freezeit_signal_stop_lem disk disk-IsFileSystem first first empty_disk refl refl

recorded_first :
    recorded_signal_stop_ownership disk first recorded_disk
    ≡ ok (some SignalStopOwnership.residual_unknown)
unfolding recorded_disk record_freezeit_signal_stop record_in
    rewrite_main_ledger_with_rebound_provenance rebind_and_write kept_provenance
    retain_canonical_main_provenance retain_current_generation discard_untrusted_records
    retain_entries remove retain insert lookup read_signal_stop_ledger read_signal_stop_provenance
    write_signal_stop_ledger_file main_lines identity_line show show_int digits join add_main_lines
    add_main_line parse_identity lines split_whitespace split_word is_whitespace digits_value
    parse_unsigned parse_i32 recorded_signal_stop_ownership ownership_in ledger_ownership
    is_signal_only
recorded_first = refl

take_freezeit_signal_stop_lem_example :
    (recorded_signal_stop_ownership disk second
        (take_freezeit_signal_stop disk first recorded_disk).1
      ≡ set_to first none second (recorded_signal_stop_ownership disk second recorded_disk))
    × (is_owned (recorded_signal_stop_ownership disk first recorded_disk) ≡ true)
unfolding recorded_disk take_freezeit_signal_stop take_from record_freezeit_signal_stop record_in
    rewrite_main_ledger_with_rebound_provenance rebind_and_write kept_provenance
    retain_canonical_main_provenance retain_current_generation discard_untrusted_records
    retain_entries remove retain insert lookup read_signal_stop_ledger read_signal_stop_provenance
    write_signal_stop_ledger_file main_lines identity_line show show_int digits join add_main_lines
    add_main_line parse_identity lines split_whitespace split_word is_whitespace digits_value
    parse_unsigned parse_i32
take_freezeit_signal_stop_lem_example =
    take_freezeit_signal_stop_lem disk disk-IsFileSystem first second recorded_disk true refl

promote_freezeit_signal_stop_lem_example :
    (recorded_signal_stop_ownership disk first
        (promote_freezeit_signal_stop disk first recorded_disk).1
      ≡ set_to first
          (some SignalStopOwnership.signal_only)
          first
          (recorded_signal_stop_ownership disk first recorded_disk))
    × (is_owned (recorded_signal_stop_ownership disk first recorded_disk) ≡ true)
unfolding recorded_disk promote_freezeit_signal_stop promote_in promote_canonical write_promoted
    provenance_lines sidecar_token txt add_provenance_lines add_provenance_line provenance_record
    from_sidecar_token parse_token split_once_colon is_signal_only rebind_records
    rebind_to_generation record_freezeit_signal_stop record_in
    rewrite_main_ledger_with_rebound_provenance rebind_and_write kept_provenance
    retain_canonical_main_provenance retain_current_generation discard_untrusted_records
    retain_entries remove retain insert lookup read_signal_stop_ledger read_signal_stop_provenance
    write_signal_stop_ledger_file main_lines identity_line show show_int digits join add_main_lines
    add_main_line parse_identity lines split_whitespace split_word is_whitespace digits_value
    parse_unsigned parse_i32
promote_freezeit_signal_stop_lem_example =
    promote_freezeit_signal_stop_lem disk disk-IsFileSystem first first recorded_disk refl refl

-- Recorded, promoted, and beside another one that is recorded later.
IsSignalOnly-origin_example :
    IsSignalOnly disk disk-IsFileSystem first empty_disk
    ⊎ (promotes_in disk first
          (record_call first ∷ promote_call first ∷ record_call second ∷ [])
          empty_disk
        ≡ true)
unfolding step run promote_freezeit_signal_stop promote_in promote_canonical write_promoted
    provenance_lines sidecar_token txt add_provenance_lines add_provenance_line provenance_record
    from_sidecar_token parse_token split_once_colon is_signal_only rebind_records
    rebind_to_generation record_freezeit_signal_stop record_in
    rewrite_main_ledger_with_rebound_provenance rebind_and_write kept_provenance
    retain_canonical_main_provenance retain_current_generation discard_untrusted_records
    retain_entries remove retain insert lookup read_signal_stop_ledger read_signal_stop_provenance
    write_signal_stop_ledger_file main_lines identity_line show show_int digits join add_main_lines
    add_main_line parse_identity lines split_whitespace split_word is_whitespace digits_value
    parse_unsigned parse_i32 recorded_signal_stop_ownership ownership_in ledger_ownership
IsSignalOnly-origin_example =
    IsSignalOnly-origin disk disk-IsFileSystem first
      (record_call first ∷ promote_call first ∷ record_call second ∷ []) empty_disk refl refl

main_ledger_round_trip_example :
    found_in second (
      read_signal_stop_ledger
        (written (main_lines ((first, canonical) ∷ (second, residual_unknown) ∷ []))))
    ≡ ok (some canonical)
unfolding lookup
main_ledger_round_trip_example =
    main_ledger_round_trip ((first, canonical) ∷ (second, residual_unknown) ∷ []) second refl
