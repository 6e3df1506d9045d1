-- ===== src/Tests/Protocol.antt =====
-- Frames, records, settings and the manager's log on concrete inputs.
use freezeit_cos.Base.{
  pos, Text, txt, [], ◌∷◌, length, some, Bool, true, lookup, ◌≡◌, ◌≢◌, ◌⊎◌, refl, arith,
}
use freezeit_cos.Domain.Error.{Result, ok}
use freezeit_cos.Settings.{legacy_default_settings}
use freezeit_cos.Control.Settings.{ManagerAppConfigRecord}
use freezeit_cos.Protocol.Bytes.{Bytes}
use freezeit_cos.Protocol.Commands.{ManagerCommand, manager_command}
use freezeit_cos.Protocol.Frames.{
  parse_manager_frame, parse_manager_payload, encode_manager_frame, payload_checksum, checksum,
  xor_from,
}
use freezeit_cos.Protocol.Frames.RoundTrip.{
  then_parse, manager_frame_round_trip, parsed_manager_frame,
}
use freezeit_cos.Protocol.Records.{merge_app_config_records}
use freezeit_cos.Protocol.Records.Merge.{record_of, merge_app_config_records_lem}
use freezeit_cos.Protocol.Hook.{
  active, after_key, after_member, parse_json_string, string_body, string_step, value, skip_json,
  skip_within, skip_step, at_value, at_scalar, open_with, after_element, skip_json_whitespace,
  skip_number,
}
use freezeit_cos.Protocol.Hook.Fields.{
  classify_hook_health_payload, control_status, status_of_field, top_level_json_string_field,
  fields, fields_within, field_step, next_field, after_name, field_value, after_field,
}
use freezeit_cos.Protocol.Hook.Json.{
  Json, number, string, array, object, element, last_element, last_member,
}
use freezeit_cos.Protocol.Setting.{SettingsState, set_settings_var, set_at}
use freezeit_cos.Protocol.Setting.Outcome.{IsInRange, IsStored, IsUnstored, set_settings_var_lem}
use freezeit_cos.ManagerLog.{new_log, operation_record}
use freezeit_cos.ManagerLog.Bounded.{
  IsBounded, push_call, push_once_call, clear_call, run_log, run-IsBounded,
}
use freezeit_cos.Tests.Device.{frozen_config, an_operation}

manager_frame_round_trip_example :
    then_parse parse_manager_frame
      (encode_manager_frame ManagerCommand.set_settings_var (13 ∷ 1 ∷ []))
    ≡ ok (record { command = ManagerCommand.set_settings_var; payload = 13 ∷ 1 ∷ [] })
manager_frame_round_trip_example =
    manager_frame_round_trip ManagerCommand.set_settings_var (13 ∷ 1 ∷ []) (omega arith)

-- The frame of the last example, as bytes.
abbrev a_frame : Bytes
a_frame = 2 ∷ 0 ∷ 0 ∷ 0 ∷ 23 ∷ 12 ∷ 13 ∷ 1 ∷ []

parsed_manager_frame_example :
    encode_manager_frame ManagerCommand.set_settings_var (13 ∷ 1 ∷ []) ≡ ok a_frame
unfolding parse_manager_frame parse_manager_payload payload_checksum checksum xor_from
    manager_command lookup
parsed_manager_frame_example =
    parsed_manager_frame a_frame
      (record { command = ManagerCommand.set_settings_var; payload = 13 ∷ 1 ∷ [] }) refl refl

abbrev a_change : ManagerAppConfigRecord
a_change = record { uid = 10_123; mode = pos 40; permissive = true }

merge_app_config_records_lem_example :
    record_of 10_123 (merge_app_config_records (frozen_config ∷ []) (a_change ∷ [])) ≡ some a_change
merge_app_config_records_lem_example =
    merge_app_config_records_lem 10_123 (frozen_config ∷ []) (a_change ∷ []) (ground arith)

-- A disk that takes every write.
abbrev written : Text → Bytes → Bool → Result (Unit {0}) × Bool
written path bytes w = (ok tt, w)

abbrev read_back : Text → Bytes → Bool → Bool
read_back path bytes w = w

abbrev a_state : SettingsState
unfolding legacy_default_settings
a_state = record {
  settings = legacy_default_settings;
  settings_path = some (txt "/data/adb/settings.db");
  config_revision = 7;
  hook_config_synced = true;
}

abbrev longer_delay : Bytes
longer_delay = set_at 2 30 a_state.settings

set_settings_var_lem_example :
    let out = set_settings_var written read_back a_state (2 ∷ 30 ∷ []) true in
    let stored = (written (txt "/data/adb/settings.db") longer_delay true).0 in
    ((¬ (IsInRange 2 30)) × (out.1 ≡ a_state) × (out.2 ≡ true))
    ⊎ (IsInRange 2 30 × (stored ≡ ok tt) × IsStored written read_back longer_delay out)
    ⊎ (IsInRange 2 30
        × (stored ≢ ok tt)
        × IsUnstored written read_back a_state (txt "/data/adb/settings.db") longer_delay out)
unfolding a_state legacy_default_settings
set_settings_var_lem_example =
    set_settings_var_lem written read_back a_state 2 30 (txt "/data/adb/settings.db") true refl refl

run-IsBounded_example : IsBounded length length (
    run_log length length
      (push_call (operation_record an_operation)
        ∷ clear_call 4
        ∷ push_once_call (operation_record an_operation)
        ∷ [])
      (new_log 1))
run-IsBounded_example = run-IsBounded length length 1 (
    push_call (operation_record an_operation)
    ∷ clear_call 4
    ∷ push_once_call (operation_record an_operation)
    ∷ [])

-- `[{"a":1},"x"]`, in an object that goes on.
abbrev an_array : Json
an_array =
    array (element (object (last_member (txt "a") (number 1 []))) (last_element (string (txt "x"))))

skip_array : skip_json (value 0) (txt "[1]") ≡ some []
unfolding skip_json skip_within skip_step at_value at_scalar open_with after_element
    skip_json_whitespace skip_number txt
skip_array = refl

-- The status that counts is the top-level one for control, past an array that says otherwise.
hook_active :
    classify_hook_health_payload
      (txt "{\"a\":[{\"status\":\"x\"}],\"system_control_status\":\"active\"}")
      (txt "{\"a\":[{\"status\":\"x\"}],\"system_control_status\":\"active\"}")
    ≡ active
unfolding classify_hook_health_payload control_status status_of_field top_level_json_string_field
    fields fields_within field_step next_field after_name field_value after_field skip_json
    skip_within skip_step at_value at_scalar open_with after_element after_key after_member
    skip_json_whitespace skip_number parse_json_string string_body string_step txt
hook_active = refl
