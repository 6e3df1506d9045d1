-- ===== src/Protocol/Hook/Fields.antt =====
-- The top-level fields of the hook's health report, and what they say of the hook:
-- freezeitDaemon/src/protocol/xposed.rs.
pub mod Rounds
use freezeit_cos.Base.{
  ℕ, zero, suc, ◌+◌, ◌≤◌, ◌<◌, Text, txt, beq, list_key, nat_key, List, [], ◌∷◌, ◌++◌, length,
  is_empty, Option, none, some, Bool, true, false, ◌||◌, if◌then◌else◌, ◌==◌, ◌≡◌, refl, ap, ◌∙◌,
  arith,
}
use freezeit_cos.Protocol.Bytes.{Bytes}
use freezeit_cos.Protocol.Hook.{
  HookBridgeStatus, active, degraded, skip_json_whitespace, parse_json_string, bind, value,
  skip_json, skip_json_value, skip_within, calls_for,
}

abbrev pub closing : Option Text → Bytes → Option (Option Text)
closing found s = if is_empty (skip_json_whitespace s) then some found else none

-- The loop of `top_level_json_string_field`, by the call of the next round. The outer option is
-- the error, the inner one the field.
module _ (field : Text) (again : Option Text → Bytes → Option (Option Text)) where
  unfoldable pub after_field : Option Text → Bytes → Option (Option Text)
  after_field found [] = none
  after_field found (c ∷ s) = elim (c == b',') [
    | true ↦ again found s
    | false ↦ if c == b'}' then closing found s else none
  ]

  unfoldable pub field_value : Option Text → Text → Bytes → Option (Option Text)
  field_value found key s = elim (beq key field) [
    | true ↦ bind (parse_json_string s) λ v. after_field (some v.0) (skip_json_whitespace v.1)
    | false ↦ bind (skip_json_value 0 s) λ rest. after_field found (skip_json_whitespace rest)
  ]

  unfoldable pub after_name : Option Text → Text → Bytes → Option (Option Text)
  after_name found key [] = none
  after_name found key (c ∷ s) = elim (c == b':') [
    | true ↦ field_value found key (skip_json_whitespace s)
    | false ↦ none
  ]

  unfoldable pub next_field : Option Text → Bytes → Option (Option Text)
  next_field found [] = none
  next_field found (c ∷ s) = elim (c == b'}') [
    | true ↦ closing found s
    | false ↦
        bind (parse_json_string (c ∷ s)) λ key. after_name found key.0 (skip_json_whitespace key.1)
  ]

  unfoldable pub field_step : Option Text → Bytes → Option (Option Text)
  field_step found s = next_field found (skip_json_whitespace s)

-- At most so many rounds.
unfoldable pub fields_within : ℕ → Text → Option Text → Bytes → Option (Option Text)
fields_within zero field found s = none
fields_within (suc n) field found s = field_step field (fields_within n field) found s

unfoldable pub fields : Text → Option Text → Bytes → Option (Option Text)
fields field found s = fields_within (length s + 1) field found s

abbrev pub open_object : Text → Bytes → Option (Option Text)
open_object field [] = none
open_object field (c ∷ s) = if c == b'{' then fields field none s else none

unfoldable pub top_level_json_string_field : Text → Bytes → Option (Option Text)
top_level_json_string_field field payload = open_object field (skip_json_whitespace payload)

unfoldable pub unrecognized : Text → HookBridgeStatus
unrecognized payload = degraded (txt "unrecognized hook health payload: " ++ payload)

unfoldable pub status_of_field : Text → Option Text → HookBridgeStatus
status_of_field payload none = unrecognized payload
status_of_field payload (some status) =
    if beq status (txt "active")
    then active
    else if beq status (txt "degraded")
        || (beq status (txt "inactive") || beq status (txt "missing"))
    then degraded payload
    else unrecognized payload

abbrev pub older_status : Text → Option (Option Text) → HookBridgeStatus
older_status payload none = unrecognized payload
older_status payload (some status) = status_of_field payload status

unfoldable pub control_status : Text → Bytes → Option (Option Text) → HookBridgeStatus
control_status payload bytes none = unrecognized payload
control_status payload bytes (some (some status)) = status_of_field payload (some status)
control_status payload bytes (some none) =
    older_status payload (top_level_json_string_field (txt "status") bytes)

-- The payload, and its bytes.
unfoldable pub classify_hook_health_payload : Text → Bytes → HookBridgeStatus
classify_hook_health_payload payload bytes =
    control_status payload bytes (top_level_json_string_field (txt "system_control_status") bytes)
