-- ===== src/Protocol/Hook.antt =====
-- The health report of the hook: freezeitDaemon/src/protocol/xposed.rs. A position in the bytes
-- is the list of the bytes that are left.
pub mod Fuel
pub mod Recursion
pub mod Fields
pub mod Json
pub mod Opening
pub mod Skipping
use freezeit_cos.Base.{
  ℕ, zero, suc, ◌+◌, ◌*◌, Text, txt, contains_text, beq, list_key, nat_key, List, [], ◌∷◌, ◌++◌,
  length, Option, none, some, Bool, true, false, not, ◌&&◌, ◌||◌, ltb, leb, ◌==◌, if◌then◌else◌,
}
use freezeit_cos.Domain.Error.{DaemonError, display}
use freezeit_cos.Protocol.Bytes.{Bytes}

pub data HookBridgeStatus : Type 0 where
  active : HookBridgeStatus
  missing degraded : Text → HookBridgeStatus

unfoldable pub classify_bridge_error : DaemonError → HookBridgeStatus
classify_bridge_error error =
    let message = display error in
    if contains_text (txt "No such file") message
      || (contains_text (txt "Connection refused") message
          || contains_text (txt "not found") message)
    then missing message
    else degraded message

abbrev pub max_health_json_nesting : ℕ
max_health_json_nesting = 64

unfoldable pub skip_json_whitespace : Bytes → Bytes
skip_json_whitespace [] = []
skip_json_whitespace (c ∷ s) =
    let rest = skip_json_whitespace s in
    if c == b' ' || (c == 10 || (c == 13 || c == 9)) then rest else c ∷ s

abbrev pub is_hex : ℕ → Bool
is_hex c = (leb b'0' c && leb c b'9') || ((leb b'a' c && leb c b'f') || (leb b'A' c && leb c b'F'))

-- Within a string, after a backslash, or before so many more hexadecimal digits.
pub data StringMode : Type 0 where
  plain escaped : StringMode
  hex : ℕ → StringMode

-- The end of the string, a mistake, or one byte further on with what it adds.
pub data StringStep : Type 0 where
  closed broken : StringStep
  further : StringMode → Text → StringStep

unfoldable pub string_step : StringMode → ℕ → StringStep
string_step plain c =
    if c == b'"'
    then closed
    else if c == 92
    then further escaped []
    else if ltb c 32
    then broken
    else further plain (c ∷ [])
string_step escaped c =
    if c == b'"' || (c == 92 || c == b'/')
    then further plain (c ∷ [])
    else if c == b'b'
    then further plain (8 ∷ [])
    else if c == b'f'
    then further plain (12 ∷ [])
    else if c == b'n'
    then further plain (10 ∷ [])
    else if c == b'r'
    then further plain (13 ∷ [])
    else if c == b't'
    then further plain (9 ∷ [])
    else if c == b'u'
    then further (hex 3) []
    else broken
string_step (hex zero) c = if is_hex c then further plain (b'?' ∷ []) else broken
string_step (hex (suc n)) c = if is_hex c then further (hex n) [] else broken

unfoldable pub string_body : StringMode → Text → Bytes → Option (Text × Bytes)
string_body mode value [] = none
string_body mode value (c ∷ s) = elim (string_step mode c) [
  | closed ↦ some (value, s)
  | broken ↦ none
  | further next added ↦ string_body next (value ++ added) s
]

unfoldable pub parse_json_string : Bytes → Option (Text × Bytes)
parse_json_string [] = none
parse_json_string (c ∷ s) = if c == b'"' then string_body plain [] s else none

unfoldable pub consume_json_literal : Text → Bytes → Option Bytes
consume_json_literal [] s = some s
consume_json_literal (c ∷ literal) [] = none
consume_json_literal (c ∷ literal) (d ∷ s) =
    let rest = consume_json_literal literal s in if c == d then rest else none

abbrev pub is_number_byte : ℕ → Bool
is_number_byte c =
    (leb b'0' c && leb c b'9')
    || (c == b'+' || (c == b'-' || (c == b'.' || (c == b'e' || c == b'E'))))

unfoldable pub skip_number : Bytes → Bytes
skip_number [] = []
skip_number (c ∷ s) = let rest = skip_number s in if is_number_byte c then rest else c ∷ s

abbrev pub bind {ℓ κ} : {A : Type ℓ} {B : Type κ} → Option A → (A → Option B) → Option B
bind none f = none
bind (some a) f = f a

-- What is skipped: a value at a depth, or the rest of an object or of an array.
pub data Skipped : Type 0 where
  value members elements : ℕ → Skipped

abbrev pub after_string : Option (Text × Bytes) → Option Bytes
after_string none = none
after_string (some p) = some p.1

-- The values that hold no others.
unfoldable pub at_scalar : ℕ → Bytes → Option Bytes
at_scalar c s =
    if c == b'"'
    then after_string (parse_json_string (c ∷ s))
    else if c == b't'
    then consume_json_literal (txt "true") (c ∷ s)
    else if c == b'f'
    then consume_json_literal (txt "false") (c ∷ s)
    else if c == b'n'
    then consume_json_literal (txt "null") (c ∷ s)
    else if c == b'-' || (leb b'0' c && leb c b'9')
    then some (skip_number (c ∷ s))
    else none

-- `skip_json_value` and its two loops, by the calls that they make of themselves.
module _ (skip : Skipped → Bytes → Option Bytes) where
  unfoldable pub after_member : ℕ → Bytes → Option Bytes
  after_member depth [] = none
  after_member depth (c ∷ s) = elim (c == b',') [
    | true ↦ skip (members depth) (skip_json_whitespace s)
    | false ↦ if c == b'}' then some s else none
  ]

  unfoldable pub after_key : ℕ → Bytes → Option Bytes
  after_key depth [] = none
  after_key depth (c ∷ s) = elim (c == b':') [
    | true ↦
        bind (skip (value (depth + 1)) s) λ rest. after_member depth (skip_json_whitespace rest)
    | false ↦ none
  ]

  unfoldable pub after_element : ℕ → Bytes → Option Bytes
  after_element depth [] = none
  after_element depth (c ∷ s) = elim (c == b',') [
    | true ↦ skip (elements depth) (skip_json_whitespace s)
    | false ↦ if c == b']' then some s else none
  ]

  unfoldable pub open_with : ℕ → Skipped → Bytes → Option Bytes
  open_with close inside [] = skip inside []
  open_with close inside (c ∷ s) = elim (c == close) [ true ↦ some s | false ↦ skip inside (c ∷ s) ]

  -- Below the limit of nesting.
  abbrev pub open_nested : ℕ → ℕ → Skipped → Bytes → Option Bytes
  open_nested depth close inside s = elim (leb max_health_json_nesting depth) [
    | true ↦ none
    | false ↦ open_with close inside (skip_json_whitespace s)
  ]

  unfoldable pub at_value : ℕ → Bytes → Option Bytes
  at_value depth [] = none
  at_value depth (c ∷ s) = elim (c == b'{') [
    | true ↦ open_nested depth b'}' (members depth) s
    | false ↦ elim (c == b'[') [
      | true ↦ open_nested depth b']' (elements depth) s
      | false ↦ at_scalar c s
    ]
  ]

  unfoldable pub skip_step : Skipped → Bytes → Option Bytes
  skip_step (value depth) s = at_value depth (skip_json_whitespace s)
  skip_step (members depth) s =
      bind (parse_json_string s) λ p. after_key depth (skip_json_whitespace p.1)
  skip_step (elements depth) s =
      bind (skip (value (depth + 1)) s) λ rest. after_element depth (skip_json_whitespace rest)

-- At most so many nested calls.
unfoldable pub skip_within : ℕ → Skipped → Bytes → Option Bytes
skip_within zero what s = none
skip_within (suc n) what s = skip_step (skip_within n) what s

abbrev pub weight : Skipped → ℕ
weight (elements depth) = 1
weight _ = 0

-- More calls than the bytes allow to be nested.
abbrev pub calls_for : Skipped → Bytes → ℕ
calls_for what s = 2 * length s + weight what

unfoldable pub skip_json : Skipped → Bytes → Option Bytes
skip_json what s = skip_within (calls_for what s + 1) what s

abbrev pub skip_json_value : ℕ → Bytes → Option Bytes
skip_json_value depth = skip_json (value depth)
