-- ===== src/ManagerLog.antt =====
-- The log that the manager reads: freezeitDaemon/src/app/logging.rs.
pub mod Bounded
pub mod Dedup
use freezeit_cos.Base.{
  ℕ, suc, ◌+◌, ◌-◌, ◌*◌, ◌^◌, max, min, ℤ, Text, txt, beq, list_key, nat_key, int_key, List, [],
  ◌∷◌, ◌++◌, Option, none, some, Bool, true, false, not, ◌&&◌, ◌||◌, length, any, keep, is_empty,
  ltb, leb, ◌==◌, if◌then◌else◌, contains_text, to_ascii_lowercase,
}
use freezeit_cos.Domain.Operation.{ControlAction, OperationResult, ControlOperation}

abbrev pub max_retained_log_bytes : ℕ
max_retained_log_bytes = 1_000_000

pub data LogView : Type 0 where
  info warn error critical debug : LogView

pub data LogLevel : Type 0 where
  info warn error critical debug : LogLevel

pub data LogCategory : Type 0 where
  legacy_operation diagnostic fault : LogCategory

pub data LogPayload : Type 0 where
  text verified_legacy_line : Text → LogPayload
  operation : ControlOperation → LogPayload

pub record LogRecord : Type 0 where
  pub level : LogLevel
  pub category : LogCategory
  pub timestamp_ms : ℕ
  pub payload : LogPayload

pub record ManagerLog : Type 0 where
  pub capacity : ℕ
  pub records : List LogRecord
  pub retained_bytes : ℕ
  pub highest_operation_id : ℕ
  pub operation_timestamp_cutoff_ms : Option ℕ
  pub content_version : ℕ

abbrev pub u64_max : ℕ
u64_max = 2 ^ 64 - 1

-- `usize::saturating_add` and `u64::saturating_add`
abbrev pub saturating_add_u64 : ℕ → ℕ → ℕ
saturating_add_u64 a b = min (a + b) u64_max

-- The setting that chooses the view; the second part says that it was not valid.
unfoldable pub decode_log_view : ℕ → LogView × Bool
decode_log_view value =
    if value == 0
    then (LogView.info, false)
    else if value == 1
    then (LogView.debug, false)
    else if value == 2
    then (LogView.warn, false)
    else if value == 3
    then (LogView.error, false)
    else if value == 4
    then (LogView.critical, false)
    else (LogView.info, true)

unfoldable pub operation_log_level : OperationResult → LogLevel
operation_log_level OperationResult.partial = LogLevel.warn
operation_log_level OperationResult.failed = LogLevel.error
operation_log_level OperationResult.success = LogLevel.info
operation_log_level OperationResult.skipped = LogLevel.info
operation_log_level OperationResult.postponed = LogLevel.info

-- `LogRecord::operation`
unfoldable pub operation_record : ControlOperation → LogRecord
unfolding operation_log_level
operation_record op = record {
  level = operation_log_level op.result;
  category = legacy_operation;
  timestamp_ms = op.timestamp_ms;
  payload = operation op;
}

abbrev pub action_index : ControlAction → ℕ
action_index ControlAction.freeze = 0
action_index ControlAction.unfreeze = 1
action_index ControlAction.terminate = 2
action_index ControlAction.postpone = 3
action_index ControlAction.fallback = 4
action_index ControlAction.skip = 5
action_index ControlAction.recover = 6

abbrev pub result_index : OperationResult → ℕ
result_index OperationResult.success = 0
result_index OperationResult.partial = 1
result_index OperationResult.failed = 2
result_index OperationResult.skipped = 3
result_index OperationResult.postponed = 4

-- `PartialEq` of operations
unfoldable pub same_operation : ControlOperation → ControlOperation → Bool
same_operation a b =
    a.operation_id == b.operation_id
    && (a.timestamp_ms == b.timestamp_ms
        && (beq a.package_name b.package_name
            && (a.uid == b.uid
                && (beq a.pid_list b.pid_list
                    && (action_index a.action == action_index b.action
                        && (beq a.backend b.backend
                            && (beq a.reason b.reason
                                && (result_index a.result == result_index b.result
                                    && beq a.details b.details))))))))

abbrev pub holds_operation : ControlOperation → LogPayload → Bool
holds_operation op (operation existing) = same_operation existing op
holds_operation op _ = false

abbrev pub level_index : LogLevel → ℕ
level_index LogLevel.info = 0
level_index LogLevel.warn = 1
level_index LogLevel.error = 2
level_index LogLevel.critical = 3
level_index LogLevel.debug = 4

abbrev pub category_index : LogCategory → ℕ
category_index legacy_operation = 0
category_index diagnostic = 1
category_index fault = 2

unfoldable pub same_payload : LogPayload → LogPayload → Bool
unfolding same_operation
same_payload (text s) (text t) = beq s t
same_payload (verified_legacy_line s) (verified_legacy_line t) = beq s t
same_payload (operation a) (operation b) = same_operation a b
same_payload _ _ = false

unfoldable pub new_log : ℕ → ManagerLog
new_log capacity = record {
  capacity = max capacity 1;
  records = [];
  retained_bytes = 0;
  highest_operation_id = 0;
  operation_timestamp_cutoff_ms = none;
  content_version = 0;
}

unfoldable pub bump_content_version : ManagerLog → ManagerLog
bump_content_version log = record log { content_version = saturating_add_u64 log.content_version 1 }

abbrev pub is_before : Option ℕ → ℕ → Bool
is_before none timestamp = false
is_before (some cutoff) timestamp = leb timestamp cutoff

-- The early returns of `push`.
unfoldable pub is_refused : ManagerLog → LogPayload → Bool
is_refused log (operation op) =
    if is_before log.operation_timestamp_cutoff_ms op.timestamp_ms
    then true
    else if not (op.operation_id == 0)
    then leb op.operation_id log.highest_operation_id
    else any (λ (existing : LogRecord). holds_operation op existing.payload) log.records
is_refused log _ = false

abbrev pub next_highest : LogPayload → ℕ → ℕ
next_highest (operation op) highest =
    if not (op.operation_id == 0) then op.operation_id else highest
next_highest _ highest = highest

-- The operation was put off for Binder traffic.
unfoldable pub is_binder_blocker : ControlOperation → Bool
is_binder_blocker op =
    contains_text (txt "binder") (to_ascii_lowercase (op.reason ++ (b' ' ∷ op.details)))

abbrev pub is_info_kind : ControlAction → OperationResult → ControlOperation → Bool
is_info_kind ControlAction.freeze OperationResult.success op = true
is_info_kind ControlAction.unfreeze OperationResult.success op = true
is_info_kind ControlAction.terminate OperationResult.success op = true
is_info_kind ControlAction.postpone OperationResult.postponed op = is_binder_blocker op
is_info_kind _ _ op = false

unfoldable pub operation_is_legacy_info : ControlOperation → Bool
operation_is_legacy_info op = is_info_kind op.action op.result op

abbrev pub payload_is_info : LogPayload → Bool
payload_is_info (operation op) = operation_is_legacy_info op
payload_is_info _ = true

abbrev pub is_warning : LogLevel → Bool
is_warning LogLevel.warn = true
is_warning LogLevel.error = true
is_warning LogLevel.critical = true
is_warning _ = false

abbrev pub is_error : LogLevel → Bool
is_error LogLevel.error = true
is_error LogLevel.critical = true
is_error _ = false

abbrev pub is_critical : LogLevel → Bool
is_critical LogLevel.critical = true
is_critical _ = false

unfoldable pub record_is_visible : LogRecord → LogView → Bool
record_is_visible r LogView.info =
    category_index r.category == category_index legacy_operation && payload_is_info r.payload
record_is_visible r LogView.warn = is_warning r.level
record_is_visible r LogView.error = is_error r.level
record_is_visible r LogView.critical = is_critical r.level
record_is_visible r LogView.debug = true

-- `render`, by the text of one record
unfoldable pub render : (LogRecord → LogView → Text) → ManagerLog → LogView → Text
unfolding record_is_visible
render render_record log view = rendered log.records
  where
    rendered : List LogRecord → Text
    rendered [] = []
    rendered (r ∷ records) =
        let rest = rendered records in
        if record_is_visible r view then render_record r view ++ rest else rest

-- A record of the same level, category and payload is there.
unfoldable pub is_repeated : ManagerLog → LogRecord → Bool
is_repeated log r =
    any
      (λ (existing : LogRecord).
        level_index existing.level == level_index r.level
        && (category_index existing.category == category_index r.category
            && same_payload existing.payload r.payload))
      log.records

-- The number of bytes that a string and a list of process ids have room for is the allocator's.
module _ (text_capacity : Text → ℕ) (pids_capacity : List ℤ → ℕ) where
  abbrev pub payload_bytes : LogPayload → ℕ
  payload_bytes (text message) = text_capacity message
  payload_bytes (verified_legacy_line message) = text_capacity message
  payload_bytes (operation op) =
      saturating_add_u64
        (saturating_add_u64
          (saturating_add_u64
            (saturating_add_u64 (text_capacity op.package_name) (text_capacity op.backend))
            (text_capacity op.reason))
          (text_capacity op.details))
        (pids_capacity op.pid_list * 4)

  unfoldable pub retained_record_bytes : LogRecord → ℕ
  retained_record_bytes r = saturating_add_u64 128 (payload_bytes r.payload)

  -- The loop that evicts the oldest records: what stays, and its bytes.
  unfoldable pub evict : ℕ → ℕ → List LogRecord → ℕ → List LogRecord × ℕ
  unfolding retained_record_bytes
  evict capacity record_bytes [] retained = ([], retained)
  evict capacity record_bytes (r ∷ records) retained =
      let rest = evict capacity record_bytes records (retained - retained_record_bytes r) in
      if leb capacity (length (r ∷ records))
        || ltb max_retained_log_bytes (saturating_add_u64 retained record_bytes)
      then rest
      else (r ∷ records, retained)

  -- After the early returns.
  unfoldable pub store : ManagerLog → LogRecord → ManagerLog
  unfolding retained_record_bytes evict bump_content_version
  store log r =
      let bytes = retained_record_bytes r in
      let kept = evict log.capacity bytes log.records log.retained_bytes in
      if ltb max_retained_log_bytes bytes
      then log
      else bump_content_version (record log {
        records = kept.0 ++ r ∷ [];
        retained_bytes = saturating_add_u64 kept.1 bytes;
        highest_operation_id = next_highest r.payload log.highest_operation_id;
      })

  unfoldable pub push_log : ManagerLog → LogRecord → ManagerLog
  unfolding is_refused store
  push_log log r = if is_refused log r.payload then log else store log r

  unfoldable pub push_once : ManagerLog → LogRecord → ManagerLog
  unfolding push_log
  push_once log r = if is_repeated log r then log else push_log log r

unfoldable pub clear_log : ℕ → ManagerLog → ManagerLog
unfolding bump_content_version
clear_log now_ms log =
    let cleared = record log {
      operation_timestamp_cutoff_ms = some now_ms;
      records = [];
      retained_bytes = 0;
    } in
    if is_empty log.records then cleared else bump_content_version cleared
