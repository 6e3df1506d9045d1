-- ===== src/Protocol/Setting.antt =====
-- Setting one value: `set_settings_var_with_writer` of freezeitDaemon/src/protocol/manager_v1.rs.
-- The answers are texts, where the source sends their UTF-8 bytes.
pub mod Outcome
use freezeit_cos.Base.{
  ℕ, zero, suc, ◌+◌, ◌%◌, ◌^◌, Text, txt, show, beq, list_key, nat_key, List, [], ◌∷◌, ◌++◌, Option,
  none, some, length, Bool, true, false, not, ◌&&◌, ◌||◌, ltb, leb, ◌==◌, if◌then◌else◌,
}
use freezeit_cos.Domain.Error.{Result, ok, err, DaemonError, display}
use freezeit_cos.Settings.{normalize_settings}
use freezeit_cos.Protocol.Bytes.{Bytes}

-- The fields of `ReadOnlyState` that a setting touches.
pub record SettingsState : Type 0 where
  pub settings : Bytes
  pub settings_path : Option Text
  pub config_revision : ℕ
  pub hook_config_synced : Bool

abbrev pub within : ℕ → ℕ → ℕ → Bool
within low high v = leb low v && leb v high

abbrev pub error_if : Bool → Text → ℕ → Option Text
error_if true message v = some (message ++ show v)
error_if false message v = none

-- Why the value is not one of the setting, if it is not.
unfoldable pub setting_error : ℕ → ℕ → Option Text
setting_error index v =
    if index == 2
    then error_if (not (within 1 60 v)) (txt "超时冻结参数错误, 欲设为:") v
    else if index == 3
    then error_if (ltb 5 v) (txt "定时解冻参数错误 欲设为:") v
    else if index == 4
    then error_if (not (within 3 120 v)) (txt "超时杀死参数错误, 欲设为:") v
    else if index == 5
    then error_if (ltb 2 v) (txt "冻结模式参数错误, 欲设为:") v
    else if index == 6
    then error_if (ltb 3 v) (txt "定时压制参数错误, 欲设为:") v
    else if index == 30
    then error_if (ltb 4 v) (txt "日志级别无效, 正常范围:0..4, 欲设为:") v
    else if within 10 29 index
    then error_if (not (v == 0) && not (v == 1)) (txt "开关值错误, 正常范围:0/1, 欲设为:") v
    else some (txt "设置项不存在, [" ++ (show index ++ (txt "]:[" ++ (show v ++ txt "]"))))

-- `settings[index] = v`
abbrev pub set_at : ℕ → ℕ → Bytes → Bytes
set_at i v [] = []
set_at zero v (x ∷ xs) = v ∷ xs
set_at (suc i) v (x ∷ xs) = x ∷ set_at i v xs

unfoldable pub advance_config_revision : SettingsState → SettingsState
advance_config_revision s = record s { config_revision = (s.config_revision + 1) % 2 ^ 64 }

unfoldable pub commit_settings : SettingsState → Bytes → SettingsState
unfolding advance_config_revision
commit_settings s updated =
    let now = record s { settings = updated } in
    if not (beq s.settings updated) then advance_config_revision now else now

abbrev pub write_failed : ℕ → ℕ → Text → Text
write_failed index v reason =
    txt "写入设置文件失败, [" ++ (show index ++ (txt "]:" ++ (show v ++ (txt ": " ++ reason))))

abbrev pub unsynced : SettingsState → SettingsState
unsynced s = record s { hook_config_synced = false }

-- The settings that are changed: those of the state, or the defaults.
unfoldable pub whole_settings : Bytes → Bytes
whole_settings settings =
    if length settings == 256 then settings else normalize_settings (some settings)

module _ {W : Type 0}
    -- `persist_settings`, and `persisted_bytes_match`, which reads the file back
    (persist : Text → Bytes → W → Result (Unit {0}) × W)
    (persisted_bytes_match : Text → Bytes → W → Bool) where
  unfoldable pub after_persist :
      SettingsState → ℕ → ℕ → Text → Bytes → Result (Unit {0}) × W → Text × SettingsState × W
  unfolding commit_settings
  after_persist s index v path updated (ok u, w) = (txt "success", commit_settings s updated, w)
  after_persist s index v path updated (err e, w) = (
    write_failed index v (display e),
    unsynced (if persisted_bytes_match path updated w then commit_settings s updated else s),
    w,
  )

  unfoldable pub persist_updated :
      SettingsState → ℕ → ℕ → Bytes → Option Text → W → Text × SettingsState × W
  unfolding after_persist
  persist_updated s index v updated none w =
      (write_failed index v (txt "persistence path missing"), unsynced s, w)
  persist_updated s index v updated (some path) w =
      after_persist s index v path updated (persist path updated w)

  unfoldable pub set_checked : SettingsState → ℕ → ℕ → Option Text → W → Text × SettingsState × W
  unfolding persist_updated
  set_checked s index v (some message) w = (message, s, w)
  set_checked s index v none w =
      persist_updated s index v (set_at index v (whole_settings s.settings)) s.settings_path w

  unfoldable pub set_settings_var : SettingsState → Bytes → W → Text × SettingsState × W
  unfolding set_checked setting_error
  set_settings_var s (index ∷ v ∷ []) w = set_checked s index v (setting_error index v) w
  set_settings_var s payload w = (txt "数据长度不正确, 正常:2, 收到:" ++ show (length payload), s, w)
