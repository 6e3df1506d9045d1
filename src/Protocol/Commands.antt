-- ===== src/Protocol/Commands.antt =====
-- The commands of the manager (freezeitDaemon/src/protocol/manager_v1.rs) and of the hook
-- (freezeitDaemon/src/protocol/xposed.rs), and the numbers that stand for them.
use freezeit_cos.Base.{
  ℕ, ◌+◌, ℤ, pos, Key, Map, lookup, nat_key, int_key, beq, beq_iff, Text, txt, show, show_int, [],
  ◌∷◌, ◌++◌, Option, none, some, true, all, ◌≡◌, refl, arith,
}
use freezeit_cos.Domain.Error.{Result, ok, err, protocol}

pub data ManagerCommand : Type 0 where
  get_prop_info get_changelog get_log get_app_cfg get_real_time_info get_settings get_uid_time
        get_xp_log get_freeze_status set_app_cfg set_app_label set_settings_var clear_log
        get_proc_state get_health_report get_capability_report get_compatibility_baseline
        get_operation_log_json run_self_check :
      ManagerCommand

-- `command as u8`
abbrev pub manager_code : ManagerCommand → ℕ
manager_code ManagerCommand.get_prop_info = 2
manager_code ManagerCommand.get_changelog = 3
manager_code ManagerCommand.get_log = 4
manager_code ManagerCommand.get_app_cfg = 5
manager_code ManagerCommand.get_real_time_info = 6
manager_code ManagerCommand.get_settings = 8
manager_code ManagerCommand.get_uid_time = 9
manager_code ManagerCommand.get_xp_log = 10
manager_code ManagerCommand.get_freeze_status = 11
manager_code ManagerCommand.set_app_cfg = 21
manager_code ManagerCommand.set_app_label = 22
manager_code ManagerCommand.set_settings_var = 23
manager_code ManagerCommand.clear_log = 61
manager_code ManagerCommand.get_proc_state = 62
manager_code ManagerCommand.get_health_report = 71
manager_code ManagerCommand.get_capability_report = 72
manager_code ManagerCommand.get_compatibility_baseline = 73
manager_code ManagerCommand.get_operation_log_json = 74
manager_code ManagerCommand.run_self_check = 75

abbrev manager_commands : Map ℕ ManagerCommand
manager_commands =
    (2, ManagerCommand.get_prop_info)
    ∷ (3, ManagerCommand.get_changelog)
    ∷ (4, ManagerCommand.get_log)
    ∷ (5, ManagerCommand.get_app_cfg)
    ∷ (6, ManagerCommand.get_real_time_info)
    ∷ (8, ManagerCommand.get_settings)
    ∷ (9, ManagerCommand.get_uid_time)
    ∷ (10, ManagerCommand.get_xp_log)
    ∷ (11, ManagerCommand.get_freeze_status)
    ∷ (21, ManagerCommand.set_app_cfg)
    ∷ (22, ManagerCommand.set_app_label)
    ∷ (23, ManagerCommand.set_settings_var)
    ∷ (61, ManagerCommand.clear_log)
    ∷ (62, ManagerCommand.get_proc_state)
    ∷ (71, ManagerCommand.get_health_report)
    ∷ (72, ManagerCommand.get_capability_report)
    ∷ (73, ManagerCommand.get_compatibility_baseline)
    ∷ (74, ManagerCommand.get_operation_log_json)
    ∷ (75, ManagerCommand.run_self_check)
    ∷ []

abbrev named {ℓ} : {A : Type ℓ} → Text → Option A → Result A
named message none = err (protocol message)
named message (some command) = ok command

-- `ManagerCommand::try_from`
unfoldable pub manager_command : ℕ → Result ManagerCommand
manager_command value =
    named (txt "unknown manager command " ++ show value) (lookup value manager_commands)

pub data XposedCommand : Type 0 where
  get_foreground get_screen get_xp_log set_config set_wakeup_lock break_network update_pending
        get_hook_health get_runtime_app_states get_system_freezer_hints :
      XposedCommand

abbrev pub freezeit_command_base : ℕ
freezeit_command_base = 1_359_322_925

-- `command as i32`
abbrev pub xposed_code : XposedCommand → ℤ
xposed_code XposedCommand.get_foreground = pos (freezeit_command_base + 1)
xposed_code XposedCommand.get_screen = pos (freezeit_command_base + 2)
xposed_code XposedCommand.get_xp_log = pos (freezeit_command_base + 3)
xposed_code XposedCommand.set_config = pos (freezeit_command_base + 20)
xposed_code XposedCommand.set_wakeup_lock = pos (freezeit_command_base + 21)
xposed_code XposedCommand.break_network = pos (freezeit_command_base + 41)
xposed_code XposedCommand.update_pending = pos (freezeit_command_base + 60)
xposed_code XposedCommand.get_hook_health = pos (freezeit_command_base + 70)
xposed_code XposedCommand.get_runtime_app_states = pos (freezeit_command_base + 71)
xposed_code XposedCommand.get_system_freezer_hints = pos (freezeit_command_base + 72)

abbrev xposed_commands : Map ℤ XposedCommand
xposed_commands =
    (pos (freezeit_command_base + 1), XposedCommand.get_foreground)
    ∷ (pos (freezeit_command_base + 2), XposedCommand.get_screen)
    ∷ (pos (freezeit_command_base + 3), XposedCommand.get_xp_log)
    ∷ (pos (freezeit_command_base + 20), XposedCommand.set_config)
    ∷ (pos (freezeit_command_base + 21), XposedCommand.set_wakeup_lock)
    ∷ (pos (freezeit_command_base + 41), XposedCommand.break_network)
    ∷ (pos (freezeit_command_base + 60), XposedCommand.update_pending)
    ∷ (pos (freezeit_command_base + 70), XposedCommand.get_hook_health)
    ∷ (pos (freezeit_command_base + 71), XposedCommand.get_runtime_app_states)
    ∷ (pos (freezeit_command_base + 72), XposedCommand.get_system_freezer_hints)
    ∷ []

-- `XposedCommand::try_from`
unfoldable pub xposed_command : ℤ → Result XposedCommand
xposed_command value =
    named (txt "unknown xposed command " ++ show_int value) (lookup value xposed_commands)

pub manager_command-code : (c : ManagerCommand) → manager_command (manager_code c) ≡ ok c
unfolding manager_command lookup
manager_command-code ManagerCommand.get_prop_info = refl
manager_command-code ManagerCommand.get_changelog = refl
manager_command-code ManagerCommand.get_log = refl
manager_command-code ManagerCommand.get_app_cfg = refl
manager_command-code ManagerCommand.get_real_time_info = refl
manager_command-code ManagerCommand.get_settings = refl
manager_command-code ManagerCommand.get_uid_time = refl
manager_command-code ManagerCommand.get_xp_log = refl
manager_command-code ManagerCommand.get_freeze_status = refl
manager_command-code ManagerCommand.set_app_cfg = refl
manager_command-code ManagerCommand.set_app_label = refl
manager_command-code ManagerCommand.set_settings_var = refl
manager_command-code ManagerCommand.clear_log = refl
manager_command-code ManagerCommand.get_proc_state = refl
manager_command-code ManagerCommand.get_health_report = refl
manager_command-code ManagerCommand.get_capability_report = refl
manager_command-code ManagerCommand.get_compatibility_baseline = refl
manager_command-code ManagerCommand.get_operation_log_json = refl
manager_command-code ManagerCommand.run_self_check = refl

pub xposed_command-code : (c : XposedCommand) → xposed_command (xposed_code c) ≡ ok c
unfolding xposed_command lookup
xposed_command-code XposedCommand.get_foreground = refl
xposed_command-code XposedCommand.get_screen = refl
xposed_command-code XposedCommand.get_xp_log = refl
xposed_command-code XposedCommand.set_config = refl
xposed_command-code XposedCommand.set_wakeup_lock = refl
xposed_command-code XposedCommand.break_network = refl
xposed_command-code XposedCommand.update_pending = refl
xposed_command-code XposedCommand.get_hook_health = refl
xposed_command-code XposedCommand.get_runtime_app_states = refl
xposed_command-code XposedCommand.get_system_freezer_hints = refl

-- Every entry of the table has its own code as key.
code_of_entry {ℓ κ} :
    {K : Type ℓ} {C : Type κ} ⦃e : Key K⦄ (code : C → K) (table : Map K C) (value : K) (c : C)
    → all (λ entry. beq (code entry.1) entry.0) table ≡ true
    → lookup value table ≡ some c
    → code c ≡ value
unfolding lookup
code_of_entry code [] value c a h = ground arith
code_of_entry code ((k, d) ∷ table) value c a h =
    ground (arith, code_of_entry code table value c, beq_iff (code d) k, beq_iff k value)

named-some {ℓ} :
    {A : Type ℓ} (message : Text) (o : Option A) (a : A) → named message o ≡ ok a → o ≡ some a
named-some message none a h = ground arith
named-some message (some b) a h = ground arith

pub manager_code-command :
    (value : ℕ) (c : ManagerCommand) → manager_command value ≡ ok c → manager_code c ≡ value
unfolding manager_command
manager_code-command value c h =
    code_of_entry manager_code manager_commands value c refl (
      named-some (txt "unknown manager command " ++ show value) (lookup value manager_commands) c h)

pub xposed_code-command :
    (value : ℤ) (c : XposedCommand) → xposed_command value ≡ ok c → xposed_code c ≡ value
unfolding xposed_command
xposed_code-command value c h = code_of_entry xposed_code xposed_commands value c refl (
    named-some (txt "unknown xposed command " ++ show_int value) (lookup value xposed_commands) c h)
