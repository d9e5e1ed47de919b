-- ===== src/Command/Config.antt =====
-- cli_command.h and cli_command.cc: `ParseCliCommand`, the `config` command of motors.
pub mod Shape
pub mod Accept
use encos_cli.Base.{
  ℕ, Bool, true, false, not, ◌&&◌, ◌||◌, List, [], ◌∷◌, Bytes, String, ◌=:◌, ◌==◌, if◌then◌else◌,
  length, Result, ok, err, runtime_error, ◌>>=◌, ◌>>◌, throw_if,
}
use encos_cli.Target.Motor.{TargetScope, single_motor, MotorTarget, parse_motor_target}
use encos_cli.Command.Flags.{FlagParseResult, extract_canfd_flag}

pub data ConfigItem : Type 0 where
  id position kt pvt_kp_range pvt_kd_range pvt_position_range pvt_speed_range : ConfigItem
  pvt_torque_range pvt_current_range current_pi speed_pi position_pd can_timeout : ConfigItem
  brake communication_mode : ConfigItem

pub data ConfigOperation : Type 0 where
  read set : ConfigOperation

pub record CliCommand : Type 0 where
  pub target : MotorTarget
  pub item : ConfigItem
  pub operation : ConfigOperation
  pub canfd : Bool
  pub values : List Bytes

pub record ConfigSpec : Type 0 where
  pub item : ConfigItem
  pub value_count : ℕ

abbrev spec : ConfigItem → ℕ → ConfigSpec
spec item count = record { item = item; value_count = count }

abbrev pub config_specs : List (String × ConfigSpec)
config_specs =
    ("id", spec id 1)
    ∷ ("position", spec position 1)
    ∷ ("kt", spec kt 1)
    ∷ ("pvt-kp-range", spec pvt_kp_range 2)
    ∷ ("pvt-kd-range", spec pvt_kd_range 2)
    ∷ ("pvt-pos-range", spec pvt_position_range 2)
    ∷ ("pvt-spd-range", spec pvt_speed_range 2)
    ∷ ("pvt-tor-range", spec pvt_torque_range 2)
    ∷ ("pvt-cur-range", spec pvt_current_range 2)
    ∷ ("cur-pi", spec current_pi 2)
    ∷ ("spd-pi", spec speed_pi 2)
    ∷ ("pos-pd", spec position_pd 2)
    ∷ ("can-timeout", spec can_timeout 1)
    ∷ ("brake", spec brake 1)
    ∷ ("barke", spec brake 1)
    ∷ ("comm", spec communication_mode 1)
    ∷ []

-- `ConfigSpecs().find(name)`; the keys are distinct.
unfoldable pub find_spec : Bytes → List (String × ConfigSpec) → Result ConfigSpec
find_spec name [] = err (runtime_error "Unknown config item" name)
find_spec name ((key, s) ∷ specs) = if name =: key then ok s else find_spec name specs

abbrev is_single : TargetScope → Bool
is_single single_motor = true
is_single _ = false

abbrev is_id : ConfigItem → Bool
is_id id = true
is_id _ = false

-- `command` with an operation and its values.
abbrev with_values : CliCommand → ConfigOperation → List Bytes → CliCommand
with_values c operation values = record c { operation = operation; values = values }

unfoldable pub brake_command : CliCommand → List Bytes → Result CliCommand
brake_command c [] = ok (with_values c read [])
brake_command c (v ∷ []) =
    if v =: "engage" || v =: "release"
    then ok (with_values c set (v ∷ []))
    else err (runtime_error "Config item 'brake' expects: brake [engage|release] (alias: barke)" [])
brake_command c _ =
    err (runtime_error "Config item 'brake' expects: brake [engage|release] (alias: barke)" [])

unfoldable pub communication_command : CliCommand → List Bytes → Result CliCommand
communication_command c (op ∷ mode ∷ []) =
    if not (op =: "set")
    then err (runtime_error "Config item 'comm' expects: comm set <can|canfd|canopen>" [])
    else if not (mode =: "can" || mode =: "canfd" || mode =: "canopen")
    then err (runtime_error "Unknown communication mode" mode)
    else ok (with_values c set (mode ∷ []))
communication_command c _ =
    err (runtime_error "Config item 'comm' expects: comm set <can|canfd|canopen>" [])

abbrev position_usage : Result CliCommand
position_usage = err (
    runtime_error "Config item 'position' expects: position set <position_deg> or position reset"
      [])

-- `position`, with at least one argument behind the item.
unfoldable pub position_command : CliCommand → List Bytes → Result CliCommand
position_command c (op ∷ []) = if op =: "reset" then ok (with_values c set []) else position_usage
position_command c (op ∷ value ∷ []) =
    if not (op =: "set") then position_usage else ok (with_values c set (value ∷ []))
position_command c _ = position_usage

-- Every other item, with an operation and the values behind it.
unfoldable pub set_command : CliCommand → ℕ → Bytes → Bytes → List Bytes → Result CliCommand
set_command c count name op values = do
  throw_if (not (op =: "set")) (runtime_error "Invalid config operation" op)
  throw_if (is_id c.item && not (is_single c.target.scope))
      (runtime_error "Config item 'id' does not support ALL targets" [])
  throw_if (not (length values == count))
      (runtime_error "Config item expects another number of values" name)
  ok (with_values c set values)

-- The items that are not `brake` or `comm`.
unfoldable pub plain_command : CliCommand → ℕ → Bytes → ConfigItem → List Bytes → Result CliCommand
unfolding position_command set_command
plain_command c count name id [] =
    err (runtime_error "Config item 'id' requires set; the current id is already in target" [])
plain_command c count name item [] = ok (with_values c read [])
plain_command c count name position rest = position_command c rest
plain_command c count name item (op ∷ values) = set_command c count name op values

unfoldable pub item_command : CliCommand → ℕ → Bytes → ConfigItem → List Bytes → Result CliCommand
unfolding brake_command communication_command plain_command
item_command c count name brake rest = brake_command c rest
item_command c count name communication_mode rest = communication_command c rest
item_command c count name item rest = plain_command c count name item rest

-- What follows the extraction of the flag.
unfoldable pub config_command : Bool → List Bytes → Result CliCommand
unfolding find_spec item_command
config_command canfd (command ∷ target ∷ name ∷ rest) = do
  throw_if (not (command =: "config")) (runtime_error "Invalid CLI command, expected 'config'" [])
  s ← find_spec name config_specs
  t ← parse_motor_target target
  item_command (record { target = t; item = s.item; operation = read; canfd = canfd; values = [] })
      s.value_count name s.item rest
config_command canfd _ =
    err (runtime_error "Invalid CLI command, expected: config <target> <item> [set <values>]" [])

unfoldable pub parse_cli_command : List Bytes → Result CliCommand
unfolding extract_canfd_flag config_command
parse_cli_command arguments = do
  flags ← extract_canfd_flag arguments
  config_command flags.canfd flags.arguments
