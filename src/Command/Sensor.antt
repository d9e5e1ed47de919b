-- ===== src/Command/Sensor.antt =====
-- cli_command.h and cli_command.cc: `ParseScanCommand`, `ParseImuCommand`, `ParseBatteryCommand`.
use encos_cli.Base.{
  Bool, true, false, not, Option, none, some, List, [], ◌∷◌, ◌++◌, Bytes, codes, ◌=:◌, ◌==◌,
  if◌then◌else◌, length, Result, ok, err, runtime_error, ◌>>=◌, ◌>>◌, throw_if,
}
use encos_cli.Target.Split.{split_colon_separated}
use encos_cli.Target.Integer.{starts_with_minus}
use encos_cli.Target.Motor.{ScanTarget, SensorTarget, parse_scan_target, parse_sensor_target}

pub record ScanCommand : Type 0 where
  pub target : ScanTarget

pub data SensorCommandAction : Type 0 where
  show clear start stop : SensorCommandAction

pub record SensorCommand : Type 0 where
  pub target : SensorTarget
  pub action : SensorCommandAction

abbrev one_target : Result (Option Bytes)
one_target = err (runtime_error "Scan expects exactly one target" [])

abbrev is_some {ℓ} : {A : Type ℓ} → Option A → Bool
is_some none = false
is_some (some a) = true

-- One round of the loop over the arguments, on the target found so far.
unfoldable pub scan_step : Bytes → Option Bytes → Result (Option Bytes)
scan_step argument found =
    if starts_with_minus argument
    then err (runtime_error "Unknown scan flag" argument)
    else if is_some found
    then one_target
    else ok (some argument)

unfoldable pub scan_loop : List Bytes → Option Bytes → Result (Option Bytes)
unfolding scan_step
scan_loop [] found = ok found
scan_loop (argument ∷ rest) found = do found' ← scan_step argument found; scan_loop rest found'

unfoldable pub scan_found : Option Bytes → Result ScanCommand
scan_found none = err (runtime_error "Scan expects exactly one target" [])
scan_found (some value) = do t ← parse_scan_target value; ok (record { target = t })

unfoldable pub parse_scan_command : List Bytes → Result ScanCommand
unfolding scan_loop scan_found
parse_scan_command [] = err (runtime_error "Scan expects exactly one target" [])
parse_scan_command (argument ∷ rest) = do found ← scan_loop (argument ∷ rest) none; scan_found found

-- The action of `imu <target> <start|stop>`.
unfoldable pub imu_action : Bytes → Result SensorCommandAction
imu_action word =
    if word =: "start"
    then ok start
    else if word =: "stop"
    then ok stop
    else err (runtime_error "Unsupported imu action" word)

-- A target of three parts names a bus: the device index 0 is added.
unfoldable pub imu_target : Bytes → Result SensorTarget
imu_target target = do
  parts ← split_colon_separated target
  parse_sensor_target (if length parts == 3 then target ++ codes ":0" else target)

unfoldable pub imu_show : Bytes → Result SensorCommand
imu_show target = do t ← parse_sensor_target target; ok (record { target = t; action = show })

unfoldable pub imu_switch : Bytes → Bytes → Result SensorCommand
unfolding imu_action imu_target
imu_switch target word = do
  a ← imu_action word
  t ← imu_target target
  ok (record { target = t; action = a })

unfoldable pub parse_imu_command : List Bytes → Result SensorCommand
unfolding imu_show imu_switch
parse_imu_command (command ∷ first ∷ second ∷ []) =
    if not (command =: "imu")
    then err (runtime_error "Invalid imu command" [])
    else if first =: "show"
    then imu_show second
    else imu_switch first second
parse_imu_command _ = err (runtime_error "Invalid imu command" [])

unfoldable pub battery_action : Bytes → Result SensorCommandAction
battery_action word =
    if word =: "show"
    then ok show
    else if word =: "clear"
    then ok clear
    else err (runtime_error "Unsupported battery action" word)

unfoldable pub parse_battery_command : List Bytes → Result SensorCommand
unfolding battery_action
parse_battery_command (command ∷ word ∷ target ∷ []) = do
  throw_if (not (command =: "battery")) (runtime_error "Invalid battery command" [])
  a ← battery_action word
  t ← parse_sensor_target target
  ok (record { target = t; action = a })
parse_battery_command _ = err (runtime_error "Invalid battery command" [])
