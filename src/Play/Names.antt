-- ===== src/Play/Names.antt =====
-- src/cli/play.cc: the names and texts of the play command, and the checks of its options.
-- An error message with the exit code 1 is a `runtime_error`.
pub mod Laws
use encos_cli.Base.{
  ℕ, ◌-◌, ◌/◌, ◌%◌, Bool, true, false, not, ◌&&◌, ◌||◌, Option, none, some, List, [], ◌∷◌, ◌++◌,
  Bytes, codes, ltb, ◌=:◌, if◌then◌else◌, starts_with, is_empty, drop, length, Result, ok, err,
  runtime_error, ◌>>=◌, ◌>>◌, throw_if,
}
use encos_cli.Base.Int.{ℤ, pos, negsuc, ltb_ℤ}
use encos_cli.Number.{to_string}
use encos_cli.Play.Motors.{has_value}
use encos_cli.Play.Snapshots.{
  MotorError, output_encoder_error, fet_over_temperature, over_speed, temperature_warning, no_error,
  over_temperature, over_current, voltage_high, voltage_low, encoder_error, brake_voltage_high,
  driver_error, over_temperature_warning, no_response, unknown_error, slave_or_zero,
}

abbrev slave_prefix : Option ℤ → Bytes
slave_prefix none = []
slave_prefix (some s) = to_string s ++ (b':' ∷ [])

unfoldable pub format_motor_target_prefix : Bytes → Bytes → Option ℤ → ℤ → Bytes
format_motor_target_prefix adapter_type adapter_id slave_id bus_id =
    adapter_type ++ (b':' ∷ (adapter_id ++ (b':' ∷ (slave_prefix slave_id ++ to_string bus_id))))

-- The slave and the bus that an adapter's number of a bus packs.
abbrev pub slave_of : ℤ → Option ℤ
slave_of (pos n) = if ltb 65535 n then some (pos (n / 65536)) else none
slave_of (negsuc n) = none

abbrev pub bus_of : ℤ → ℤ
bus_of (pos n) = if ltb 65535 n then pos (n % 65536) else pos n
bus_of (negsuc n) = negsuc n

-- The prefix of a bus that an adapter lists.
unfoldable pub format_bus_prefix : Bytes → Bytes → ℤ → Bytes
unfolding format_motor_target_prefix
format_bus_prefix key_type key_id adapter_bus_id =
    format_motor_target_prefix key_type key_id (slave_of adapter_bus_id) (bus_of adapter_bus_id)

-- The name of a motor that no trajectory column names.
unfoldable pub holding_name : Bytes → ℤ → Bytes
holding_name bus_prefix motor_id = bus_prefix ++ (b':' ∷ to_string motor_id)

unfoldable pub error_name : MotorError → Bytes
error_name output_encoder_error = codes "OutputEncoderError"
error_name fet_over_temperature = codes "FetOverTemperature"
error_name over_speed = codes "OverSpeed"
error_name temperature_warning = codes "TemperatureWarning"
error_name no_error = codes "NoError"
error_name over_temperature = codes "OverTemperature"
error_name over_current = codes "OverCurrent"
error_name voltage_high = codes "VoltageHigh"
error_name voltage_low = codes "VoltageLow"
error_name encoder_error = codes "EncoderError"
error_name brake_voltage_high = codes "BrakeVoltageHigh"
error_name driver_error = codes "DriverError"
error_name over_temperature_warning = codes "TemperatureWarning"
error_name no_response = codes "NoResponse"
error_name (unknown_error n) = codes "Unknown"

-- `code` is the driver's number of an error, as a `uint8_t`.
unfoldable pub play_motor_error_name : (MotorError → ℕ) → MotorError → Bytes
unfolding error_name
play_motor_error_name code error =
    error_name error ++ (b'(' ∷ (to_string (pos (code error)) ++ (b')' ∷ [])))

unfoldable pub play_slave_text : Option ℤ → Bytes
play_slave_text slave_id = to_string (slave_or_zero slave_id)

-- `percent` is the loss in per cent with two decimals: 0.00 of no packets.
unfoldable pub play_motor_loss_text : (ℕ → ℕ → Bytes) → ℕ → ℕ → Bytes
play_motor_loss_text percent sent received =
    let lost = sent - received in
    to_string (pos lost) ++ (codes " (" ++ (percent lost sent ++ codes "%)"))

abbrev pub log_prefix : Bytes
log_prefix = codes "--log="

unfoldable pub normalize_play_log_arguments : List Bytes → List Bytes
normalize_play_log_arguments [] = []
normalize_play_log_arguments (argument ∷ arguments) =
    let rest = normalize_play_log_arguments arguments in
    if starts_with argument log_prefix
    then codes "--log-directory" ∷ drop (length log_prefix) argument ∷ rest
    else argument ∷ rest

unfoldable pub should_use_play_tui : Bool → Bool → Bytes → Bool → Bool
should_use_play_tui stdin_is_tty stdout_is_tty terminal no_inplace_refresh =
    not no_inplace_refresh && stdin_is_tty && stdout_is_tty && not (terminal =: "dumb")

unfoldable pub is_play_endless : Bool → Bool → Bool
is_play_endless endless stress = endless

-- What the parser of the arguments has read, and what the environment gives.
pub record PlayArguments (F : Type 0) : Type 0 where
  pub dry_run : Bool
  pub endless : Bool
  pub no_inplace_refresh : Bool
  pub log : Bool
  pub used_log_directory : Option Bytes
  pub control_frequency : ℤ
  pub max_speed : F
  pub max_current : F
  pub kp : Option F
  pub kd : Option F
  pub vel : Option F
  pub tor : Option F
  pub stdin_is_interactive : Bool
  pub stdout_is_interactive : Bool
  pub terminal : Option Bytes

-- What the runner and its run are given.
pub record PlayOptions (F : Type 0) : Type 0 where
  pub run_dry : Bool
  pub run_endless : Bool
  pub tui : Bool
  pub log_directory : Option Bytes
  pub control_frequency_hz : ℤ
  pub max_speed_rad_s : F
  pub max_current_a : F
  pub gains : List (Option F)

abbrev pub requested_directory : Option Bytes → Bool → Option Bytes
requested_directory (some directory) log = some directory
requested_directory none log = if log then some (codes "./logs") else none

abbrev pub is_empty_directory : Option Bytes → Bool
is_empty_directory none = false
is_empty_directory (some directory) = is_empty directory

abbrev terminal_text : Option Bytes → Bytes
terminal_text none = []
terminal_text (some t) = t

abbrev pub has_any : {A : Type 0} → List (Option A) → Bool
has_any [] = false
has_any (o ∷ options) = has_value o || has_any options

abbrev pub has_all : {A : Type 0} → List (Option A) → Bool
has_all [] = true
has_all (o ∷ options) = has_value o && has_all options

abbrev pub max_control_frequency : ℕ
max_control_frequency = 1000000000

module _ {F : Type 0} where
  abbrev pub gains_of : PlayArguments F → List (Option F)
  gains_of a = a.kp ∷ a.kd ∷ a.vel ∷ a.tor ∷ []

  unfoldable pub play_options : PlayArguments F → Result (PlayOptions F)
  unfolding should_use_play_tui is_play_endless
  play_options a = do
    throw_if (has_any (gains_of a) && not (has_all (gains_of a)))
        (runtime_error "Error: --kp, --kd, --vel, and --tor must be provided together" [])
    throw_if
        (ltb_ℤ a.control_frequency (pos 1) || ltb_ℤ (pos max_control_frequency) a.control_frequency)
        (runtime_error "Error: --control-frequency must be between 1 and 1000000000" [])
    let directory = requested_directory a.used_log_directory a.log
    throw_if (is_empty_directory directory)
        (runtime_error "Error: --log directory must not be empty" [])
    ok (record {
      run_dry = a.dry_run;
      run_endless = is_play_endless a.endless false;
      tui =
          should_use_play_tui a.stdin_is_interactive a.stdout_is_interactive
            (terminal_text a.terminal) a.no_inplace_refresh;
      log_directory = directory;
      control_frequency_hz = a.control_frequency;
      max_speed_rad_s = a.max_speed;
      max_current_a = a.max_current;
      gains = gains_of a;
    })
