-- ===== src/Sending/Config.antt =====
-- main.cc: what an accepted `config … set` command asks of a motor.
pub mod Laws
use encos_cli.Base.{
  ℕ, Bool, List, [], ◌∷◌, Bytes, String, ◌=:◌, ◌<>◌, if◌then◌else◌, Result, ok, err, runtime_error,
  invalid_argument, out_of_range, ◌>>=◌,
}
use encos_cli.Base.Floats.{Floats}
use encos_cli.Target.Integer.{parse_uint16}
use encos_cli.Command.Config.{
  ConfigItem, id, position, kt, pvt_kp_range, pvt_kd_range, pvt_position_range, pvt_speed_range,
  pvt_torque_range, pvt_current_range, current_pi, speed_pi, position_pd, can_timeout, brake,
  communication_mode, CliCommand,
}
use encos_cli.Sending.{value_at}

pub data CommunicationMode : Type 0 where
  classic_can can_fd can_open : CommunicationMode

-- A call of the motor; the ranges and gains carry the item that they are for.
pub data ConfigRequest (F : Type 0) : Type 0 where
  set_id : ℕ → ConfigRequest F
  set_whole_range : ConfigItem → ℕ → ℕ → ConfigRequest F
  set_pair : ConfigItem → F → F → ConfigRequest F
  set_brake : Bool → ConfigRequest F
  set_can_timeout : ℕ → ConfigRequest F
  reset_zero_position : ConfigRequest F
  -- The product of these degrees by `kDegreesToRadians`, as a `double`.
  set_position_degrees : F → ConfigRequest F
  set_communication_mode : CommunicationMode → ConfigRequest F

module _ (F : Floats) where
  open F use {Float, stof, is_finite}

  -- `ParseFloat` behind the call of `std::stof`.
  unfoldable pub finite_or_error : Result (Float × Bytes) → Bytes → String → Result Float
  finite_or_error (ok (parsed, [])) value field =
      if is_finite parsed
      then ok parsed
      else err (runtime_error (field <> " is not a valid finite float") value)
  finite_or_error (ok (parsed, _ ∷ _)) value field =
      err (runtime_error (field <> " is not a valid finite float") value)
  finite_or_error (err invalid_argument) value field =
      err (runtime_error (field <> " is not a valid float") value)
  finite_or_error (err out_of_range) value field =
      err (runtime_error (field <> " is out of range") value)
  finite_or_error (err (runtime_error m v)) value field = err (runtime_error m v)

  unfoldable pub parse_float : Bytes → String → Result Float
  unfolding finite_or_error
  parse_float value field = finite_or_error (stof value) value field

  -- Two values, each a number of 16 bits.
  unfoldable pub whole_pair : ConfigItem → List Bytes → Result (ConfigRequest Float)
  unfolding value_at parse_uint16
  whole_pair item values = do
    a ← value_at values 0
    low ← parse_uint16 a "Min"
    b ← value_at values 1
    high ← parse_uint16 b "Max"
    ok (set_whole_range item low high)

  unfoldable pub float_pair :
      ConfigItem → String → String → List Bytes → Result (ConfigRequest Float)
  unfolding value_at parse_float
  float_pair item first second values = do
    a ← value_at values 0
    x ← parse_float a first
    b ← value_at values 1
    y ← parse_float b second
    ok (set_pair item x y)

  unfoldable pub position_value : List Bytes → Result (ConfigRequest Float)
  unfolding parse_float
  position_value [] = ok reset_zero_position
  position_value (value ∷ values) = do x ← parse_float value "Position"; ok (set_position_degrees x)

  unfoldable pub mode_value : Bytes → Result (ConfigRequest Float)
  mode_value value =
      if value =: "can"
      then ok (set_communication_mode classic_can)
      else if value =: "canfd"
      then ok (set_communication_mode can_fd)
      else if value =: "canopen"
      then ok (set_communication_mode can_open)
      else err (runtime_error "Unsupported communication mode" [])

  unfoldable pub set_item_value : ConfigItem → List Bytes → Result (ConfigRequest Float)
  unfolding value_at whole_pair float_pair position_value mode_value
  set_item_value id values = do a ← value_at values 0; n ← parse_uint16 a "NewId"; ok (set_id n)
  set_item_value kt values = err (
      runtime_error "Config item 'kt' is read-only: the new protocol removed the Kt write command"
        [])
  set_item_value pvt_kp_range values = whole_pair pvt_kp_range values
  set_item_value pvt_kd_range values = whole_pair pvt_kd_range values
  set_item_value pvt_position_range values = float_pair pvt_position_range "Min" "Max" values
  set_item_value pvt_speed_range values = float_pair pvt_speed_range "Min" "Max" values
  set_item_value pvt_torque_range values = float_pair pvt_torque_range "Min" "Max" values
  set_item_value pvt_current_range values = float_pair pvt_current_range "Min" "Max" values
  set_item_value current_pi values = float_pair current_pi "Kp" "Ki" values
  set_item_value speed_pi values = float_pair speed_pi "Kp" "Ki" values
  set_item_value position_pd values = float_pair position_pd "Kp" "Kd" values
  set_item_value brake values = do a ← value_at values 0; ok (set_brake (a =: "engage"))
  set_item_value can_timeout values = do
    a ← value_at values 0
    n ← parse_uint16 a "Timeout"
    ok (set_can_timeout n)
  set_item_value position values = position_value values
  set_item_value communication_mode values = do a ← value_at values 0; mode_value a

  unfoldable pub set_config_value : CliCommand → Result (ConfigRequest Float)
  unfolding set_item_value
  set_config_value command = set_item_value command.item command.values
