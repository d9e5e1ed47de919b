-- ===== src/Sending.antt =====
-- main.cc: what an accepted control command sends to a motor.
-- The driver's call is a value; a vector read out of range, which C++ leaves undefined, is
-- `out_of_range`.
pub mod Laws
pub mod Config
use encos_cli.Base.{
  ℕ, zero, suc, List, [], ◌∷◌, Result, ok, err, out_of_range, runtime_error, ◌>>=◌,
}
use encos_cli.Command.Control.{
  pvt, position, speed, current, torque, stop, brake, StopMode, full, dynamic, regenerative,
  ControlItem, ControlCommand,
}

-- `encos::MotorStopMode` of the driver.
pub data MotorStopMode : Type 0 where
  full_brake dynamic_brake regenerative_brake : MotorStopMode

unfoldable pub to_motor_stop_mode : StopMode → MotorStopMode
to_motor_stop_mode full = full_brake
to_motor_stop_mode dynamic = dynamic_brake
to_motor_stop_mode regenerative = regenerative_brake

pub data MotorRequest (F : Type 0) : Type 0 where
  pvt_request : F → F → F → F → F → MotorRequest F
  position_request : F → F → F → MotorRequest F
  speed_request : F → F → MotorRequest F
  current_request : F → MotorRequest F
  torque_request : F → MotorRequest F
  stop_request : MotorStopMode → F → MotorRequest F

module _ {F : Type 0} where
  -- `values[index]`.
  unfoldable pub value_at : List F → ℕ → Result F
  value_at [] index = err out_of_range
  value_at (v ∷ values) zero = ok v
  value_at (v ∷ values) (suc index) = value_at values index

  -- The current of a stop; `nothing` is 0.0F.
  unfoldable pub stop_current_of : F → StopMode → List F → Result F
  unfolding value_at
  stop_current_of nothing full values = ok nothing
  stop_current_of nothing dynamic values = value_at values 0
  stop_current_of nothing regenerative values = value_at values 0

  unfoldable pub send_item : F → ControlItem → StopMode → List F → Result (MotorRequest F)
  unfolding value_at stop_current_of to_motor_stop_mode
  send_item nothing pvt mode values = do
    a ← value_at values 0
    b ← value_at values 1
    c ← value_at values 2
    d ← value_at values 3
    e ← value_at values 4
    ok (pvt_request a b c d e)
  send_item nothing position mode values = do
    a ← value_at values 0
    b ← value_at values 1
    c ← value_at values 2
    ok (position_request a b c)
  send_item nothing speed mode values = do
    a ← value_at values 0
    b ← value_at values 1
    ok (speed_request a b)
  send_item nothing current mode values = do a ← value_at values 0; ok (current_request a)
  send_item nothing torque mode values = do a ← value_at values 0; ok (torque_request a)
  send_item nothing brake mode values =
      err (runtime_error "Mechanical brake is a one-shot command" [])
  send_item nothing stop mode values = do
    a ← stop_current_of nothing mode values
    ok (stop_request (to_motor_stop_mode mode) a)

  unfoldable pub send_control_command : F → ControlCommand F → Result (MotorRequest F)
  unfolding send_item
  send_control_command nothing command =
      send_item nothing command.item command.stop_mode command.values
