-- ===== src/Sending/Laws.antt =====
-- A control command that the parser accepts is sent with just the numbers that it gives.
use encos_cli.Base.{◌≡◌, ◌≢◌, refl, List, [], ◌∷◌, Bytes, length, Result, ok, Ensures-ok, arith}
use encos_cli.Base.Floats.{Floats}
use encos_cli.Command.Control.{
  ControlItem, pvt, position, speed, current, torque, stop, brake, StopMode, full, dynamic,
  regenerative, ControlCommand, parse_control_command,
}
use encos_cli.Command.Control.Shape.{count_of, IsControl, parse_control_command-IsControl}
use encos_cli.Sending.{
  MotorRequest, pvt_request, position_request, speed_request, current_request, torque_request,
  stop_request, full_brake, dynamic_brake, regenerative_brake, send_item, send_control_command,
}

-- The numbers of a request, but for the current of a full brake, which is fixed.
abbrev pub request_values : {F : Type 0} → MotorRequest F → List F
request_values (pvt_request a b c d e) = a ∷ b ∷ c ∷ d ∷ e ∷ []
request_values (position_request a b c) = a ∷ b ∷ c ∷ []
request_values (speed_request a b) = a ∷ b ∷ []
request_values (current_request a) = a ∷ []
request_values (torque_request a) = a ∷ []
request_values (stop_request full_brake a) = []
request_values (stop_request _ a) = a ∷ []

abbrev Sends : {F : Type 0} → List F → Result (MotorRequest F) → Type 0
Sends values r = (request : MotorRequest _) × (r ≡ ok request) × (request_values request ≡ values)

send_item-Sends :
    {F : Type 0} (nothing : F) (item : ControlItem) (mode : StopMode) (values : List F)
    → item ≢ brake
    → length values ≡ count_of item mode
    → Sends values (send_item nothing item mode values)
unfolding send_item
send_item-Sends nothing pvt mode (a ∷ b ∷ c ∷ d ∷ e ∷ []) n h = (pvt_request a b c d e, refl, refl)
send_item-Sends nothing position mode (a ∷ b ∷ c ∷ []) n h = (position_request a b c, refl, refl)
send_item-Sends nothing speed mode (a ∷ b ∷ []) n h = (speed_request a b, refl, refl)
send_item-Sends nothing current mode (a ∷ []) n h = (current_request a, refl, refl)
send_item-Sends nothing torque mode (a ∷ []) n h = (torque_request a, refl, refl)
send_item-Sends nothing brake mode values n h = absurd (n refl)
send_item-Sends nothing stop full [] n h = (stop_request full_brake nothing, refl, refl)
send_item-Sends nothing stop dynamic (a ∷ []) n h = (stop_request dynamic_brake a, refl, refl)
send_item-Sends nothing stop regenerative (a ∷ []) n h =
    (stop_request regenerative_brake a, refl, refl)
send_item-Sends nothing _ mode _ n h = absurd (omega arith)

module _ (F : Floats) where
  open F use {Float}

  -- A control command that the parser accepts, other than for the brake, is sent to the motor as a
  -- request with the numbers of the command, all of them and in their order: no number is read out of
  -- range. `nothing` is the current of a full brake.
  pub send_control_command-parse_control_command :
      (nothing : Float) (args : List Bytes) (command : ControlCommand Float)
      → parse_control_command F args ≡ ok command
      → command.item ≢ brake
      → (request : MotorRequest Float) × (send_control_command nothing command ≡ ok request)
        × (request_values request ≡ command.values)
  unfolding send_control_command
  send_control_command-parse_control_command nothing args command e n =
      let good =
        Ensures-ok (IsControl F) (parse_control_command F args)
          (parse_control_command-IsControl F args) e in
      send_item-Sends nothing command.item command.stop_mode command.values n good.counted
