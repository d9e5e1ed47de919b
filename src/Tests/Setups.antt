-- ===== src/Tests/Setups.antt =====
-- Play finds its motors, and the main program its adapters and requests.
use encos_cli.Base.{
  ℕ, ◌≡◌, refl, false, none, some, List, [], ◌∷◌, Bytes, codes, Result, ok, err, Ensures, map,
}
use encos_cli.Base.Int.{pos}
use encos_cli.Play.Opening.{MotorDriver}
use encos_cli.Play.Setup.{PlayMotors, initialize}
use encos_cli.Play.Setup.Laws.{IsSetup, initialize-IsSetup}
use encos_cli.Base.{str_eq, true}
use encos_cli.Base.Floats.{Floats}
use encos_cli.Number.{stoul}
use encos_cli.Target.Motor.{single_motor}
use encos_cli.Command.Control.{ControlCommand, current, full, parse_control_command}
use encos_cli.Sending.{MotorRequest, send_control_command}
use encos_cli.Sending.Laws.{request_values, send_control_command-parse_control_command}
use encos_cli.Base.{◌≢◌, out_of_range, has_empty}
use encos_cli.Number.{stoll}
use encos_cli.Target.Motor.{parse_motor_target}
use encos_cli.Target.Split.{split_colon_separated}
use encos_cli.Target.Integer.{parse_int32, parse_integer, parse_uint16}
use encos_cli.Command.Config.{CliCommand, pvt_kp_range, set, find_spec, parse_cli_command}
use encos_cli.Sending.Config.{set_whole_range, set_config_value}
use encos_cli.Sending.Config.Laws.{set_config_value-parse_cli_command}
use encos_cli.Specs.{resolve_adapter_specs}
use encos_cli.Specs.Laws.{AreSpecs, resolve_adapter_specs-AreSpecs}
use encos_cli.Tests.Trajectories.{arm}

-- Bus 9 has the motors 3 and 4, which the driver keeps as 30 and 40.
abbrev two_motors : MotorDriver ℕ
two_motors = record {
  make_adapter = λ type id. some 1;
  get_bus = λ adapter slave bus. ok (some 9);
  get_buses = λ adapter. (pos 65536, some 9) ∷ (pos 65537, none) ∷ [];
  get_motor = λ bus id. some 30;
  scan_motors = λ bus. (pos 3, some 30) ∷ (pos 4, some 40) ∷ [];
  position = λ motor. ok (motor);
}

initialize-IsSetup_example :
    Ensures
      (IsSetup two_motors false (codes "Can:can0:1:0:3" ∷ []) (arm ∷ []))
      (initialize two_motors false (codes "Can:can0:1:0:3" ∷ []) (arm ∷ []))
initialize-IsSetup_example =
    initialize-IsSetup two_motors false (codes "Can:can0:1:0:3" ∷ []) (arm ∷ []) refl

-- Motor 3 is played and motor 4 is held.
abbrev found_of : Result (PlayMotors ℕ) → List ℕ × List Bytes
found_of (err e) = ([], [])
found_of (ok s) = (map (λ m. m.motor) s.motors, map (λ h. h.0.name) s.holding)

found :
    found_of (initialize two_motors false (codes "Can:can0:1:0:3" ∷ []) (arm ∷ []))
    ≡ (30 ∷ [], codes "Can:can0:1:0:4" ∷ [])
unfolding initialize encos_cli.Play.Names.holding_name
    encos_cli.Play.Names.format_motor_target_prefix encos_cli.Number.to_string
found = refl

-- A control command and its request.
abbrev small : Floats
small = record { Float = ℕ; stof = λ s. stoul 10 s; is_finite = λ x. true; to_radians = λ x. x }

abbrev current_line : List Bytes
current_line = codes "control" ∷ codes "current" ∷ codes "Can:can0:0:1" ∷ codes "3" ∷ []

abbrev sent_command : ControlCommand ℕ
sent_command = record {
  target = record {
    adapter_type = codes "Can";
    adapter_id = codes "can0";
    slave_id = none;
    bus_id = some (pos 0);
    motor_id = some 1;
    scope = single_motor;
  };
  item = current;
  stop_mode = full;
  brake_enabled = false;
  canfd = false;
  values = 3 ∷ [];
}

parsed : parse_control_command small current_line ≡ ok sent_command
unfolding parse_control_command stoul str_eq encos_cli.Target.Motor.parse_motor_target
    encos_cli.Target.Split.split_colon_separated encos_cli.Base.has_empty
    encos_cli.Target.Integer.parse_int32 encos_cli.Target.Integer.parse_integer
    encos_cli.Number.stoll encos_cli.Target.Integer.parse_uint16
    encos_cli.Command.Control.parse_control_float
parsed = refl

send_control_command-parse_control_command_example :
    (request : MotorRequest ℕ) × (send_control_command 0 sent_command ≡ ok request)
    × (request_values request ≡ 3 ∷ [])
send_control_command-parse_control_command_example =
    send_control_command-parse_control_command small 0 current_line sent_command parsed (λ e. cc)

abbrev can_interfaces : Bytes → List Bytes
can_interfaces type = codes "can0" ∷ codes "can1" ∷ []

abbrev can_lines : List Bytes
can_lines = codes "Can:can1" ∷ codes "Can:ALL" ∷ []

resolve_adapter_specs-AreSpecs_example :
    Ensures
      (AreSpecs (codes "Can" ∷ []) can_interfaces)
      (resolve_adapter_specs (codes "Can" ∷ []) can_interfaces can_lines)
resolve_adapter_specs-AreSpecs_example =
    resolve_adapter_specs-AreSpecs (codes "Can" ∷ []) can_interfaces can_lines

-- can1 is named first, and not repeated by ALL.
can_resolved :
    resolve_adapter_specs (codes "Can" ∷ []) can_interfaces can_lines
    ≡ ok (
        record { type = codes "Can"; id = codes "can1" }
        ∷ record { type = codes "Can"; id = codes "can0" }
        ∷ [])
unfolding resolve_adapter_specs encos_cli.Base.behind encos_cli.Base.up_to str_eq
can_resolved = refl

abbrev range_line : List Bytes
range_line =
    codes "config"
    ∷ codes "Can:can0:0:1"
    ∷ codes "pvt-kp-range"
    ∷ codes "set"
    ∷ codes "1"
    ∷ codes "9"
    ∷ []

abbrev range_command : CliCommand
range_command = record {
  target = sent_command.target;
  item = pvt_kp_range;
  operation = set;
  canfd = false;
  values = codes "1" ∷ codes "9" ∷ [];
}

range_parsed : parse_cli_command range_line ≡ ok range_command
unfolding parse_cli_command find_spec str_eq parse_motor_target split_colon_separated has_empty
    parse_int32 parse_integer stoll parse_uint16
range_parsed = refl

set_config_value-parse_cli_command_example : set_config_value small range_command ≢ err out_of_range
set_config_value-parse_cli_command_example =
    set_config_value-parse_cli_command small range_line range_command range_parsed refl

-- The range is sent.
range_sent : set_config_value small range_command ≡ ok (set_whole_range pvt_kp_range 1 9)
unfolding set_config_value parse_uint16 parse_integer stoll
range_sent = refl
