-- ===== src/Tests/Commands.antt =====
-- The commands at concrete arguments.
use encos_cli.Base.{
  ℕ, String, ◌≡◌, refl, true, false, none, some, List, [], ◌∷◌, Bytes, codes, ok, leb, Ensures,
  arith, str_eq,
}
use encos_cli.Base.Int.{ℤ, pos}
use encos_cli.Base.Floats.{Floats}
use encos_cli.Number.{decimal, stoul}
use encos_cli.Target.Motor.{MotorTarget, single_motor, parse_motor_target}
use encos_cli.Target.Quoting.{Part}
use encos_cli.Target.Grammar.{single, parse_motor_target_complete}
use encos_cli.Command.Flags.{count_flags}
use encos_cli.Command.Config.{parse_cli_command, kt, set, find_spec, config_specs}
use encos_cli.Command.Config.Shape.{IsConfig, parse_cli_command-IsConfig}
use encos_cli.Command.Config.Accept.{parse_cli_command-set}
use encos_cli.Command.Control.{parse_control_command}
use encos_cli.Command.Control.Shape.{IsControl, parse_control_command-IsControl}
use encos_cli.Command.Table.{ScanMotorRow}

-- Whole numbers in place of `float`.
abbrev whole : Floats
whole = record { Float = ℕ; stof = λ s. stoul 10 s; is_finite = λ x. true; to_radians = λ x. x }

abbrev set_line : List Bytes
set_line =
    codes "config"
    ∷ codes "Can:can0:0:1"
    ∷ codes "kt"
    ∷ codes "set"
    ∷ codes "5"
    ∷ codes "--canfd"
    ∷ []

abbrev can_motor : MotorTarget
can_motor = record {
  scope = single_motor;
  adapter_type = codes "Can";
  adapter_id = codes "can0";
  slave_id = none;
  bus_id = some (pos 0);
  motor_id = some 1;
}

parse_cli_command-IsConfig_example : Ensures IsConfig (parse_cli_command set_line)
parse_cli_command-IsConfig_example = parse_cli_command-IsConfig set_line

one_flag : count_flags set_line ≡ 1
unfolding str_eq
one_flag = refl

known_item : find_spec (codes "kt") config_specs ≡ ok (record { item = kt; value_count = 1 })
unfolding find_spec str_eq
known_item = refl

abbrev plain : String → Part
plain text = record { quoted = false; text = codes text }

known_target : parse_motor_target (codes "Can:can0:0:1") ≡ ok can_motor
unfolding decimal
known_target =
    parse_motor_target_complete (plain "Can") (plain "can0" ∷ plain "0" ∷ plain "1" ∷ [])
      (ground arith) (ground arith)
      (single (codes "Can") (codes "can0") 0 1 (λ e. cc) (λ e. cc) (omega arith) (omega arith))

parse_cli_command-set_example :
    parse_cli_command set_line
    ≡ ok (record {
      target = can_motor;
      item = kt;
      operation = set;
      canfd = leb 1 (count_flags set_line);
      values = codes "5" ∷ [];
    })
unfolding str_eq
parse_cli_command-set_example =
    parse_cli_command-set set_line (codes "5" ∷ []) (codes "Can:can0:0:1") (codes "kt")
      (record { item = kt; value_count = 1 }) can_motor (omega arith) refl known_item tt
      known_target (λ e. refl) refl

abbrev control_line : List Bytes
control_line = codes "control" ∷ codes "speed" ∷ codes "Can:can0:0:1" ∷ codes "3" ∷ codes "4" ∷ []

parse_control_command-IsControl_example :
    Ensures (IsControl whole) (parse_control_command whole control_line)
parse_control_command-IsControl_example = parse_control_command-IsControl whole control_line

abbrev channel_names : List Bytes
channel_names = codes "V48_3" ∷ codes "V48_1" ∷ []

abbrev found_row : ℤ → ℤ → ScanMotorRow
found_row bus motor = record {
  slave_id = none;
  bus_id = bus;
  motor_id = motor;
  eff = true;
  canfd = false;
}
