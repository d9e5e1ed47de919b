-- ===== src/Tests/Targets.antt =====
-- The parsers of the command line at concrete arguments.
use encos_cli.Base.{
  ◌-◌, ◌≡◌, true, false, none, some, List, [], ◌∷◌, Bytes, codes, ok, str_eq, Ensures, arith,
}
use encos_cli.Base.Int.{pos}
use encos_cli.Number.{decimal}
use encos_cli.Target.Split.{split_colon_separated}
use encos_cli.Target.Quoting.{Part, IsPart, split_colon_separated-spelled}
use encos_cli.Target.Integer.{parse_uint16}
use encos_cli.Target.IntegerLaws.{parse_uint16_space_minus}
use encos_cli.Target.Motor.{MotorTarget, bus_all_motors, parse_motor_target}
use encos_cli.Target.Grammar.{bus_all, parse_motor_target_complete}
use encos_cli.Target.Shape.{IsWellFormed, parse_motor_target-IsWellFormed}
use encos_cli.Command.Flags.{extract_canfd_flag, extract_canfd_flag-count_flags}

-- `Can:@1:2@:3:ALL`.
abbrev can_part : Part
can_part = record { quoted = false; text = codes "Can" }

abbrev quoted_part : Part
quoted_part = record { quoted = true; text = codes "1:2" }

abbrev bus_part : Part
bus_part = record { quoted = false; text = decimal 3 }

abbrev all_part : Part
all_part = record { quoted = false; text = codes "ALL" }

lacks_in : IsPart can_part × IsPart quoted_part × IsPart bus_part × IsPart all_part
unfolding decimal
lacks_in = ground arith

split_colon_separated-spelled_example :
    split_colon_separated (codes "Can:@1:2@:3:ALL")
    ≡ ok (codes "Can" ∷ codes "1:2" ∷ codes "3" ∷ codes "ALL" ∷ [])
unfolding decimal
split_colon_separated-spelled_example =
    split_colon_separated-spelled can_part (quoted_part ∷ bus_part ∷ all_part ∷ []) lacks_in.0
      (lacks_in.1, (lacks_in.2, (lacks_in.3, tt)))

abbrev quoted_bus : MotorTarget
quoted_bus = record {
  scope = bus_all_motors;
  adapter_type = codes "Can";
  adapter_id = codes "1:2";
  slave_id = none;
  bus_id = some (pos 3);
  motor_id = none;
}

parse_motor_target_complete_example : parse_motor_target (codes "Can:@1:2@:3:ALL") ≡ ok quoted_bus
unfolding decimal
parse_motor_target_complete_example =
    parse_motor_target_complete can_part (quoted_part ∷ bus_part ∷ all_part ∷ []) lacks_in.0
      (lacks_in.1, (lacks_in.2, (lacks_in.3, tt)))
      (bus_all (codes "Can") (codes "1:2") 3 (λ e. cc) (λ e. cc) (omega arith))

parse_motor_target-IsWellFormed_example :
    Ensures IsWellFormed (parse_motor_target (codes "Can:can0:1:65535"))
parse_motor_target-IsWellFormed_example = parse_motor_target-IsWellFormed (codes "Can:can0:1:65535")

parse_uint16_space_minus_example : parse_uint16 (b' ' ∷ b'-' ∷ decimal 1) "MotorId" ≡ ok (65535 - 0)
parse_uint16_space_minus_example = parse_uint16_space_minus 0 "MotorId" (omega arith)

abbrev canfd_line : List Bytes
canfd_line = codes "--canfd" ∷ codes "config" ∷ codes "Can:can0:0:1" ∷ codes "read" ∷ []

extract_canfd_flag-count_flags_example :
    extract_canfd_flag canfd_line
    ≡ ok (record {
      arguments = codes "config" ∷ codes "Can:can0:0:1" ∷ codes "read" ∷ [];
      canfd = true;
    })
unfolding str_eq
extract_canfd_flag-count_flags_example = extract_canfd_flag-count_flags canfd_line
