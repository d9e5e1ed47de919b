-- ===== src/Tests/Trajectories.antt =====
-- A trajectory file, and its playback.
use encos_cli.Base.{
  ℕ, suc, ◌+◌, ◌-◌, ◌*◌, ◌/◌, ◌%◌, ◌^◌, ◌<◌, ◌≤◌, ◌≡◌, ◌≢◌, refl, Bool, true, false, Option, none,
  some, List, [], ◌∷◌, map, Bytes, codes, Result, ok, err, ltb, leb, if◌then◌else◌, Ensures, arith,
  length, str_eq, ◌>>=◌, starts_with,
}
use encos_cli.Base.Int.{pos}
use encos_cli.Number.{stoul}
use encos_cli.Trajectory.Numbers.{Numbers}
use encos_cli.Trajectory.Connection.{MotorConnection, parse_motor_connection, format_connection}
use encos_cli.Trajectory.Connection.RoundTrip.{parse_motor_connection-format_connection}
use encos_cli.Trajectory.Player.{Trajectory, PlaybackState, evaluate_trajectory}
use encos_cli.Trajectory.Player.Laws.{IsState, evaluate_trajectory-IsState}
use encos_cli.Trajectory.Csv.{parse_trajectory_csv}
use encos_cli.Trajectory.Csv.Laws.{
  IsCsvTrajectory, parse_trajectory_csv-IsCsvTrajectory, parse_trajectory_csv-evaluate_trajectory,
}

-- Whole numbers in place of `double` and `float`.
abbrev pub whole : Numbers
whole = record {
  Double = ℕ;
  Float = ℕ;
  zero_s = 0;
  add = λ a b. a + b;
  sub = λ a b. a - b;
  mul = λ a b. a * b;
  div = λ a b. a / b;
  twice = λ a. 2 * a;
  fmod = λ a b. a % b;
  max_zero = λ a. a;
  le = leb;
  lt = ltb;
  print_margin = 0;
  stod = λ s. stoul 10 s;
  is_finite = λ x. true;
  to_float = λ x. x;
  to_double = λ x. x;
  sub_float = λ a b. a - b;
}

abbrev pub arm : MotorConnection
arm = record {
  adapter_type = codes "Can";
  adapter_id = codes "can0";
  slave_id = some (pos 1);
  bus_id = pos 0;
  motor_id = 3;
}

parse_motor_connection-format_connection_example :
    parse_motor_connection (format_connection arm) ≡ ok arm
parse_motor_connection-format_connection_example =
    parse_motor_connection-format_connection arm (record {
      type_named = (λ e. cc, ground arith);
      id_named = (λ e. cc, ground arith);
      slave = (omega arith, omega arith);
      bus = (omega arith, omega arith);
      motor = omega arith;
    })

abbrev two_samples : Trajectory ℕ ℕ
two_samples = record {
  motor_names = codes "Can:can0:1:0:3" ∷ [];
  motor_connections = arm ∷ [];
  samples =
      record { time_s = 0; positions_deg = 10 ∷ [] }
      ∷ record { time_s = 2; positions_deg = 30 ∷ [] }
      ∷ [];
}

evaluate_trajectory-IsState_example :
    (s : PlaybackState ℕ) × (evaluate_trajectory whole two_samples 3 true ≡ ok s)
    × IsState whole 1 1 true s
evaluate_trajectory-IsState_example =
    evaluate_trajectory-IsState whole two_samples 3 true
      (record { sampled = λ e. cc; connected = refl; widths = (refl, (refl, tt)) })

abbrev file : Option Bytes
file = some (codes "time,Can:can0:1:0:3 # an arm\n\n0,10\n2, 30\n")

parse_trajectory_csv-IsCsvTrajectory_example :
    Ensures (IsCsvTrajectory whole) (parse_trajectory_csv whole (codes "arm.csv") file)
parse_trajectory_csv-IsCsvTrajectory_example =
    parse_trajectory_csv-IsCsvTrajectory whole (codes "arm.csv") file

file_read : parse_trajectory_csv whole (codes "arm.csv") file ≡ ok two_samples
unfolding parse_trajectory_csv parse_motor_connection stoul str_eq encos_cli.Base.has_empty
    encos_cli.Number.stoi
file_read = refl

parse_trajectory_csv-evaluate_trajectory_example :
    (s : PlaybackState ℕ) × (evaluate_trajectory whole two_samples 3 true ≡ ok s)
    × IsState whole 1 1 true s
parse_trajectory_csv-evaluate_trajectory_example =
    parse_trajectory_csv-evaluate_trajectory whole (codes "arm.csv") file two_samples 3 true
      file_read
