-- ===== src/Tests/Playing.antt =====
-- Runs of the play command's parts.
use encos_cli.Base.{
  ℕ, ◌+◌, ◌-◌, ◌*◌, ◌/◌, ◌%◌, ◌≤◌, ◌≡◌, ◌≢◌, refl, Bool, true, false, Option, none, some, List, [],
  ◌∷◌, ◌++◌, Bytes, codes, Result, ok, err, invalid_argument, length, arith,
}
use encos_cli.Base.Int.{pos}
use encos_cli.Trajectory.Player.{Trajectory}
use encos_cli.Play.Motors.{PlayNumbers, MotorCall, PlaySettings, pos_control, hold_control, commit}
use encos_cli.Play.Requests.{PlayEvent, interrupt, press_space}
use encos_cli.Play.Loop.{Round, PlayRun, LoopState, Step, stay, leave, play_loop, loop_start}
use encos_cli.Play.Loop.Playing.{IsPlayable, AreRounds, Goes}
use encos_cli.Play.Loop.Laws.{last_time, play_loop-IsPlaying}
use encos_cli.Play.Loop.Liveness.{play_loop_stops}
use encos_cli.Base.{◌==◌, not, ltb}
use encos_cli.Base.Sort.{IsSorted}
use encos_cli.Trajectory.Connection.{parse_motor_connection}
use encos_cli.Play.Logs.{
  PlayLogs, LogAnswers, at_start, on_key, at_end, run_logs, enable_logs, log_file_name,
}
use encos_cli.Play.Logs.Laws.{IsLogs, run_logs-IsLogs}
use encos_cli.Play.Logs.Outcome.{Switched, enable_logs-Switched, log_file_name_distinct}
use encos_cli.Play.Snapshots.{
  PlayMotorSnapshot, Comparisons, no_error, by_position, snapshot_less, sort_play_motor_snapshots,
}
use encos_cli.Play.Snapshots.Laws.{NanLast, sort_play_motor_snapshots_lem}
use encos_cli.Play.Names.{format_bus_prefix, holding_name}
use encos_cli.Play.Names.Laws.{of_slave, parse_motor_connection-holding_name}
use mathlib.Core.List.{Perm}
use encos_cli.Tests.Trajectories.{whole, arm}

abbrev whole_play : PlayNumbers ℕ ℕ
whole_play = record {
  seconds = λ n. n / 1000000000;
  clamp_unit = λ x. x;
  degrees_to_radians = λ x. x;
  add_float = λ a b. a + b;
}

abbrev swing : Trajectory ℕ ℕ
swing = record {
  motor_names = codes "arm" ∷ [];
  motor_connections = arm ∷ [];
  samples =
      record { time_s = 0; positions_deg = 5 ∷ [] }
      ∷ record { time_s = 4; positions_deg = 9 ∷ [] }
      ∷ [];
}

-- One motor of the trajectory, and another that is held at 7.
abbrev one_motor : PlayRun ℕ ℕ
one_motor = record {
  trajectory = swing;
  endless = true;
  settings = record {
    kp = none;
    kd = none;
    vel = none;
    tor = none;
    max_speed_rad_s = 20;
    max_current_a = 10;
    motors = 1;
    holding = 7 ∷ [];
  };
  control_period = 1000000;
  start_time = 100;
  initial_positions_rad = 2 ∷ [];
}

abbrev quiet_round : ℕ → List PlayEvent → Round ℕ
quiet_round now events = record {
  before_condition = events;
  before_resume = [];
  before_clock = [];
  before_stop = [];
  before_reread = [];
  before_exit = [];
  loop_now = now;
  loop_end = now + 10;
  readings = ok 4 ∷ [];
}

one_motor-IsPlayable : IsPlayable whole whole_play one_motor
one_motor-IsPlayable = record {
  valid = record { sampled = λ e. cc; connected = refl; widths = (refl, (refl, tt)) };
  named = refl;
  initial = refl;
}

-- Playback is paused when the interrupt comes.
abbrev some_rounds : List (Round ℕ)
some_rounds =
    quiet_round 200 [] ∷ quiet_round 2000000100 [] ∷ quiet_round 2500000000 (press_space ∷ []) ∷ []

some_rounds-AreRounds : AreRounds whole whole_play one_motor 100 some_rounds
some_rounds-AreRounds = (omega arith, refl, (omega arith, refl, (omega arith, refl, tt)))

play_loop-IsPlaying_example :
    Goes whole whole_play one_motor
      (last_time 100 some_rounds)
      3
      (play_loop whole whole_play one_motor (loop_start whole whole_play one_motor) some_rounds)
play_loop-IsPlaying_example =
    play_loop-IsPlaying whole whole_play one_motor one_motor-IsPlayable some_rounds
      some_rounds-AreRounds

play_loop_stops_example :
    (s : LoopState ℕ) × (play_loop whole whole_play one_motor
        (loop_start whole whole_play one_motor)
        (some_rounds
          ++ (quiet_round 3000000000 (interrupt ∷ []) ∷ (quiet_round 5000000000 [] ∷ [])))
      ≡ ok (leave s))
play_loop_stops_example =
    play_loop_stops whole whole_play one_motor one_motor-IsPlayable some_rounds
      (quiet_round 3000000000 (interrupt ∷ [])) (quiet_round 5000000000 [] ∷ [])
      (
        omega arith,
        refl,
        (omega arith, refl, (omega arith, refl, (omega arith, refl, (omega arith, refl, tt)))),
      )
      refl (refl, (refl, tt)) refl

-- The first round starts from the motor's position, holds the other one and commits.
abbrev calls_of : Result (Step (LoopState ℕ)) → List (MotorCall ℕ)
calls_of (ok (stay s)) = s.calls
calls_of (ok (leave s)) = s.calls
calls_of (err e) = []

first_calls :
    calls_of (
      play_loop whole whole_play one_motor
        (loop_start whole whole_play one_motor)
        (quiet_round 200 [] ∷ []))
    ≡ pos_control 0 2 20 10 ∷ hold_control 0 7 20 10 ∷ commit ∷ []
unfolding play_loop loop_start encos_cli.Play.Motors.interpolate_degrees_to_radians
    encos_cli.Play.Motors.send_positions encos_cli.Play.Clock.update_play_pause_clock
first_calls = refl

abbrev joined : Bytes → Bytes → Bytes
joined directory name = directory ++ (b'/' ∷ name)

-- The second motor cannot be logged, and the log of the first one is not closed.
abbrev stubborn : LogAnswers
stubborn = record {
  created = λ directory. true;
  enable = λ motor path. ok (motor == 0);
  closes = λ motor. not (motor == 0);
}

abbrev two_logs : PlayLogs
two_logs = record {
  monitored = codes "Can:can0:1:0:3" ∷ codes "hip" ∷ [];
  logging = [];
  logs_enabled = false;
  log_directory = none;
  reports = [];
}

run_logs-IsLogs_example :
    IsLogs (run_logs joined (at_start stubborn ∷ on_key stubborn ∷ at_end stubborn ∷ []) two_logs)
run_logs-IsLogs_example =
    run_logs-IsLogs joined (at_start stubborn ∷ on_key stubborn ∷ at_end stubborn ∷ []) two_logs
      (record { ascending = tt; disabled = λ e. refl })

enable_logs-Switched_example :
    Switched joined stubborn
      (codes "./logs")
      two_logs.monitored
      (enable_logs joined stubborn (codes "./logs") two_logs)
enable_logs-Switched_example = enable_logs-Switched joined stubborn (codes "./logs") two_logs refl

-- Motor 0 stays logged.
one_left : (enable_logs joined stubborn (codes "./logs") two_logs).0.logging ≡ 0 ∷ []
unfolding enable_logs
one_left = refl

log_named : log_file_name (codes "a:1") 12 ≡ codes "a_1_12"
unfolding log_file_name encos_cli.Number.to_string
log_named = refl

log_file_name_distinct_example : log_file_name (codes "a_1") 2 ≢ log_file_name (codes "a") 12
log_file_name_distinct_example = log_file_name_distinct (codes "a_1") (codes "a") 2 12 (omega arith)

-- The position is missing when it is 0.
abbrev whole_comparisons : Comparisons ℕ
whole_comparisons = record {
  Double = ℕ;
  is_nan = λ x. x == 0;
  less_float = ltb;
  zero_loss = 0;
  quotient = λ a b. a * 100 / b;
  less_double = ltb;
  code = λ e. 0;
}

abbrev snapshot : ℕ → PlayMotorSnapshot ℕ
snapshot position = record {
  name = codes "hip";
  adapter_type = codes "Can";
  adapter_id = codes "can0";
  slave_id = none;
  bus_id = pos 0;
  motor_id = pos 3;
  position_rad = position;
  speed_rad_s = 1;
  current_a = 1;
  torque_nm = 1;
  motor_temperature_c = 30;
  mos_temperature_c = 30;
  error = no_error;
  sent = 5;
  received = 5;
  window_sent = 5;
  window_received = 5;
}

abbrev three_snapshots : List (PlayMotorSnapshot ℕ)
three_snapshots = snapshot 4 ∷ snapshot 0 ∷ snapshot 9 ∷ []

sort_play_motor_snapshots_lem_example :
    Perm
      (sort_play_motor_snapshots whole_comparisons three_snapshots by_position false)
      three_snapshots
    × IsSorted
        (snapshot_less whole_comparisons by_position false)
        (sort_play_motor_snapshots whole_comparisons three_snapshots by_position false)
    × NanLast whole_comparisons by_position
        (sort_play_motor_snapshots whole_comparisons three_snapshots by_position false)
sort_play_motor_snapshots_lem_example =
    sort_play_motor_snapshots_lem whole_comparisons
      (record { floats = λ x y h. ground arith; doubles = λ x y h. ground arith }) three_snapshots
      by_position false

sorted_down :
    sort_play_motor_snapshots whole_comparisons three_snapshots by_position false
    ≡ snapshot 9 ∷ snapshot 4 ∷ snapshot 0 ∷ []
unfolding sort_play_motor_snapshots encos_cli.Base.Sort.sort_by
sorted_down = refl

-- Bus 2 of slave 5.
parse_motor_connection-holding_name_example :
    parse_motor_connection
      (holding_name (format_bus_prefix (codes "Can") (codes "can0") (pos 327682)) (pos 7))
    ≡ ok (record {
      adapter_type = codes "Can";
      adapter_id = codes "can0";
      slave_id = some (pos 5);
      bus_id = pos 2;
      motor_id = 7;
    })
parse_motor_connection-holding_name_example =
    parse_motor_connection-holding_name (codes "Can") (codes "can0") (some (pos 5)) (pos 2)
      (format_bus_prefix (codes "Can") (codes "can0") (pos 327682)) 7 (λ e. cc, ground arith)
      (λ e. cc, ground arith)
      (of_slave 5 2 (omega arith) (omega arith) (omega arith) refl refl refl) (omega arith)
