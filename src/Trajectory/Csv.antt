-- ===== src/Trajectory/Csv.antt =====
-- src/trajectory_csv_parser.cc: a trajectory from the text of a CSV file.
pub mod Laws
use encos_cli.Base.{
  ℕ, ◌+◌, Bool, true, false, not, ◌||◌, ◌&&◌, Option, none, some, List, [], ◌∷◌, ◌++◌, String,
  Bytes, ◌==◌, ◌=:◌, ltb, is_empty, if◌then◌else◌, length, Result, ok, err, runtime_error, ◌>>=◌,
  ◌>>◌, throw_if,
}
use encos_cli.Base.Int.{pos}
use encos_cli.Number.{to_string}
use encos_cli.Trajectory.Connection.{MotorConnection, prepend, parse_motor_connection}
use encos_cli.Trajectory.Numbers.{Numbers}
use encos_cli.Trajectory.Player.{TrajectorySample, Trajectory}

-- The texts that `std::getline` reads until the end of the stream.
unfoldable pub getlines : ℕ → Bytes → List Bytes
getlines delimiter [] = []
getlines delimiter (c ∷ s) =
    let rest = getlines delimiter s in if c == delimiter then [] ∷ rest else prepend c rest

abbrev pub is_blank : ℕ → Bool
is_blank c = c == b' ' || c == b'\t' || c == b'\r' || c == b'\n'

unfoldable pub trim_front : Bytes → Bytes
trim_front [] = []
trim_front (c ∷ s) = let rest = trim_front s in if is_blank c then rest else c ∷ s

unfoldable pub trim_back : Bytes → Bytes
trim_back [] = []
trim_back (c ∷ s) = let rest = trim_back s in if is_blank c && is_empty rest then [] else c ∷ rest

unfoldable pub trim : Bytes → Bytes
unfolding trim_front trim_back
trim s = trim_back (trim_front s)

abbrev pub trim_all : List Bytes → List Bytes
trim_all [] = []
trim_all (cell ∷ cells) = trim cell ∷ trim_all cells

unfoldable pub split_csv_line : Bytes → List Bytes
unfolding getlines trim
split_csv_line line = trim_all (getlines b',' line)

abbrev keep : ℕ → Option Bytes → Option Bytes
keep c none = none
keep c (some s) = some (c ∷ s)

-- The text in front of the first `#`, if there is one.
unfoldable pub before_comment : Bytes → Option Bytes
before_comment [] = none
before_comment (c ∷ s) = let rest = before_comment s in if c == b'#' then some [] else keep c rest

abbrev trim_cut : Bytes → Option Bytes → Bytes
trim_cut line none = line
trim_cut line (some s) = trim s

-- The start of a round: the line, trimmed and less its comment.
unfoldable pub strip_line : Bytes → Bytes
unfolding trim before_comment
strip_line line = trim_cut (trim line) (before_comment (trim line))

unfoldable pub parse_connections : List Bytes → Result (List MotorConnection)
parse_connections [] = ok []
parse_connections (column ∷ columns) = do
  c ← parse_motor_connection column
  cs ← parse_connections columns
  ok (c ∷ cs)

module _ (N : Numbers) where
  open N use {Double, Float, zero_s, le, stod, is_finite, to_float}

  -- The variables of the loop; before the header there is no line of names yet.
  pub record CsvState : Type 0 where
    pub header_parsed : Bool
    pub trajectory : Trajectory Double Float
    pub previous_time_s : Double

  unfoldable pub parse_finite_double : Bytes → String → Result Double
  parse_finite_double value field_name = do
    (parsed, rest) ← stod value
    throw_if (not (is_empty rest) || not (is_finite parsed)) (runtime_error field_name [])
    ok parsed

  unfoldable pub parse_positions : List Bytes → Result (List Float)
  unfolding parse_finite_double
  parse_positions [] = ok []
  parse_positions (column ∷ columns) = do
    p ← parse_finite_double column "position must be a finite number"
    ps ← parse_positions columns
    ok (to_float p ∷ ps)

  unfoldable pub parse_header : List Bytes → CsvState → Result CsvState
  unfolding parse_connections
  parse_header (time ∷ column ∷ columns) s = do
    throw_if (not (time =: "time")) (runtime_error "trajectory first column must be 'time'" [])
    connections ← parse_connections (column ∷ columns)
    ok (record s {
      header_parsed = true;
      trajectory = record {
        motor_names = column ∷ columns;
        motor_connections = connections;
        samples = s.trajectory.samples;
      };
    })
  parse_header _ s =
      err (runtime_error "trajectory header must contain time plus at least one motor column" [])

  abbrev is_late : Double → List (TrajectorySample Double Float) → Double → Bool
  is_late previous_time_s [] time_s = false
  is_late previous_time_s (x ∷ xs) time_s = le time_s previous_time_s

  -- `line_number` stands in the messages only.
  unfoldable pub parse_sample : ℕ → List Bytes → CsvState → Result CsvState
  unfolding parse_finite_double parse_positions
  parse_sample line_number [] s =
      err (runtime_error "line: unexpected number of columns" (to_string (pos line_number)))
  parse_sample line_number (time ∷ columns) s = do
    throw_if (not (length columns == length s.trajectory.motor_names))
        (runtime_error "line: unexpected number of columns" (to_string (pos line_number)))
    time_s ← parse_finite_double time "time must be a finite number"
    throw_if (is_late s.previous_time_s s.trajectory.samples time_s)
        (runtime_error "line: time must be strictly increasing" (to_string (pos line_number)))
    positions ← parse_positions columns
    ok (record s {
      trajectory = record {
        motor_names = s.trajectory.motor_names;
        motor_connections = s.trajectory.motor_connections;
        samples =
            s.trajectory.samples ++ (record { time_s = time_s; positions_deg = positions } ∷ []);
      };
      previous_time_s = time_s;
    })

  unfoldable pub csv_row : ℕ → Bytes → CsvState → Result CsvState
  unfolding split_csv_line parse_header parse_sample
  csv_row line_number line s =
      if is_empty line
      then ok s
      else if not s.header_parsed
      then parse_header (split_csv_line line) s
      else parse_sample line_number (split_csv_line line) s

  unfoldable pub csv_loop : ℕ → List Bytes → CsvState → Result CsvState
  unfolding csv_row strip_line
  csv_loop line_number [] s = ok s
  csv_loop line_number (line ∷ lines) s = do
    s' ← csv_row (line_number + 1) (strip_line line) s
    csv_loop (line_number + 1) lines s'

  unfoldable pub finish_csv : CsvState → Result (Trajectory Double Float)
  finish_csv s = do
    throw_if (not s.header_parsed) (runtime_error "trajectory file is empty" [])
    throw_if (length s.trajectory.samples == 0)
        (runtime_error "trajectory file contains no samples" [])
    ok s.trajectory

  abbrev pub initial : CsvState
  initial = record {
    header_parsed = false;
    trajectory = record { motor_names = []; motor_connections = []; samples = [] };
    previous_time_s = zero_s;
  }

  -- `ParseTrajectoryCsv`, on the text of the file, or none if it cannot be opened.
  unfoldable pub parse_trajectory_csv : Bytes → Option Bytes → Result (Trajectory Double Float)
  unfolding csv_loop finish_csv getlines
  parse_trajectory_csv filepath none = err (runtime_error "Cannot open file: " filepath)
  parse_trajectory_csv filepath (some content) = do
    s ← csv_loop 0 (getlines b'\n' content) initial
    finish_csv s
