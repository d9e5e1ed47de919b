-- ===== src/Command/Control.antt =====
-- cli_command.h and cli_command.cc: `ParseControlFloat` and `ParseControlCommand`.
pub mod Shape
use encos_cli.Base.{
  ℕ, zero, suc, Bool, true, false, not, ◌&&◌, ◌||◌, List, [], ◌∷◌, Bytes, String, ◌<>◌, ◌=:◌, ◌==◌,
  if◌then◌else◌, length, Result, ok, err, Error, runtime_error, invalid_argument, out_of_range,
  ◌>>=◌, ◌>>◌, throw_if,
}
use encos_cli.Base.Floats.{Floats}
use encos_cli.Target.Motor.{MotorTarget, parse_motor_target}
use encos_cli.Command.Flags.{extract_canfd_flag}

pub data ControlItem : Type 0 where
  pvt position speed current torque stop brake : ControlItem

pub data StopMode : Type 0 where
  full dynamic regenerative : StopMode

pub record ControlCommand (Float : Type 0) : Type 0 where
  pub target : MotorTarget
  pub item : ControlItem
  pub stop_mode : StopMode
  pub brake_enabled : Bool
  pub canfd : Bool
  pub values : List Float

-- `values[index] = f(values[index])`.
abbrev pub modify {ℓ} : {A : Type ℓ} → ℕ → (A → A) → List A → List A
modify i f [] = []
modify zero f (x ∷ xs) = f x ∷ xs
modify (suc i) f (x ∷ xs) = x ∷ modify i f xs

module _ (F : Floats) where
  open F use {Float, stof, is_finite, to_radians}

  abbrev Command : Type 0
  Command = ControlCommand Float

  -- The body of the `try` block and its handlers.
  unfoldable pub finite_float : Result (Float × Bytes) → Bytes → String → Result Float
  finite_float (ok (parsed, [])) value field =
      if is_finite parsed
      then ok parsed
      else err (runtime_error (field <> " contains invalid characters") value)
  finite_float (ok (parsed, _ ∷ _)) value field =
      err (runtime_error (field <> " contains invalid characters") value)
  finite_float (err invalid_argument) value field =
      err (runtime_error (field <> " is not a valid float") value)
  finite_float (err out_of_range) value field =
      err (runtime_error (field <> " is out of range") value)
  finite_float (err (runtime_error m v)) value field = err (runtime_error m v)

  unfoldable pub parse_control_float : Bytes → String → Result Float
  unfolding finite_float
  parse_control_float value field = finite_float (stof value) value field

  -- The loop of `parse_values`.
  unfoldable pub parse_floats : List Bytes → Result (List Float)
  parse_floats [] = ok []
  parse_floats (a ∷ rest) = do
    v ← parse_control_float a "Value"
    vs ← parse_floats rest
    ok (v ∷ vs)

  unfoldable pub parse_values : ℕ → List Bytes → Result (List Float)
  unfolding parse_floats
  parse_values expected_count rest = do
    throw_if (not (length rest == expected_count))
        (runtime_error "Control mode expects another number of values" [])
    parse_floats rest

  -- A mode that takes `count` numbers; `adjust` is what it does to them afterwards.
  unfoldable pub value_command :
      Command → ControlItem → ℕ → (List Float → List Float) → List Bytes → Result Command
  unfolding parse_values
  value_command c item count adjust rest = do
    vs ← parse_values count rest
    ok (record c { item = item; values = adjust vs })

  unfoldable pub brake_command : Command → List Bytes → Result Command
  brake_command c (v ∷ []) =
      if not (v =: "engage") && not (v =: "release")
      then err (runtime_error "Mechanical brake expects engage or release" [])
      else ok (record c { item = brake; brake_enabled = v =: "engage" })
  brake_command c _ = err (runtime_error "Mechanical brake expects engage or release" [])

  -- `stop dynamic` and `stop regenerative` want one number behind the mode.
  unfoldable pub stop_current : Command → StopMode → List Bytes → Result Command
  stop_current c mode (value ∷ []) = do
    v ← parse_control_float value "Current"
    ok (record c { item = stop; stop_mode = mode; values = v ∷ [] })
  stop_current c mode _ = err (runtime_error "Control mode 'stop' expects max_current_a" [])

  unfoldable pub stop_full : Command → List Bytes → Result Command
  stop_full c [] = ok (record c { item = stop; stop_mode = full })
  stop_full c _ = err (runtime_error "Control mode 'stop full' does not accept current" [])

  unfoldable pub stop_command : Command → List Bytes → Result Command
  unfolding stop_current stop_full
  stop_command c [] = err (runtime_error "Control mode 'stop' expects stop mode" [])
  stop_command c (mode ∷ rest) =
      if mode =: "full"
      then stop_full c rest
      else if mode =: "dynamic"
      then stop_current c dynamic rest
      else if mode =: "regenerative"
      then stop_current c regenerative rest
      else err (runtime_error "Unknown stop mode" mode)

  -- The ladder over the modes.
  unfoldable pub mode_command : Command → Bytes → List Bytes → Result Command
  unfolding value_command brake_command stop_command
  mode_command c mode rest =
      if mode =: "pvt"
      then value_command c pvt 5 (modify 2 to_radians) rest
      else if mode =: "position"
      then value_command c position 3 (modify 0 to_radians) rest
      else if mode =: "speed"
      then value_command c speed 2 (λ vs. vs) rest
      else if mode =: "current"
      then value_command c current 1 (λ vs. vs) rest
      else if mode =: "torque"
      then value_command c torque 1 (λ vs. vs) rest
      else if mode =: "brake"
      then brake_command c rest
      else if mode =: "stop"
      then stop_command c rest
      else err (runtime_error "Unknown control mode" mode)

  unfoldable pub control_command : Bool → List Bytes → Result Command
  unfolding mode_command
  control_command canfd (command ∷ mode ∷ target ∷ rest) = do
    throw_if (not (command =: "control"))
        (runtime_error "Invalid control command, expected 'control'" [])
    t ← parse_motor_target target
    mode_command
        (record {
          target = t;
          item = pvt;
          stop_mode = full;
          brake_enabled = false;
          canfd = canfd;
          values = [];
        })
        mode rest
  control_command canfd _ =
      err (runtime_error "Invalid control command, expected: control <mode> <target> <values>" [])

  unfoldable pub parse_control_command : List Bytes → Result Command
  unfolding extract_canfd_flag control_command
  parse_control_command arguments = do
    flags ← extract_canfd_flag arguments
    control_command flags.canfd flags.arguments
