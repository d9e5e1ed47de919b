-- ===== src/Play/Motors.antt =====
-- src/cli/play.cc: what the control loop sends to the motors and reads from them.
-- The driver's calls are collected in a list; a vector read out of range, which C++ leaves
-- undefined, is `out_of_range` here.
pub mod Laws
use encos_cli.Base.{
  ℕ, zero, suc, ◌+◌, Bool, true, false, Option, none, some, List, [], ◌∷◌, ◌++◌, map, Result, ok,
  err, out_of_range, ◌>>=◌, if◌then◌else◌, ◌&&◌,
}
use encos_cli.Trajectory.Numbers.{Numbers}

-- The operations that play makes on floating point, besides those of the trajectories: `seconds` is
-- the duration of so many nanoseconds, `clamp_unit` is `std::clamp(progress, 0.0, 1.0)`.
pub record PlayNumbers (Double Float : Type 0) : Type 0 where
  pub seconds : ℕ → Double
  pub clamp_unit : Double → Double
  pub degrees_to_radians : Float → Float
  pub add_float : Float → Float → Float

-- A motor of the trajectory is its index in `motors_`, one that is held its index in
-- `holding_motors_`.
pub data MotorCall (Float : Type 0) : Type 0 where
  pvt_control : ℕ → Float → Float → Float → Float → Float → MotorCall Float
  pos_control : ℕ → Float → Float → Float → MotorCall Float
  hold_control : ℕ → Float → Float → Float → MotorCall Float
  commit : MotorCall Float

pub record PlaySettings (Float : Type 0) : Type 0 where
  pub kp : Option Float
  pub kd : Option Float
  pub vel : Option Float
  pub tor : Option Float
  pub max_speed_rad_s : Float
  pub max_current_a : Float
  -- The number of `motors_`, and the positions of `holding_motors_`.
  pub motors : ℕ
  pub holding : List Float

abbrev pub has_value : {A : Type 0} → Option A → Bool
has_value none = false
has_value (some a) = true

abbrev pub use_pvt_control : {F : Type 0} → PlaySettings F → Bool
use_pvt_control s = has_value s.kp && has_value s.kd && has_value s.vel && has_value s.tor

-- The values of the gains are read only when all of them are there.
abbrev value_or : {F : Type 0} → F → Option F → F
value_or d none = d
value_or d (some x) = x

module _ {F : Type 0} where
  unfoldable pub motor_call : PlaySettings F → ℕ → F → MotorCall F
  motor_call s index position_rad =
      let value = value_or position_rad in
      if use_pvt_control s
      then pvt_control index (value s.kp) (value s.kd) position_rad (value s.vel) (value s.tor)
      else pos_control index position_rad s.max_speed_rad_s s.max_current_a

  -- The loop over so many motors from an index on.
  unfoldable pub motor_calls : PlaySettings F → ℕ → ℕ → List F → Result (List (MotorCall F))
  unfolding motor_call
  motor_calls s zero index positions_rad = ok []
  motor_calls s (suc motors) index [] = err out_of_range
  motor_calls s (suc motors) index (p ∷ positions_rad) =
      motor_calls s motors (index + 1) positions_rad >>= λ rest. ok (motor_call s index p ∷ rest)

  unfoldable pub send_holding_positions : PlaySettings F → ℕ → List F → List (MotorCall F)
  send_holding_positions s index [] = []
  send_holding_positions s index (position_rad ∷ holding) =
      hold_control index position_rad s.max_speed_rad_s s.max_current_a
      ∷ send_holding_positions s (index + 1) holding

  unfoldable pub send_positions : PlaySettings F → List F → Result (List (MotorCall F))
  unfolding motor_calls send_holding_positions
  send_positions s positions_rad = motor_calls s s.motors 0 positions_rad >>= λ calls.
      ok (calls ++ (send_holding_positions s 0 s.holding ++ (commit ∷ [])))

  -- The positions that the motors report, up to the first one that throws; whether all did.
  unfoldable pub read_current_positions : List (Result F) → List F × Bool
  read_current_positions [] = ([], true)
  read_current_positions (err thrown ∷ motors) = ([], false)
  read_current_positions (ok position ∷ motors) =
      let rest = read_current_positions motors in (position ∷ rest.0, rest.1)

module _ (N : Numbers) (P : PlayNumbers N.Double N.Float) where
  open N use {Double, Float, mul, to_float, to_double, sub_float}
  open P use {clamp_unit, degrees_to_radians, add_float}

  -- The loop of `InterpolatePositions`, behind the clamping.
  unfoldable pub interpolate_clamped : List Float → List Float → Double → Result (List Float)
  interpolate_clamped [] ends progress = ok []
  interpolate_clamped (start ∷ starts) [] progress = err out_of_range
  interpolate_clamped (start ∷ starts) (end ∷ ends) progress =
      interpolate_clamped starts ends progress >>= λ rest.
      ok (add_float start (to_float (mul (to_double (sub_float end start)) progress)) ∷ rest)

  unfoldable pub interpolate_positions : List Float → List Float → Double → Result (List Float)
  unfolding interpolate_clamped
  interpolate_positions starts ends progress = interpolate_clamped starts ends (clamp_unit progress)

  unfoldable pub interpolate_degrees_to_radians :
      List Float → List Float → Double → Result (List Float)
  unfolding interpolate_positions
  interpolate_degrees_to_radians start_positions_rad end_positions_deg progress =
      interpolate_positions start_positions_rad (map degrees_to_radians end_positions_deg) progress

  unfoldable pub send_interpolated_positions :
      PlaySettings Float → List Float → Result (List (MotorCall Float))
  unfolding send_positions
  send_interpolated_positions s positions_deg =
      send_positions s (map degrees_to_radians positions_deg)
