-- ===== src/Trajectory/Player.antt =====
-- src/trajectory_player.h and src/trajectory_player.cc: the state of a playback at a time.
pub mod Laws
use encos_cli.Base.{
  ℕ, zero, suc, ◌+◌, ◌-◌, ◌/◌, Bool, true, false, not, List, [], ◌∷◌, Bytes, ◌==◌, leb,
  if◌then◌else◌, length, Result, ok, err, runtime_error, ◌>>=◌, ◌>>◌, throw_if, ◌||◌,
}
use encos_cli.Base.Vectors.{get_or}
use encos_cli.Trajectory.Connection.{MotorConnection}
use encos_cli.Trajectory.Numbers.{Numbers}

pub record TrajectorySample (Double Float : Type 0) : Type 0 where
  pub time_s : Double
  pub positions_deg : List Float

pub record Trajectory (Double Float : Type 0) : Type 0 where
  pub motor_names : List Bytes
  pub motor_connections : List MotorConnection
  pub samples : List (TrajectorySample Double Float)

pub record PlaybackState (Float : Type 0) : Type 0 where
  pub segment_start_index : ℕ
  pub segment_end_index : ℕ
  pub positions_deg : List Float
  pub finished : Bool

pub record FeedbackPrinterSchedule (Double : Type 0) : Type 0 where
  pub interval_s : Double
  pub next_print_time_s : Double

-- `GetControlLoopOverrun`, on times in nanoseconds; the result is in whole microseconds.
unfoldable pub get_control_loop_overrun : ℕ → ℕ → ℕ
get_control_loop_overrun expected_tick actual_time =
    if leb actual_time expected_tick then 0 else (actual_time - expected_tick) / 1000

module _ (N : Numbers) where
  open N use {
    Double, Float, zero_s, add, sub, mul, div, twice, fmod, max_zero, le, lt, print_margin,
    to_float, to_double, sub_float,
  }

  abbrev Sample : Type 0
  Sample = TrajectorySample Double Float

  abbrev State : Type 0
  State = PlaybackState Float

  unfoldable pub build_terminal_state : Sample → ℕ → Bool → State
  build_terminal_state sample sample_index finished = record {
    segment_start_index = sample_index;
    segment_end_index = sample_index;
    positions_deg = sample.positions_deg;
    finished = finished;
  }

  -- The loop over the positions, which are as many in `end` as in `start`.
  unfoldable pub interpolate : List Float → List Float → Double → List Float
  interpolate [] ends ratio = []
  interpolate (a ∷ starts) [] ratio = []
  interpolate (a ∷ starts) (b ∷ ends) ratio =
      to_float (add (to_double a) (mul (to_double (sub_float b a)) ratio))
      ∷ interpolate starts ends ratio

  unfoldable pub interpolate_segment :
      Sample → Sample → ℕ → ℕ → Double → Double → Bool → Result State
  unfolding interpolate
  interpolate_segment start end start_index end_index segment_elapsed_s segment_duration_s
        finished =
      do
        throw_if (not (length start.positions_deg == length end.positions_deg))
            (runtime_error "trajectory sample width mismatch" [])
        let ratio =
            if le segment_duration_s zero_s
            then zero_s
            else div segment_elapsed_s segment_duration_s
        ok (record {
          segment_start_index = start_index;
          segment_end_index = end_index;
          positions_deg = interpolate start.positions_deg end.positions_deg ratio;
          finished = finished;
        })

  -- The functions below read the samples `first ∷ rest`, of which there is at least one.
  module _ (first : Sample) (rest : List Sample) where
    abbrev pub sample : ℕ → Sample
    sample i = get_or (first ∷ rest) i first

    -- `samples.size() - 1`.
    abbrev pub last_index : ℕ
    last_index = length rest

    abbrev pub total_duration_s : Double
    total_duration_s = sub (sample last_index).time_s first.time_s

    -- The loop of `EvaluateForward`, with the rounds left.
    unfoldable pub forward_loop : ℕ → ℕ → Double → Bool → Result State
    unfolding build_terminal_state interpolate_segment
    forward_loop zero index elapsed_s finished_at_end =
        ok (build_terminal_state (sample last_index) last_index finished_at_end)
    forward_loop (suc rounds) index elapsed_s finished_at_end =
        let start = sample index in
        let end = sample (index + 1) in
        let segment_duration_s = sub end.time_s start.time_s in
        let segment_start_offset_s = sub start.time_s first.time_s in
        let later = forward_loop rounds (index + 1) elapsed_s finished_at_end in
        if le elapsed_s (add segment_start_offset_s segment_duration_s)
        then interpolate_segment start end index (index + 1) (sub elapsed_s segment_start_offset_s)
            segment_duration_s false
        else later

    unfoldable pub evaluate_forward : Double → Bool → Result State
    unfolding forward_loop
    evaluate_forward elapsed_s finished_at_end =
        if le total_duration_s elapsed_s
        then ok (build_terminal_state (sample last_index) last_index finished_at_end)
        else forward_loop last_index 0 elapsed_s finished_at_end

    -- The loop of `EvaluateBackward`, on `reverse_index`.
    unfoldable pub backward_loop : ℕ → Double → Result State
    unfolding build_terminal_state interpolate_segment
    backward_loop zero elapsed_s = ok (build_terminal_state first 0 false)
    backward_loop (suc i) elapsed_s =
        let start = sample (suc i) in
        let end = sample i in
        let segment_duration_s = sub start.time_s end.time_s in
        let earlier = backward_loop i (sub elapsed_s segment_duration_s) in
        if le elapsed_s segment_duration_s
        then interpolate_segment start end (suc i) i elapsed_s segment_duration_s false
        else earlier

    unfoldable pub evaluate_backward : Double → Result State
    unfolding backward_loop
    evaluate_backward elapsed_s = backward_loop last_index elapsed_s

    -- `EvaluateTrajectory` behind the test for a single sample.
    unfoldable pub evaluate_many : Double → Bool → Result State
    unfolding evaluate_forward evaluate_backward
    evaluate_many elapsed_s endless =
        let clamped_elapsed_s = max_zero elapsed_s in
        let cycle_elapsed_s = fmod clamped_elapsed_s (twice total_duration_s) in
        if le total_duration_s zero_s
        then ok (build_terminal_state first 0 (not endless))
        else if not endless
        then evaluate_forward clamped_elapsed_s true
        else if le cycle_elapsed_s total_duration_s
        then evaluate_forward cycle_elapsed_s false
        else evaluate_backward (sub cycle_elapsed_s total_duration_s)

  -- The loop of `ValidateTrajectory` over the samples.
  unfoldable pub has_other_width : ℕ → List Sample → Bool
  has_other_width width [] = false
  has_other_width width (s ∷ samples) =
      not (length s.positions_deg == width) || has_other_width width samples

  unfoldable pub validate_trajectory : Trajectory Double Float → Result (Unit {0})
  unfolding has_other_width
  validate_trajectory t = do
    throw_if (length t.samples == 0)
        (runtime_error "trajectory must contain at least one sample" [])
    throw_if (not (length t.motor_names == length t.motor_connections))
        (runtime_error "trajectory motor metadata mismatch" [])
    throw_if (has_other_width (length t.motor_names) t.samples)
        (runtime_error "trajectory sample width mismatch" [])

  unfoldable pub evaluate_samples : List Sample → Double → Bool → Result State
  unfolding evaluate_many
  evaluate_samples [] elapsed_s endless =
      err (runtime_error "trajectory must contain at least one sample" [])
  evaluate_samples (first ∷ []) elapsed_s endless = ok (build_terminal_state first 0 (not endless))
  evaluate_samples (first ∷ second ∷ rest) elapsed_s endless =
      evaluate_many first (second ∷ rest) elapsed_s endless

  unfoldable pub evaluate_trajectory : Trajectory Double Float → Double → Bool → Result State
  unfolding validate_trajectory evaluate_samples
  evaluate_trajectory t elapsed_s endless = do
    validate_trajectory t
    evaluate_samples t.samples elapsed_s endless

  unfoldable pub should_print :
      FeedbackPrinterSchedule Double → Double → FeedbackPrinterSchedule Double × Bool
  should_print s elapsed_s =
      if lt (add elapsed_s print_margin) s.next_print_time_s
      then (s, false)
      else (record s { next_print_time_s = add s.next_print_time_s s.interval_s }, true)
