-- ===== src/Play/Loop.antt =====
-- src/cli/play.cc: the control loop of `TrajectoryRunner::Run`, with the stop requests and pauses
-- that other threads and signals make between any two of its reads of the shared variables.
-- Times are nanoseconds of a steady clock. A phase lasts 2 s: the code compares the quotient by 10^9
-- as a `double` with 2.0, which decides as the comparison of the nanoseconds here.
pub mod Playing
pub mod Rounds
pub mod Laws
pub mod Stopping
pub mod Liveness
use encos_cli.Base.{
  ℕ, ◌+◌, ◌-◌, ◌/◌, Bool, true, false, not, ◌&&◌, List, [], ◌∷◌, ◌++◌, map, leb, ltb, ◌==◌,
  if◌then◌else◌, Result, ok, err, out_of_range, ◌>>=◌,
}
use encos_cli.Trajectory.Numbers.{Numbers}
use encos_cli.Trajectory.Player.{
  Trajectory, TrajectorySample, PlaybackState, evaluate_trajectory, get_control_loop_overrun,
}
use encos_cli.Play.Requests.{Shared, PlayEvent, hear, resume_if_stopping}
use encos_cli.Play.Clock.{PlayPauseClock, update_play_pause_clock, next_play_control_tick}
use encos_cli.Play.Motors.{
  PlayNumbers, MotorCall, PlaySettings, read_current_positions, send_positions,
  interpolate_positions, interpolate_degrees_to_radians, send_interpolated_positions,
}

pub data PlaybackPhase : Type 0 where
  startup : PlaybackPhase
  playback : PlaybackPhase
  returning : PlaybackPhase

abbrev pub is_returning : PlaybackPhase → Bool
is_returning returning = true
is_returning _ = false

-- What one round of the loop meets: the events before each of its reads, the two times that it asks
-- for, and what each motor reports if the positions are read.
pub record Round (Float : Type 0) : Type 0 where
  pub before_condition : List PlayEvent
  pub before_resume : List PlayEvent
  pub before_clock : List PlayEvent
  pub before_stop : List PlayEvent
  pub before_reread : List PlayEvent
  pub before_exit : List PlayEvent
  pub loop_now : ℕ
  pub loop_end : ℕ
  pub readings : List (Result Float)

pub record LoopState (Float : Type 0) : Type 0 where
  pub shared : Shared
  pub pause_clock : PlayPauseClock
  pub displayed_elapsed_us : ℕ
  pub phase : PlaybackPhase
  pub phase_start_time : ℕ
  pub trajectory_start_time : ℕ
  pub return_start_positions_rad : List Float
  pub next_tick : ℕ
  pub calls : List (MotorCall Float)
  -- The overruns that were warned of, in microseconds.
  pub overruns : List ℕ

-- A round that ends at the end of the loop's body, or at a `break` or the loop's condition.
pub data Step (A : Type 0) : Type 0 where
  stay : A → Step A
  leave : A → Step A

-- What does not change while the loop runs.
pub record PlayRun (Double Float : Type 0) : Type 0 where
  pub trajectory : Trajectory Double Float
  pub endless : Bool
  pub settings : PlaySettings Float
  pub control_period : ℕ
  pub start_time : ℕ
  pub initial_positions_rad : List Float

abbrev pub transition_duration : ℕ
transition_duration = 2000000000

abbrev pub elapsed_enough : ℕ → Bool
elapsed_enough elapsed = leb transition_duration elapsed

unfoldable pub should_return_to_initial_position : Bool → Bool → Bool
should_return_to_initial_position playback_finished endless = playback_finished && not endless

module _ (N : Numbers) (P : PlayNumbers N.Double N.Float) (run : PlayRun N.Double N.Float) where
  open N use {Double, Float, div, le}
  open P use {seconds, degrees_to_radians}

  abbrev State : Type 0
  State = LoopState Float

  -- The end of the body: the warning of an overrun, and the next tick.
  unfoldable pub finish_round : State → Round Float → State
  finish_round s r =
      let overrun = get_control_loop_overrun (s.next_tick + run.control_period) r.loop_end in
      record s {
        overruns = if ltb 0 overrun then s.overruns ++ (overrun ∷ []) else s.overruns;
        next_tick = next_play_control_tick s.next_tick run.control_period r.loop_end;
      }

  abbrev pub add_calls : State → List (MotorCall Float) → State
  add_calls s calls = record s { calls = s.calls ++ calls }

  abbrev pub transition : ℕ → Double
  transition elapsed = div (seconds elapsed) (seconds transition_duration)

  unfoldable pub front_positions : List (TrajectorySample Double Float) → Result (List Float)
  front_positions [] = err out_of_range
  front_positions (first ∷ samples) = ok first.positions_deg

  unfoldable pub startup_round : State → Round Float → ℕ → Result (Step State)
  unfolding front_positions finish_round
  startup_round s r now = do
    let elapsed = now - s.phase_start_time
    front ← front_positions run.trajectory.samples
    positions ←
        interpolate_degrees_to_radians N P run.initial_positions_rad front (transition elapsed)
    calls ← send_positions run.settings positions
    let sent = add_calls s calls
    let begun = record sent { phase = playback; trajectory_start_time = now }
    ok (stay (finish_round (if elapsed_enough elapsed then begun else sent) r))

  unfoldable pub returning_round : State → Round Float → ℕ → Result (Step State)
  unfolding finish_round
  returning_round s r now = do
    let elapsed = now - s.phase_start_time
    positions ←
        interpolate_positions N P s.return_start_positions_rad run.initial_positions_rad
          (transition elapsed)
    calls ← send_positions run.settings positions
    let sent = add_calls s calls
    ok (if elapsed_enough elapsed then leave sent else stay (finish_round sent r))

  -- A trajectory that is over starts the return, from its last positions.
  unfoldable pub after_playback : State → PlaybackState Float → ℕ → State
  after_playback s state now =
      if should_return_to_initial_position state.finished run.endless
      then record s {
        return_start_positions_rad = map degrees_to_radians state.positions_deg;
        phase = returning;
        phase_start_time = now;
      }
      else s

  unfoldable pub playback_round : State → Round Float → ℕ → Result (Step State)
  unfolding after_playback finish_round
  playback_round s r now = do
    state ←
        evaluate_trajectory N run.trajectory (seconds (now - s.trajectory_start_time)) run.endless
    calls ← send_interpolated_positions N P run.settings state.positions_deg
    ok (stay (finish_round (after_playback (add_calls s calls) state now) r))

  unfoldable pub phase_round : PlaybackPhase → State → Round Float → ℕ → Result (Step State)
  unfolding startup_round returning_round playback_round
  phase_round startup s r now = startup_round s r now
  phase_round playback s r now = playback_round s r now
  phase_round returning s r now = returning_round s r now

  -- Behind the last test of the stop requests.
  unfoldable pub act : State → Round Float → ℕ → Result (Step State)
  unfolding phase_round hear
  act s r now =
      let heard = record s { shared = hear r.before_exit s.shared } in
      if leb 2 heard.shared.stop_requests
      then ok (leave heard)
      else phase_round heard.phase heard r now

  -- A stop request outside the return: the positions are read, and the return starts from them.
  unfoldable pub begin_return : State → Round Float → ℕ → Result (Step State)
  unfolding act
  begin_return s r now =
      let reading = read_current_positions r.readings in
      let failed = record s {
        return_start_positions_rad = reading.0;
        shared = record s.shared { stop_requests = 2 };
      } in
      let heard = record s {
        return_start_positions_rad = reading.0;
        shared = hear r.before_reread s.shared;
      } in
      if not reading.1
      then ok (leave failed)
      else if leb 2 heard.shared.stop_requests
      then ok (leave heard)
      else act (record heard { phase = returning; phase_start_time = now }) r now

  -- The start of the body: the pause clock and the displayed time.
  unfoldable pub tick : State → Round Float → State × ℕ
  tick s r =
      let resumed = resume_if_stopping (hear r.before_resume s.shared) in
      let shared' = hear r.before_clock resumed in
      let clock = update_play_pause_clock s.pause_clock shared'.paused r.loop_now in
      (
        record s {
          shared = shared';
          pause_clock = clock.0;
          displayed_elapsed_us = (clock.1 - run.start_time) / 1000;
        },
        clock.1,
      )

  unfoldable pub loop_body : State → Round Float → Result (Step State)
  unfolding tick begin_return
  loop_body s r =
      let ticked = tick s r in
      let heard = record ticked.0 { shared = hear r.before_stop ticked.0.shared } in
      if leb 1 heard.shared.stop_requests && not (is_returning heard.phase)
      then begin_return heard r ticked.1
      else act heard r ticked.1

  unfoldable pub loop_round : State → Round Float → Result (Step State)
  unfolding loop_body hear
  loop_round s r =
      let heard = record s { shared = hear r.before_condition s.shared } in
      if leb 2 heard.shared.stop_requests then ok (leave heard) else loop_body heard r

  -- What goes on behind a round.
  abbrev pub keep_on : (State → Result (Step State)) → Step State → Result (Step State)
  keep_on rest (stay s) = rest s
  keep_on rest (leave s) = ok (leave s)

  -- The rounds that the loop makes, unless it is left before.
  unfoldable pub play_loop : State → List (Round Float) → Result (Step State)
  unfolding loop_round
  play_loop s [] = ok (stay s)
  play_loop s (r ∷ rounds) = loop_round s r >>= λ step. keep_on (λ next. play_loop next rounds) step

  -- The state in front of the loop, which starts at `start_time`.
  unfoldable pub loop_start : State
  loop_start = record {
    shared = record { stop_requests = 0; paused = false };
    pause_clock = record { paused = false; pause_started = 0; paused_duration = 0 };
    displayed_elapsed_us = 0;
    phase = startup;
    phase_start_time = run.start_time;
    trajectory_start_time = run.start_time;
    return_start_positions_rad = [];
    next_tick = run.start_time;
    calls = [];
    overruns = [];
  }
