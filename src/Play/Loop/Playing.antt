-- ===== src/Play/Loop/Playing.antt =====
-- src/cli/play.cc: what holds of the control loop between two rounds.
use encos_cli.Base.{ℕ, zero, suc, ◌≤◌, ◌≡◌, List, [], ◌∷◌, ◌++◌, map, Result, length}
use encos_cli.Trajectory.Numbers.{Numbers}
use encos_cli.Trajectory.Player.Laws.{IsTrajectory}
use encos_cli.Play.Clock.{PlayPauseClock, playback_time}
use encos_cli.Play.Clock.Laws.{IsClock}
use encos_cli.Play.Motors.{PlayNumbers, MotorCall, PlaySettings}
use encos_cli.Play.Motors.Laws.{Succeeds, CallTarget, call_target, frame}
use encos_cli.Play.Loop.{
  PlaybackPhase, startup, playback, returning, Round, LoopState, Step, stay, leave, PlayRun,
}

-- So many frames in a row.
abbrev pub frames : {F : Type 0} → PlaySettings F → ℕ → List CallTarget
frames s zero = []
frames s (suc n) = frames s n ++ frame s

-- The return has a position to start from for each motor.
abbrev pub ReturnsFrom : {F : Type 0} → ℕ → PlaybackPhase → List F → Type 0
ReturnsFrom motors returning positions = length positions ≡ motors
ReturnsFrom motors _ positions = Unit

pub ReturnsFrom-any :
    {F : Type 0} (motors : ℕ) (phase : PlaybackPhase) (positions : List F)
    → length positions ≡ motors
    → ReturnsFrom motors phase positions
ReturnsFrom-any motors startup positions h = tt
ReturnsFrom-any motors playback positions h = tt
ReturnsFrom-any motors returning positions h = h

-- What holds of a round's result, if the loop goes on and if it is left.
abbrev pub OnStep : {A : Type 0} → (A → Type 0) → (A → Type 0) → Step A → Type 0
OnStep P Q (stay s) = P s
OnStep P Q (leave s) = Q s

-- A state behind so many rounds, the last of which asked for the time `now`: the clock is in order,
-- the phase and the trajectory did not start in the future, and each round made one frame of calls.
pub record Playing {F : Type 0} (settings : PlaySettings F) (now rounds : ℕ)
    (clock : PlayPauseClock) (phase : PlaybackPhase) (phase_start trajectory_start : ℕ)
    (positions : List F) (calls : List (MotorCall F)) : Type 0 where
  pub in_order : IsClock now clock
  pub phase_started : phase_start ≤ playback_time clock now
  pub trajectory_started : trajectory_start ≤ playback_time clock now
  pub width : ReturnsFrom settings.motors phase positions
  pub sent : map call_target calls ≡ frames settings rounds

module _ (N : Numbers) (P : PlayNumbers N.Double N.Float) (run : PlayRun N.Double N.Float) where
  open N use {Double, Float}
  open P use {seconds, degrees_to_radians}

  -- A valid trajectory, with a motor for each of its names, and an initial position for each motor.
  pub record IsPlayable : Type 0 where
    pub valid : IsTrajectory N run.trajectory
    pub named : length run.trajectory.motor_names ≡ run.settings.motors
    pub initial : length run.initial_positions_rad ≡ run.settings.motors

  abbrev pub IsPlaying : ℕ → ℕ → LoopState Float → Type 0
  IsPlaying now rounds s =
      Playing run.settings now rounds s.pause_clock s.phase s.phase_start_time
        s.trajectory_start_time s.return_start_positions_rad s.calls

  -- The rounds' times do not go back, and every motor reports something or throws.
  abbrev pub AreRounds : ℕ → List (Round Float) → Type 0
  AreRounds now [] = Unit
  AreRounds now (r ∷ rounds) =
      (now ≤ r.loop_now) × (length r.readings ≡ run.settings.motors) × AreRounds r.loop_now rounds

  -- The calls are at most so many frames, all of them whole.
  abbrev pub HasSent : ℕ → LoopState Float → Type 0
  HasSent rounds s = (k : ℕ) × (k ≤ rounds) × (map call_target s.calls ≡ frames run.settings k)

  abbrev pub Going : ℕ → ℕ → Step (LoopState Float) → Type 0
  Going now rounds = OnStep (IsPlaying now rounds) (HasSent rounds)

  abbrev pub Goes : ℕ → ℕ → Result (Step (LoopState Float)) → Type 0
  Goes now rounds = Succeeds (Going now rounds)
