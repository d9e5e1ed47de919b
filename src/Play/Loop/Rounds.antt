-- ===== src/Play/Loop/Rounds.antt =====
-- src/cli/play.cc: what each phase of the control loop keeps, and the calls of a round.
use encos_cli.Base.{
  ℕ, suc, ◌+◌, ◌-◌, ◌≤◌, ◌≡◌, ◌≢◌, refl, ap, ◌∙◌, Bool, true, false, List, [], ◌∷◌, ◌++◌, map, All,
  length, length-map, arith, if◌then◌else◌,
}
use encos_cli.Trajectory.Numbers.{Numbers}
use encos_cli.Trajectory.Player.{TrajectorySample, PlaybackState}
use encos_cli.Trajectory.Player.Laws.{HasWidth, evaluate_trajectory-IsState}
use encos_cli.Play.Clock.{playback_time}
use encos_cli.Play.Motors.{
  PlayNumbers, MotorCall, send_positions, interpolate_positions, interpolate_degrees_to_radians,
  send_interpolated_positions,
}
use encos_cli.Play.Motors.Laws.{
  Succeeds, Succeeds-bind, call_target, frame, map-append, send_positions-frame,
  interpolate_positions-HasLength, interpolate_degrees-HasLength, send_interpolated-frame,
}
use encos_cli.Play.Loop.{
  PlaybackPhase, startup, playback, returning, Round, LoopState, stay, leave, PlayRun,
  elapsed_enough, should_return_to_initial_position, finish_round, add_calls, transition,
  front_positions, startup_round, returning_round, after_playback, playback_round, phase_round,
}
use encos_cli.Play.Loop.Playing.{frames, ReturnsFrom, Playing, IsPlayable, IsPlaying, Going, Goes}

module _ (N : Numbers) (P : PlayNumbers N.Double N.Float) (run : PlayRun N.Double N.Float) where
  open N use {Double, Float}
  open P use {seconds, degrees_to_radians}

  front-HasLength :
      (n : ℕ) (samples : List (TrajectorySample Double Float))
      → samples ≢ []
      → All (HasWidth N n) samples
      → Succeeds (λ l. length l ≡ n) (front_positions N P run samples)
  unfolding front_positions
  front-HasLength n [] h w = h refl
  front-HasLength n (a ∷ samples) h (w, ws) = w

  more_frames :
      (rounds : ℕ) (before calls : List (MotorCall Float))
      → map call_target before ≡ frames run.settings rounds
      → map call_target calls ≡ frame run.settings
      → map call_target (before ++ calls) ≡ frames run.settings (rounds + 1)
  more_frames rounds before calls h k =
      let e : suc rounds ≡ rounds + 1 = omega arith in
      rw (map-append call_target before calls, h, k) (ap (frames run.settings) e)

  module _ (can : IsPlayable N P run) (now rounds : ℕ) where
    abbrev pub time : LoopState Float → ℕ
    time s = playback_time s.pause_clock now

    with_calls :
        (s : LoopState Float) (calls : List (MotorCall Float))
        → IsPlaying N P run now rounds s
        → map call_target calls ≡ frame run.settings
        → IsPlaying N P run now (rounds + 1) (add_calls N P run s calls)
    with_calls s calls h k = record {
      in_order = h.in_order;
      phase_started = h.phase_started;
      trajectory_started = h.trajectory_started;
      width = h.width;
      sent = more_frames rounds s.calls calls h.sent k;
    }

    stay-if :
        (b : Bool) (x y : LoopState Float)
        → IsPlaying N P run now (rounds + 1) x
        → IsPlaying N P run now (rounds + 1) y
        → IsPlaying N P run now (rounds + 1) (if b then x else y)
    stay-if true x y hx hy = hx
    stay-if false x y hx hy = hy

    finish_round-IsPlaying :
        (s : LoopState Float) (r : Round Float)
        → IsPlaying N P run now (rounds + 1) s
        → IsPlaying N P run now (rounds + 1) (finish_round N P run s r)
    unfolding finish_round
    finish_round-IsPlaying s r h = record {
      in_order = h.in_order;
      phase_started = h.phase_started;
      trajectory_started = h.trajectory_started;
      width = h.width;
      sent = h.sent;
    }

    -- The state that turns to another phase at this time.
    turn :
        (s : LoopState Float) (next : PlaybackPhase) (start trajectory_start : ℕ)
        (positions : List Float)
        → IsPlaying N P run now (rounds + 1) s
        → start ≤ time s
        → trajectory_start ≤ time s
        → ReturnsFrom run.settings.motors next positions
        → Playing run.settings now
            (rounds + 1)
            s.pause_clock
            next
            start
            trajectory_start
            positions
            s.calls
    turn s next start trajectory_start positions h p q w = record {
      in_order = h.in_order;
      phase_started = p;
      trajectory_started = q;
      width = w;
      sent = h.sent;
    }

    startup_round-Goes :
        (s : LoopState Float) (r : Round Float)
        → IsPlaying N P run now rounds s
        → Goes N P run now (rounds + 1) (startup_round N P run s r (time s))
    unfolding startup_round
    startup_round-Goes s r h =
        let elapsed = time s - s.phase_start_time in
        let motors = run.settings.motors in
        Succeeds-bind (λ l. length l ≡ motors) (Going N P run now (rounds + 1))
          (front_positions N P run run.trajectory.samples) _
          (front-HasLength motors run.trajectory.samples can.valid.sampled
            (rw can.named at can.valid.widths))
          λ front hf.
            Succeeds-bind (λ l. length l ≡ motors) (Going N P run now (rounds + 1))
              (interpolate_degrees_to_radians N P run.initial_positions_rad front
                (transition N P run elapsed))
              _
              (interpolate_degrees-HasLength N P run.initial_positions_rad front
                (transition N P run elapsed) motors can.initial hf)
              λ positions hp.
                Succeeds-bind (λ calls. map call_target calls ≡ frame run.settings)
                  (Going N P run now (rounds + 1)) (send_positions run.settings positions) _
                  (send_positions-frame run.settings positions hp)
                  λ calls hc.
                    let sent = add_calls N P run s calls in
                    let begun : LoopState Float = record sent {
                      phase = playback;
                      trajectory_start_time = time s;
                    } in
                    let hs = with_calls s calls h hc in
                    finish_round-IsPlaying (if elapsed_enough elapsed then begun else sent) r (
                      stay-if (elapsed_enough elapsed) begun sent
                        (turn sent playback s.phase_start_time (time s) s.return_start_positions_rad
                          hs h.phase_started (omega arith) tt)
                        hs)

    stay_or_leave :
        (b : Bool) (s : LoopState Float) (r : Round Float)
        → IsPlaying N P run now (rounds + 1) s
        → Going N P run now (rounds + 1) (if b then leave s else stay (finish_round N P run s r))
    stay_or_leave true s r h = (rounds + 1, omega arith, h.sent)
    stay_or_leave false s r h = finish_round-IsPlaying s r h

    returning_round-Goes :
        (s : LoopState Float) (r : Round Float)
        → IsPlaying N P run now rounds s
        → length s.return_start_positions_rad ≡ run.settings.motors
        → Goes N P run now (rounds + 1) (returning_round N P run s r (time s))
    unfolding returning_round
    returning_round-Goes s r h w =
        let elapsed = time s - s.phase_start_time in
        let motors = run.settings.motors in
        Succeeds-bind (λ l. length l ≡ motors) (Going N P run now (rounds + 1))
          (interpolate_positions N P s.return_start_positions_rad run.initial_positions_rad
            (transition N P run elapsed))
          _
          (interpolate_positions-HasLength N P s.return_start_positions_rad
            run.initial_positions_rad (transition N P run elapsed) motors w can.initial)
          λ positions hp.
            Succeeds-bind (λ calls. map call_target calls ≡ frame run.settings)
              (Going N P run now (rounds + 1)) (send_positions run.settings positions) _
              (send_positions-frame run.settings positions hp)
              λ calls hc.
                stay_or_leave (elapsed_enough elapsed) (add_calls N P run s calls) r
                  (with_calls s calls h hc)

    after_playback-IsPlaying :
        (s : LoopState Float) (state : PlaybackState Float)
        → IsPlaying N P run now (rounds + 1) s
        → length state.positions_deg ≡ run.settings.motors
        → IsPlaying N P run now (rounds + 1) (after_playback N P run s state (time s))
    unfolding after_playback
    after_playback-IsPlaying s state h w =
        let positions = map degrees_to_radians state.positions_deg in
        let returned : LoopState Float = record s {
          return_start_positions_rad = positions;
          phase = returning;
          phase_start_time = time s;
        } in
        stay-if (should_return_to_initial_position state.finished run.endless) returned s
          (turn s returning (time s) s.trajectory_start_time positions h (omega arith)
            h.trajectory_started (length-map state.positions_deg degrees_to_radians ∙ w))
          h

    playback_round-Goes :
        (s : LoopState Float) (r : Round Float)
        → IsPlaying N P run now rounds s
        → Goes N P run now (rounds + 1) (playback_round N P run s r (time s))
    unfolding playback_round
    playback_round-Goes s r h =
        let at = seconds (time s - s.trajectory_start_time) in
        let (state, e, good) =
          evaluate_trajectory-IsState N run.trajectory at run.endless can.valid in
        let w : length state.positions_deg ≡ run.settings.motors = good.width_kept ∙ can.named in
        rw e (
          Succeeds-bind (λ calls. map call_target calls ≡ frame run.settings)
            (Going N P run now (rounds + 1))
            (send_interpolated_positions N P run.settings state.positions_deg) _
            (send_interpolated-frame N P run.settings state.positions_deg w)
            λ calls hc.
              let sent = add_calls N P run s calls in
              finish_round-IsPlaying (after_playback N P run sent state (time s)) r
                (after_playback-IsPlaying sent state (with_calls s calls h hc) w))

    pub phase_round-Goes :
        (phase : PlaybackPhase) (s : LoopState Float) (r : Round Float)
        → IsPlaying N P run now rounds s
        → ReturnsFrom run.settings.motors phase s.return_start_positions_rad
        → Goes N P run now (rounds + 1) (phase_round N P run phase s r (time s))
    unfolding phase_round
    phase_round-Goes startup s r h w = startup_round-Goes s r h
    phase_round-Goes playback s r h w = playback_round-Goes s r h
    phase_round-Goes returning s r h w = returning_round-Goes s r h w
