-- ===== src/Play/Loop/Laws.antt =====
-- The control loop of play neither throws nor reads out of range, and each round addresses every
-- motor once.
use encos_cli.Base.{
  ℕ, suc, ◌+◌, ◌≤◌, ◌≡◌, refl, ◌∙◌, Bool, true, false, not, ◌&&◌, List, [], ◌∷◌, Result, length,
  leb, arith, if◌then◌else◌,
}
use encos_cli.Trajectory.Numbers.{Numbers}
use encos_cli.Play.Clock.{playback_time, update_play_pause_clock}
use encos_cli.Play.Clock.Laws.{pause_or_resume-IsClock, playback_time-advance}
use encos_cli.Play.Motors.{PlayNumbers, read_current_positions}
use encos_cli.Play.Motors.Laws.{Succeeds-bind, read_current_positions-length}
use encos_cli.Play.Requests.{hear, Shared, resume_if_stopping}
use encos_cli.Play.Loop.{
  returning, is_returning, Round, LoopState, Step, stay, leave, PlayRun, act, begin_return, tick,
  loop_body, loop_round, keep_on, play_loop, loop_start,
}
use encos_cli.Play.Loop.Playing.{Going, IsPlayable, IsPlaying, AreRounds, Goes}
use encos_cli.Play.Loop.Rounds.{phase_round-Goes}

-- The time of the last of some rounds.
abbrev pub last_time : {F : Type 0} → ℕ → List (Round F) → ℕ
last_time now [] = now
last_time now (r ∷ rounds) = last_time r.loop_now rounds

module _ (N : Numbers) (P : PlayNumbers N.Double N.Float) (run : PlayRun N.Double N.Float)
    (can : IsPlayable N P run) where
  open N use {Double, Float}

  Goes-if :
      (now rounds : ℕ) (b : Bool) (x y : Result (Step (LoopState Float)))
      → (b ≡ true → Goes N P run now rounds x)
      → (b ≡ false → Goes N P run now rounds y)
      → Goes N P run now rounds (if b then x else y)
  Goes-if now rounds true x y hx hy = hx refl
  Goes-if now rounds false x y hx hy = hy refl

  module _ (now rounds : ℕ) where
    abbrev time_of : LoopState Float → ℕ
    time_of s = playback_time s.pause_clock now

    pub with_shared :
        (s : LoopState Float) (shared : Shared)
        → IsPlaying N P run now rounds s
        → IsPlaying N P run now rounds (record s { shared = shared })
    with_shared s shared h = record {
      in_order = h.in_order;
      phase_started = h.phase_started;
      trajectory_started = h.trajectory_started;
      width = h.width;
      sent = h.sent;
    }

    act-Goes :
        (s : LoopState Float) (r : Round Float)
        → IsPlaying N P run now rounds s
        → Goes N P run now (rounds + 1) (act N P run s r (time_of s))
    unfolding act
    act-Goes s r h =
        let heard : LoopState Float = record s { shared = hear r.before_exit s.shared } in
        Goes-if now (rounds + 1) (leb 2 heard.shared.stop_requests) _ _
          (λ _. (rounds, omega arith, h.sent))
          λ _.
            phase_round-Goes N P run can now rounds heard.phase heard r
              (with_shared s heard.shared h) h.width

    negated_once : (b : Bool) → not b ≡ false → b ≡ true
    negated_once true e = refl
    negated_once false e = cc

    begin_return-Goes :
        (s : LoopState Float) (r : Round Float)
        → IsPlaying N P run now rounds s
        → length r.readings ≡ run.settings.motors
        → Goes N P run now (rounds + 1) (begin_return N P run s r (time_of s))
    unfolding begin_return
    begin_return-Goes s r h w =
        let reading = read_current_positions r.readings in
        let returned : LoopState Float = record s {
          return_start_positions_rad = reading.0;
          shared = hear r.before_reread s.shared;
          phase = returning;
          phase_start_time = time_of s;
        } in
        Goes-if now (rounds + 1) (not reading.1) _ _ (λ _. (rounds, omega arith, h.sent))
          λ whole.
            Goes-if now (rounds + 1) (leb 2 returned.shared.stop_requests) _ _
              (λ _. (rounds, omega arith, h.sent))
              λ _. act-Goes returned r (record {
                in_order = h.in_order;
                phase_started = omega arith;
                trajectory_started = h.trajectory_started;
                width = read_current_positions-length r.readings (negated_once reading.1 whole) ∙ w;
                sent = h.sent;
              })

  pub tick-IsPlaying :
      (before rounds : ℕ) (s : LoopState Float) (r : Round Float)
      → IsPlaying N P run before rounds s
      → before ≤ r.loop_now
      → IsPlaying N P run r.loop_now rounds (tick N P run s r).0
  unfolding tick update_play_pause_clock
  tick-IsPlaying before rounds s r h p =
      let request =
        (hear r.before_clock (resume_if_stopping (hear r.before_resume s.shared))).paused in
      let later = playback_time-advance s.pause_clock request before r.loop_now h.in_order p in
      record {
        in_order = pause_or_resume-IsClock s.pause_clock request before r.loop_now h.in_order p;
        phase_started = omega (arith, h.phase_started, later);
        trajectory_started = omega (arith, h.trajectory_started, later);
        width = h.width;
        sent = h.sent;
      }

  loop_body-Goes :
      (before rounds : ℕ) (s : LoopState Float) (r : Round Float)
      → IsPlaying N P run before rounds s
      → before ≤ r.loop_now
      → length r.readings ≡ run.settings.motors
      → Goes N P run r.loop_now (rounds + 1) (loop_body N P run s r)
  unfolding loop_body update_play_pause_clock playback_time
  loop_body-Goes before rounds s r h p w =
      let ticked = tick N P run s r in
      let heard : LoopState Float = record ticked.0 {
        shared = hear r.before_stop ticked.0.shared;
      } in
      let hh =
        with_shared r.loop_now rounds ticked.0 heard.shared
          (tick-IsPlaying before rounds s r h p) in
      Goes-if r.loop_now (rounds + 1)
        (leb 1 heard.shared.stop_requests && not (is_returning heard.phase)) _ _
        (λ _. begin_return-Goes r.loop_now rounds heard r hh w)
        (λ _. act-Goes r.loop_now rounds heard r hh)

  pub loop_round-Goes :
      (before rounds : ℕ) (s : LoopState Float) (r : Round Float)
      → IsPlaying N P run before rounds s
      → before ≤ r.loop_now
      → length r.readings ≡ run.settings.motors
      → Goes N P run r.loop_now (rounds + 1) (loop_round N P run s r)
  unfolding loop_round
  loop_round-Goes before rounds s r h p w =
      let heard : LoopState Float = record s { shared = hear r.before_condition s.shared } in
      Goes-if r.loop_now (rounds + 1) (leb 2 heard.shared.stop_requests) _ _
        (λ _. (rounds, omega arith, h.sent))
        λ _. loop_body-Goes before rounds heard r (with_shared before rounds s heard.shared h) p w

  keep_on-Goes :
      (now rounds later total : ℕ) (rest : LoopState Float → Result (Step (LoopState Float)))
      (step : Step (LoopState Float))
      → rounds ≤ total
      → Going N P run now rounds step
      → ((s : LoopState Float) → IsPlaying N P run now rounds s → Goes N P run later total (rest s))
      → Goes N P run later total (keep_on N P run rest step)
  keep_on-Goes now rounds later total rest (stay s) le h f = f s h
  keep_on-Goes now rounds later total rest (leave s) le (k, p, e) f = (k, omega arith, e)

  pub play_loop-Goes :
      (now rounds : ℕ) (s : LoopState Float) (rs : List (Round Float))
      → IsPlaying N P run now rounds s
      → AreRounds N P run now rs
      → Goes N P run (last_time now rs) (rounds + length rs) (play_loop N P run s rs)
  unfolding play_loop
  play_loop-Goes now rounds s [] h a = let e : rounds ≡ rounds + 0 = omega arith in rw e at h
  play_loop-Goes now rounds s (r ∷ rs) h (p, w, a) =
      let total = rounds + suc (length rs) in
      let e : rounds + 1 + length rs ≡ total = omega arith in
      Succeeds-bind (Going N P run r.loop_now (rounds + 1))
        (Going N P run (last_time r.loop_now rs) total) (loop_round N P run s r) _
        (loop_round-Goes now rounds s r h p w)
        λ step hs.
          keep_on-Goes r.loop_now (rounds + 1) (last_time r.loop_now rs) total
            (λ next. play_loop N P run next rs) step (omega arith) hs
            λ next hn. rw e at (play_loop-Goes r.loop_now (rounds + 1) next rs hn a)

  pub loop_start-IsPlaying : IsPlaying N P run run.start_time 0 (loop_start N P run)
  unfolding loop_start playback_time
  loop_start-IsPlaying = record {
    in_order = omega arith;
    phase_started = omega arith;
    trajectory_started = omega arith;
    width = tt;
    sent = refl;
  }

  -- For a valid trajectory, with a motor and an initial position for each of its names: from the start
  -- of the loop, over any rounds in the order of time, in which each motor reports a position or
  -- throws, whatever the other threads and the floating-point operations do, the loop throws nothing
  -- and reads no position out of range. Every round that it makes to its end makes the calls of one
  -- frame: each motor of the trajectory once, each that is held once, then the commit; and it is left
  -- between two frames.
  pub play_loop-IsPlaying :
      (rs : List (Round Float))
      → AreRounds N P run run.start_time rs
      → Goes N P run
          (last_time run.start_time rs)
          (length rs)
          (play_loop N P run (loop_start N P run) rs)
  play_loop-IsPlaying rs a =
      let start = loop_start N P run in
      let e : 0 + length rs ≡ length rs = omega arith in
      rw e at (play_loop-Goes run.start_time 0 start rs loop_start-IsPlaying a)
