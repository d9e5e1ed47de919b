-- ===== src/Play/Loop/Stopping.antt =====
-- src/cli/play.cc: a round of the control loop behind a stop request.
use encos_cli.Base.{
  ℕ, ◌+◌, ◌-◌, ◌≤◌, ◌<◌, ◌≡◌, refl, Bool, true, false, not, ◌&&◌, Result, ok, leb, arith,
  Bool-cases, inl, inr, ◌⊎◌, if◌then◌else◌, Ensures, Ensures-bind, Ensures-any,
}
use encos_cli.Trajectory.Numbers.{Numbers}
use encos_cli.Play.Clock.{PlayPauseClock, pause_or_resume, playback_time, update_play_pause_clock}
use encos_cli.Play.Clock.Laws.{IsClock}
use encos_cli.Play.Motors.{
  PlayNumbers, read_current_positions, interpolate_positions, send_positions,
}
use encos_cli.Play.Requests.{hear, resume_if_stopping}
use encos_cli.Play.Loop.{
  PlaybackPhase, startup, playback, returning, is_returning, Round, LoopState, Step, stay, leave,
  PlayRun, transition_duration, transition, elapsed_enough, finish_round, add_calls,
  returning_round, phase_round, act, begin_return, tick,
}
use encos_cli.Play.Requests.Laws.{
  has_space, hear-requests, hear-unpaused, resumed, resumed_requests,
}
use encos_cli.Play.Loop.Playing.{OnStep}

module _ (N : Numbers) (P : PlayNumbers N.Double N.Float) (run : PlayRun N.Double N.Float) where
  open N use {Double, Float}

  -- A stop is requested, nothing is paused, and the return ends when the clock shows `deadline`.
  pub record IsStopping (deadline : ℕ) (s : LoopState Float) : Type 0 where
    pub requested : 1 ≤ s.shared.stop_requests
    pub turned : s.phase ≡ returning
    pub running : s.pause_clock.paused ≡ false
    pub due : s.phase_start_time + s.pause_clock.paused_duration + transition_duration ≤ deadline

  -- The loop is left, or goes on stopping with `now` in front of the deadline.
  abbrev pub StopsBy : ℕ → ℕ → Step (LoopState Float) → Type 0
  StopsBy deadline now = OnStep (λ s. IsStopping deadline s × (now < deadline)) (λ _. Unit {0})

  returned_or_stopping :
      (deadline now elapsed : ℕ) (s : LoopState Float) (r : Round Float)
      → IsStopping deadline s
      → elapsed ≡ now - s.pause_clock.paused_duration - s.phase_start_time
      → StopsBy deadline now
          (if elapsed_enough elapsed then leave s else stay (finish_round N P run s r))
  unfolding finish_round
  returned_or_stopping deadline now elapsed s r h e = elim (Bool-cases (elapsed_enough elapsed)) [
    | inl enough ↦ rw enough tt
    | inr early ↦ rw early (
      record { requested = h.requested; turned = h.turned; running = h.running; due = h.due },
      before_deadline (s.pause_clock.paused_duration) s.phase_start_time (rw e at early) h.due,
    )
  ]
    where
      before_deadline :
          (d p : ℕ)
          → elapsed_enough (now - d - p) ≡ false
          → p + d + transition_duration ≤ deadline
          → now < deadline
      before_deadline d p a b = ground arith

  returning_round-StopsBy :
      (deadline now : ℕ) (s : LoopState Float) (r : Round Float)
      → IsStopping deadline s
      → Ensures
          (StopsBy deadline now)
          (returning_round N P run s r (now - s.pause_clock.paused_duration))
  unfolding returning_round
  returning_round-StopsBy deadline now s r h =
      let elapsed = now - s.pause_clock.paused_duration - s.phase_start_time in
      let return_start = s.return_start_positions_rad in
      let at = transition N P run elapsed in
      let positions = interpolate_positions N P return_start run.initial_positions_rad at in
      Ensures-bind (λ _. Unit {0}) (StopsBy deadline now) positions _ (Ensures-any positions)
        λ ps _.
          let calls = send_positions run.settings ps in
          Ensures-bind (λ _. Unit {0}) (StopsBy deadline now) calls _ (Ensures-any calls)
            λ cs _.
              let sent = add_calls N P run s cs in
              returned_or_stopping deadline now elapsed sent r
                (record {
                  requested = h.requested;
                  turned = h.turned;
                  running = h.running;
                  due = h.due;
                })
                refl

  phase_round-StopsBy :
      (deadline now : ℕ) (phase : PlaybackPhase) (s : LoopState Float) (r : Round Float)
      → phase ≡ returning
      → IsStopping deadline s
      → Ensures
          (StopsBy deadline now)
          (phase_round N P run phase s r (now - s.pause_clock.paused_duration))
  unfolding phase_round
  phase_round-StopsBy deadline now startup s r e h = cc
  phase_round-StopsBy deadline now playback s r e h = cc
  phase_round-StopsBy deadline now returning s r e h = returning_round-StopsBy deadline now s r h

  pub StopsBy-if :
      (deadline now : ℕ) (b : Bool) (s : LoopState Float) (y : Result (Step (LoopState Float)))
      → Ensures (StopsBy deadline now) y
      → Ensures (StopsBy deadline now) (if b then ok (leave s) else y)
  StopsBy-if deadline now true s y h = tt
  StopsBy-if deadline now false s y h = h

  act-StopsBy :
      (deadline now : ℕ) (s : LoopState Float) (r : Round Float)
      → IsStopping deadline s
      → Ensures (StopsBy deadline now) (act N P run s r (now - s.pause_clock.paused_duration))
  unfolding act
  act-StopsBy deadline now s r h =
      let heard : LoopState Float = record s { shared = hear r.before_exit s.shared } in
      StopsBy-if deadline now (leb 2 heard.shared.stop_requests) heard _ (
        phase_round-StopsBy deadline now s.phase heard r h.turned (record {
          requested = hear-requests r.before_exit s.shared h.requested;
          turned = h.turned;
          running = h.running;
          due = h.due;
        }))

  begin_return-StopsBy :
      (deadline now : ℕ) (s : LoopState Float) (r : Round Float)
      → 1 ≤ s.shared.stop_requests
      → s.pause_clock.paused ≡ false
      → s.pause_clock.paused_duration ≤ now
      → now + transition_duration ≤ deadline
      → Ensures
          (StopsBy deadline now)
          (begin_return N P run s r (now - s.pause_clock.paused_duration))
  unfolding begin_return
  begin_return-StopsBy deadline now s r h u p d =
      let reading = read_current_positions r.readings in
      let time = now - s.pause_clock.paused_duration in
      let turning : LoopState Float = record s {
        return_start_positions_rad = reading.0;
        shared = hear r.before_reread s.shared;
        phase = returning;
        phase_start_time = time;
      } in
      StopsBy-if deadline now (not reading.1) _ _ (
        StopsBy-if deadline now (leb 2 turning.shared.stop_requests) _ _ (
          act-StopsBy deadline now turning r (record {
            requested = hear-requests r.before_reread s.shared h;
            turned = refl;
            running = u;
            due = omega arith;
          })))

  -- The tests of the body, in a state that returns already, and in one that does not.
  pub stop_returning :
      (deadline now time : ℕ) (s : LoopState Float) (r : Round Float)
      → IsStopping deadline s
      → time ≡ now - s.pause_clock.paused_duration
      → Ensures (StopsBy deadline now) (
          if leb 1 s.shared.stop_requests && not (is_returning s.phase)
          then begin_return N P run s r time
          else act N P run s r time)
  stop_returning deadline now time s r h e =
      rw (no_turn (leb 1 s.shared.stop_requests) s.phase h.turned, e)
        (act-StopsBy deadline now s r h)
    where
      no_turn :
          (b : Bool) (phase : PlaybackPhase)
          → phase ≡ returning
          → (b && not (is_returning phase)) ≡ false
      no_turn b startup k = cc
      no_turn b playback k = cc
      no_turn true returning k = refl
      no_turn false returning k = refl

  pub stop_turning :
      (deadline now time : ℕ) (s : LoopState Float) (r : Round Float)
      → is_returning s.phase ≡ false
      → 1 ≤ s.shared.stop_requests
      → s.pause_clock.paused ≡ false
      → s.pause_clock.paused_duration ≤ now
      → now + transition_duration ≤ deadline
      → time ≡ now - s.pause_clock.paused_duration
      → Ensures (StopsBy deadline now) (
          if leb 1 s.shared.stop_requests && not (is_returning s.phase)
          then begin_return N P run s r time
          else act N P run s r time)
  stop_turning deadline now time s r turned h u p d e =
      let requested : leb 1 s.shared.stop_requests ≡ true = ground arith in
      rw (turned, requested, e) (begin_return-StopsBy deadline now s r h u p d)

  -- A tick behind a stop request: the clock runs, and the stop is still requested.
  pub record Resumed (now : ℕ) (s : LoopState Float) (time : ℕ) : Type 0 where
    pub still_requested : 1 ≤ s.shared.stop_requests
    pub runs : s.pause_clock.paused ≡ false
    pub past : s.pause_clock.paused_duration ≤ now
    pub shown : time ≡ now - s.pause_clock.paused_duration
    pub measured : playback_time s.pause_clock now ≡ now - s.pause_clock.paused_duration

  resume_clock :
      (c : PlayPauseClock) (request : Bool) (before now : ℕ)
      → request ≡ false
      → IsClock before c
      → before ≤ now
      → ((pause_or_resume c request now).paused ≡ false)
        × ((pause_or_resume c request now).paused_duration ≤ now)
        × (playback_time (pause_or_resume c request now) now
            ≡ now - (pause_or_resume c request now).paused_duration)
  unfolding pause_or_resume playback_time
  resume_clock c true before now e h p = cc
  resume_clock c false before now e h p = elim (Bool-cases c.paused) [
    | inl paused ↦ let k = rw paused at h in rw paused (refl, ground arith, refl)
    | inr running ↦ let k = rw running at h in rw running (refl, omega (arith, k, p), refl)
  ]

  pub tick-Resumed :
      (before : ℕ) (s : LoopState Float) (r : Round Float)
      → IsClock before s.pause_clock
      → before ≤ r.loop_now
      → 1 ≤ s.shared.stop_requests
      → has_space r.before_clock ≡ false
      → Resumed r.loop_now (tick N P run s r).0 (tick N P run s r).1
  unfolding tick update_play_pause_clock
  tick-Resumed before s r h p k q =
      let asked = hear-requests r.before_resume s.shared k in
      let shared = resume_if_stopping (hear r.before_resume s.shared) in
      let quiet =
        hear-unpaused r.before_clock shared q (resumed (hear r.before_resume s.shared) asked) in
      let (runs, past, shown) =
        resume_clock s.pause_clock (hear r.before_clock shared).paused before r.loop_now quiet h
          p in
      record {
        still_requested =
            hear-requests r.before_clock shared
              (resumed_requests (hear r.before_resume s.shared) asked);
        runs = runs;
        past = past;
        shown = shown;
        measured = shown;
      }

  pub is_returning-cases :
      (phase : PlaybackPhase) → (is_returning phase ≡ false) ⊎ (phase ≡ returning)
  is_returning-cases startup = inl refl
  is_returning-cases playback = inl refl
  is_returning-cases returning = inr refl

  unchanged :
      (c : PlayPauseClock) (request : Bool) (now : ℕ)
      → request ≡ false
      → c.paused ≡ false
      → (pause_or_resume c request now).paused_duration ≡ c.paused_duration
  unfolding pause_or_resume
  unchanged c true now e u = cc
  unchanged c false now e u = rw u refl

  -- A tick of a state that is stopping leaves the return as it is.
  pub tick-IsStopping :
      (deadline : ℕ) (s : LoopState Float) (r : Round Float)
      → IsStopping deadline s
      → Resumed r.loop_now (tick N P run s r).0 (tick N P run s r).1
      → has_space r.before_clock ≡ false
      → IsStopping deadline (tick N P run s r).0
  unfolding tick update_play_pause_clock
  tick-IsStopping deadline s r h back q =
      let asked = hear-requests r.before_resume s.shared h.requested in
      let shared = resume_if_stopping (hear r.before_resume s.shared) in
      let quiet =
        hear-unpaused r.before_clock shared q (resumed (hear r.before_resume s.shared) asked) in
      let request = (hear r.before_clock shared).paused in
      let same = unchanged s.pause_clock request r.loop_now quiet h.running in
      record {
        requested = back.still_requested;
        turned = h.turned;
        running = back.runs;
        due = omega (arith, h.due, same);
      }
