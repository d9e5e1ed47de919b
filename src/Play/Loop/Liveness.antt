-- ===== src/Play/Loop/Liveness.antt =====
-- A stop request ends the control loop of play: the motors go back, and after two seconds the loop
-- is left.
use encos_cli.Base.{
  ℕ, ◌+◌, ◌≤◌, ◌<◌, ◌≡◌, refl, Bool, true, false, ◌||◌, List, [], ◌∷◌, ◌++◌, Result, ok, err, leb,
  arith, inl, inr, ◌>>=◌, Ensures,
}
use encos_cli.Trajectory.Numbers.{Numbers}
use encos_cli.Play.Clock.Laws.{IsClock}
use encos_cli.Play.Motors.{PlayNumbers}
use encos_cli.Play.Requests.{hear}
use encos_cli.Play.Loop.{
  Round, LoopState, Step, stay, leave, PlayRun, transition_duration, tick, loop_body, loop_round,
  keep_on, play_loop, loop_start,
}
use encos_cli.Play.Requests.Laws.{has_stop, has_space, hear-stop, hear-requests}
use encos_cli.Play.Loop.Playing.{Goes, IsPlayable, IsPlaying, AreRounds}
use encos_cli.Play.Loop.Laws.{loop_start-IsPlaying, loop_round-Goes, tick-IsPlaying, with_shared}
use encos_cli.Play.Loop.Stopping.{
  IsStopping, StopsBy, StopsBy-if, stop_returning, stop_turning, tick-Resumed, is_returning-cases,
  tick-IsStopping,
}

-- The space key is not pressed between the end of a pause and the reading of it.
abbrev pub Unpaused : {F : Type 0} → List (Round F) → Type 0
Unpaused [] = Unit
Unpaused (r ∷ rounds) = (has_space r.before_clock ≡ false) × Unpaused rounds

-- Some round asks for the time at the deadline or after it.
abbrev pub reaches : {F : Type 0} → ℕ → List (Round F) → Bool
reaches deadline [] = false
reaches deadline (r ∷ rounds) = leb deadline r.loop_now || reaches deadline rounds

module _ (N : Numbers) (P : PlayNumbers N.Double N.Float) (run : PlayRun N.Double N.Float)
    (can : IsPlayable N P run) where
  open N use {Double, Float}

  -- The round that hears of a stop request first.
  loop_body-first :
      (before rounds : ℕ) (s : LoopState Float) (r : Round Float)
      → IsPlaying N P run before rounds s
      → before ≤ r.loop_now
      → 1 ≤ s.shared.stop_requests
      → has_space r.before_clock ≡ false
      → Ensures
          (StopsBy N P run (r.loop_now + transition_duration) r.loop_now)
          (loop_body N P run s r)
  unfolding loop_body
  loop_body-first before rounds s r h p k q =
      let now = r.loop_now in
      let deadline = now + transition_duration in
      let ticked = tick N P run s r in
      let going = tick-IsPlaying N P run can before rounds s r h p in
      let back = tick-Resumed N P run before s r h.in_order p k q in
      let heard : LoopState Float = record ticked.0 {
        shared = hear r.before_stop ticked.0.shared;
      } in
      let asked = hear-requests r.before_stop ticked.0.shared back.still_requested in
      elim (is_returning-cases N P run heard.phase) [
        | inl turning ↦
            stop_turning N P run deadline now ticked.1 heard r turning asked back.runs back.past
              (omega arith) back.shown
        | inr turned ↦
            stop_returning N P run deadline now ticked.1 heard r
              (record {
                requested = asked;
                turned = turned;
                running = back.runs;
                due = omega (arith, going.phase_started, back.past, back.measured);
              })
              back.shown
      ]

  -- A later round.
  loop_body-later :
      (deadline before : ℕ) (s : LoopState Float) (r : Round Float)
      → IsClock before s.pause_clock
      → before ≤ r.loop_now
      → IsStopping N P run deadline s
      → has_space r.before_clock ≡ false
      → Ensures (StopsBy N P run deadline r.loop_now) (loop_body N P run s r)
  unfolding loop_body
  loop_body-later deadline before s r h p k q =
      let ticked = tick N P run s r in
      let back = tick-Resumed N P run before s r h p k.requested q in
      let still = tick-IsStopping N P run deadline s r k back q in
      let heard : LoopState Float = record ticked.0 {
        shared = hear r.before_stop ticked.0.shared;
      } in
      stop_returning N P run deadline r.loop_now ticked.1 heard r
        (record {
          requested = hear-requests r.before_stop ticked.0.shared back.still_requested;
          turned = still.turned;
          running = still.running;
          due = still.due;
        })
        back.shown

  loop_round-first :
      (before rounds : ℕ) (s : LoopState Float) (r : Round Float)
      → IsPlaying N P run before rounds s
      → before ≤ r.loop_now
      → has_stop r.before_condition ≡ true
      → has_space r.before_clock ≡ false
      → Ensures
          (StopsBy N P run (r.loop_now + transition_duration) r.loop_now)
          (loop_round N P run s r)
  unfolding loop_round
  loop_round-first before rounds s r h p k q =
      let heard : LoopState Float = record s { shared = hear r.before_condition s.shared } in
      StopsBy-if N P run (r.loop_now + transition_duration) r.loop_now
        (leb 2 heard.shared.stop_requests) heard (loop_body N P run heard r)
        (loop_body-first before rounds heard r
          (with_shared N P run can before rounds s heard.shared h) p
          (hear-stop r.before_condition s.shared k) q)

  loop_round-later :
      (deadline before : ℕ) (s : LoopState Float) (r : Round Float)
      → IsClock before s.pause_clock
      → before ≤ r.loop_now
      → IsStopping N P run deadline s
      → has_space r.before_clock ≡ false
      → Ensures (StopsBy N P run deadline r.loop_now) (loop_round N P run s r)
  unfolding loop_round
  loop_round-later deadline before s r h p k q =
      let heard : LoopState Float = record s { shared = hear r.before_condition s.shared } in
      StopsBy-if N P run deadline r.loop_now (leb 2 heard.shared.stop_requests) heard
        (loop_body N P run heard r)
        (loop_body-later deadline before heard r h p
          (record {
            requested = hear-requests r.before_condition s.shared k.requested;
            turned = k.turned;
            running = k.running;
            due = k.due;
          })
          q)

  abbrev pub Leaves : Result (Step (LoopState Float)) → Type 0
  Leaves result = (s : LoopState Float) × (result ≡ ok (leave s))

  Leaves-stay :
      (deadline now rounds : ℕ) (result : Result (Step (LoopState Float)))
      (rest : LoopState Float → Result (Step (LoopState Float)))
      → Goes N P run now rounds result
      → Ensures (StopsBy N P run deadline now) result
      → ((s : LoopState Float)
          → IsPlaying N P run now rounds s
          → IsStopping N P run deadline s
          → now < deadline
          → Leaves (rest s))
      → Leaves (result >>= λ step. keep_on N P run rest step)
  Leaves-stay deadline now rounds (err e) rest g h f = absurd g
  Leaves-stay deadline now rounds (ok (leave s)) rest g h f = (s, refl)
  Leaves-stay deadline now rounds (ok (stay s)) rest g (h, early) f = f s g h early

  reached_later :
      (deadline now : ℕ) (b : Bool) → now < deadline → (leb deadline now || b) ≡ true → b ≡ true
  reached_later deadline now b p h = ground arith

  stopping_loop :
      (deadline now rounds : ℕ) (s : LoopState Float) (rs : List (Round Float))
      → IsPlaying N P run now rounds s
      → IsStopping N P run deadline s
      → AreRounds N P run now rs
      → Unpaused rs
      → reaches deadline rs ≡ true
      → Leaves (play_loop N P run s rs)
  unfolding play_loop
  stopping_loop deadline now rounds s [] h k a q e = cc
  stopping_loop deadline now rounds s (r ∷ rs) h k (p, w, a) (q, qs) e =
      Leaves-stay deadline r.loop_now (rounds + 1) (loop_round N P run s r)
        (λ next. play_loop N P run next rs) (loop_round-Goes N P run can now rounds s r h p w)
        (loop_round-later deadline now s r h.in_order p k q)
        λ next hn kn early.
          stopping_loop deadline r.loop_now (rounds + 1) next rs hn kn a qs
            (reached_later deadline r.loop_now (reaches deadline rs) early e)

  keep_on-Leaves :
      (now rounds : ℕ) (result : Result (Step (LoopState Float)))
      (rest : LoopState Float → Result (Step (LoopState Float)))
      → Goes N P run now rounds result
      → ((s : LoopState Float) → IsPlaying N P run now rounds s → Leaves (rest s))
      → Leaves (result >>= λ step. keep_on N P run rest step)
  keep_on-Leaves now rounds (err e) rest g f = absurd g
  keep_on-Leaves now rounds (ok (leave s)) rest g f = (s, refl)
  keep_on-Leaves now rounds (ok (stay s)) rest g f = f s g

  play_loop-Leaves :
      (now rounds : ℕ) (s : LoopState Float) (before : List (Round Float)) (r : Round Float)
      (after : List (Round Float))
      → IsPlaying N P run now rounds s
      → AreRounds N P run now (before ++ r ∷ after)
      → has_stop r.before_condition ≡ true
      → Unpaused (r ∷ after)
      → reaches (r.loop_now + transition_duration) after ≡ true
      → Leaves (play_loop N P run s (before ++ r ∷ after))
  unfolding play_loop
  play_loop-Leaves now rounds s [] r after h (p, w, a) k (q, qs) e =
      let deadline = r.loop_now + transition_duration in
      Leaves-stay deadline r.loop_now (rounds + 1) (loop_round N P run s r)
        (λ next. play_loop N P run next after) (loop_round-Goes N P run can now rounds s r h p w)
        (loop_round-first now rounds s r h p k q)
        λ next hn kn early. stopping_loop deadline r.loop_now (rounds + 1) next after hn kn a qs e
  play_loop-Leaves now rounds s (x ∷ before) r after h (p, w, a) k q e =
      keep_on-Leaves x.loop_now (rounds + 1) (loop_round N P run s x)
        (λ next. play_loop N P run next (before ++ r ∷ after))
        (loop_round-Goes N P run can now rounds s x h p w)
        λ next hn. play_loop-Leaves x.loop_now (rounds + 1) next before r after hn a k q e

  -- For a valid trajectory, with a motor and an initial position for each of its names, and rounds in
  -- the order of time: when a signal, the quit key or the end of the live table is heard at the start
  -- of a round, the loop is left without an exception by the first round whose time is two seconds
  -- later, if it is not left before, in whatever phase and pause the stop finds it, and whatever the
  -- motors report and the floating-point operations give. From this round on the space key is not
  -- pressed between the end of a pause and the reading of it.
  pub play_loop_stops :
      (before : List (Round Float)) (r : Round Float) (after : List (Round Float))
      → AreRounds N P run run.start_time (before ++ r ∷ after)
      → has_stop r.before_condition ≡ true
      → Unpaused (r ∷ after)
      → reaches (r.loop_now + transition_duration) after ≡ true
      → (s : LoopState Float) × (play_loop N P run (loop_start N P run) (before ++ r ∷ after)
          ≡ ok (leave s))
  play_loop_stops before r after a k q e =
      play_loop-Leaves run.start_time 0 (loop_start N P run) before r after
        (loop_start-IsPlaying N P run can) a k q e
