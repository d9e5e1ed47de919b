-- ===== src/Play/Clock/Laws.antt =====
-- Playback advances by the time that passes while it is not paused, and by no more.
use encos_cli.Base.{
  ℕ, ◌+◌, ◌-◌, ◌≤◌, ◌<◌, ◌≡◌, Bool, true, false, List, [], ◌∷◌, if◌then◌else◌, arith,
}
use encos_cli.Play.Clock.{
  next_play_refresh_tick, PlayPauseClock, pause_or_resume, playback_time, update_play_pause_clock,
}

-- The next refresh is in the future, and at most a period ahead.
pub next_play_refresh_tick-bounds :
    (previous_tick refresh_period now : ℕ)
    → 0 < refresh_period
    → previous_tick ≤ now
    → (now < next_play_refresh_tick previous_tick refresh_period now)
      × (next_play_refresh_tick previous_tick refresh_period now ≤ now + refresh_period)
unfolding next_play_refresh_tick
next_play_refresh_tick-bounds previous_tick refresh_period now p h = ground arith

abbrev Fits : Bool → ℕ → ℕ → ℕ → Type 0
Fits true now started duration = (duration ≤ started) × (started ≤ now)
Fits false now started duration = duration ≤ now

-- A clock that was last updated at `now`: the pauses, a running one included, lie in the past.
abbrev pub IsClock : ℕ → PlayPauseClock → Type 0
IsClock now c = Fits c.paused now c.pause_started c.paused_duration

-- An update keeps the clock in order, and leaves it paused just as requested.
pub pause_or_resume-IsClock :
    (c : PlayPauseClock) (request : Bool) (before now : ℕ)
    → IsClock before c
    → before ≤ now
    → IsClock now (pause_or_resume c request now)
unfolding pause_or_resume
pause_or_resume-IsClock c request before now h p =
    by_cases c.paused c.pause_started c.paused_duration request h
  where
    by_cases :
        (b : Bool) (s d : ℕ) (r : Bool)
        → Fits b before s d
        → IsClock now
            (pause_or_resume (record { paused = b; pause_started = s; paused_duration = d }) r now)
    by_cases true s d true h = ground arith
    by_cases true s d false h = ground arith
    by_cases false s d true h = ground arith
    by_cases false s d false h = ground arith

-- From one update to the next, the returned time grows by what passed, or by nothing when the first
-- of them left the clock paused.
pub update_play_pause_clock-advance :
    (c : PlayPauseClock) (request next_request : Bool) (before now later : ℕ)
    → IsClock before c
    → before ≤ now
    → now ≤ later
    → (update_play_pause_clock (update_play_pause_clock c request now).0 next_request later).1
      ≡ (update_play_pause_clock c request now).1 + (if request then 0 else later - now)
unfolding update_play_pause_clock pause_or_resume playback_time
update_play_pause_clock-advance c request next_request before now later h p q =
    by_cases c.paused c.pause_started c.paused_duration request next_request h
  where
    by_cases :
        (b : Bool) (s d : ℕ) (r r' : Bool)
        → Fits b before s d
        → (update_play_pause_clock
            (update_play_pause_clock
              (record { paused = b; pause_started = s; paused_duration = d })
              r
              now).0
            r'
            later).1
          ≡ (update_play_pause_clock
              (record { paused = b; pause_started = s; paused_duration = d })
              r
              now).1
            + (if r then 0 else later - now)
    by_cases true s d true true h = ground arith
    by_cases true s d false true h = ground arith
    by_cases false s d true true h = ground arith
    by_cases false s d false true h = ground arith
    by_cases true s d true false h = ground arith
    by_cases true s d false false h = ground arith
    by_cases false s d true false h = ground arith
    by_cases false s d false false h = ground arith

-- The returned time never goes back.
pub playback_time-advance :
    (c : PlayPauseClock) (request : Bool) (before now : ℕ)
    → IsClock before c
    → before ≤ now
    → playback_time c before ≤ playback_time (pause_or_resume c request now) now
unfolding playback_time pause_or_resume
playback_time-advance c request before now h p =
    by_cases c.paused c.pause_started c.paused_duration request h
  where
    by_cases :
        (b : Bool) (s d : ℕ) (r : Bool)
        → Fits b before s d
        → playback_time (record { paused = b; pause_started = s; paused_duration = d }) before
          ≤ playback_time
              (pause_or_resume
                (record { paused = b; pause_started = s; paused_duration = d })
                r
                now)
              now
    by_cases true s d true h = ground arith
    by_cases true s d false h = ground arith
    by_cases false s d true h = ground arith
    by_cases false s d false h = ground arith

-- The loop's updates in turn: what is requested, and when.
abbrev pub run_clock : PlayPauseClock → ℕ → List (Bool × ℕ) → ℕ
run_clock c time [] = time
run_clock c time ((request, now) ∷ updates) =
    run_clock (update_play_pause_clock c request now).0 (update_play_pause_clock c request now).1
      updates

-- The time that passes between updates, counted where the earlier one does not ask for a pause.
abbrev pub unpaused : Bool → ℕ → List (Bool × ℕ) → ℕ
unpaused request now [] = 0
unpaused request now ((next_request, later) ∷ updates) =
    (if request then 0 else later - now) + unpaused next_request later updates

abbrev pub IsChronological : ℕ → List (Bool × ℕ) → Type 0
IsChronological now [] = Unit
IsChronological now ((request, later) ∷ updates) = (now ≤ later) × IsChronological later updates

-- After any updates in the order of time, the returned time is the first one and all that passed
-- since while no pause was requested.
pub run_clock-unpaused :
    (c : PlayPauseClock) (request : Bool) (before now : ℕ) (updates : List (Bool × ℕ))
    → IsClock before c
    → before ≤ now
    → IsChronological now updates
    → run_clock c 0 ((request, now) ∷ updates)
      ≡ (update_play_pause_clock c request now).1 + unpaused request now updates
unfolding update_play_pause_clock
run_clock-unpaused c request before now [] h p q = omega arith
run_clock-unpaused c request before now ((next_request, later) ∷ updates) h p (q, qs) =
    let next = pause_or_resume-IsClock c request before now h p in
    omega (
      arith,
      run_clock-unpaused (pause_or_resume c request now) next_request now later updates next q qs,
      update_play_pause_clock-advance c request next_request before now later h p q,
    )
