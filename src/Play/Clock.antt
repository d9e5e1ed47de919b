-- ===== src/Play/Clock.antt =====
-- src/cli/play.cc: the ticks of the play loops, and the clock that stops while playback is paused.
-- Times and durations are numbers of nanoseconds of the steady clock, which never steps back.
pub mod Laws
use encos_cli.Base.{ℕ, ◌+◌, ◌-◌, Bool, true, false, not, ◌&&◌, ltb, if◌then◌else◌}

unfoldable pub next_play_control_tick : ℕ → ℕ → ℕ → ℕ
next_play_control_tick previous_tick control_period now =
    let next_tick = previous_tick + control_period in if ltb now next_tick then next_tick else now

unfoldable pub next_play_refresh_tick : ℕ → ℕ → ℕ → ℕ
next_play_refresh_tick previous_tick refresh_period now =
    let next_tick = previous_tick + refresh_period in
    if ltb now next_tick then next_tick else now + refresh_period

pub record PlayPauseClock : Type 0 where
  pub paused : Bool
  pub pause_started : ℕ
  pub paused_duration : ℕ

-- The assignments of `UpdatePlayPauseClock`.
unfoldable pub pause_or_resume : PlayPauseClock → Bool → ℕ → PlayPauseClock
pause_or_resume state pause_requested now =
    if pause_requested && not state.paused
    then record state { paused = true; pause_started = now }
    else if not pause_requested && state.paused
    then record state {
      paused = false;
      paused_duration = state.paused_duration + (now - state.pause_started);
    }
    else state

-- What it returns: the time without the pauses.
unfoldable pub playback_time : PlayPauseClock → ℕ → ℕ
playback_time state now =
    (if state.paused then state.pause_started else now) - state.paused_duration

unfoldable pub update_play_pause_clock : PlayPauseClock → Bool → ℕ → PlayPauseClock × ℕ
unfolding pause_or_resume playback_time
update_play_pause_clock state pause_requested now =
    let state' = pause_or_resume state pause_requested now in (state', playback_time state' now)
