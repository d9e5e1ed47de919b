-- ===== src/Play/Requests.antt =====
-- src/cli/play.cc: the variables that the control loop shares with other threads and signal handlers,
-- and what these do to them.
pub mod Laws
use encos_cli.Base.{ℕ, ◌+◌, Bool, true, false, not, List, [], ◌∷◌, ltb, leb, ◌==◌, if◌then◌else◌}

-- What other threads do to the shared variables: the handlers of SIGINT and SIGTERM, the keys of the
-- live table (q or Ctrl-C, space), and the end of its thread, with a failure or without one.
pub data PlayEvent : Type 0 where
  interrupt : PlayEvent
  terminate : PlayEvent
  press_quit : PlayEvent
  press_space : PlayEvent
  table_closed : PlayEvent
  table_failed : PlayEvent

-- `g_play_stop_requests` (an int, whose overflow takes 2^31 signals) and `playback_paused_`.
pub record Shared : Type 0 where
  pub stop_requests : ℕ
  pub paused : Bool

-- `HandlePlayInterrupt`, `HandlePlayTerminate`, and what `RunTuiLoop` does at its keys and its end.
abbrev pub handle_play_interrupt : Shared → Shared
handle_play_interrupt s = record s { stop_requests = s.stop_requests + 1 }

abbrev pub handle_play_terminate : Shared → Shared
handle_play_terminate s = record s { stop_requests = 2 }

abbrev pub request_stop : ℕ → ℕ
request_stop current = if ltb current 2 then current + 1 else current

abbrev pub leave_table : Bool → Shared → Shared
leave_table tui_failed s = record s {
  stop_requests = if tui_failed then 2 else if s.stop_requests == 0 then 1 else s.stop_requests;
}

unfoldable pub hear_event : PlayEvent → Shared → Shared
hear_event interrupt s = handle_play_interrupt s
hear_event terminate s = handle_play_terminate s
hear_event press_quit s = record { stop_requests = request_stop s.stop_requests; paused = false }
hear_event press_space s = record s { paused = not s.paused }
hear_event table_closed s = leave_table false s
hear_event table_failed s = leave_table true s

unfoldable pub hear : List PlayEvent → Shared → Shared
unfolding hear_event
hear [] s = s
hear (e ∷ events) s = hear events (hear_event e s)

-- A stop request ends the pause.
abbrev pub resume_if_stopping : Shared → Shared
resume_if_stopping s = if leb 1 s.stop_requests then record s { paused = false } else s
