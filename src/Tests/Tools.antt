-- ===== src/Tests/Tools.antt =====
-- Playback, stress reports, versions, names and options at concrete inputs.
use encos_cli.Base.{
  ℕ, ◌≡◌, Bool, true, false, none, List, [], ◌∷◌, Bytes, codes, ltb, leb, arith, str_eq,
}
use encos_cli.Base.Int.{pos, negsuc}
use encos_cli.Number.{stoul}
use encos_cli.Play.Clock.{PlayPauseClock, update_play_pause_clock}
use encos_cli.Play.Clock.Laws.{run_clock, run_clock-unpaused}
use encos_cli.Play.Loss.{Sample, update}
use encos_cli.Play.Loss.Laws.{IsUpdate, update-IsUpdate}
use encos_cli.Play.Tui.{PlayTuiState, page_down, scroll_left}
use encos_cli.Play.Tui.Laws.{IsInView, run_actions, run_actions-IsInView}
use encos_cli.Stress.{AdapterContext}
use encos_cli.InterfaceName.{url_decode, extract_query_parameter}
use encos_cli.InterfaceName.Laws.{extract_query_parameter-render}
use encos_cli.AdapterUtils.{Doubles}

abbrev running : PlayPauseClock
running = record { paused = false; pause_started = 0; paused_duration = 0 }

abbrev pause_for_seven : List (Bool × ℕ)
pause_for_seven = (true, 15) ∷ (false, 22) ∷ (false, 30) ∷ []

-- From 10 to 15 and from 22 to 30 the playback runs.
run_clock-unpaused_example : run_clock running 0 ((false, 10) ∷ pause_for_seven) ≡ 23
unfolding update_play_pause_clock
run_clock-unpaused_example =
    run_clock-unpaused running false 5 10 pause_for_seven (omega arith) (omega arith)
      (omega arith, (omega arith, (omega arith, tt)))

abbrev old_sample : Sample
old_sample = record { time = 5; counts = record { sent = 2; received = 1 } }

update-IsUpdate_example :
    IsUpdate
      (old_sample ∷ [])
      (record { time = 4000000000; counts = record { sent = 9; received = 8 } })
      (update (old_sample ∷ []) 4000000000 9 8)
update-IsUpdate_example =
    update-IsUpdate (old_sample ∷ []) 4000000000 9 8 tt (omega arith, tt) (omega arith)
      (omega arith)

abbrev table : PlayTuiState
table = record {
  scroll_x = negsuc 3;
  scroll_y = pos 90;
  content_width = pos 120;
  content_height = pos 40;
  viewport_width = pos 80;
  viewport_height = pos 20;
  sort_column_count = 15;
  sort_column = 0;
  sort_ascending = true;
}

run_actions-IsInView_example : IsInView (run_actions table (page_down ∷ scroll_left ∷ []))
run_actions-IsInView_example = run_actions-IsInView table page_down (scroll_left ∷ [])

abbrev two_adapters : List AdapterContext
two_adapters =
    record {
      label = codes "Can:can0";
      buses =
          record {
            slave_id = none;
            bus_idx = pos 0;
            motors = record { motor_idx = pos 1; sent = 5; received = 4 } ∷ [];
          }
          ∷ [];
    }
    ∷ record {
      label = codes "Can:can1";
      buses =
          record {
            slave_id = none;
            bus_idx = pos 0;
            motors = record { motor_idx = pos 2; sent = 7; received = 7 } ∷ [];
          }
          ∷ [];
    }
    ∷ []

extract_query_parameter-render_example :
    extract_query_parameter (codes "t=1&n=x%20y") (codes "n") ≡ url_decode (codes "x%20y")
unfolding str_eq
extract_query_parameter-render_example =
    extract_query_parameter-render (codes "n") (codes "t") (codes "1")
      ((codes "n", codes "x%20y") ∷ []) (ground arith) (ground arith) (ground arith)

-- Whole percents in place of `double`.
abbrev percents : Doubles
percents = record {
  Double = ℕ;
  zero_point = 0;
  one_point = 100;
  lt = ltb;
  le = leb;
  stod = λ s. stoul 10 s;
}

abbrev timing_arguments : List Bytes
timing_arguments =
    codes "imu"
    ∷ codes "--bitrate=500000"
    ∷ codes "Can:can0"
    ∷ codes "--sample-point"
    ∷ codes "75"
    ∷ []
