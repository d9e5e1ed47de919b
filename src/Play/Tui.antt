-- ===== src/Play/Tui.antt =====
-- src/cli/play.cc and src/cli/play.h: scrolling and the sort column of the live table.
-- An `int` is a ℤ with no bounds: the sizes of a terminal are far below 2^31.
pub mod Laws
use encos_cli.Base.{ℕ, ◌+◌, ◌-◌, ◌%◌, Bool, not, if◌then◌else◌}
use encos_cli.Base.Int.{ℤ, pos, ◌+ℤ◌, ◌-ℤ◌, ltb_ℤ}

pub data PlayTuiAction : Type 0 where
  scroll_left : PlayTuiAction
  scroll_right : PlayTuiAction
  scroll_up : PlayTuiAction
  scroll_down : PlayTuiAction
  page_up : PlayTuiAction
  page_down : PlayTuiAction
  previous_sort_column : PlayTuiAction
  next_sort_column : PlayTuiAction
  toggle_sort_direction : PlayTuiAction

-- A sort column is its number in the enumeration `PlaySortColumn`.
pub record PlayTuiState : Type 0 where
  pub scroll_x : ℤ
  pub scroll_y : ℤ
  pub content_width : ℤ
  pub content_height : ℤ
  pub viewport_width : ℤ
  pub viewport_height : ℤ
  pub sort_column_count : ℕ
  pub sort_column : ℕ
  pub sort_ascending : Bool

abbrev pub max_ℤ : ℤ → ℤ → ℤ
max_ℤ a b = if ltb_ℤ a b then b else a

-- `std::clamp`.
abbrev pub clamp : ℤ → ℤ → ℤ → ℤ
clamp x low high = if ltb_ℤ x low then low else if ltb_ℤ high x then high else x

unfoldable pub clamp_play_tui_scroll : PlayTuiState → PlayTuiState
clamp_play_tui_scroll state =
    let max_x = max_ℤ (pos 0) (state.content_width -ℤ state.viewport_width) in
    let max_y = max_ℤ (pos 0) (state.content_height -ℤ state.viewport_height) in
    record state {
      scroll_x = clamp state.scroll_x (pos 0) max_x;
      scroll_y = clamp state.scroll_y (pos 0) max_y;
    }

-- The switch of `ApplyPlayTuiAction`.
unfoldable pub move : PlayTuiState → PlayTuiAction → PlayTuiState
move state scroll_left = record state { scroll_x = state.scroll_x -ℤ pos 4 }
move state scroll_right = record state { scroll_x = state.scroll_x +ℤ pos 4 }
move state scroll_up = record state { scroll_y = state.scroll_y -ℤ pos 1 }
move state scroll_down = record state { scroll_y = state.scroll_y +ℤ pos 1 }
move state page_up = record state {
  scroll_y = state.scroll_y -ℤ max_ℤ (pos 1) state.viewport_height;
}
move state page_down = record state {
  scroll_y = state.scroll_y +ℤ max_ℤ (pos 1) state.viewport_height;
}
move state previous_sort_column = record state {
  sort_column = (state.sort_column + state.sort_column_count - 1) % state.sort_column_count;
}
move state next_sort_column = record state {
  sort_column = (state.sort_column + 1) % state.sort_column_count;
}
move state toggle_sort_direction = record state { sort_ascending = not state.sort_ascending }

unfoldable pub apply_play_tui_action : PlayTuiState → PlayTuiAction → PlayTuiState
unfolding move clamp_play_tui_scroll
apply_play_tui_action state action = clamp_play_tui_scroll (move state action)
