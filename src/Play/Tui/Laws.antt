-- ===== src/Play/Tui/Laws.antt =====
-- The table never scrolls out of its content, and the sort columns form a cycle.
use encos_cli.Base.{ℕ, ◌+◌, ◌-◌, ◌%◌, ◌<◌, ◌≡◌, ◌∙◌, List, [], ◌∷◌, arith}
use native.Mathlib.Nat.{add-mod_right, mod-eq_of_lt, mod-add-mod}
use encos_cli.Base.Int.{ℤ, pos, negsuc, ◌-ℤ◌, ◌≤ℤ◌}
use encos_cli.Play.Tui.{
  PlayTuiAction, PlayTuiState, max_ℤ, clamp, clamp_play_tui_scroll, move, apply_play_tui_action,
  previous_sort_column, next_sort_column,
}

-- Not scrolled past the content, which stays in place if it fits.
pub record IsInView (s : PlayTuiState) : Type 0 where
  pub left : pos 0 ≤ℤ s.scroll_x
  pub right : s.scroll_x ≤ℤ max_ℤ (pos 0) (s.content_width -ℤ s.viewport_width)
  pub top : pos 0 ≤ℤ s.scroll_y
  pub bottom : s.scroll_y ≤ℤ max_ℤ (pos 0) (s.content_height -ℤ s.viewport_height)

clamp-bounds :
    (x m : ℤ)
    → (pos 0 ≤ℤ clamp x (pos 0) (max_ℤ (pos 0) m))
      × (clamp x (pos 0) (max_ℤ (pos 0) m) ≤ℤ max_ℤ (pos 0) m)
clamp-bounds (pos x) (pos m) = ground arith
clamp-bounds (pos x) (negsuc m) = ground arith
clamp-bounds (negsuc x) (pos m) = ground arith
clamp-bounds (negsuc x) (negsuc m) = ground arith

clamp_play_tui_scroll-IsInView : (s : PlayTuiState) → IsInView (clamp_play_tui_scroll s)
unfolding clamp_play_tui_scroll
clamp_play_tui_scroll-IsInView s =
    let (l, r) = clamp-bounds s.scroll_x (s.content_width -ℤ s.viewport_width) in
    let (t, b) = clamp-bounds s.scroll_y (s.content_height -ℤ s.viewport_height) in
    record { left = l; right = r; top = t; bottom = b }

abbrev pub run_actions : PlayTuiState → List PlayTuiAction → PlayTuiState
run_actions s [] = s
run_actions s (a ∷ actions) = run_actions (apply_play_tui_action s a) actions

run_actions-IsInView_of_IsInView :
    (actions : List PlayTuiAction) (s : PlayTuiState)
    → IsInView s
    → IsInView (run_actions s actions)
unfolding apply_play_tui_action
run_actions-IsInView_of_IsInView [] s h = h
run_actions-IsInView_of_IsInView (a ∷ actions) s h =
    run_actions-IsInView_of_IsInView actions _ (clamp_play_tui_scroll-IsInView (move s a))

-- Whatever the state, after one action and any further ones the table is not scrolled past its content.
pub run_actions-IsInView :
    (s : PlayTuiState) (action : PlayTuiAction) (actions : List PlayTuiAction)
    → IsInView (run_actions s (action ∷ actions))
unfolding apply_play_tui_action
run_actions-IsInView s action actions =
    run_actions-IsInView_of_IsInView actions _ (clamp_play_tui_scroll-IsInView (move s action))

wrapped : (c n : ℕ) → c < n → (c + n) % n ≡ c
wrapped c n h = add-mod_right c n ∙ mod-eq_of_lt h

cycle_back : (c n : ℕ) → c < n → ((c + 1) % n + n - 1) % n ≡ c
cycle_back c n h =
    let e : (c + 1) % n + n - 1 ≡ (c + 1) % n + (n - 1) = omega arith in
    let e' : c + 1 + (n - 1) ≡ c + n = omega arith in
    rw (e, mod-add-mod (c + 1) n (n - 1), e') (wrapped c n h)

cycle_on : (c n : ℕ) → c < n → ((c + n - 1) % n + 1) % n ≡ c
cycle_on c n h =
    let e : c + n - 1 + 1 ≡ c + n = omega arith in
    rw (mod-add-mod (c + n - 1) n 1, e) (wrapped c n h)

-- From a column in range, going to the next sort column and to the previous one, in either order,
-- comes back to the column.
pub sort_column_cycle :
    (s : PlayTuiState)
    → s.sort_column < s.sort_column_count
    → ((run_actions s (next_sort_column ∷ previous_sort_column ∷ [])).sort_column ≡ s.sort_column)
      × ((run_actions s (previous_sort_column ∷ next_sort_column ∷ [])).sort_column ≡ s.sort_column)
unfolding apply_play_tui_action clamp_play_tui_scroll move
sort_column_cycle s h =
    (cycle_back s.sort_column s.sort_column_count h, cycle_on s.sort_column s.sort_column_count h)
