-- ===== src/Play/Requests/Laws.antt =====
-- src/cli/play.cc: what events between two reads of the control loop do to a stop request.
use encos_cli.Base.{
  ◌≤◌, ◌≡◌, refl, Bool, true, false, not, ◌||◌, List, [], ◌∷◌, arith, Bool-cases, inl, inr,
}
use encos_cli.Play.Requests.{
  PlayEvent, interrupt, terminate, press_quit, press_space, table_closed, table_failed, Shared,
  hear_event, hear, resume_if_stopping,
}

abbrev pub is_space : PlayEvent → Bool
is_space press_space = true
is_space _ = false

-- Whether some event asks for a stop: all do but the space key.
abbrev pub has_stop : List PlayEvent → Bool
has_stop [] = false
has_stop (e ∷ events) = not (is_space e) || has_stop events

abbrev pub has_space : List PlayEvent → Bool
has_space [] = false
has_space (e ∷ events) = is_space e || has_space events

requests_kept :
    (e : PlayEvent) (s : Shared) → 1 ≤ s.stop_requests → 1 ≤ (hear_event e s).stop_requests
unfolding hear_event
requests_kept interrupt s h = omega arith
requests_kept terminate s h = omega arith
requests_kept press_quit s h = ground arith
requests_kept press_space s h = h
requests_kept table_closed s h = ground arith
requests_kept table_failed s h = omega arith

pub hear-requests :
    (events : List PlayEvent) (s : Shared) → 1 ≤ s.stop_requests → 1 ≤ (hear events s).stop_requests
unfolding hear
hear-requests [] s h = h
hear-requests (e ∷ events) s h = hear-requests events (hear_event e s) (requests_kept e s h)

stop_heard : (e : PlayEvent) (s : Shared) → is_space e ≡ false → 1 ≤ (hear_event e s).stop_requests
unfolding hear_event
stop_heard interrupt s h = omega arith
stop_heard terminate s h = omega arith
stop_heard press_quit s h = ground arith
stop_heard press_space s h = cc
stop_heard table_closed s h = ground arith
stop_heard table_failed s h = omega arith

-- A stop among the events is heard.
pub hear-stop :
    (events : List PlayEvent) (s : Shared)
    → has_stop events ≡ true
    → 1 ≤ (hear events s).stop_requests
unfolding hear
hear-stop [] s h = cc
hear-stop (e ∷ events) s h = elim (Bool-cases (is_space e)) [
  | inl space ↦ hear-stop events (hear_event e s) (rw space at h)
  | inr other ↦ hear-requests events (hear_event e s) (stop_heard e s other)
]

pause_kept :
    (e : PlayEvent) (s : Shared)
    → is_space e ≡ false
    → s.paused ≡ false
    → (hear_event e s).paused ≡ false
unfolding hear_event
pause_kept interrupt s q h = h
pause_kept terminate s q h = h
pause_kept press_quit s q h = refl
pause_kept press_space s q h = cc
pause_kept table_closed s q h = h
pause_kept table_failed s q h = h

-- Only the space key pauses.
pub hear-unpaused :
    (events : List PlayEvent) (s : Shared)
    → has_space events ≡ false
    → s.paused ≡ false
    → (hear events s).paused ≡ false
unfolding hear
hear-unpaused [] s q h = h
hear-unpaused (e ∷ events) s q h = elim (Bool-cases (is_space e)) [
  | inl space ↦ absurd (no (rw space at q))
  | inr other ↦ hear-unpaused events (hear_event e s) (rw other at q) (pause_kept e s other h)
]
  where
    no : true ≡ false → ⊥
    no k = cc

pub resumed : (s : Shared) → 1 ≤ s.stop_requests → (resume_if_stopping s).paused ≡ false
resumed s h = ground arith

pub resumed_requests : (s : Shared) → 1 ≤ s.stop_requests → 1 ≤ (resume_if_stopping s).stop_requests
resumed_requests s h = ground arith
