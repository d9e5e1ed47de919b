-- ===== src/Trajectory/Player/Laws.antt =====
-- The states that a playback of a valid trajectory returns.
use encos_cli.Base.{
  ◌&&◌, ℕ, zero, suc, ◌+◌, ◌-◌, ◌≤◌, ◌≡◌, refl, ap, Bool, true, false, not, List, [], ◌∷◌, ◌==◌,
  length, Result, ok, arith, All, ◌≢◌, ◌∙◌, sym, if◌then◌else◌,
}
use encos_cli.Trajectory.Numbers.{Numbers}
use encos_cli.Base.Vectors.{get_or}
use encos_cli.Trajectory.Player.{
  TrajectorySample, Trajectory, PlaybackState, build_terminal_state, interpolate,
  interpolate_segment, sample, last_index, total_duration_s, forward_loop, evaluate_forward,
  backward_loop, evaluate_backward, evaluate_many, has_other_width, validate_trajectory,
  evaluate_samples, evaluate_trajectory,
}

module _ (N : Numbers) where
  open N use {Double, Float, zero_s, le, max_zero, fmod, twice, sub, add, div}

  abbrev pub HasWidth : ℕ → TrajectorySample Double Float → Type 0
  HasWidth width s = length s.positions_deg ≡ width

  -- At least one sample, a connection for each name, and a position for each motor in each sample.
  pub record IsTrajectory (t : Trajectory Double Float) : Type 0 where
    pub sampled : t.samples ≢ []
    pub connected : length t.motor_names ≡ length t.motor_connections
    pub widths : All (HasWidth (length t.motor_names)) t.samples

  -- A state between two neighbours among `last + 1` samples, or at one of them.
  pub record IsState (width last : ℕ) (endless : Bool) (s : PlaybackState Float) : Type 0 where
    pub start_in_range : s.segment_start_index ≤ last
    pub end_in_range : s.segment_end_index ≤ last
    pub forth : s.segment_end_index ≤ s.segment_start_index + 1
    pub back : s.segment_start_index ≤ s.segment_end_index + 1
    pub width_kept : length s.positions_deg ≡ width
    pub endless_runs : (s.finished && endless) ≡ false

  abbrev Returns : ℕ → ℕ → Bool → Result (PlaybackState Float) → Type 0
  Returns width last endless r =
      (s : PlaybackState Float) × (r ≡ ok s) × IsState width last endless s

  length-interpolate :
      (starts ends : List Float) (ratio : Double)
      → length starts ≡ length ends
      → length (interpolate N starts ends ratio) ≡ length starts
  unfolding interpolate
  length-interpolate [] ends ratio h = refl
  length-interpolate (a ∷ starts) [] ratio h = absurd (omega arith)
  length-interpolate (a ∷ starts) (b ∷ ends) ratio h =
      ap suc (length-interpolate starts ends ratio (omega arith))

  get_or-All :
      {width : ℕ} (l : List (TrajectorySample Double Float)) (i : ℕ)
      (d : TrajectorySample Double Float)
      → All (HasWidth width) l
      → HasWidth width d
      → HasWidth width (get_or l i d)
  get_or-All [] i d h hd = hd
  get_or-All (x ∷ xs) zero d (h, hs) hd = h
  get_or-All (x ∷ xs) (suc i) d (h, hs) hd = get_or-All xs i d hs hd

  -- A segment between neighbours.
  interpolate_segment-Returns :
      {width last : ℕ} (endless : Bool) (a b : TrajectorySample Double Float) (i j : ℕ)
      (e d : Double)
      → HasWidth width a
      → HasWidth width b
      → i ≤ last
      → j ≤ last
      → j ≤ i + 1
      → i ≤ j + 1
      → Returns width last endless (interpolate_segment N a b i j e d false)
  unfolding interpolate_segment
  interpolate_segment-Returns endless a b i j e d ha hb p q r s =
      let eq = ha ∙ sym hb in
      let ratio = if le d zero_s then zero_s else div e d in
      let e0 : (length a.positions_deg == length b.positions_deg) ≡ true = ground arith in
      rw e0 (
        record {
          segment_start_index = i;
          segment_end_index = j;
          positions_deg = interpolate N a.positions_deg b.positions_deg ratio;
          finished = false;
        },
        refl,
        record {
          start_in_range = p;
          end_in_range = q;
          forth = r;
          back = s;
          width_kept = length-interpolate a.positions_deg b.positions_deg ratio (ha ∙ sym hb) ∙ ha;
          endless_runs = refl;
        },
      )

  build_terminal_state-Returns :
      {width last : ℕ} (endless : Bool) (a : TrajectorySample Double Float) (i : ℕ) (fin : Bool)
      → HasWidth width a
      → i ≤ last
      → (fin && endless) ≡ false
      → Returns width last endless (ok (build_terminal_state N a i fin))
  unfolding build_terminal_state
  build_terminal_state-Returns endless a i fin ha p h = (
    build_terminal_state N a i fin,
    refl,
    record {
      start_in_range = p;
      end_in_range = p;
      forth = omega arith;
      back = omega arith;
      width_kept = ha;
      endless_runs = h;
    },
  )

  not_and : (b : Bool) → (not b && b) ≡ false
  not_and true = refl
  not_and false = refl

  if-Returns :
      {width last : ℕ} {endless : Bool} (b : Bool) {x y : Result (PlaybackState Float)}
      → Returns width last endless x
      → Returns width last endless y
      → Returns width last endless (if b then x else y)
  if-Returns true hx hy = hx
  if-Returns false hx hy = hy

  module _ (first : TrajectorySample Double Float) (rest : List (TrajectorySample Double Float))
      {width : ℕ} (hw : All (HasWidth width) (first ∷ rest)) where
    abbrev at : ℕ → TrajectorySample Double Float
    at = sample N first rest

    sample-HasWidth : (i : ℕ) → HasWidth width (sample N first rest i)
    sample-HasWidth i = get_or-All (first ∷ rest) i first hw hw.0

    forward_loop-Returns :
        (endless : Bool) (rounds index : ℕ) (e : Double) (fin : Bool)
        → rounds + index ≡ last_index N first rest
        → (fin && endless) ≡ false
        → Returns width
            (last_index N first rest)
            endless
            (forward_loop N first rest rounds index e fin)
    unfolding forward_loop
    forward_loop-Returns endless zero index e fin inv h =
        build_terminal_state-Returns endless (at (last_index N first rest)) _ fin
          (sample-HasWidth _) (omega arith) h
    forward_loop-Returns endless (suc rounds) index e fin inv h =
        if-Returns _
          (interpolate_segment-Returns endless (at index) (at (index + 1)) _ _ _ _
            (sample-HasWidth index) (sample-HasWidth (index + 1)) (omega arith) (omega arith)
            (omega arith) (omega arith))
          (forward_loop-Returns endless rounds (index + 1) e fin (omega arith) h)

    evaluate_forward-Returns :
        (endless : Bool) (e : Double) (fin : Bool)
        → (fin && endless) ≡ false
        → Returns width (last_index N first rest) endless (evaluate_forward N first rest e fin)
    unfolding evaluate_forward
    evaluate_forward-Returns endless e fin h =
        if-Returns _
          (build_terminal_state-Returns endless (at (last_index N first rest)) _ fin
            (sample-HasWidth _) (omega arith) h)
          (forward_loop-Returns endless _ 0 e fin (omega arith) h)

    backward_loop-Returns :
        (endless : Bool) (i : ℕ) (e : Double)
        → i ≤ last_index N first rest
        → Returns width (last_index N first rest) endless (backward_loop N first rest i e)
    unfolding backward_loop
    backward_loop-Returns endless zero e h =
        build_terminal_state-Returns endless first 0 false hw.0 (omega arith) refl
    backward_loop-Returns endless (suc i) e h =
        if-Returns _
          (interpolate_segment-Returns endless (at (suc i)) (at i) _ _ _ _ (sample-HasWidth (suc i))
            (sample-HasWidth i) (omega arith) (omega arith) (omega arith) (omega arith))
          (backward_loop-Returns endless i _ (omega arith))

    abbrev total : Double
    total = total_duration_s N first rest

    abbrev cycle : Double → Double
    cycle e = fmod (max_zero e) (twice total)

    evaluate_many-Returns :
        (endless : Bool) (e : Double)
        → Returns width (last_index N first rest) endless (evaluate_many N first rest e endless)
    unfolding evaluate_many evaluate_backward
    evaluate_many-Returns true e =
        if-Returns (le total zero_s)
          (build_terminal_state-Returns true first 0 false hw.0 (omega arith) refl)
          (if-Returns (le (cycle e) total) (evaluate_forward-Returns true (cycle e) false refl) (
            backward_loop-Returns true (last_index N first rest) (sub (cycle e) total)
              (omega arith)))
    evaluate_many-Returns false e =
        if-Returns (le total zero_s)
          (build_terminal_state-Returns false first 0 true hw.0 (omega arith) refl)
          (evaluate_forward-Returns false (max_zero e) true refl)

  has_other_width-All :
      (width : ℕ) (l : List (TrajectorySample Double Float))
      → All (HasWidth width) l
      → has_other_width N width l ≡ false
  unfolding has_other_width
  has_other_width-All width [] h = refl
  has_other_width-All width (x ∷ xs) (h, hs) =
      let e : (length x.positions_deg == width) ≡ true = ground arith in
      rw e (has_other_width-All width xs hs)

  length-nonempty : {A : Type 0} (l : List A) → l ≢ [] → (length l == 0) ≡ false
  length-nonempty [] h = absurd (h refl)
  length-nonempty (x ∷ xs) h = ground arith

  ==_refl_of : {a b : ℕ} → a ≡ b → (a == b) ≡ true
  ==_refl_of h = ground arith

  validate_trajectory-IsTrajectory :
      (t : Trajectory Double Float) → IsTrajectory t → validate_trajectory N t ≡ ok tt
  unfolding validate_trajectory
  validate_trajectory-IsTrajectory t h =
      rw (length-nonempty t.samples h.sampled)
        (rw (==_refl_of h.connected) (rw (has_other_width-All _ t.samples h.widths) refl))

  evaluate_samples-Returns :
      {width : ℕ} (endless : Bool) (l : List (TrajectorySample Double Float)) (e : Double)
      → l ≢ []
      → All (HasWidth width) l
      → Returns width (length l - 1) endless (evaluate_samples N l e endless)
  unfolding evaluate_samples
  evaluate_samples-Returns endless [] e h hw = absurd (h refl)
  evaluate_samples-Returns endless (a ∷ []) e h hw =
      build_terminal_state-Returns endless a 0 (not endless) hw.0 (omega arith) (not_and endless)
  evaluate_samples-Returns endless (a ∷ b ∷ rest) e h hw =
      let eq : suc (suc (length rest)) - 1 ≡ suc (length rest) = omega arith in
      rw eq (evaluate_many-Returns a (b ∷ rest) hw endless e)

  -- For a valid trajectory (at least one sample, a connection for each motor name, a position for
  -- each motor in each sample), a time and whether it is endless, whatever the floating-point
  -- operations give, the evaluation throws nothing: it returns a state of two neighbouring samples
  -- or of one, in range, with a position for each motor, and not finished if the playback is endless.
  pub evaluate_trajectory-IsState :
      (t : Trajectory Double Float) (elapsed_s : Double) (endless : Bool)
      → IsTrajectory t
      → (s : PlaybackState Float) × (evaluate_trajectory N t elapsed_s endless ≡ ok s)
        × IsState (length t.motor_names) (length t.samples - 1) endless s
  unfolding evaluate_trajectory
  evaluate_trajectory-IsState t elapsed_s endless h =
      rw (validate_trajectory-IsTrajectory t h)
        (evaluate_samples-Returns endless t.samples elapsed_s h.sampled h.widths)
