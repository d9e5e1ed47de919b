-- ===== src/Trajectory/Csv/Laws.antt =====
-- The trajectories that the CSV parser returns, and their playback.
use encos_cli.Base.{
  ℕ, suc, ◌+◌, ◌-◌, ◌≡◌, ◌≢◌, refl, ap, sym, ◌∙◌, Bool, true, false, Option, none, some, List, [],
  ◌∷◌, ◌++◌, Bytes, String, ◌==◌, ◌||◌, not, is_empty, length, Result, ok, arith, All, All-append,
  Bool-cases, inl, inr, Ensures, Ensures-bind, Ensures-any, Ensures-throw_if, Ensures-ok,
  Result-cases, if◌then◌else◌, ◌=:◌, runtime_error,
}
use encos_cli.Trajectory.Numbers.{Numbers}
use encos_cli.Trajectory.Connection.{MotorConnection, parse_motor_connection}
use encos_cli.Trajectory.Player.{TrajectorySample, Trajectory, PlaybackState, evaluate_trajectory}
use encos_cli.Trajectory.Player.Laws.{HasWidth, IsTrajectory, IsState, evaluate_trajectory-IsState}
use encos_cli.Trajectory.Csv.{
  parse_connections, CsvState, parse_finite_double, parse_positions, parse_header, is_late,
  parse_sample, csv_row, csv_loop, finish_csv, initial, parse_trajectory_csv, split_csv_line,
  strip_line, getlines,
}

-- Each name reads as the connection that stands in its place.
abbrev pub Connects : List Bytes → List MotorConnection → Type 0
Connects [] [] = Unit
Connects [] (c ∷ cs) = ⊥
Connects (n ∷ ns) [] = ⊥
Connects (n ∷ ns) (c ∷ cs) = (parse_motor_connection n ≡ ok c) × Connects ns cs

Connects-length :
    (ns : List Bytes) (cs : List MotorConnection) → Connects ns cs → length ns ≡ length cs
Connects-length [] [] h = refl
Connects-length [] (c ∷ cs) h = absurd h
Connects-length (n ∷ ns) [] h = absurd h
Connects-length (n ∷ ns) (c ∷ cs) (h, hs) = ap suc (Connects-length ns cs hs)

parse_connections-Connects : (ns : List Bytes) → Ensures (Connects ns) (parse_connections ns)
unfolding parse_connections
parse_connections-Connects [] = tt
parse_connections-Connects (n ∷ ns) = elim (Result-cases (parse_motor_connection n)) [
  | inl (c, e) ↦ rw e (
      Ensures-bind (Connects ns) (Connects (n ∷ ns)) (parse_connections ns) _
        (parse_connections-Connects ns) (λ cs h. (e, h)))
  | inr (x, e) ↦ rw e tt
]

module _ (N : Numbers) where
  open N use {Double, Float, le, is_finite, stod}

  abbrev Sample : Type 0
  Sample = TrajectorySample Double Float

  -- The time of the last sample.
  abbrev last_time : List Sample → Option Double
  last_time [] = none
  last_time (x ∷ []) = some x.time_s
  last_time (x ∷ y ∷ xs) = last_time (y ∷ xs)

  -- No sample's time is at or below that of the sample in front of it.
  abbrev pub IsIncreasing : List Sample → Type 0
  IsIncreasing [] = Unit
  IsIncreasing (x ∷ []) = Unit
  IsIncreasing (x ∷ y ∷ xs) = (le y.time_s x.time_s ≡ false) × IsIncreasing (y ∷ xs)

  abbrev IsFiniteSample : Sample → Type 0
  IsFiniteSample x = is_finite x.time_s ≡ true

  IsIncreasing-snoc :
      (l : List Sample) (x : Sample)
      → IsIncreasing l
      → ((t : Double) → last_time l ≡ some t → le x.time_s t ≡ false)
      → IsIncreasing (l ++ (x ∷ []))
  IsIncreasing-snoc [] x h k = tt
  IsIncreasing-snoc (a ∷ []) x h k = (k a.time_s refl, tt)
  IsIncreasing-snoc (a ∷ b ∷ l) x (h, hs) k = (h, IsIncreasing-snoc (b ∷ l) x hs k)

  last_time-snoc : (l : List Sample) (x : Sample) → last_time (l ++ (x ∷ [])) ≡ some x.time_s
  last_time-snoc [] x = refl
  last_time-snoc (a ∷ []) x = refl
  last_time-snoc (a ∷ b ∷ l) x = last_time-snoc (b ∷ l) x

  -- What the loop keeps.
  record IsCsvState (s : CsvState N) : Type 0 where
    pub connected : Connects s.trajectory.motor_names s.trajectory.motor_connections
    pub widths : All (HasWidth N (length s.trajectory.motor_names)) s.trajectory.samples
    pub increasing : IsIncreasing s.trajectory.samples
    pub finite : All IsFiniteSample s.trajectory.samples
    pub previous : (t : Double) → last_time s.trajectory.samples ≡ some t → t ≡ s.previous_time_s
    pub none_before_header : s.header_parsed ≡ false → s.trajectory.samples ≡ []

  both_pass : (a b : Bool) → (not a || not b) ≡ false → b ≡ true
  both_pass a true h = refl
  both_pass true false h = cc
  both_pass false false h = cc

  parse_finite_double-Ensures :
      (value : Bytes) (field_name : String)
      → Ensures (λ d. is_finite d ≡ true) (parse_finite_double N value field_name)
  unfolding parse_finite_double
  parse_finite_double-Ensures value field_name =
      Ensures-bind (λ _. Unit {0}) (λ d. is_finite d ≡ true) (stod value) _
        (Ensures-any (stod value))
        (λ (d, rest) _.
          Ensures-throw_if (λ d. is_finite d ≡ true) (not (is_empty rest) || not (is_finite d)) _
            (ok d) (both_pass (is_empty rest) (is_finite d)))

  parse_positions-length :
      (columns : List Bytes)
      → Ensures (λ ps. length ps ≡ length columns) (parse_positions N columns)
  unfolding parse_positions
  parse_positions-length [] = refl
  parse_positions-length (c ∷ cs) =
      Ensures-bind (λ _. Unit {0}) (λ ps. length ps ≡ suc (length cs))
        (parse_finite_double N c "position must be a finite number") _
        (Ensures-any (parse_finite_double N c _))
        (λ p _.
          Ensures-bind (λ ps. length ps ≡ length cs) (λ ps. length ps ≡ suc (length cs))
            (parse_positions N cs) _ (parse_positions-length cs) (λ ps h. ap suc h))

  none_HasWidth : (w : ℕ) {l : List Sample} → l ≡ [] → All (HasWidth N w) l
  none_HasWidth w e = rw e tt

  width_of : {a b : ℕ} → (a == b) ≡ true → a ≡ b
  width_of h = ground arith

  some_injective : {a b : Double} → some a ≡ some b → a ≡ b
  some_injective h = cc

  true-false : true ≡ false → ⊥
  true-false h = cc

  is_late-cons :
      (q t : Double) (l : List Sample) {p : Double}
      → is_late N q l t ≡ false
      → last_time l ≡ some p
      → p ≡ q
      → le t p ≡ false
  is_late-cons q t [] k e r = cc
  is_late-cons q t (x ∷ l) k e r = rw r k

  parse_header-IsCsvState :
      (columns : List Bytes) (s : CsvState N)
      → IsCsvState s
      → s.header_parsed ≡ false
      → Ensures IsCsvState (parse_header N columns s)
  unfolding parse_header
  parse_header-IsCsvState [] s h k = tt
  parse_header-IsCsvState (time ∷ []) s h k = tt
  parse_header-IsCsvState (time ∷ c ∷ cs) s h k =
      Ensures-throw_if IsCsvState (not (time =: "time"))
        (runtime_error "trajectory first column must be 'time'" []) _
        (λ _. elim (Result-cases (parse_connections (c ∷ cs))) [
          | inl (connections, e) ↦ rw e (record {
            connected = Ensures-ok (Connects (c ∷ cs)) _ (parse_connections-Connects (c ∷ cs)) e;
            widths = none_HasWidth _ (h.none_before_header k);
            increasing = h.increasing;
            finite = h.finite;
            previous = h.previous;
            none_before_header = λ e. absurd (true-false e);
          })
          | inr (x, e) ↦ rw e tt
        ])

  sampled-IsCsvState :
      (s : CsvState N) (t : Double) (ps : List Float)
      → IsCsvState s
      → s.header_parsed ≡ true
      → length ps ≡ length s.trajectory.motor_names
      → is_finite t ≡ true
      → is_late N s.previous_time_s s.trajectory.samples t ≡ false
      → IsCsvState (record s {
        trajectory = record {
          motor_names = s.trajectory.motor_names;
          motor_connections = s.trajectory.motor_connections;
          samples = s.trajectory.samples ++ (record { time_s = t; positions_deg = ps } ∷ []);
        };
        previous_time_s = t;
      })
  sampled-IsCsvState s t ps h k len fin late =
      let x : Sample = record { time_s = t; positions_deg = ps } in
      let l = s.trajectory.samples in
      record {
        connected = h.connected;
        widths = All-append _ l (x ∷ []) h.widths (len, tt);
        increasing =
            IsIncreasing-snoc l x h.increasing
              (λ p e. is_late-cons s.previous_time_s t l late e (h.previous p e));
        finite = All-append _ l (x ∷ []) h.finite (fin, tt);
        previous = λ p e. some_injective (sym e ∙ last_time-snoc l x);
        none_before_header = λ e. absurd (true-false (sym k ∙ e));
      }

  parse_sample-IsCsvState :
      (n : ℕ) (columns : List Bytes) (s : CsvState N)
      → IsCsvState s
      → s.header_parsed ≡ true
      → Ensures IsCsvState (parse_sample N n columns s)
  unfolding parse_sample
  parse_sample-IsCsvState n [] s h k = tt
  parse_sample-IsCsvState n (time ∷ columns) s h k =
      let wide = length columns == length s.trajectory.motor_names in
      let late = is_late N s.previous_time_s s.trajectory.samples in
      elim (Bool-cases wide) [
        | inr b ↦ rw b tt
        | inl b ↦
            rw b (elim (Result-cases (parse_finite_double N time "time must be a finite number")) [
              | inr (x, e) ↦ rw e tt
              | inl (t, e) ↦ rw e (elim (Bool-cases (late t)) [
                | inl l ↦ rw l tt
                | inr l ↦ rw l (elim (Result-cases (parse_positions N columns)) [
                  | inr (x, e') ↦ rw e' tt
                  | inl (ps, e') ↦ rw e' (
                      sampled-IsCsvState s t ps h k
                        (Ensures-ok (λ p. length p ≡ length columns) _
                            (parse_positions-length columns) e'
                          ∙ width_of b)
                        (Ensures-ok (λ d. is_finite d ≡ true) _ (parse_finite_double-Ensures time _)
                          e)
                        l)
                ])
              ])
            ])
      ]

  csv_row-IsCsvState :
      (n : ℕ) (line : Bytes) (s : CsvState N)
      → IsCsvState s
      → Ensures IsCsvState (csv_row N n line s)
  unfolding csv_row
  csv_row-IsCsvState n line s h =
      if-Ensures (is_empty line) (ok s) _ (λ _. h)
        (λ _.
          if-Ensures (not s.header_parsed) (parse_header N (split_csv_line line) s)
            (parse_sample N n (split_csv_line line) s)
            (λ e. parse_header-IsCsvState _ s h (from_not e))
            (λ e. parse_sample-IsCsvState n _ s h (from_not e)))
    where
      if-Ensures :
          (b : Bool) (x y : Result (CsvState N))
          → (b ≡ true → Ensures IsCsvState x)
          → (b ≡ false → Ensures IsCsvState y)
          → Ensures IsCsvState (if b then x else y)
      if-Ensures true x y hx hy = hx refl
      if-Ensures false x y hx hy = hy refl

      from_not : {a b : Bool} → not a ≡ b → a ≡ not b
      from_not {a} {b} h = ground arith

  csv_loop-IsCsvState :
      (n : ℕ) (lines : List Bytes) (s : CsvState N)
      → IsCsvState s
      → Ensures IsCsvState (csv_loop N n lines s)
  unfolding csv_loop
  csv_loop-IsCsvState n [] s h = h
  csv_loop-IsCsvState n (line ∷ lines) s h =
      Ensures-bind IsCsvState IsCsvState (csv_row N (n + 1) (strip_line line) s) _
        (csv_row-IsCsvState (n + 1) (strip_line line) s h)
        (λ s' h'. csv_loop-IsCsvState (n + 1) lines s' h')

  -- What a trajectory from a file satisfies.
  pub record IsCsvTrajectory (t : Trajectory Double Float) : Type 0 where
    pub playable : IsTrajectory N t
    pub connected : Connects t.motor_names t.motor_connections
    pub increasing : IsIncreasing t.samples
    pub finite : All IsFiniteSample t.samples

  not_empty_of : (l : List Sample) → (length l == 0) ≡ false → l ≢ []
  not_empty_of [] h = cc
  not_empty_of (x ∷ l) h = λ e. cc

  finish_csv-IsCsvTrajectory :
      (s : CsvState N) → IsCsvState s → Ensures IsCsvTrajectory (finish_csv N s)
  unfolding finish_csv
  finish_csv-IsCsvTrajectory s h = elim (Bool-cases s.header_parsed) [
    | inr b ↦ rw b tt
    | inl b ↦ rw b (elim (Bool-cases (length s.trajectory.samples == 0)) [
      | inl e ↦ rw e tt
      | inr e ↦ rw e (record {
        playable = record {
          sampled = not_empty_of s.trajectory.samples e;
          connected = Connects-length _ _ h.connected;
          widths = h.widths;
        };
        connected = h.connected;
        increasing = h.increasing;
        finite = h.finite;
      })
    ])
  ]

  -- Whatever the text of the file, a trajectory that `ParseTrajectoryCsv` returns has a sample, a
  -- position for each motor in each sample, the connection that each column's name reads as, finite
  -- times, and no sample's time at or below the time before it.
  pub parse_trajectory_csv-IsCsvTrajectory :
      (filepath : Bytes) (file : Option Bytes)
      → Ensures IsCsvTrajectory (parse_trajectory_csv N filepath file)
  unfolding parse_trajectory_csv
  parse_trajectory_csv-IsCsvTrajectory filepath none = tt
  parse_trajectory_csv-IsCsvTrajectory filepath (some content) =
      Ensures-bind IsCsvState IsCsvTrajectory (csv_loop N 0 (getlines b'\n' content) (initial N)) _
        (csv_loop-IsCsvState 0 (getlines b'\n' content) (initial N) (record {
          connected = tt;
          widths = tt;
          increasing = tt;
          finite = tt;
          previous = λ t e. none_some e;
          none_before_header = λ _. refl;
        }))
        finish_csv-IsCsvTrajectory
    where
      none_some : {A : Type 0} {t : Double} → none ≡ some t → A
      none_some h = cc

  -- A trajectory that `ParseTrajectoryCsv` returns is played without an exception at every time, and
  -- each state has a position for every motor and names samples in range.
  pub parse_trajectory_csv-evaluate_trajectory :
      (filepath : Bytes) (file : Option Bytes) (t : Trajectory Double Float) (elapsed_s : Double)
      (endless : Bool)
      → parse_trajectory_csv N filepath file ≡ ok t
      → (s : PlaybackState Float) × (evaluate_trajectory N t elapsed_s endless ≡ ok s)
        × IsState N (length t.motor_names) (length t.samples - 1) endless s
  parse_trajectory_csv-evaluate_trajectory filepath file t elapsed_s endless e =
      let valid =
        Ensures-ok IsCsvTrajectory (parse_trajectory_csv N filepath file)
          (parse_trajectory_csv-IsCsvTrajectory filepath file) e in
      evaluate_trajectory-IsState N t elapsed_s endless valid.playable
