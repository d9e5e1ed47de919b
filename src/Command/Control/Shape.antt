-- ===== src/Command/Control/Shape.antt =====
-- What an accepted `control` command has: a target, and the numbers that its mode wants.
use encos_cli.Base.{
  ℕ, zero, suc, ◌≡◌, ◌⊎◌, inl, inr, refl, ap, Bool, true, false, List, [], ◌∷◌, Bytes, String, ◌=:◌,
  length, Result, ok, err, Ensures, Ensures-bind, Result-cases, arith, Bool-cases, invalid_argument,
  out_of_range, runtime_error,
}
use encos_cli.Base.Floats.{Floats}
use encos_cli.Target.Shape.{IsWellFormed, parse_motor_target-IsWellFormed}
use encos_cli.Command.Flags.{extract_canfd_flag}
use encos_cli.Command.Control.{
  ControlItem, pvt, position, speed, current, torque, stop, brake, StopMode, full, dynamic,
  regenerative, ControlCommand, modify, finite_float, parse_floats, parse_values, value_command,
  brake_command, stop_current, stop_full, stop_command, mode_command, control_command,
  parse_control_command,
}

-- The numbers that each mode takes: their count, by the stop mode for `stop`.
abbrev pub count_of : ControlItem → StopMode → ℕ
count_of pvt m = 5
count_of position m = 3
count_of speed m = 2
count_of current m = 1
count_of torque m = 1
count_of brake m = 0
count_of stop full = 0
count_of stop _ = 1

length-modify {ℓ} :
    {A : Type ℓ} (i : ℕ) (f : A → A) (xs : List A) → length (modify i f xs) ≡ length xs
length-modify i f [] = refl
length-modify zero f (x ∷ xs) = refl
length-modify (suc i) f (x ∷ xs) = ap suc (length-modify i f xs)

module _ (F : Floats) where
  open F use {Float, stof, is_finite, to_radians}

  -- What is kept of each number: the text was read whole, and the number is finite.
  finite_float-Ensures :
      (r : Result (Float × Bytes)) (value : Bytes) (field : String)
      → Ensures (λ v. is_finite v ≡ true) (finite_float F r value field)
  unfolding finite_float
  finite_float-Ensures (ok (parsed, [])) value field = ground arith
  finite_float-Ensures (ok (parsed, c ∷ rest)) value field = tt
  finite_float-Ensures (err invalid_argument) value field = tt
  finite_float-Ensures (err out_of_range) value field = tt
  finite_float-Ensures (err (runtime_error m v)) value field = tt

  parse_floats-Ensures :
      (rest : List Bytes) → Ensures (λ vs. length vs ≡ length rest) (parse_floats F rest)
  unfolding parse_floats
  parse_floats-Ensures [] = refl
  parse_floats-Ensures (a ∷ rest) = ground (arith, parse_floats-Ensures rest)

  parse_values-Ensures :
      (count : ℕ) (rest : List Bytes)
      → Ensures (λ vs. length vs ≡ count) (parse_values F count rest)
  unfolding parse_values
  parse_values-Ensures count rest = ground (arith, parse_floats-Ensures rest)

  pub record IsControl (c : ControlCommand Float) : Type 0 where
    pub target : IsWellFormed c.target
    pub counted : length c.values ≡ count_of c.item c.stop_mode

  module _ (c : ControlCommand Float) (w : IsWellFormed c.target) where
    stop_current-IsControl :
        (m : StopMode) (rest : List Bytes)
        → (m ≡ dynamic) ⊎ (m ≡ regenerative)
        → Ensures IsControl (stop_current F c m rest)
    unfolding stop_current
    stop_current-IsControl m [] h = tt
    stop_current-IsControl m (a ∷ []) h = ground arith
    stop_current-IsControl m (a ∷ b ∷ rest) h = tt

    brake_command-IsControl :
        (rest : List Bytes) → c.values ≡ [] → Ensures IsControl (brake_command F c rest)
    unfolding brake_command
    brake_command-IsControl [] e = tt
    brake_command-IsControl (v ∷ []) e = ground arith
    brake_command-IsControl (v ∷ u ∷ rest) e = tt

    stop_command-IsControl :
        (rest : List Bytes) → c.values ≡ [] → Ensures IsControl (stop_command F c rest)
    unfolding stop_command stop_full
    stop_command-IsControl [] e = tt
    stop_command-IsControl (m ∷ rest) e = ground (
      arith,
      full_only rest e,
      stop_current-IsControl dynamic rest (inl refl),
      stop_current-IsControl regenerative rest (inr refl),
    )
      where
        full_only : (rest : List Bytes) → c.values ≡ [] → Ensures IsControl (stop_full F c rest)
        full_only [] e = ground arith
        full_only (a ∷ rest) e = tt

    value_command-IsControl :
        (item : ControlItem) (count : ℕ) (adjust : List Float → List Float) (rest : List Bytes)
        → count ≡ count_of item c.stop_mode
        → ((vs : List Float) → length (adjust vs) ≡ length vs)
        → Ensures IsControl (value_command F c item count adjust rest)
    unfolding value_command
    value_command-IsControl item count adjust rest e same =
        Ensures-bind (λ vs. length vs ≡ count) IsControl (parse_values F count rest) _
          (parse_values-Ensures count rest)
          λ vs n. record { target = w; counted = omega (arith, same vs) }

    mode_command-IsControl :
        (mode : Bytes) (rest : List Bytes)
        → c.values ≡ []
        → Ensures IsControl (mode_command F c mode rest)
    unfolding mode_command
    mode_command-IsControl mode rest e = ground (
      arith,
      value_command-IsControl pvt 5 (modify 2 to_radians) rest refl (length-modify 2 to_radians),
      value_command-IsControl position 3 (modify 0 to_radians) rest refl
          (length-modify 0 to_radians),
      value_command-IsControl speed 2 (λ vs. vs) rest refl (λ vs. refl),
      value_command-IsControl current 1 (λ vs. vs) rest refl (λ vs. refl),
      value_command-IsControl torque 1 (λ vs. vs) rest refl (λ vs. refl),
      brake_command-IsControl rest e,
      stop_command-IsControl rest e,
    )

  control_command-IsControl :
      (canfd : Bool) (args : List Bytes) → Ensures IsControl (control_command F canfd args)
  unfolding control_command
  control_command-IsControl canfd [] = tt
  control_command-IsControl canfd (command ∷ []) = tt
  control_command-IsControl canfd (command ∷ mode ∷ []) = tt
  control_command-IsControl canfd (command ∷ mode ∷ target ∷ rest) =
      elim (Bool-cases (command =: "control")) [
        | inl e ↦ rw e (
            Ensures-bind IsWellFormed IsControl _ _ (parse_motor_target-IsWellFormed target) λ t w.
              mode_command-IsControl
                (record {
                  target = t;
                  item = pvt;
                  stop_mode = full;
                  brake_enabled = false;
                  canfd = canfd;
                  values = [];
                })
                w mode rest refl)
        | inr e ↦ rw e tt
      ]

  -- An accepted `control` command has a well-formed target, and exactly the numbers that its mode
  -- takes: five for `pvt`, three for `position`, two for `speed`, one for `current`, `torque` and
  -- the braking stops, none for the full stop and the mechanical brake.
  pub parse_control_command-IsControl :
      (args : List Bytes) → Ensures IsControl (parse_control_command F args)
  unfolding parse_control_command
  parse_control_command-IsControl args = elim (Result-cases (extract_canfd_flag args)) [
    | inl (flags, e) ↦ rw e (control_command-IsControl flags.canfd flags.arguments)
    | inr (error, e) ↦ rw e tt
  ]
