-- ===== src/Sending/Config/Laws.antt =====
-- A config command that the parser accepts is carried out without a read out of range.
use encos_cli.Base.{
  ◌≡◌, ◌≢◌, ◌⊎◌, inl, inr, Bool, true, false, List, [], ◌∷◌, Bytes, String, length, Result, ok, err,
  runtime_error, invalid_argument, out_of_range, ◌>>=◌, throw_if, Ensures-ok, arith,
}
use encos_cli.Base.Floats.{Floats}
use encos_cli.Base.Int.{ℤ, pos, ltb_ℤ, to_uint16}
use encos_cli.Target.Integer.{convert, parse_integer, parse_uint16, starts_with_minus, radix}
use encos_cli.Number.{stoll}
use encos_cli.Target.Motor.{TargetScope}
use encos_cli.Command.Config.{
  ConfigItem, id, position, kt, pvt_kp_range, pvt_kd_range, pvt_position_range, pvt_speed_range,
  pvt_torque_range, pvt_current_range, current_pi, speed_pi, position_pd, can_timeout, brake,
  communication_mode, CliCommand, set, parse_cli_command,
}
use encos_cli.Command.Config.Shape.{HasValues, IsConfig, parse_cli_command-IsConfig}
use encos_cli.Sending.{value_at}
use encos_cli.Base.{drop, is_empty, ◌<>◌, ◌>>◌, Bool-cases, ap}
use encos_cli.Sending.Config.{
  ConfigRequest, finite_or_error, parse_float, whole_pair, float_pair, position_value, mode_value,
  set_item_value, set_config_value,
}

-- No read out of range.
abbrev InRange {ℓ} : {A : Type ℓ} → Result A → Type 0
InRange (ok a) = Unit
InRange (err out_of_range) = ⊥
InRange (err invalid_argument) = Unit
InRange (err (runtime_error m v)) = Unit

InRange-bind {ℓ κ} :
    {A : Type ℓ} {B : Type κ} (m : Result A) (f : A → Result B)
    → InRange m
    → ((a : A) → InRange (f a))
    → InRange (m >>= f)
InRange-bind (ok a) f h k = k a
InRange-bind (err out_of_range) f h k = h
InRange-bind (err invalid_argument) f h k = tt
InRange-bind (err (runtime_error m v)) f h k = tt

InRange-throw_if {κ} :
    {B : Type κ} (b : Bool) (m : String) (v : Bytes) (r : Result B)
    → InRange r
    → InRange (throw_if b (runtime_error m v) >>= λ _. r)
InRange-throw_if true m v r h = tt
InRange-throw_if false m v r h = h

InRange-≢ {ℓ} : {A : Type ℓ} (r : Result A) → InRange r → r ≢ err out_of_range
InRange-≢ (ok a) h e = cc
InRange-≢ (err out_of_range) h e = h
InRange-≢ (err invalid_argument) h e = cc
InRange-≢ (err (runtime_error m v)) h e = cc

convert-InRange :
    (r : Result (ℤ × Bytes)) (value : Bytes) (field : String) → InRange (convert r value field)
unfolding convert
convert-InRange (ok (parsed, [])) value field = tt
convert-InRange (ok (parsed, c ∷ rest)) value field = tt
convert-InRange (err invalid_argument) value field = tt
convert-InRange (err out_of_range) value field = tt
convert-InRange (err (runtime_error m v)) value field = tt

parse_integer-InRange : (value : Bytes) (field : String) → InRange (parse_integer value field)
unfolding parse_integer
parse_integer-InRange value field =
    let digits = drop (radix value).1 value in
    let whole = convert (stoll (radix value).0 digits) value field in
    let some_digits : Result ℤ =
      throw_if (is_empty digits) (runtime_error (field <> " has no digits") value) >> whole in
    let not_negative : Result ℤ =
      throw_if (starts_with_minus value) (runtime_error (field <> " must be non-negative") value)
      >> some_digits in
    InRange-throw_if (is_empty value) (field <> " must not be empty") [] not_negative (
      InRange-throw_if (starts_with_minus value) (field <> " must be non-negative") value
        some_digits
        (InRange-throw_if (is_empty digits) (field <> " has no digits") value whole
          (convert-InRange (stoll (radix value).0 digits) value field)))

parse_uint16-InRange : (value : Bytes) (field : String) → InRange (parse_uint16 value field)
unfolding parse_uint16
parse_uint16-InRange value field =
    InRange-bind (parse_integer value field) _ (parse_integer-InRange value field) λ parsed.
      InRange-throw_if (ltb_ℤ (pos 65535) parsed) (field <> " is out of range") value
        (ok (to_uint16 parsed)) tt

module _ (F : Floats) where
  open F use {Float, stof, is_finite}

  finite_or_error-InRange :
      (r : Result (Float × Bytes)) (value : Bytes) (field : String)
      → InRange (finite_or_error F r value field)
  unfolding finite_or_error
  finite_or_error-InRange (ok (parsed, [])) value field = elim (Bool-cases (is_finite parsed)) [
    | inl e ↦ rw e tt
    | inr e ↦ rw e tt
  ]
  finite_or_error-InRange (ok (parsed, c ∷ rest)) value field = tt
  finite_or_error-InRange (err invalid_argument) value field = tt
  finite_or_error-InRange (err out_of_range) value field = tt
  finite_or_error-InRange (err (runtime_error m v)) value field = tt

  parse_float-InRange : (value : Bytes) (field : String) → InRange (parse_float F value field)
  unfolding parse_float
  parse_float-InRange value field = finite_or_error-InRange (stof value) value field

  whole_pair-InRange :
      (item : ConfigItem) (values : List Bytes)
      → length values ≡ 2
      → InRange (whole_pair F item values)
  unfolding whole_pair value_at
  whole_pair-InRange item (a ∷ b ∷ []) h =
      InRange-bind (parse_uint16 a "Min") _ (parse_uint16-InRange a "Min")
        λ low. InRange-bind (parse_uint16 b "Max") _ (parse_uint16-InRange b "Max") λ high. tt
  whole_pair-InRange item _ h = absurd (omega arith)

  float_pair-InRange :
      (item : ConfigItem) (first second : String) (values : List Bytes)
      → length values ≡ 2
      → InRange (float_pair F item first second values)
  unfolding float_pair value_at
  float_pair-InRange item first second (a ∷ b ∷ []) h =
      InRange-bind (parse_float F a first) _ (parse_float-InRange a first)
        λ x. InRange-bind (parse_float F b second) _ (parse_float-InRange b second) λ y. tt
  float_pair-InRange item first second _ h = absurd (omega arith)

  position_value-InRange : (values : List Bytes) → InRange (position_value F values)
  unfolding position_value
  position_value-InRange [] = tt
  position_value-InRange (value ∷ values) =
      InRange-bind (parse_float F value "Position") _ (parse_float-InRange value "Position") λ x. tt

  mode_value-InRange : (value : Bytes) → InRange (mode_value F value)
  unfolding mode_value
  mode_value-InRange value = ground arith

  one_value :
      (f : Bytes → Result (ConfigRequest Float)) (values : List Bytes)
      → ((a : Bytes) → InRange (f a))
      → length values ≡ 1
      → InRange (value_at values 0 >>= f)
  unfolding value_at
  one_value f (a ∷ []) k h = k a
  one_value f _ k h = absurd (omega arith)

  either_one :
      {s t : Bytes} {values : List Bytes}
      → (values ≡ s ∷ []) ⊎ (values ≡ t ∷ [])
      → length values ≡ 1
  either_one (inl e) = ap length e
  either_one (inr e) = ap length e

  one_of_three :
      {s t u : Bytes} {values : List Bytes}
      → (values ≡ s ∷ []) ⊎ ((values ≡ t ∷ []) ⊎ (values ≡ u ∷ []))
      → length values ≡ 1
  one_of_three (inl e) = ap length e
  one_of_three (inr (inl e)) = ap length e
  one_of_three (inr (inr e)) = ap length e

  set_item_value-InRange :
      (item : ConfigItem) (scope : TargetScope) (values : List Bytes)
      → HasValues item set scope values
      → InRange (set_item_value F item values)
  unfolding set_item_value
  set_item_value-InRange id scope values (single, h) =
      one_value _ values
        (λ a. InRange-bind (parse_uint16 a "NewId") _ (parse_uint16-InRange a "NewId") λ n. tt) h
  set_item_value-InRange position scope values h = position_value-InRange values
  set_item_value-InRange kt scope values h = tt
  set_item_value-InRange pvt_kp_range scope values h = whole_pair-InRange pvt_kp_range values h
  set_item_value-InRange pvt_kd_range scope values h = whole_pair-InRange pvt_kd_range values h
  set_item_value-InRange pvt_position_range scope values h =
      float_pair-InRange pvt_position_range "Min" "Max" values h
  set_item_value-InRange pvt_speed_range scope values h =
      float_pair-InRange pvt_speed_range "Min" "Max" values h
  set_item_value-InRange pvt_torque_range scope values h =
      float_pair-InRange pvt_torque_range "Min" "Max" values h
  set_item_value-InRange pvt_current_range scope values h =
      float_pair-InRange pvt_current_range "Min" "Max" values h
  set_item_value-InRange current_pi scope values h =
      float_pair-InRange current_pi "Kp" "Ki" values h
  set_item_value-InRange speed_pi scope values h = float_pair-InRange speed_pi "Kp" "Ki" values h
  set_item_value-InRange position_pd scope values h =
      float_pair-InRange position_pd "Kp" "Kd" values h
  set_item_value-InRange can_timeout scope values h =
      one_value _ values
        (λ a. InRange-bind (parse_uint16 a "Timeout") _ (parse_uint16-InRange a "Timeout") λ n. tt)
        h
  set_item_value-InRange brake scope values h = one_value _ values (λ a. tt) (either_one h)
  set_item_value-InRange communication_mode scope values h =
      one_value (mode_value F) values mode_value-InRange (one_of_three h)

  -- When the parser accepts a config command that sets an item, carrying it out reads no value out of
  -- range: whatever `std::stof` gives, it ends with a request to the motor or with a message.
  pub set_config_value-parse_cli_command :
      (args : List Bytes) (command : CliCommand)
      → parse_cli_command args ≡ ok command
      → command.operation ≡ set
      → set_config_value F command ≢ err out_of_range
  unfolding set_config_value
  set_config_value-parse_cli_command args command e s =
      let good = Ensures-ok IsConfig (parse_cli_command args) (parse_cli_command-IsConfig args) e in
      let values = rw s at good.values in
      InRange-≢ (set_item_value F command.item command.values)
        (set_item_value-InRange command.item command.target.scope command.values values)
