-- ===== src/AdapterUtils.antt =====
-- src/cli/adapter_cli_utils.h and src/cli/adapter_cli_utils.cc: the CAN timing options that
-- stand among the other arguments of a command.
pub mod Laws
use encos_cli.Base.{
  Error, ◌++◌, ℕ, Bool, true, false, not, ◌&&◌, ◌||◌, Option, none, some, List, [], ◌∷◌, Bytes,
  codes, ◌=:◌, String, up_to, behind, is_empty, if◌then◌else◌, Result, ok, err, runtime_error,
  ◌>>=◌, ◌>>◌, throw_if, arith, ◌≡◌, refl,
}
use encos_cli.Base.Int.{ℤ, pos, negsuc, ltb_ℤ}
use encos_cli.Number.{stoi}

-- The `double` of the sample points.
pub record Doubles : Type 1 where
  pub Double : Type 0
  pub zero_point : Double
  pub one_point : Double
  pub lt : Double → Double → Bool
  pub le : Double → Double → Bool
  pub stod : Bytes → Result (Double × Bytes)

abbrev complete {ℓ} : {A : Type ℓ} → Error → Result (A × Bytes) → Result A
complete e (ok (a, [])) = ok a
complete e (ok (a, c ∷ rest)) = err e
complete e (err _) = err e

unfoldable pub parse_timing_int : Bytes → Bytes → Result ℤ
parse_timing_int option value =
    complete (runtime_error "Invalid integer for option" (option ++ value)) (stoi 10 value)

unfoldable pub is_adapter_timing_option : Bytes → Bool
is_adapter_timing_option argument =
    argument =: "--bitrate"
    || argument =: "--dbitrate"
    || argument =: "--sample-point"
    || argument =: "--dsample-point"

module _ (D : Doubles) where
  open D use {Double, zero_point, one_point, lt, le, stod}

  pub record AdapterTimingOptions : Type 0 where
    pub bitrate : Option ℤ
    pub dbitrate : Option ℤ
    pub sample_point : Option Double
    pub dsample_point : Option Double

  unfoldable pub parse_timing_double : Bytes → Bytes → Result Double
  parse_timing_double option value =
      complete (runtime_error "Invalid number for option" (option ++ value)) (stod value)

  abbrev pub is_given {ℓ} : {A : Type ℓ} → Option A → Bool
  is_given none = false
  is_given (some a) = true

  abbrev duplicate : Bytes → Error
  duplicate option = runtime_error "Duplicate option" option

  unfoldable pub assign_timing_option :
      Bytes → Bytes → AdapterTimingOptions → Result AdapterTimingOptions
  unfolding parse_timing_int parse_timing_double
  assign_timing_option option value options =
      if option =: "--bitrate"
      then (do
        throw_if (is_given options.bitrate) (duplicate option)
        n ← parse_timing_int option value
        ok (record options { bitrate = some n }))
      else if option =: "--dbitrate"
      then (do
        throw_if (is_given options.dbitrate) (duplicate option)
        n ← parse_timing_int option value
        ok (record options { dbitrate = some n }))
      else if option =: "--sample-point"
      then (do
        throw_if (is_given options.sample_point) (duplicate option)
        x ← parse_timing_double option value
        ok (record options { sample_point = some x }))
      else (do
        throw_if (is_given options.dsample_point) (duplicate option)
        x ← parse_timing_double option value
        ok (record options { dsample_point = some x }))

  abbrev pub is_positive : Option ℤ → Bool
  is_positive none = true
  is_positive (some n) = ltb_ℤ (pos 0) n

  abbrev pub is_sample_point : Option Double → Bool
  is_sample_point none = true
  is_sample_point (some x) = lt zero_point x && le x one_point

  unfoldable pub validate : AdapterTimingOptions → Result (Unit {0})
  validate options = do
    throw_if (not (is_positive options.bitrate))
        (runtime_error "must be a positive bitrate in bit/s" (codes "--bitrate"))
    throw_if (not (is_positive options.dbitrate))
        (runtime_error "must be a positive bitrate in bit/s" (codes "--dbitrate"))
    throw_if (not (is_sample_point options.sample_point))
        (runtime_error "must be a sample point in (0, 1]" (codes "--sample-point"))
    throw_if (not (is_sample_point options.dsample_point))
        (runtime_error "must be a sample point in (0, 1]" (codes "--dsample-point"))

  unfoldable pub empty : AdapterTimingOptions → Bool
  empty options =
      not (is_given options.bitrate)
      && not (is_given options.dbitrate)
      && not (is_given options.sample_point)
      && not (is_given options.dsample_point)

  abbrev pub or_else {ℓ} : {A : Type ℓ} → Option A → Option A → Option A
  or_else none b = b
  or_else (some a) b = some a

  unfoldable pub fill_missing_from :
      AdapterTimingOptions → AdapterTimingOptions → AdapterTimingOptions
  fill_missing_from options other = record {
    bitrate = or_else options.bitrate other.bitrate;
    dbitrate = or_else options.dbitrate other.dbitrate;
    sample_point = or_else options.sample_point other.sample_point;
    dsample_point = or_else options.dsample_point other.dsample_point;
  }

  abbrev pub no_options : AdapterTimingOptions
  no_options = record { bitrate = none; dbitrate = none; sample_point = none; dsample_point = none }

  abbrev pub Stripped : Type 0
  Stripped = List Bytes × AdapterTimingOptions

  abbrev pub keep : Bytes → Stripped → Result Stripped
  keep argument (remaining, options) = ok (argument ∷ remaining, options)

  abbrev pub choose :
      Bool
      → Option Bytes
      → Result Stripped
      → Result Stripped
      → (Bytes → Result Stripped)
      → Result Stripped
  choose false value other next inline = other
  choose true none other next inline = next
  choose true (some value) other next inline = inline value

  -- A round of the loop over the arguments, with the rounds that go on at the next argument and
  -- behind it. A timing option takes the text behind its `=` as its value, or else the next argument.
  unfoldable pub strip_round :
      Bytes
      → Bytes
      → AdapterTimingOptions
      → (AdapterTimingOptions → Result Stripped)
      → (AdapterTimingOptions → Result Stripped)
      → Result Stripped
  unfolding assign_timing_option
  strip_round argument next options at_next behind_next =
      choose (is_adapter_timing_option (up_to b'=' argument)) (behind b'=' argument)
        (at_next options >>= keep argument)
        (assign_timing_option (up_to b'=' argument) next options >>= behind_next)
        (λ value. assign_timing_option (up_to b'=' argument) value options >>= at_next)

  unfoldable pub strip_loop : List Bytes → AdapterTimingOptions → Result Stripped
  unfolding strip_round assign_timing_option
  strip_loop [] options = ok ([], options)
  strip_loop (argument ∷ []) options =
      if is_adapter_timing_option (up_to b'=' argument)
      then elim (behind b'=' argument) [
        | none ↦ err (runtime_error "Missing value for option" argument)
        | some value ↦ do o ← assign_timing_option (up_to b'=' argument) value options; ok ([], o)
      ]
      else ok (argument ∷ [], options)
  strip_loop (argument ∷ next ∷ rest) options =
      strip_round argument next options (strip_loop (next ∷ rest)) (strip_loop rest)

  unfoldable pub strip_adapter_timing_flags : List Bytes → Result Stripped
  unfolding strip_loop validate
  strip_adapter_timing_flags arguments = do
    (remaining, options) ← strip_loop arguments no_options
    validate options
    ok (remaining, options)
