-- ===== src/Bench.antt =====
-- src/cli/bench.h and src/cli/bench.cc: the target of the bench command.
pub mod Laws
use encos_cli.Base.{
  ℕ, Bool, true, false, not, ◌||◌, Option, none, some, List, [], ◌∷◌, Bytes, String, is_empty,
  if◌then◌else◌, Result, Error, ok, err, runtime_error, invalid_argument, out_of_range, ◌>>=◌, ◌>>◌,
  throw_if,
}
use encos_cli.Base.Int.{ℤ, pos, ltb_ℤ}
use encos_cli.Number.{stoi}
use encos_cli.Trajectory.Connection.{split_colon_separated}

pub record BenchTarget : Type 0 where
  pub adapter_type : Bytes
  pub adapter_id : Bytes
  pub bus_id : Option ℤ
  pub motor_id : Option ℤ

abbrev pub invalid_integer : Bytes → Error
invalid_integer value = runtime_error "Invalid integer for a field" value

-- The handler catches `std::invalid_argument` alone: a number above the range of `int` leaves as
-- `std::out_of_range`.
abbrev pub positive : Bytes → Result (ℤ × Bytes) → Result ℤ
positive value (ok (parsed, [])) =
    if ltb_ℤ parsed (pos 0)
    then err (runtime_error "A field must be non-negative" value)
    else ok parsed
positive value (ok (parsed, c ∷ rest)) = err (invalid_integer value)
positive value (err invalid_argument) = err (invalid_integer value)
positive value (err e) = err e

unfoldable pub parse_positive_int : Bytes → Result ℤ
parse_positive_int value = positive value (stoi 10 value)

abbrev pub check_names : Bytes → Bytes → Bytes → Result (Unit {0})
check_names value type id =
    throw_if (is_empty type || is_empty id)
      (runtime_error "Invalid bench target, adapter type and id must not be empty" value)

-- The parts come from the same splitting at colons as in src/csv_parser.cc.
unfoldable pub bench_target_of : Bytes → List Bytes → Result BenchTarget
unfolding parse_positive_int
bench_target_of value (type ∷ id ∷ []) = do
  check_names value type id
  ok (record { adapter_type = type; adapter_id = id; bus_id = none; motor_id = none })
bench_target_of value (type ∷ id ∷ bus ∷ []) = do
  check_names value type id
  b ← parse_positive_int bus
  ok (record { adapter_type = type; adapter_id = id; bus_id = some b; motor_id = none })
bench_target_of value (type ∷ id ∷ bus ∷ motor ∷ []) = do
  check_names value type id
  b ← parse_positive_int bus
  m ← parse_positive_int motor
  ok (record { adapter_type = type; adapter_id = id; bus_id = some b; motor_id = some m })
bench_target_of value _ =
    err
      (runtime_error "Invalid bench target, expected AdapterType:AdapterId or a longer form" value)

unfoldable pub parse_bench_target : Bytes → Result BenchTarget
unfolding bench_target_of
parse_bench_target value = bench_target_of value (split_colon_separated value)
