-- ===== src/Target/Integer.antt =====
-- cli_command.cc: `ParseInteger`, `ParseInt32` and `ParseUint16`.
use encos_cli.Base.{
  ℕ, Bool, false, ◌&&◌, ◌||◌, [], ◌∷◌, Bytes, String, ◌<>◌, ◌==◌, if◌then◌else◌, drop, is_empty,
  Result, ok, err, runtime_error, invalid_argument, out_of_range, ◌>>=◌, ◌>>◌, throw_if,
}
use encos_cli.Base.Int.{ℤ, pos, ltb_ℤ, max_int32, to_int32, to_uint16}
use encos_cli.Number.{stoll}

abbrev pub starts_with_minus : Bytes → Bool
starts_with_minus [] = false
starts_with_minus (c ∷ s) = c == b'-'

-- The base and the place where the digits begin.
unfoldable pub radix : Bytes → ℕ × ℕ
radix (z ∷ x ∷ d ∷ s) =
    if z == b'0' && (x == b'x' || x == b'X')
    then (16, 2)
    else if z == b'0' && (x == b'b' || x == b'B')
    then (2, 2)
    else (10, 0)
radix value = (10, 0)

-- The body of the `try` block and its two handlers.
unfoldable pub convert : Result (ℤ × Bytes) → Bytes → String → Result ℤ
convert (ok (parsed, [])) value field = ok parsed
convert (ok (parsed, _ ∷ _)) value field =
    err (runtime_error (field <> " contains invalid characters") value)
convert (err invalid_argument) value field =
    err (runtime_error (field <> " is not a valid integer") value)
convert (err out_of_range) value field = err (runtime_error (field <> " is out of range") value)
convert (err (runtime_error m v)) value field = err (runtime_error m v)

unfoldable pub parse_integer : Bytes → String → Result ℤ
unfolding radix convert
parse_integer value field = do
  throw_if (is_empty value) (runtime_error (field <> " must not be empty") [])
  throw_if (starts_with_minus value) (runtime_error (field <> " must be non-negative") value)
  let (base, parse_start) = radix value
  throw_if (is_empty (drop parse_start value)) (runtime_error (field <> " has no digits") value)
  convert (stoll base (drop parse_start value)) value field

unfoldable pub parse_int32 : Bytes → String → Result ℤ
parse_int32 value field = do
  parsed ← parse_integer value field
  throw_if (ltb_ℤ (pos max_int32) parsed) (runtime_error (field <> " is out of range") value)
  ok (to_int32 parsed)

unfoldable pub parse_uint16 : Bytes → String → Result ℕ
parse_uint16 value field = do
  parsed ← parse_integer value field
  throw_if (ltb_ℤ (pos 65535) parsed) (runtime_error (field <> " is out of range") value)
  ok (to_uint16 parsed)
