-- ===== src/Trajectory/Connection.antt =====
-- src/calibration_config.h and src/csv_parser.cc: the motor that a trajectory column names.
pub mod RoundTrip
use encos_cli.Base.{
  ℕ, ◌+◌, Bool, true, false, Option, none, some, List, [], ◌∷◌, ◌++◌, Bytes, ◌==◌, if◌then◌else◌,
  has_empty, Result, ok, err, runtime_error, ◌>>=◌, ◌>>◌, throw_if,
}
use encos_cli.Base.Int.{ℤ, pos, wrap}
use encos_cli.Number.{stoi, stoul, to_string}

pub record MotorConnection : Type 0 where
  pub adapter_type : Bytes
  pub adapter_id : Bytes
  pub slave_id : Option ℤ
  pub bus_id : ℤ
  pub motor_id : ℕ

-- Puts a character in front of the first part.
abbrev pub prepend : ℕ → List Bytes → List Bytes
prepend c [] = (c ∷ []) ∷ []
prepend c (p ∷ ps) = (c ∷ p) ∷ ps

-- The text up to each colon, and the text behind the last one.
unfoldable pub split_colon_separated : Bytes → List Bytes
split_colon_separated [] = [] ∷ []
split_colon_separated (c ∷ s) =
    let rest = split_colon_separated s in if c == b':' then [] ∷ rest else prepend c rest

-- `std::stoi` and `std::stoul` without a position: what follows the number is dropped.
unfoldable pub to_int : Bytes → Result ℤ
to_int s = do (z, _) ← stoi 10 s; ok z

unfoldable pub to_motor_id : Bytes → Result ℕ
to_motor_id s = do (n, _) ← stoul 10 s; ok (wrap 65536 (pos n))

abbrev check_parts : List Bytes → Result (Unit {0})
check_parts parts = throw_if (has_empty parts) (runtime_error "Empty target part" [])

unfoldable pub connection_of : Bytes → List Bytes → Result MotorConnection
unfolding to_int to_motor_id
connection_of target (type ∷ id ∷ bus ∷ motor ∷ []) = do
  check_parts (type ∷ id ∷ bus ∷ motor ∷ [])
  b ← to_int bus
  m ← to_motor_id motor
  ok (record { adapter_type = type; adapter_id = id; slave_id = none; bus_id = b; motor_id = m })
connection_of target (type ∷ id ∷ slave ∷ bus ∷ motor ∷ []) = do
  check_parts (type ∷ id ∷ slave ∷ bus ∷ motor ∷ [])
  s ← to_int slave
  b ← to_int bus
  m ← to_motor_id motor
  ok (record { adapter_type = type; adapter_id = id; slave_id = some s; bus_id = b; motor_id = m })
connection_of target _ =
    err (runtime_error "Invalid motor target, expected AdapterType:AdapterId:BusId:MotorId" target)

unfoldable pub parse_motor_connection : Bytes → Result MotorConnection
unfolding split_colon_separated connection_of
parse_motor_connection target = connection_of target (split_colon_separated target)

abbrev slave_part : Option ℤ → Bytes → Bytes
slave_part none rest = rest
slave_part (some s) rest = b':' ∷ (to_string s ++ rest)

unfoldable pub format_connection : MotorConnection → Bytes
format_connection c =
    c.adapter_type
    ++ (b':'
        ∷ (c.adapter_id
            ++ slave_part c.slave_id
                (b':' ∷ (to_string c.bus_id ++ (b':' ∷ to_string (pos c.motor_id))))))
