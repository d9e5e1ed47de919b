-- ===== src/Command/Table.antt =====
-- cli_command.h and cli_command.cc: the printed table of `scan`.
pub mod Order
use encos_cli.Base.{
  ℕ, Bool, true, false, not, Option, none, some, List, [], ◌∷◌, ◌++◌, map, Bytes, codes,
  if◌then◌else◌,
}
use encos_cli.Base.Int.{ℤ, negsuc, ltb_ℤ, eqb_ℤ}
use encos_cli.Base.Sort.{sort_by}
use encos_cli.Number.{to_string}

pub record ScanMotorRow : Type 0 where
  pub slave_id : Option ℤ
  pub bus_id : ℤ
  pub motor_id : ℤ
  pub eff : Bool
  pub canfd : Bool

abbrev pub format_scan_header : Bytes
format_scan_header = codes "slave\tbus\tid\teff\tcanfd"

abbrev pub slave_text : Option ℤ → Bytes
slave_text none = []
slave_text (some s) = to_string s

abbrev pub bit_text : Bool → Bytes
bit_text b = if b then codes "1" else codes "0"

unfoldable pub format_scan_motor_row : ScanMotorRow → Bytes
format_scan_motor_row r =
    slave_text r.slave_id
    ++ (b'\t'
        ∷ (to_string r.bus_id
            ++ (b'\t'
                ∷ (to_string r.motor_id
                    ++ (b'\t' ∷ (bit_text r.eff ++ (b'\t' ∷ bit_text r.canfd)))))))

-- The rows, each with a line end.
unfoldable pub format_rows : List Bytes → Bytes
format_rows [] = []
format_rows (row ∷ rows) = row ++ (b'\n' ∷ format_rows rows)

unfoldable pub format_scan_table : List Bytes → Bytes
unfolding format_rows
format_scan_table rows = format_scan_header ++ (b'\n' ∷ format_rows rows)

-- `slave_id.value_or(-1)`.
abbrev pub slave_key : ScanMotorRow → ℤ
slave_key r = elim r.slave_id [ none ↦ negsuc 0 | some s ↦ s ]

-- The comparison that `std::sort` is given.
unfoldable pub row_less : ScanMotorRow → ScanMotorRow → Bool
row_less lhs rhs =
    if not (eqb_ℤ (slave_key lhs) (slave_key rhs))
    then ltb_ℤ (slave_key lhs) (slave_key rhs)
    else if not (eqb_ℤ lhs.bus_id rhs.bus_id)
    then ltb_ℤ lhs.bus_id rhs.bus_id
    else ltb_ℤ lhs.motor_id rhs.motor_id

unfoldable pub format_sorted_scan_table : List ScanMotorRow → Bytes
unfolding format_scan_table
format_sorted_scan_table rows =
    format_scan_table (map format_scan_motor_row (sort_by row_less rows))
