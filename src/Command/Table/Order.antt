-- ===== src/Command/Table/Order.antt =====
-- The order of the rows in the table of `scan`.
use encos_cli.Base.{
  ℕ, ◌≡◌, ◌+◌, ◌&&◌, refl, ap, Bool, true, false, not, List, map, arith, if◌then◌else◌, ltb, leb,
}
use encos_cli.Base.Int.{pos_part, neg_part}
use encos_cli.Base.Sort.{sort_by, IsSorted, sort_by-perm, sort_by-IsSorted}
use encos_cli.Command.Table.{
  ScanMotorRow, slave_key, row_less, format_scan_motor_row, format_scan_table,
  format_sorted_scan_table,
}
use mathlib.Core.List.{Perm}

row_less-asym : (a b : ScanMotorRow) → row_less a b ≡ true → row_less b a ≡ false
unfolding row_less
row_less-asym a b = ground arith

-- The three comparisons as one, over the signed parts of the keys: `x`, `y` and `z` are the
-- slave, the bus and the motor, a number for each sign.
abbrev lex_less : ℕ → ℕ → ℕ → ℕ → ℕ → ℕ → ℕ → ℕ → ℕ → ℕ → ℕ → ℕ → Bool
lex_less xp xn yp yn zp zn xp' xn' yp' yn' zp' zn' =
    if not (leb (xp + xn') (xp' + xn) && leb (xp' + xn) (xp + xn'))
    then ltb (xp + xn') (xp' + xn)
    else if not (leb (yp + yn') (yp' + yn) && leb (yp' + yn) (yp + yn'))
    then ltb (yp + yn') (yp' + yn)
    else ltb (zp + zn') (zp' + zn)

lex_less_trans :
    (ap an bp bn cp cn ap' an' bp' bn' cp' cn' ap'' an'' bp'' bn'' cp'' cn'' : ℕ)
    → lex_less ap' an' bp' bn' cp' cn' ap an bp bn cp cn ≡ false
    → lex_less ap'' an'' bp'' bn'' cp'' cn'' ap' an' bp' bn' cp' cn' ≡ false
    → lex_less ap'' an'' bp'' bn'' cp'' cn'' ap an bp bn cp cn ≡ false
lex_less_trans ap an bp bn cp cn ap' an' bp' bn' cp' cn' ap'' an'' bp'' bn'' cp'' cn'' h k =
    ground arith

-- The order is transitive, also through rows that compare equal.
pub row_less_trans :
    (a b c : ScanMotorRow) → row_less b a ≡ false → row_less c b ≡ false → row_less c a ≡ false
unfolding row_less
row_less_trans a b c h k =
    lex_less_trans (pos_part (slave_key a)) (neg_part (slave_key a)) (pos_part a.bus_id)
      (neg_part a.bus_id) (pos_part a.motor_id) (neg_part a.motor_id) (pos_part (slave_key b))
      (neg_part (slave_key b)) (pos_part b.bus_id) (neg_part b.bus_id) (pos_part b.motor_id)
      (neg_part b.motor_id) (pos_part (slave_key c)) (neg_part (slave_key c)) (pos_part c.bus_id)
      (neg_part c.bus_id) (pos_part c.motor_id) (neg_part c.motor_id) h k

-- Two rows compare equal only if they agree in slave (a missing one counts as -1), bus and motor.
pub row_less_total :
    (a b : ScanMotorRow)
    → row_less a b ≡ false
    → row_less b a ≡ false
    → (slave_key a ≡ slave_key b) × (a.bus_id ≡ b.bus_id) × (a.motor_id ≡ b.motor_id)
unfolding row_less
row_less_total a b = ground arith

-- The table has a line for each row that was found, in the order of slave, bus and motor.
pub format_sorted_scan_table-IsSorted :
    (rows : List ScanMotorRow)
    → (sorted : List ScanMotorRow) × Perm sorted rows
      × IsSorted row_less sorted
      × (format_sorted_scan_table rows ≡ format_scan_table (map format_scan_motor_row sorted))
unfolding format_sorted_scan_table
format_sorted_scan_table-IsSorted rows = (
  sort_by row_less rows,
  sort_by-perm row_less rows,
  sort_by-IsSorted row_less row_less-asym rows,
  refl,
)
