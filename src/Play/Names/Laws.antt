-- ===== src/Play/Names/Laws.antt =====
-- The name of a held motor is a target.
use encos_cli.Base.{
  ℕ, ◌+◌, ◌*◌, ◌/◌, ◌%◌, ◌^◌, ◌<◌, ◌≡◌, refl, true, false, Option, none, some, append_assoc, Bytes,
  ltb, ok, arith,
}
use encos_cli.Base.Int.{ℤ, pos, negsuc, IsInt32, ◌≤ℤ◌}
use encos_cli.Trajectory.Connection.{parse_motor_connection, format_connection}
use encos_cli.Trajectory.Connection.RoundTrip.{
  IsName, IsSlave, parse_motor_connection-format_connection,
}
use encos_cli.Play.Names.{format_motor_target_prefix, format_bus_prefix, holding_name}

prefix-connection :
    (adapter_type adapter_id : Bytes) (slave : Option ℤ) (bus : ℤ) (motor : ℕ)
    → holding_name (format_motor_target_prefix adapter_type adapter_id slave bus) (pos motor)
      ≡ format_connection (record {
        adapter_type = adapter_type;
        adapter_id = adapter_id;
        slave_id = slave;
        bus_id = bus;
        motor_id = motor;
      })
unfolding holding_name format_motor_target_prefix format_connection
prefix-connection adapter_type adapter_id none bus motor = simp append_assoc
prefix-connection adapter_type adapter_id (some s) bus motor = simp append_assoc

read-column :
    (adapter_type adapter_id : Bytes) (slave : Option ℤ) (bus : ℤ) (motor : ℕ)
    → IsName adapter_type
    → IsName adapter_id
    → IsSlave slave
    → IsInt32 bus
    → motor < 2 ^ 16
    → parse_motor_connection
        (holding_name (format_motor_target_prefix adapter_type adapter_id slave bus) (pos motor))
      ≡ ok (record {
        adapter_type = adapter_type;
        adapter_id = adapter_id;
        slave_id = slave;
        bus_id = bus;
        motor_id = motor;
      })
read-column adapter_type adapter_id slave bus motor ht hi hs hb hm =
    rw (prefix-connection adapter_type adapter_id slave bus motor) (
      parse_motor_connection-format_connection _
        (record { type_named = ht; id_named = hi; slave = hs; bus = hb; motor = hm }))

-- The texts in front of the motors of a bus: that of a column of the trajectory, and those of the
-- buses that an adapter lists, whose number is 65536 times a slave's, which is not zero, and the
-- bus's behind it, or the bus's itself, up to 65535.
pub data IsBusPrefix (key_type key_id : Bytes) (slave : Option ℤ) (bus : ℤ) (prefix : Bytes)
    : Type 0 where
  of_column :
      IsSlave slave
      → IsInt32 bus
      → prefix ≡ format_motor_target_prefix key_type key_id slave bus
      → IsBusPrefix key_type key_id slave bus prefix
  of_slave :
      (s b : ℕ)
      → 0 < s
      → s < 2 ^ 15
      → b < 2 ^ 16
      → slave ≡ some (pos s)
      → bus ≡ pos b
      → prefix ≡ format_bus_prefix key_type key_id (pos (65536 * s + b))
      → IsBusPrefix key_type key_id slave bus prefix
  of_listed :
      IsInt32 bus
      → bus ≤ℤ pos 65535
      → slave ≡ none
      → prefix ≡ format_bus_prefix key_type key_id bus
      → IsBusPrefix key_type key_id slave bus prefix

format_bus_prefix-slave :
    (key_type key_id : Bytes) (s b : ℕ)
    → 0 < s
    → b < 2 ^ 16
    → format_bus_prefix key_type key_id (pos (65536 * s + b))
      ≡ format_motor_target_prefix key_type key_id (some (pos s)) (pos b)
unfolding format_bus_prefix
format_bus_prefix-slave key_type key_id s b hs hb =
    let large : ltb 65535 (65536 * s + b) ≡ true = ground arith in
    let slave : (65536 * s + b) / 65536 ≡ s = omega arith in
    let bus : (65536 * s + b) % 65536 ≡ b = omega arith in rw (large, slave, bus) refl

format_bus_prefix-plain :
    (key_type key_id : Bytes) (bus : ℤ)
    → bus ≤ℤ pos 65535
    → format_bus_prefix key_type key_id bus ≡ format_motor_target_prefix key_type key_id none bus
unfolding format_bus_prefix
format_bus_prefix-plain key_type key_id (negsuc n) h = refl
format_bus_prefix-plain key_type key_id (pos n) h =
    let small : ltb 65535 n ≡ false = ground arith in rw small refl

-- The name that play gives to a motor which no column of the trajectory names is a motor target,
-- whether the bus is one of a column, one of a slave or a plain one: reading it as a column gives the
-- adapter, the slave and the bus that the text in front of it stands for, and the motor. The
-- adapter's type and id are not empty and have no colon, the numbers of the slave and the bus are
-- int32_t, a slave packed in an adapter's number of a bus is below 2^15, and the motor's number is a
-- uint16_t.
pub parse_motor_connection-holding_name :
    (key_type key_id : Bytes) (slave : Option ℤ) (bus : ℤ) (prefix : Bytes) (motor : ℕ)
    → IsName key_type
    → IsName key_id
    → IsBusPrefix key_type key_id slave bus prefix
    → motor < 2 ^ 16
    → parse_motor_connection (holding_name prefix (pos motor))
      ≡ ok (record {
        adapter_type = key_type;
        adapter_id = key_id;
        slave_id = slave;
        bus_id = bus;
        motor_id = motor;
      })
parse_motor_connection-holding_name key_type key_id slave bus prefix motor ht hi (of_column hs hb e)
      hm =
    rw e (read-column key_type key_id slave bus motor ht hi hs hb hm)
parse_motor_connection-holding_name key_type key_id slave bus prefix motor ht hi
      (of_slave s b p hs hb es eb e) hm =
    rw (es, eb, e, format_bus_prefix-slave key_type key_id s b p hb)
      (read-column key_type key_id (some (pos s)) (pos b) motor ht hi (omega arith, omega arith)
        (omega arith, omega arith) hm)
parse_motor_connection-holding_name key_type key_id slave bus prefix motor ht hi
      (of_listed hb small es e) hm =
    rw (es, e, format_bus_prefix-plain key_type key_id bus small)
      (read-column key_type key_id none bus motor ht hi tt hb hm)
