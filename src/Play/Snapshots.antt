-- ===== src/Play/Snapshots.antt =====
-- src/cli/play.cc and src/cli/play.h: the snapshots of the motors, and the order of the live table.
pub mod Laws
use encos_cli.Base.{
  ℕ, ◌-◌, Bool, true, false, not, ◌&&◌, Option, none, some, List, [], ◌∷◌, ◌++◌, Bytes, ltb, ◌==◌,
  if◌then◌else◌,
}
use encos_cli.Base.Int.{ℤ, pos, ltb_ℤ}
use encos_cli.Base.Sort.{sort_by}

-- `encos::MotorError` of the driver, with the names that the code knows.
pub data MotorError : Type 0 where
  output_encoder_error : MotorError
  fet_over_temperature : MotorError
  over_speed : MotorError
  temperature_warning : MotorError
  no_error : MotorError
  over_temperature : MotorError
  over_current : MotorError
  voltage_high : MotorError
  voltage_low : MotorError
  encoder_error : MotorError
  brake_voltage_high : MotorError
  driver_error : MotorError
  over_temperature_warning : MotorError
  no_response : MotorError
  unknown_error : ℕ → MotorError

pub data PlaySortColumn : Type 0 where
  by_adapter : PlaySortColumn
  by_slave : PlaySortColumn
  by_bus : PlaySortColumn
  by_id : PlaySortColumn
  by_position : PlaySortColumn
  by_speed : PlaySortColumn
  by_current : PlaySortColumn
  by_torque : PlaySortColumn
  by_motor_temperature : PlaySortColumn
  by_mos_temperature : PlaySortColumn
  by_sent : PlaySortColumn
  by_received : PlaySortColumn
  by_loss : PlaySortColumn
  by_loss3s : PlaySortColumn
  by_error : PlaySortColumn

pub record PlayMotorSnapshot (Float : Type 0) : Type 0 where
  pub name : Bytes
  pub adapter_type : Bytes
  pub adapter_id : Bytes
  pub slave_id : Option ℤ
  pub bus_id : ℤ
  pub motor_id : ℤ
  pub position_rad : Float
  pub speed_rad_s : Float
  pub current_a : Float
  pub torque_nm : Float
  pub motor_temperature_c : Float
  pub mos_temperature_c : Float
  pub error : MotorError
  pub sent : ℕ
  pub received : ℕ
  pub window_sent : ℕ
  pub window_received : ℕ

-- What the comparisons ask of floating point and of the driver: `quotient` is the division of two
-- `uint64_t` as `double`, `code` the number of an error.
pub record Comparisons (Float : Type 0) : Type 1 where
  pub Double : Type 0
  pub is_nan : Float → Bool
  pub less_float : Float → Float → Bool
  pub zero_loss : Double
  pub quotient : ℕ → ℕ → Double
  pub less_double : Double → Double → Bool
  pub code : MotorError → ℕ

-- The results -1, 0 and 1 of a comparison.
pub data Comparison : Type 0 where
  before : Comparison
  same : Comparison
  after : Comparison

-- From `lhs < rhs` and `rhs < lhs`.
abbrev pub comparison : Bool → Bool → Comparison
comparison less greater = if less then before else if greater then after else same

-- `operator<` of `std::string`.
unfoldable pub bytes_less : Bytes → Bytes → Bool
bytes_less a [] = false
bytes_less [] (y ∷ b) = true
bytes_less (x ∷ a) (y ∷ b) =
    let rest = bytes_less a b in if ltb x y then true else if ltb y x then false else rest

-- `operator<` of `std::optional<int32_t>`.
abbrev pub option_less : Option ℤ → Option ℤ → Bool
option_less a none = false
option_less none (some y) = true
option_less (some x) (some y) = ltb_ℤ x y

abbrev pub slave_or_zero : Option ℤ → ℤ
slave_or_zero none = pos 0
slave_or_zero (some s) = s

-- A part of `operator<` of a tuple: this element, and the rest when it decides nothing.
abbrev pub lexicographic : Bool → Bool → Bool → Bool
lexicographic less greater rest = if less then true else if greater then false else rest

-- The result for a direction; `identity` decides when the column does not.
abbrev pub directed : Bool → Comparison → Bool → Bool
directed ascending before identity = ascending
directed ascending same identity = identity
directed ascending after identity = not ascending

module _ {F : Type 0} where
  -- `identity(lhs) < identity(rhs)`.
  unfoldable pub identity_less : PlayMotorSnapshot F → PlayMotorSnapshot F → Bool
  unfolding bytes_less
  identity_less l r =
      lexicographic (bytes_less l.adapter_type r.adapter_type)
        (bytes_less r.adapter_type l.adapter_type)
        (lexicographic (bytes_less l.adapter_id r.adapter_id) (bytes_less r.adapter_id l.adapter_id)
          (lexicographic (option_less l.slave_id r.slave_id) (option_less r.slave_id l.slave_id) (
            lexicographic (ltb_ℤ l.bus_id r.bus_id) (ltb_ℤ r.bus_id l.bus_id) (
              lexicographic (ltb_ℤ l.motor_id r.motor_id) (ltb_ℤ r.motor_id l.motor_id)
                (bytes_less l.name r.name)))))

  unfoldable pub float_value : PlaySortColumn → PlayMotorSnapshot F → Option F
  float_value by_position s = some s.position_rad
  float_value by_speed s = some s.speed_rad_s
  float_value by_current s = some s.current_a
  float_value by_torque s = some s.torque_nm
  float_value by_motor_temperature s = some s.motor_temperature_c
  float_value by_mos_temperature s = some s.mos_temperature_c
  float_value _ s = none

  abbrev pub adapter_text : PlayMotorSnapshot F → Bytes
  adapter_text s = s.adapter_type ++ (b':' ∷ s.adapter_id)

module _ {F : Type 0} (C : Comparisons F) where
  open C use {Double, is_nan, less_float, zero_loss, quotient, less_double, code}

  unfoldable pub compare_float : F → F → Comparison
  compare_float l r =
      let l_nan = is_nan l in
      let r_nan = is_nan r in
      if l_nan && not r_nan
      then after
      else if not l_nan && r_nan
      then before
      else comparison (less_float l r) (less_float r l)

  abbrev pub loss : ℕ → ℕ → Double
  loss sent received = if sent == 0 then zero_loss else quotient (sent - received) sent

  abbrev compare_loss : ℕ → ℕ → ℕ → ℕ → Comparison
  compare_loss l_sent l_received r_sent r_received =
      let l = loss l_sent l_received in
      let r = loss r_sent r_received in comparison (less_double l r) (less_double r l)

  unfoldable pub compare_primary :
      PlaySortColumn → PlayMotorSnapshot F → PlayMotorSnapshot F → Comparison
  unfolding compare_float bytes_less
  compare_primary by_adapter l r =
      comparison (bytes_less (adapter_text l) (adapter_text r))
        (bytes_less (adapter_text r) (adapter_text l))
  compare_primary by_slave l r =
      comparison (ltb_ℤ (slave_or_zero l.slave_id) (slave_or_zero r.slave_id))
        (ltb_ℤ (slave_or_zero r.slave_id) (slave_or_zero l.slave_id))
  compare_primary by_bus l r = comparison (ltb_ℤ l.bus_id r.bus_id) (ltb_ℤ r.bus_id l.bus_id)
  compare_primary by_id l r = comparison (ltb_ℤ l.motor_id r.motor_id) (ltb_ℤ r.motor_id l.motor_id)
  compare_primary by_position l r = compare_float l.position_rad r.position_rad
  compare_primary by_speed l r = compare_float l.speed_rad_s r.speed_rad_s
  compare_primary by_current l r = compare_float l.current_a r.current_a
  compare_primary by_torque l r = compare_float l.torque_nm r.torque_nm
  compare_primary by_motor_temperature l r =
      compare_float l.motor_temperature_c r.motor_temperature_c
  compare_primary by_mos_temperature l r = compare_float l.mos_temperature_c r.mos_temperature_c
  compare_primary by_sent l r = comparison (ltb l.sent r.sent) (ltb r.sent l.sent)
  compare_primary by_received l r =
      comparison (ltb l.received r.received) (ltb r.received l.received)
  compare_primary by_loss l r = compare_loss l.sent l.received r.sent r.received
  compare_primary by_loss3s l r =
      compare_loss l.window_sent l.window_received r.window_sent r.window_received
  compare_primary by_error l r =
      comparison (ltb (code l.error) (code r.error)) (ltb (code r.error) (code l.error))

  -- Whether the column shows a NaN.
  abbrev pub nan_value : Option F → Bool
  nan_value none = false
  nan_value (some x) = is_nan x

  abbrev pub is_nan_at : PlaySortColumn → PlayMotorSnapshot F → Bool
  is_nan_at column s = nan_value (float_value column s)

  -- The comparison that `std::sort` is given.
  unfoldable pub snapshot_less :
      PlaySortColumn → Bool → PlayMotorSnapshot F → PlayMotorSnapshot F → Bool
  unfolding compare_primary identity_less float_value
  snapshot_less column ascending l r =
      let l_nan = is_nan_at column l in
      let r_nan = is_nan_at column r in
      if l_nan && not r_nan
      then false
      else if not l_nan && r_nan
      then true
      else directed ascending (compare_primary column l r) (identity_less l r)

  unfoldable pub sort_play_motor_snapshots :
      List (PlayMotorSnapshot F) → PlaySortColumn → Bool → List (PlayMotorSnapshot F)
  unfolding snapshot_less
  sort_play_motor_snapshots snapshots column ascending =
      sort_by (snapshot_less column ascending) snapshots
