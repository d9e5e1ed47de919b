-- ===== src/Target/Motor.antt =====
-- cli_command.h and cli_command.cc: the targets of motor, scan, sensor, PMS and glove commands.
use encos_cli.Base.{
  ℕ, ◌+◌, Bool, not, ◌&&◌, Option, none, some, List, [], ◌∷◌, Bytes, ◌=:◌, leb, ◌==◌, if◌then◌else◌,
  has_empty, Result, ok, err, runtime_error, ◌>>=◌, ◌>>◌, throw_if,
}
use encos_cli.Base.Int.{ℤ}
use encos_cli.Target.Split.{split_colon_separated}
use encos_cli.Target.Integer.{parse_int32, parse_uint16}

pub data TargetScope : Type 0 where
  single_motor adapter_all_motors bus_all_motors slave_bus_all_motors : TargetScope

pub record MotorTarget : Type 0 where
  pub scope : TargetScope
  pub adapter_type : Bytes
  pub adapter_id : Bytes
  pub slave_id : Option ℤ
  pub bus_id : Option ℤ
  pub motor_id : Option ℕ

pub record ScanTarget : Type 0 where
  pub adapter_type : Bytes
  pub adapter_id : Bytes
  pub slave_id : Option ℤ
  pub bus_id : Option ℤ

pub record SensorTarget : Type 0 where
  pub adapter_type : Bytes
  pub adapter_id : Bytes
  pub slave_id : Option ℤ
  pub bus_id : ℤ
  pub device_idx : ℕ

pub record PmsTarget : Type 0 where
  pub adapter_type : Bytes
  pub adapter_id : Bytes
  pub slave_id : Option ℤ
  pub bus_id : ℤ

pub record GloveTarget : Type 0 where
  pub adapter_type : Bytes
  pub adapter_id : Bytes
  pub slave_id : ℤ

count_colons : Bytes → ℕ
count_colons [] = 0
count_colons (c ∷ s) = (if c == b':' then 1 else 0) + count_colons s

unfoldable pub looks_like_motor_target : Bytes → Bool
unfolding count_colons
looks_like_motor_target value = leb 2 (count_colons value) && leb (count_colons value) 4

-- The loop that refuses an empty part.
abbrev pub require_parts : Bytes → List Bytes → Result (Unit {0})
require_parts value parts =
    throw_if (has_empty parts)
      (runtime_error "Invalid target, target parts must not be empty" value)

-- `Type:Id:<all>`
unfoldable pub motor_target_three : Bytes → Bytes → Bytes → Bytes → Result MotorTarget
motor_target_three value type id all =
    if not (all =: "ALL")
    then err (runtime_error "Invalid target, expected AdapterType:AdapterId:ALL" value)
    else ok (record {
      scope = TargetScope.adapter_all_motors;
      adapter_type = type;
      adapter_id = id;
      slave_id = none;
      bus_id = none;
      motor_id = none;
    })

-- `Type:Id:<bus>:<last>`
unfoldable pub motor_target_four : Bytes → Bytes → Bytes → Bytes → Result MotorTarget
motor_target_four type id bus last = do
  b ← parse_int32 bus "BusId"
  let target : MotorTarget = record {
    scope = TargetScope.bus_all_motors;
    adapter_type = type;
    adapter_id = id;
    slave_id = none;
    bus_id = some b;
    motor_id = none;
  }
  let single = do
    m ← parse_uint16 last "MotorId"
    ok (record target { scope = TargetScope.single_motor; motor_id = some m })
  if last =: "ALL" then ok target else single

-- `Type:Id:<slave>:<bus>:<last>`
unfoldable pub motor_target_five : Bytes → Bytes → Bytes → Bytes → Bytes → Result MotorTarget
motor_target_five type id slave bus last = do
  s ← parse_int32 slave "SlaveId"
  b ← parse_int32 bus "BusId"
  let target : MotorTarget = record {
    scope = TargetScope.slave_bus_all_motors;
    adapter_type = type;
    adapter_id = id;
    slave_id = some s;
    bus_id = some b;
    motor_id = none;
  }
  let single = do
    m ← parse_uint16 last "MotorId"
    ok (record target { scope = TargetScope.single_motor; motor_id = some m })
  if last =: "ALL" then ok target else single

-- What `ParseMotorTarget` does with the parts.
unfoldable pub motor_target_of : Bytes → List Bytes → Result MotorTarget
unfolding motor_target_three motor_target_four motor_target_five
motor_target_of value (type ∷ id ∷ a ∷ []) = do
  require_parts value (type ∷ id ∷ a ∷ [])
  motor_target_three value type id a
motor_target_of value (type ∷ id ∷ a ∷ b ∷ []) = do
  require_parts value (type ∷ id ∷ a ∷ b ∷ [])
  motor_target_four type id a b
motor_target_of value (type ∷ id ∷ a ∷ b ∷ c ∷ []) = do
  require_parts value (type ∷ id ∷ a ∷ b ∷ c ∷ [])
  motor_target_five type id a b c
motor_target_of value _ =
    err (runtime_error "Invalid target, expected AdapterType:AdapterId:ALL or a longer form" value)

unfoldable pub parse_motor_target : Bytes → Result MotorTarget
unfolding motor_target_of
parse_motor_target value = do parts ← split_colon_separated value; motor_target_of value parts

unfoldable pub scan_target_of : Bytes → List Bytes → Result ScanTarget
scan_target_of value (type ∷ []) = do
  require_parts value (type ∷ [])
  ok (record { adapter_type = type; adapter_id = []; slave_id = none; bus_id = none })
scan_target_of value (type ∷ id ∷ []) = do
  require_parts value (type ∷ id ∷ [])
  ok (record { adapter_type = type; adapter_id = id; slave_id = none; bus_id = none })
scan_target_of value (type ∷ id ∷ bus ∷ []) = do
  require_parts value (type ∷ id ∷ bus ∷ [])
  b ← parse_int32 bus "BusId"
  ok (record { adapter_type = type; adapter_id = id; slave_id = none; bus_id = some b })
scan_target_of value (type ∷ id ∷ slave ∷ bus ∷ []) = do
  require_parts value (type ∷ id ∷ slave ∷ bus ∷ [])
  s ← parse_int32 slave "SlaveId"
  b ← parse_int32 bus "BusId"
  ok (record { adapter_type = type; adapter_id = id; slave_id = some s; bus_id = some b })
scan_target_of value _ =
    err (runtime_error "Invalid scan target, expected AdapterType or a longer form" value)

unfoldable pub parse_scan_target : Bytes → Result ScanTarget
unfolding scan_target_of
parse_scan_target value = do parts ← split_colon_separated value; scan_target_of value parts

abbrev invalid_sensor : Bytes → Result SensorTarget
invalid_sensor value =
    err (runtime_error "Invalid sensor target, expected AdapterType:AdapterId:BusId:Idx" value)

-- `target.scope == SingleMotor`, with the two optional values that it reads.
unfoldable pub sensor_target_of :
    Bytes → MotorTarget → TargetScope → Option ℤ → Option ℕ → Result SensorTarget
sensor_target_of value t TargetScope.single_motor (some bus) (some idx) = ok (record {
  adapter_type = t.adapter_type;
  adapter_id = t.adapter_id;
  slave_id = t.slave_id;
  bus_id = bus;
  device_idx = idx;
})
sensor_target_of value t _ _ _ = invalid_sensor value

unfoldable pub parse_sensor_target : Bytes → Result SensorTarget
unfolding sensor_target_of
parse_sensor_target value = do
  t ← parse_motor_target value
  sensor_target_of value t t.scope t.bus_id t.motor_id

unfoldable pub pms_target_of : Bytes → ScanTarget → Option ℤ → Result PmsTarget
pms_target_of value t none =
    err (runtime_error "Invalid PMS target, expected AdapterType:AdapterId:BusId" value)
pms_target_of value t (some bus) = ok (record {
  adapter_type = t.adapter_type;
  adapter_id = t.adapter_id;
  slave_id = t.slave_id;
  bus_id = bus;
})

unfoldable pub parse_pms_target : Bytes → Result PmsTarget
unfolding pms_target_of
parse_pms_target value = do t ← parse_scan_target value; pms_target_of value t t.bus_id

unfoldable pub glove_target_of : Bytes → List Bytes → Result GloveTarget
glove_target_of value (type ∷ id ∷ slave ∷ []) = do
  require_parts value (type ∷ id ∷ slave ∷ [])
  s ← parse_int32 slave "SlaveId"
  ok (record { adapter_type = type; adapter_id = id; slave_id = s })
glove_target_of value _ =
    err (runtime_error "Invalid glove target, expected AdapterType:AdapterId:SlaveId" value)

unfoldable pub parse_glove_target : Bytes → Result GloveTarget
unfolding glove_target_of
parse_glove_target value = do parts ← split_colon_separated value; glove_target_of value parts
