-- ===== src/Target/Shape.antt =====
-- What every accepted target has: named parts, and the identifiers that its scope wants.
use encos_cli.Base.{
  ℕ, ◌^◌, ◌<◌, ◌≡◌, ◌≢◌, false, Option, none, some, List, [], ◌∷◌, Bytes, arith, Ensures,
  Result-cases, has_empty, is_empty, inl, inr,
}
use encos_cli.Base.Int.{ℤ, IsInt32}
use encos_cli.Target.Split.{split_colon_separated}
use encos_cli.Target.IntegerLaws.{parse_int32-Ensures, parse_uint16-Ensures}
use encos_cli.Target.Motor.{
  TargetScope, single_motor, adapter_all_motors, bus_all_motors, slave_bus_all_motors, MotorTarget,
  motor_target_of, motor_target_three, motor_target_four, motor_target_five, parse_motor_target,
}

abbrev IsBus : Option ℤ → Type 0
IsBus none = ⊥
IsBus (some b) = IsInt32 b

abbrev IsMotor : Option ℕ → Type 0
IsMotor none = ⊥
IsMotor (some m) = m < 2 ^ 16

-- The slave is optional in the single-motor form alone.
abbrev pub HasShape : TargetScope → Option ℤ → Option ℤ → Option ℕ → Type 0
HasShape adapter_all_motors slave bus motor = (slave ≡ none) × (bus ≡ none) × (motor ≡ none)
HasShape bus_all_motors slave bus motor = (slave ≡ none) × IsBus bus × (motor ≡ none)
HasShape slave_bus_all_motors slave bus motor = IsBus slave × IsBus bus × (motor ≡ none)
HasShape single_motor none bus motor = IsBus bus × IsMotor motor
HasShape single_motor (some slave) bus motor = IsInt32 slave × IsBus bus × IsMotor motor

pub record IsWellFormed (t : MotorTarget) : Type 0 where
  pub type_named : t.adapter_type ≢ []
  pub id_named : t.adapter_id ≢ []
  pub shape : HasShape t.scope t.slave_id t.bus_id t.motor_id

not_empty : (s : Bytes) → is_empty s ≡ false → s ≢ []
not_empty [] h = cc
not_empty (c ∷ s) h = λ e. cc

motor_target_three-IsWellFormed :
    (value type id all : Bytes)
    → is_empty type ≡ false
    → is_empty id ≡ false
    → Ensures IsWellFormed (motor_target_three value type id all)
unfolding motor_target_three
motor_target_three-IsWellFormed value type id all h k =
    ground (arith, not_empty type h, not_empty id k)

motor_target_four-IsWellFormed :
    (type id bus last : Bytes)
    → is_empty type ≡ false
    → is_empty id ≡ false
    → Ensures IsWellFormed (motor_target_four type id bus last)
unfolding motor_target_four
motor_target_four-IsWellFormed type id bus last h k = ground (
  arith,
  not_empty type h,
  not_empty id k,
  parse_int32-Ensures bus "BusId",
  parse_uint16-Ensures last "MotorId",
)

motor_target_five-IsWellFormed :
    (type id slave bus last : Bytes)
    → is_empty type ≡ false
    → is_empty id ≡ false
    → Ensures IsWellFormed (motor_target_five type id slave bus last)
unfolding motor_target_five
motor_target_five-IsWellFormed type id slave bus last h k = ground (
  arith,
  not_empty type h,
  not_empty id k,
  parse_int32-Ensures slave "SlaveId",
  parse_int32-Ensures bus "BusId",
  parse_uint16-Ensures last "MotorId",
)

motor_target_of-IsWellFormed :
    (value : Bytes) (parts : List Bytes) → Ensures IsWellFormed (motor_target_of value parts)
unfolding motor_target_of has_empty
motor_target_of-IsWellFormed value [] = tt
motor_target_of-IsWellFormed value (type ∷ []) = tt
motor_target_of-IsWellFormed value (type ∷ id ∷ []) = tt
motor_target_of-IsWellFormed value (type ∷ id ∷ a ∷ []) =
    ground (arith, motor_target_three-IsWellFormed value type id a)
motor_target_of-IsWellFormed value (type ∷ id ∷ a ∷ b ∷ []) =
    ground (arith, motor_target_four-IsWellFormed type id a b)
motor_target_of-IsWellFormed value (type ∷ id ∷ a ∷ b ∷ c ∷ []) =
    ground (arith, motor_target_five-IsWellFormed type id a b c)
motor_target_of-IsWellFormed value (type ∷ id ∷ a ∷ b ∷ c ∷ d ∷ rest) = tt

-- A target that is accepted names its adapter, and has exactly the identifiers of its scope, each in
-- the range of its type.
pub parse_motor_target-IsWellFormed :
    (value : Bytes) → Ensures IsWellFormed (parse_motor_target value)
unfolding parse_motor_target
parse_motor_target-IsWellFormed value = elim (Result-cases (split_colon_separated value)) [
  | inl (parts, e) ↦ rw e (motor_target_of-IsWellFormed value parts)
  | inr (error, e) ↦ rw e tt
]
