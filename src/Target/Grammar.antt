-- ===== src/Target/Grammar.antt =====
-- The motor targets that `ParseMotorTarget` accepts and what they stand for.
use encos_cli.Base.{
  ℕ, ◌^◌, ◌<◌, ◌≡◌, ◌≢◌, refl, false, none, some, List, [], ◌∷◌, map, Bytes, codes, ok, arith, All,
  is_empty, has_empty, str_eq, ◌=:◌,
}
use encos_cli.Base.Int.{pos}
use encos_cli.Number.{decimal}
use encos_cli.Number.RoundTrip.{decimal-StartsWithDigit}
use encos_cli.Target.Quoting.{Part, IsPart, spelled, split_colon_separated-spelled}
use encos_cli.Target.IntegerLaws.{parse_int32-decimal, parse_uint16-decimal}
use encos_cli.Target.Motor.{
  single_motor, adapter_all_motors, bus_all_motors, slave_bus_all_motors, MotorTarget,
  motor_target_of, parse_motor_target,
}

-- The five forms of a target, with identifiers in decimal.
pub data Spells : List Bytes → MotorTarget → Type 0 where
  adapter_all :
      (type id : Bytes)
      → type ≢ []
      → id ≢ []
      → Spells (type ∷ id ∷ codes "ALL" ∷ []) (record {
        scope = adapter_all_motors;
        adapter_type = type;
        adapter_id = id;
        slave_id = none;
        bus_id = none;
        motor_id = none;
      })
  bus_all :
      (type id : Bytes) (bus : ℕ)
      → type ≢ []
      → id ≢ []
      → bus < 2 ^ 31
      → Spells (type ∷ id ∷ decimal bus ∷ codes "ALL" ∷ []) (record {
        scope = bus_all_motors;
        adapter_type = type;
        adapter_id = id;
        slave_id = none;
        bus_id = some (pos bus);
        motor_id = none;
      })
  single :
      (type id : Bytes) (bus motor : ℕ)
      → type ≢ []
      → id ≢ []
      → bus < 2 ^ 31
      → motor < 2 ^ 16
      → Spells (type ∷ id ∷ decimal bus ∷ decimal motor ∷ []) (record {
        scope = single_motor;
        adapter_type = type;
        adapter_id = id;
        slave_id = none;
        bus_id = some (pos bus);
        motor_id = some motor;
      })
  slave_bus_all :
      (type id : Bytes) (slave bus : ℕ)
      → type ≢ []
      → id ≢ []
      → slave < 2 ^ 31
      → bus < 2 ^ 31
      → Spells (type ∷ id ∷ decimal slave ∷ decimal bus ∷ codes "ALL" ∷ []) (record {
        scope = slave_bus_all_motors;
        adapter_type = type;
        adapter_id = id;
        slave_id = some (pos slave);
        bus_id = some (pos bus);
        motor_id = none;
      })
  slave_single :
      (type id : Bytes) (slave bus motor : ℕ)
      → type ≢ []
      → id ≢ []
      → slave < 2 ^ 31
      → bus < 2 ^ 31
      → motor < 2 ^ 16
      → Spells (type ∷ id ∷ decimal slave ∷ decimal bus ∷ decimal motor ∷ []) (record {
        scope = single_motor;
        adapter_type = type;
        adapter_id = id;
        slave_id = some (pos slave);
        bus_id = some (pos bus);
        motor_id = some motor;
      })

pub is_empty-decimal : (n : ℕ) → is_empty (decimal n) ≡ false
is_empty-decimal n = let (c, t, e, d) = decimal-StartsWithDigit n in rw e

pub is_all-decimal : (n : ℕ) → (decimal n =: "ALL") ≡ false
is_all-decimal n =
    let (c, t, e, d) = decimal-StartsWithDigit n in rw e (unfold str_eq in ground arith)

pub is_empty-ne : (s : Bytes) → s ≢ [] → is_empty s ≡ false
is_empty-ne [] h = absurd (h refl)
is_empty-ne (c ∷ s) h = refl

motor_target_of-Spells :
    (value : Bytes) {parts : List Bytes} {t : MotorTarget}
    → Spells parts t
    → motor_target_of value parts ≡ ok t
unfolding motor_target_of has_empty
motor_target_of-Spells value (adapter_all type id h k) =
    rw (is_empty-ne type h, is_empty-ne id k) (unfold str_eq in refl)
motor_target_of-Spells value (bus_all type id bus h k b) =
    rw
      (
        is_empty-ne type h,
        is_empty-ne id k,
        is_empty-decimal bus,
        parse_int32-decimal bus "BusId" b,
      )
      (unfold str_eq in refl)
motor_target_of-Spells value (single type id bus motor h k b m) =
    rw
      (
        is_empty-ne type h,
        is_empty-ne id k,
        is_empty-decimal bus,
        is_empty-decimal motor,
        parse_int32-decimal bus "BusId" b,
        parse_uint16-decimal motor "MotorId" m,
        is_all-decimal motor,
      )
      refl
motor_target_of-Spells value (slave_bus_all type id slave bus h k s b) =
    rw
      (
        is_empty-ne type h,
        is_empty-ne id k,
        is_empty-decimal slave,
        is_empty-decimal bus,
        parse_int32-decimal slave "SlaveId" s,
        parse_int32-decimal bus "BusId" b,
      )
      (unfold str_eq in refl)
motor_target_of-Spells value (slave_single type id slave bus motor h k s b m) =
    rw
      (
        is_empty-ne type h,
        is_empty-ne id k,
        is_empty-decimal slave,
        is_empty-decimal bus,
        is_empty-decimal motor,
        parse_int32-decimal slave "SlaveId" s,
        parse_int32-decimal bus "BusId" b,
        parse_uint16-decimal motor "MotorId" m,
        is_all-decimal motor,
      )
      refl

-- Every form of a target, its parts plain or quoted and joined by colons, is read as the target
-- that it spells.
pub parse_motor_target_complete :
    (p : Part) (ps : List Part) {t : MotorTarget}
    → IsPart p
    → All IsPart ps
    → Spells (p.text ∷ map (λ q. q.text) ps) t
    → parse_motor_target (spelled p ps) ≡ ok t
unfolding parse_motor_target
parse_motor_target_complete p ps h hs s =
    rw (split_colon_separated-spelled p ps h hs) (motor_target_of-Spells (spelled p ps) s)
