-- ===== src/Play/Setup.antt =====
-- src/cli/play.cc: `TrajectoryRunner::ScanMotors`, and the motors that `Initialize` finds.
pub mod Scan
pub mod Laws
use encos_cli.Base.{
  ℕ, Bool, true, false, not, ◌&&◌, ◌||◌, Option, none, some, List, [], ◌∷◌, ◌++◌, Bytes, codes,
  str_eq, ◌==◌, if◌then◌else◌, Result, ok, err, runtime_error, out_of_range, ◌>>=◌, ◌>>◌, map,
}
use encos_cli.Base.Int.{ℤ, pos, eqb_ℤ}
use encos_cli.Trajectory.Connection.{MotorConnection}
use encos_cli.Play.Names.{holding_name}
use encos_cli.Play.Opening.{
  MotorDriver, MotorContext, MotorLocation, BusEntry, BusScanResult, AdapterEntry, Opened, contains,
  find_bus, insert_bus, find_motor, find_scan, location_of, require, open_buses, list_all_buses,
}

-- `motors_` and `holding_motors_`; `monitored_motors_` has both.
pub record PlayMotors (F : Type 0) : Type 0 where
  pub motors : List MotorContext
  pub holding : List (MotorContext × F)

module _ {F : Type 0} (driver : MotorDriver F) (dry_run : Bool) where
  open driver use {get_buses, get_motor, scan_motors, position}

  -- The buses to scan: those of the trajectory, then those that the adapters list, each once.
  unfoldable pub insert_buses : List ℕ → List ℕ → List ℕ
  unfolding insert_bus
  insert_buses [] buses = buses
  insert_buses (bus ∷ more) buses = insert_buses more (insert_bus bus buses)

  unfoldable pub insert_listed : List (ℤ × Option ℕ) → List ℕ → List ℕ
  unfolding insert_bus
  insert_listed [] buses = buses
  insert_listed ((id, none) ∷ more) buses = insert_listed more buses
  insert_listed ((id, some bus) ∷ more) buses = insert_listed more (insert_bus bus buses)

  unfoldable pub insert_adapters : List AdapterEntry → List ℕ → List ℕ
  unfolding insert_listed
  insert_adapters [] buses = buses
  insert_adapters (a ∷ adapters) buses =
      insert_adapters adapters (insert_listed (get_buses a.adapter) buses)

  -- `discovered_motors[bus].emplace(id, motor)`.
  unfoldable pub emplace_motor : ℕ → ℤ → ℕ → List BusScanResult → List BusScanResult
  unfolding find_motor
  emplace_motor bus id motor [] = record { bus = bus; motors = (id, some motor) ∷ [] } ∷ []
  emplace_motor bus id motor (r ∷ results) =
      let later = r ∷ emplace_motor bus id motor results in
      let added = record r { motors = r.motors ++ ((id, some motor) ∷ []) } ∷ results in
      if not (r.bus == bus)
      then later
      else elim (find_motor r.motors id) [ none ↦ added | some m ↦ r ∷ results ]

  -- A dry run asks for the motors of the trajectory only.
  unfoldable pub dry_scan : List MotorConnection → List ℕ → List BusScanResult → List BusScanResult
  unfolding emplace_motor
  dry_scan [] buses results = results
  dry_scan (c ∷ connections) [] results = results
  dry_scan (c ∷ connections) (bus ∷ buses) results =
      dry_scan connections buses (elim (get_motor bus (pos c.motor_id)) [
        | none ↦ results
        | some motor ↦ emplace_motor bus (pos c.motor_id) motor results
      ])

  unfoldable pub scan_all : Opened → List MotorConnection → List BusScanResult
  unfolding insert_buses insert_adapters dry_scan
  scan_all s connections =
      if dry_run
      then dry_scan connections s.trajectory_buses []
      else map (λ bus. record { bus = bus; motors = scan_motors bus })
          (insert_adapters s.adapters (insert_buses s.trajectory_buses []))

  -- The motors of the trajectory: each must have been found.
  unfoldable pub trajectory_motors :
      List BusScanResult → List MotorConnection → List Bytes → List ℕ → Result (List MotorContext)
  unfolding find_scan find_motor
  trajectory_motors results [] names buses = ok []
  trajectory_motors results (c ∷ connections) (name ∷ names) (bus ∷ buses) = do
    motor ←
        require (find_motor (find_scan results bus) (pos c.motor_id))
          (err (runtime_error "Required motor was not found during scan" name))
    rest ← trajectory_motors results connections names buses
    ok (
        record { motor = motor; name = name; location = location_of c; motor_id = pos c.motor_id }
        ∷ rest)
  trajectory_motors results (c ∷ connections) _ _ = err out_of_range

  -- A motor that is held where it is. `bus_prefixes.at(bus)` throws if the bus is unknown.
  unfoldable pub hold_motor : Option BusEntry → ℤ → ℕ → Result (MotorContext × F)
  hold_motor none id motor = err out_of_range
  hold_motor (some entry) id motor = do
    p ← position motor
    ok (
      record {
        motor = motor;
        name = holding_name entry.prefix id;
        location = entry.location;
        motor_id = id;
      },
      p,
    )

  -- The motors of a bus, but for those that are taken.
  unfoldable pub hold_bus :
      List ℕ → Option BusEntry → List (ℤ × Option ℕ) → Result (List (MotorContext × F))
  unfolding contains hold_motor
  hold_bus taken entry [] = ok []
  hold_bus taken entry ((id, none) ∷ motors) = hold_bus taken entry motors
  hold_bus taken entry ((id, some motor) ∷ motors) =
      let rest = hold_bus taken entry motors in
      if contains motor taken
      then rest
      else hold_motor entry id motor >>= λ first. rest >>= λ held. ok (first ∷ held)

  unfoldable pub hold_motors :
      List ℕ → List BusEntry → List BusScanResult → Result (List (MotorContext × F))
  unfolding hold_bus find_bus
  hold_motors taken entries [] = ok []
  hold_motors taken entries (r ∷ results) = do
    held ← hold_bus taken (find_bus entries r.bus) r.motors
    rest ← hold_motors taken entries results
    ok (held ++ rest)

  unfoldable pub initialize : List Bytes → List MotorConnection → Result (PlayMotors F)
  unfolding open_buses list_all_buses scan_all trajectory_motors hold_motors
  initialize names connections = do
    opened ←
        open_buses driver dry_run (record { adapters = []; trajectory_buses = []; entries = [] })
          connections names
    let results = scan_all opened connections
    motors ← trajectory_motors results connections names opened.trajectory_buses
    holding ←
        hold_motors (map (λ m. m.motor) motors)
          (list_all_buses driver dry_run opened.adapters opened.entries) results
    ok (record { motors = motors; holding = holding })
