-- ===== src/Play/Setup/Laws.antt =====
-- The motors that play finds are those that the trajectory names, and no motor is both played and held.
use encos_cli.Base.{
  ℕ, ◌≡◌, refl, ap, Bool, false, Option, none, some, List, [], ◌∷◌, map, Bytes, All, All-append,
  err, runtime_error, Ensures, Ensures-bind, Ensures-any, length, Bool-cases, inl, inr, arith,
}
use encos_cli.Base.Int.{ℤ, pos}
use encos_cli.Trajectory.Connection.{MotorConnection}
use encos_cli.Play.Opening.{
  MotorDriver, MotorContext, BusEntry, BusScanResult, contains, find_bus, find_motor, find_scan,
  location_of, require, open_buses, list_all_buses, Opened,
}
use encos_cli.Play.Opening.Laws.{Ensures-require, IsOpened, AreOpened, Buses, open_buses-AreOpened}
use encos_cli.Play.Setup.Scan.{
  Answers, IsAnswered, find_motor-Answers, find_scan-Answers, scan_all-IsAnswered,
}
use encos_cli.Play.Setup.{
  PlayMotors, scan_all, trajectory_motors, hold_motor, hold_bus, hold_motors, initialize,
}

abbrev pub handles : List MotorContext → List ℕ
handles = map (λ m. m.motor)

module _ {F : Type 0} where
  abbrev pub IsFree : List ℕ → MotorContext × F → Type 0
  IsFree taken held = contains held.0.motor taken ≡ false

module _ {F : Type 0} (driver : MotorDriver F) (dry_run : Bool) where
  -- The driver has this motor under the number of a column, on the bus that it has for the column.
  pub record IsMotorOf (c : MotorConnection) (motor : ℕ) : Type 0 where
    pub bus : ℕ
    pub opened : IsOpened driver dry_run c bus
    pub answered : Answers driver dry_run dry_run bus (pos c.motor_id, some motor)

  abbrev pub AreMotorsOf : List MotorConnection → List MotorContext → Type 0
  AreMotorsOf [] [] = Unit
  AreMotorsOf (c ∷ connections) (m ∷ motors) = IsMotorOf c m.motor × AreMotorsOf connections motors
  AreMotorsOf _ _ = ⊥

  -- The motors of the trajectory, one for each column and in their order: its name, the adapter,
  -- slave and bus that the column names, the number of the motor, and the driver's motor.
  pub record AreColumns (names : List Bytes) (connections : List MotorConnection)
      (motors : List MotorContext) : Type 0 where
    pub named : map (λ m. m.name) motors ≡ names
    pub located : map (λ m. m.location) motors ≡ map location_of connections
    pub numbered : map (λ m. m.motor_id) motors ≡ map (λ c. pos c.motor_id) connections
    pub driven : AreMotorsOf connections motors

  pub record IsSetup (names : List Bytes) (connections : List MotorConnection) (s : PlayMotors F)
      : Type 0 where
    pub columns : AreColumns names connections s.motors
    pub free : All (IsFree (handles s.motors)) s.holding

  trajectory_motors-AreColumns :
      (results : List BusScanResult) (connections : List MotorConnection) (names : List Bytes)
      (buses : List ℕ)
      → length names ≡ length connections
      → All (IsAnswered driver dry_run) results
      → AreOpened driver dry_run connections buses
      → Ensures
          (AreColumns names connections)
          (trajectory_motors driver dry_run results connections names buses)
  unfolding trajectory_motors
  trajectory_motors-AreColumns results [] [] [] h hs opened = record {
    named = refl;
    located = refl;
    numbered = refl;
    driven = tt;
  }
  trajectory_motors-AreColumns results [] [] (bus ∷ buses) h hs opened = absurd opened
  trajectory_motors-AreColumns results [] (name ∷ names) buses h hs opened = absurd (omega arith)
  trajectory_motors-AreColumns results (c ∷ connections) [] buses h hs opened = tt
  trajectory_motors-AreColumns results (c ∷ connections) (name ∷ names) [] h hs opened = tt
  trajectory_motors-AreColumns results (c ∷ connections) (name ∷ names) (bus ∷ buses) h hs
        (opened, more) =
      let found = find_motor (find_scan results bus) (pos c.motor_id) in
      Ensures-bind (λ motor. found ≡ some motor) (AreColumns (name ∷ names) (c ∷ connections))
        (require found (err (runtime_error "Required motor was not found during scan" name))) _
        (Ensures-require (λ motor. found ≡ some motor) found _ λ motor e. e)
        λ motor e.
          Ensures-bind (AreColumns names connections) (AreColumns (name ∷ names) (c ∷ connections))
            (trajectory_motors driver dry_run results connections names buses) _
            (trajectory_motors-AreColumns results connections names buses (omega arith) hs more)
            λ rest k. record {
              named = ap (λ l. name ∷ l) k.named;
              located = ap (λ l. location_of c ∷ l) k.located;
              numbered = ap (λ l. pos c.motor_id ∷ l) k.numbered;
              driven = (
                record {
                  bus = bus;
                  opened = opened;
                  answered =
                      find_motor-Answers driver dry_run bus (find_scan results bus) (pos c.motor_id)
                        motor (find_scan-Answers driver dry_run results bus hs) e;
                },
                k.driven,
              );
            }

  hold_motor-IsFree :
      (taken : List ℕ) (entry : Option BusEntry) (id : ℤ) (motor : ℕ)
      → contains motor taken ≡ false
      → Ensures (IsFree taken) (hold_motor driver dry_run entry id motor)
  unfolding hold_motor
  hold_motor-IsFree taken none id motor h = tt
  hold_motor-IsFree taken (some entry) id motor h =
      Ensures-bind (λ _. Unit {0}) (IsFree taken) (driver.position motor) _ (Ensures-any _) λ p _. h

  hold_bus-IsFree :
      (taken : List ℕ) (entry : Option BusEntry) (motors : List (ℤ × Option ℕ))
      → Ensures (All (IsFree taken)) (hold_bus driver dry_run taken entry motors)
  unfolding hold_bus
  hold_bus-IsFree taken entry [] = tt
  hold_bus-IsFree taken entry ((id, none) ∷ motors) = hold_bus-IsFree taken entry motors
  hold_bus-IsFree taken entry ((id, some motor) ∷ motors) =
      let later = hold_bus-IsFree taken entry motors in
      elim (Bool-cases (contains motor taken)) [
        | inl e ↦ rw e later
        | inr e ↦ rw e (
            Ensures-bind (IsFree taken) (All (IsFree taken))
              (hold_motor driver dry_run entry id motor) _
              (hold_motor-IsFree taken entry id motor e)
              λ first k.
                Ensures-bind (All (IsFree taken)) (All (IsFree taken))
                  (hold_bus driver dry_run taken entry motors) _ later λ held l. (k, l))
      ]

  hold_motors-IsFree :
      (taken : List ℕ) (entries : List BusEntry) (results : List BusScanResult)
      → Ensures (All (IsFree taken)) (hold_motors driver dry_run taken entries results)
  unfolding hold_motors
  hold_motors-IsFree taken entries [] = tt
  hold_motors-IsFree taken entries (r ∷ results) =
      Ensures-bind (All (IsFree taken)) (All (IsFree taken))
        (hold_bus driver dry_run taken (find_bus entries r.bus) r.motors) _
        (hold_bus-IsFree taken (find_bus entries r.bus) r.motors)
        λ held h.
          Ensures-bind (All (IsFree taken)) (All (IsFree taken))
            (hold_motors driver dry_run taken entries results) _
            (hold_motors-IsFree taken entries results)
            λ rest k. All-append (IsFree taken) held rest h k

  -- With as many names as connections, when the initialization returns, whatever the driver answers:
  -- the motors to be played are those of the columns, in their order and each with the name, the
  -- adapter, slave, bus and number of its column and with the motor that the driver has under that
  -- number, in the scan of the bus or, in a dry run, by itself; the bus is the one that the driver has
  -- for the column on the adapter that it makes for it. No motor is both played and held.
  pub initialize-IsSetup :
      (names : List Bytes) (connections : List MotorConnection)
      → length names ≡ length connections
      → Ensures (IsSetup names connections) (initialize driver dry_run names connections)
  unfolding initialize
  initialize-IsSetup names connections h =
      let nothing : Opened = record { adapters = []; trajectory_buses = []; entries = [] } in
      let opening = open_buses driver dry_run nothing connections names in
      Ensures-bind (Buses driver dry_run nothing connections) (IsSetup names connections) opening _
        (open_buses-AreOpened driver dry_run nothing connections names h tt)
        λ opened b.
          let results = scan_all driver dry_run opened connections in
          Ensures-bind (AreColumns names connections) (IsSetup names connections)
            (trajectory_motors driver dry_run results connections names opened.trajectory_buses) _
            (trajectory_motors-AreColumns results connections names opened.trajectory_buses h
              (scan_all-IsAnswered driver dry_run opened connections) (rw b.all b.opens))
            λ motors k.
              let entries = list_all_buses driver dry_run opened.adapters opened.entries in
              Ensures-bind (All (IsFree (handles motors))) (IsSetup names connections)
                (hold_motors driver dry_run (handles motors) entries results) _
                (hold_motors-IsFree (handles motors) entries results)
                λ holding l. record { columns = k; free = l }
