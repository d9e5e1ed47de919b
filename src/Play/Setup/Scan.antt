-- ===== src/Play/Setup/Scan.antt =====
-- What a scan knows of a bus is what the driver answered about it.
use mathlib.Core.List.{Mem, mem-cons_self, mem-cons_of_mem}
use mathlib.Core.Path.{subst}
use encos_cli.Base.{
  ℕ, ◌≡◌, refl, sym, Bool, true, false, Option, some, List, [], ◌∷◌, map, All, All-append,
  Bool-cases, Option-cases, inl, inr, if◌then◌else◌, ◌==◌, ==_iff, arith,
}
use encos_cli.Base.Int.{ℤ, pos, negsuc, eqb_ℤ}
use encos_cli.Trajectory.Connection.{MotorConnection}
use encos_cli.Play.Opening.{MotorDriver, BusScanResult, find_motor, find_scan, Opened}
use encos_cli.Play.Setup.{emplace_motor, dry_scan, insert_adapters, insert_buses, scan_all}

eqb_ℤ-eq : (a b : ℤ) → eqb_ℤ a b ≡ true → a ≡ b
eqb_ℤ-eq (pos m) (pos n) h = ground arith
eqb_ℤ-eq (pos m) (negsuc n) h = ground arith
eqb_ℤ-eq (negsuc m) (pos n) h = ground arith
eqb_ℤ-eq (negsuc m) (negsuc n) h = ground arith

All-members : {A : Type 0} (l : List A) (P : A → Type 0) → ((a : A) → Mem a l → P a) → All P l
All-members [] P f = tt
All-members (a ∷ l) P f = (f a mem-cons_self, All-members l P λ b m. f b (mem-cons_of_mem a m))

module _ {F : Type 0} (driver : MotorDriver F) (dry_run : Bool) where
  -- What the driver says of a number on a bus: a dry run asks for the motor of that number, and else
  -- the scan of the bus lists both.
  abbrev pub Answers : Bool → ℕ → ℤ × Option ℕ → Type 0
  Answers true bus (id, motor) = driver.get_motor bus id ≡ motor
  Answers false bus found = Mem found (driver.scan_motors bus)

  abbrev pub IsAnswered : BusScanResult → Type 0
  IsAnswered r = All (Answers dry_run r.bus) r.motors

  pub find_motor-Answers :
      (bus : ℕ) (motors : List (ℤ × Option ℕ)) (id : ℤ) (motor : ℕ)
      → All (Answers dry_run bus) motors
      → find_motor motors id ≡ some motor
      → Answers dry_run bus (id, some motor)
  unfolding find_motor
  find_motor-Answers bus [] id motor hs e = cc
  find_motor-Answers bus ((n, m) ∷ motors) id motor (h, hs) e = elim (Bool-cases (eqb_ℤ n id)) [
    | inl same ↦ let found : m ≡ some motor = ground arith in rw (eqb_ℤ-eq n id same, found) at h
    | inr other ↦ find_motor-Answers bus motors id motor hs (ground arith)
  ]

  pub find_scan-Answers :
      (results : List BusScanResult) (bus : ℕ)
      → All IsAnswered results
      → All (Answers dry_run bus) (find_scan results bus)
  unfolding find_scan
  find_scan-Answers [] bus hs = tt
  find_scan-Answers (r ∷ results) bus (h, hs) = elim (Bool-cases (r.bus == bus)) [
    | inl same ↦
        let e : r.bus ≡ bus = (==_iff r.bus bus).0 same in
        rw same (subst (λ b. All (Answers dry_run b) r.motors) e h)
    | inr other ↦ rw other (find_scan-Answers results bus hs)
  ]

  emplace_motor-IsAnswered :
      (bus : ℕ) (id : ℤ) (motor : ℕ) (results : List BusScanResult)
      → Answers dry_run bus (id, some motor)
      → All IsAnswered results
      → All IsAnswered (emplace_motor driver dry_run bus id motor results)
  unfolding emplace_motor
  emplace_motor-IsAnswered bus id motor [] h hs = ((h, tt), tt)
  emplace_motor-IsAnswered bus id motor (r ∷ results) h (hr, hs) =
      let later = emplace_motor-IsAnswered bus id motor results h hs in
      elim (Bool-cases (r.bus == bus)) [
        | inr other ↦ rw other (hr, later)
        | inl same ↦
            let e : r.bus ≡ bus = (==_iff r.bus bus).0 same in
            elim (Option-cases (find_motor r.motors id)) [
              | inr (m, found) ↦ rw (same, found) (hr, hs)
              | inl missing ↦
                  rw (same, missing)
                    (
                      All-append (Answers dry_run r.bus) r.motors ((id, some motor) ∷ []) hr
                          (subst (λ b. Answers dry_run b (id, some motor)) (sym e) h, tt),
                      hs,
                    )
            ]
      ]

  scans-IsAnswered :
      dry_run ≡ false
      → (buses : List ℕ)
      → All IsAnswered (map (λ bus. record { bus = bus; motors = driver.scan_motors bus }) buses)
  scans-IsAnswered e [] = tt
  scans-IsAnswered e (bus ∷ buses) = (
    subst (λ b. All (Answers b bus) (driver.scan_motors bus)) (sym e)
        (All-members (driver.scan_motors bus) _ λ found m. m),
    scans-IsAnswered e buses,
  )

  dry_scan-IsAnswered :
      dry_run ≡ true
      → (connections : List MotorConnection) (buses : List ℕ) (results : List BusScanResult)
      → All IsAnswered results
      → All IsAnswered (dry_scan driver dry_run connections buses results)
  unfolding dry_scan
  dry_scan-IsAnswered e [] buses results hs = hs
  dry_scan-IsAnswered e (c ∷ connections) [] results hs = hs
  dry_scan-IsAnswered e (c ∷ connections) (bus ∷ buses) results hs =
      elim (Option-cases (driver.get_motor bus (pos c.motor_id))) [
        | inl none' ↦ rw none' (dry_scan-IsAnswered e connections buses results hs)
        | inr (motor, got) ↦ rw got (
            dry_scan-IsAnswered e connections buses
              (emplace_motor driver dry_run bus (pos c.motor_id) motor results)
              (emplace_motor-IsAnswered bus (pos c.motor_id) motor results
                (subst (λ b. Answers b bus (pos c.motor_id, some motor)) (sym e) got) hs))
      ]

  pub scan_all-IsAnswered :
      (opened : Opened) (connections : List MotorConnection)
      → All IsAnswered (scan_all driver dry_run opened connections)
  unfolding scan_all
  scan_all-IsAnswered opened connections = either dry_run refl
    where
      listed : List ℕ
      listed =
          insert_adapters driver dry_run opened.adapters
            (insert_buses driver dry_run opened.trajectory_buses [])

      either :
          (dry : Bool)
          → dry_run ≡ dry
          → All IsAnswered (
              if dry
              then dry_scan driver dry_run connections opened.trajectory_buses []
              else map (λ bus. record { bus = bus; motors = driver.scan_motors bus }) listed)
      either true e = dry_scan-IsAnswered e connections opened.trajectory_buses [] tt
      either false e = scans-IsAnswered e listed
