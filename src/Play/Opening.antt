-- ===== src/Play/Opening.antt =====
-- src/cli/play.cc: opening the adapters and buses of a trajectory, in `TrajectoryRunner::Initialize`.
-- Adapters, buses and motors of the driver are numbers in place of pointers. The hash maps are lists in
-- the order of insertion; the order in which the code meets their entries is not fixed there. What is
-- reported together with `return false`, and what is thrown, is an error here: both end the command.
pub mod Laws
use encos_cli.Base.{
  ℕ, Bool, false, ◌&&◌, ◌||◌, Option, none, some, List, [], ◌∷◌, ◌++◌, Bytes, codes, str_eq, ◌==◌,
  if◌then◌else◌, Result, ok, err, runtime_error, ◌>>=◌,
}
use encos_cli.Base.Int.{ℤ, eqb_ℤ}
use encos_cli.Trajectory.Connection.{MotorConnection}
use encos_cli.Play.Names.{format_motor_target_prefix, format_bus_prefix, slave_of, bus_of}

-- The driver: an adapter of a type and an id, its bus behind a slave or without one (which may throw),
-- the buses that it lists, a motor of a bus, the motors that a scan finds, and a motor's position.
pub record MotorDriver (F : Type 0) : Type 0 where
  pub make_adapter : Bytes → Bytes → Option ℕ
  pub get_bus : ℕ → Option ℤ → ℤ → Result (Option ℕ)
  pub get_buses : ℕ → List (ℤ × Option ℕ)
  pub get_motor : ℕ → ℤ → Option ℕ
  pub scan_motors : ℕ → List (ℤ × Option ℕ)
  pub position : ℕ → Result F

pub record MotorLocation : Type 0 where
  pub adapter_type : Bytes
  pub adapter_id : Bytes
  pub slave_id : Option ℤ
  pub bus_id : ℤ

pub record MotorContext : Type 0 where
  pub motor : ℕ
  pub name : Bytes
  pub location : MotorLocation
  pub motor_id : ℤ

-- What `bus_prefixes` and `bus_locations` have for a bus: both are filled together.
pub record BusEntry : Type 0 where
  pub bus : ℕ
  pub prefix : Bytes
  pub location : MotorLocation

pub record BusScanResult : Type 0 where
  pub bus : ℕ
  pub motors : List (ℤ × Option ℕ)

pub record AdapterEntry : Type 0 where
  pub key_type : Bytes
  pub key_id : Bytes
  pub adapter : ℕ

unfoldable pub contains : ℕ → List ℕ → Bool
contains x [] = false
contains x (y ∷ ys) = x == y || contains x ys

unfoldable pub find_adapter : List AdapterEntry → Bytes → Bytes → Option ℕ
find_adapter [] type id = none
find_adapter (a ∷ adapters) type id =
    let rest = find_adapter adapters type id in
    if str_eq a.key_type type && str_eq a.key_id id then some a.adapter else rest

unfoldable pub find_bus : List BusEntry → ℕ → Option BusEntry
find_bus [] bus = none
find_bus (b ∷ entries) bus =
    let rest = find_bus entries bus in if b.bus == bus then some b else rest

-- `emplace`: an entry that is there stays.
unfoldable pub emplace_bus : BusEntry → List BusEntry → List BusEntry
unfolding find_bus
emplace_bus b entries = elim (find_bus entries b.bus) [
  | none ↦ entries ++ (b ∷ [])
  | some found ↦ entries
]

-- `unique_buses.insert(bus).second` decides on `buses.push_back(bus)`.
unfoldable pub insert_bus : ℕ → List ℕ → List ℕ
unfolding contains
insert_bus bus buses = if contains bus buses then buses else buses ++ (bus ∷ [])

unfoldable pub find_motor : List (ℤ × Option ℕ) → ℤ → Option ℕ
find_motor [] id = none
find_motor ((n, motor) ∷ motors) id =
    let rest = find_motor motors id in if eqb_ℤ n id then motor else rest

unfoldable pub find_scan : List BusScanResult → ℕ → List (ℤ × Option ℕ)
find_scan [] bus = []
find_scan (r ∷ results) bus =
    let rest = find_scan results bus in if r.bus == bus then r.motors else rest

-- The adapters and the buses, as the connections are opened.
pub record Opened : Type 0 where
  pub adapters : List AdapterEntry
  pub trajectory_buses : List ℕ
  pub entries : List BusEntry

abbrev pub location_of : MotorConnection → MotorLocation
location_of c = record {
  adapter_type = c.adapter_type;
  adapter_id = c.adapter_id;
  slave_id = c.slave_id;
  bus_id = c.bus_id;
}

-- An option that is there, or an error.
abbrev pub require : {A : Type 0} → Option A → Result A → Result A
require none other = other
require (some a) other = ok a

module _ {F : Type 0} (driver : MotorDriver F) (dry_run : Bool) where
  open driver use {make_adapter, get_bus, get_buses, get_motor, scan_motors, position}

  -- `--dry-run` makes the adapters of the plugin Fake.
  unfoldable pub open_adapter : Opened → MotorConnection → Bytes → Result (ℕ × Opened)
  unfolding find_adapter
  open_adapter s c name = elim (find_adapter s.adapters c.adapter_type c.adapter_id) [
    | some adapter ↦ ok (adapter, s)
    | none ↦ do
      adapter ←
          require (make_adapter (if dry_run then codes "Fake" else c.adapter_type) c.adapter_id)
            (err (runtime_error "Failed to create adapter for " name))
      ok (
        adapter,
        record s {
          adapters =
              s.adapters
              ++ (record { key_type = c.adapter_type; key_id = c.adapter_id; adapter = adapter }
                  ∷ []);
        },
      )
  ]

  unfoldable pub open_bus : Opened → MotorConnection → Bytes → Result Opened
  unfolding open_adapter emplace_bus
  open_bus s c name = do
    (adapter, opened) ← open_adapter s c name
    found ← get_bus adapter c.slave_id c.bus_id
    bus ← require found (err (runtime_error "Failed to get bus for " name))
    ok (record opened {
      trajectory_buses = opened.trajectory_buses ++ (bus ∷ []);
      entries =
          emplace_bus
            (record {
              bus = bus;
              prefix = format_motor_target_prefix c.adapter_type c.adapter_id c.slave_id c.bus_id;
              location = location_of c;
            })
            opened.entries;
    })

  -- The loop over the connections and their names.
  unfoldable pub open_buses : Opened → List MotorConnection → List Bytes → Result Opened
  unfolding open_bus
  open_buses s [] names = ok s
  open_buses s (c ∷ connections) [] = ok s
  open_buses s (c ∷ connections) (name ∷ names) =
      open_bus s c name >>= λ next. open_buses next connections names

  -- The buses that an adapter lists get a prefix and a location, those of the trajectory keep theirs.
  unfoldable pub list_buses : AdapterEntry → List (ℤ × Option ℕ) → List BusEntry → List BusEntry
  unfolding emplace_bus
  list_buses a [] entries = entries
  list_buses a ((id, none) ∷ buses) entries = list_buses a buses entries
  list_buses a ((id, some bus) ∷ buses) entries = list_buses a buses (
      emplace_bus
        (record {
          bus = bus;
          prefix = format_bus_prefix a.key_type a.key_id id;
          location = record {
            adapter_type = a.key_type;
            adapter_id = a.key_id;
            slave_id = slave_of id;
            bus_id = bus_of id;
          };
        })
        entries)

  unfoldable pub list_all_buses : List AdapterEntry → List BusEntry → List BusEntry
  unfolding list_buses
  list_all_buses [] entries = entries
  list_all_buses (a ∷ adapters) entries =
      list_all_buses adapters (list_buses a (get_buses a.adapter) entries)
