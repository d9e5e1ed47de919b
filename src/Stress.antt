-- ===== src/Stress.antt =====
-- src/cli/stress.cc: the packet totals of the stress command and the size of its report.
pub mod Laws
use encos_cli.Base.{
  ℕ, zero, suc, ◌+◌, ◌-◌, ◌/◌, ◌^◌, ◌%◌, Bool, true, false, not, ◌||◌, Option, none, some, List, [],
  ◌∷◌, ◌++◌, Bytes, ◌==◌, ltb, if◌then◌else◌, length, codes,
}
use encos_cli.Base.Int.{ℤ, pos, ltb_ℤ}
use encos_cli.Number.{to_string}

-- The counters of a motor, which are `uint64_t`; the handles of the driver are left out.
pub record MotorContext : Type 0 where
  pub motor_idx : ℤ
  pub sent : ℕ
  pub received : ℕ

pub record BusContext : Type 0 where
  pub slave_id : Option ℤ
  pub bus_idx : ℤ
  pub motors : List MotorContext

pub record AdapterContext : Type 0 where
  pub label : Bytes
  pub buses : List BusContext

pub record Totals : Type 0 where
  pub sent : ℕ
  pub received : ℕ

abbrev pub no_totals : Totals
no_totals = record { sent = 0; received = 0 }

-- `+=` on both `uint64_t` fields.
abbrev pub add_to : Totals → ℕ → ℕ → Totals
add_to totals sent received = record {
  sent = (totals.sent + sent) % 2 ^ 64;
  received = (totals.received + received) % 2 ^ 64;
}

unfoldable pub has_motor_bus : List BusContext → Bool
has_motor_bus [] = false
has_motor_bus (bus ∷ buses) = not (length bus.motors == 0) || has_motor_bus buses

unfoldable pub has_any_motor : List AdapterContext → Bool
unfolding has_motor_bus
has_any_motor [] = false
has_any_motor (adapter ∷ contexts) = has_motor_bus adapter.buses || has_any_motor contexts

unfoldable pub motors_loop : Totals → List MotorContext → Totals
motors_loop totals [] = totals
motors_loop totals (motor ∷ motors) = motors_loop (add_to totals motor.sent motor.received) motors

unfoldable pub aggregate_motors : List MotorContext → Totals
unfolding motors_loop
aggregate_motors motors = motors_loop no_totals motors

unfoldable pub aggregate_bus : BusContext → Totals
unfolding aggregate_motors
aggregate_bus bus = aggregate_motors bus.motors

unfoldable pub buses_loop : Totals → List BusContext → Totals
unfolding aggregate_bus
buses_loop totals [] = totals
buses_loop totals (bus ∷ buses) =
    let bus_totals = aggregate_bus bus in
    buses_loop (add_to totals bus_totals.sent bus_totals.received) buses

unfoldable pub aggregate_adapter : AdapterContext → Totals
unfolding buses_loop
aggregate_adapter adapter = buses_loop no_totals adapter.buses

unfoldable pub adapters_loop : Totals → List AdapterContext → Totals
unfolding aggregate_adapter
adapters_loop totals [] = totals
adapters_loop totals (adapter ∷ contexts) =
    let adapter_totals = aggregate_adapter adapter in
    adapters_loop (add_to totals adapter_totals.sent adapter_totals.received) contexts

unfoldable pub aggregate_all : List AdapterContext → Totals
unfolding adapters_loop
aggregate_all contexts = adapters_loop no_totals contexts

unfoldable pub drop_count : Totals → ℕ
drop_count totals = if ltb totals.received totals.sent then totals.sent - totals.received else 0

-- The rows that a line of `line_length` characters takes.
abbrev pub max_one : ℕ → ℕ
max_one n = if ltb 1 n then n else 1

unfoldable pub line_rows : ℕ → ℕ → ℕ
line_rows line_length terminal_columns =
    max_one ((line_length + terminal_columns - 1) / terminal_columns)

unfoldable pub rows_loop : ℕ → ℕ → ℕ → Bytes → ℕ
unfolding line_rows
rows_loop terminal_columns rows line_length [] = rows + line_rows line_length terminal_columns
rows_loop terminal_columns rows line_length (c ∷ text) =
    let next = rows_loop terminal_columns (rows + line_rows line_length terminal_columns) 0 text in
    let on = rows_loop terminal_columns rows (line_length + 1) text in
    if c == b'\n' then next else on

unfoldable pub count_stress_terminal_rows : Bytes → ℕ → ℕ
unfolding rows_loop
count_stress_terminal_rows [] terminal_columns = 0
count_stress_terminal_rows (c ∷ text) terminal_columns =
    if terminal_columns == 0 then 0 else rows_loop terminal_columns 0 0 (c ∷ text)

pub record StressBusAddress : Type 0 where
  pub slave_id : Option ℤ
  pub bus_id : ℤ

-- `adapter_bus_id >> 16` and `& 0xFFFF` of a number above 0xFFFF.
unfoldable pub decode_stress_bus_address : ℤ → StressBusAddress
decode_stress_bus_address (pos n) =
    if ltb 65535 n
    then record { slave_id = some (pos (n / 65536)); bus_id = pos (n % 65536) }
    else record { slave_id = none; bus_id = pos n }
decode_stress_bus_address z = record { slave_id = none; bus_id = z }

abbrev pub slave_label : Option ℤ → Bytes
slave_label none = []
slave_label (some slave) = codes "Slave " ++ (to_string slave ++ codes " ")

unfoldable pub format_stress_bus_label : StressBusAddress → Bytes
format_stress_bus_label address =
    slave_label address.slave_id ++ (codes "Bus " ++ to_string address.bus_id)

pub data StressLiveDetailLevel : Type 0 where
  full : StressLiveDetailLevel
  bus : StressLiveDetailLevel
  adapter : StressLiveDetailLevel
  overview : StressLiveDetailLevel

pub record StressLiveReportRows : Type 0 where
  pub full_rows : ℕ
  pub bus_rows : ℕ
  pub adapter_rows : ℕ
  pub overview_rows : ℕ

unfoldable pub select_stress_live_detail_level : ℕ → StressLiveReportRows → StressLiveDetailLevel
select_stress_live_detail_level terminal_rows report_rows =
    if ltb report_rows.full_rows terminal_rows
    then full
    else if ltb report_rows.bus_rows terminal_rows
    then bus
    else if ltb report_rows.adapter_rows terminal_rows
    then adapter
    else overview

-- The CPUs from `first` on, `count` of them.
abbrev pub cpus_from : ℕ → ℕ → List ℕ
cpus_from first zero = []
cpus_from first (suc count) = first ∷ cpus_from (first + 1) count

-- `StressSenderCpuCandidates`, where `CpuCount` gives `cpu_count`.
unfoldable pub stress_sender_cpu_candidates : ℤ → List ℕ
stress_sender_cpu_candidates (pos cpu_count) =
    if ltb 2 cpu_count then cpus_from 2 (cpu_count - 2) else cpus_from 0 cpu_count
stress_sender_cpu_candidates z = []
