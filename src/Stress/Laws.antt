-- ===== src/Stress/Laws.antt =====
-- The totals are those of all motors together, and a report is measured line by line.
use encos_cli.Base.{
  ℕ, ◌+◌, ◌*◌, ◌^◌, ◌%◌, ◌<◌, ◌≡◌, refl, ap, sym, ◌∙◌, false, none, some, List, [], ◌∷◌, ◌++◌,
  Bytes, ◌==◌, ltb, if◌then◌else◌, arith, Bool-cases, inl, inr,
}
use encos_cli.Base.Int.{pos}
use encos_cli.Stress.{
  MotorContext, BusContext, AdapterContext, Totals, motors_loop, aggregate_motors, aggregate_bus,
  buses_loop, aggregate_adapter, adapters_loop, aggregate_all, line_rows, rows_loop,
  count_stress_terminal_rows, decode_stress_bus_address,
}

-- All motors, adapter by adapter and bus by bus.
abbrev pub bus_motors : List BusContext → List MotorContext
bus_motors [] = []
bus_motors (b ∷ buses) = b.motors ++ bus_motors buses

abbrev pub all_motors : List AdapterContext → List MotorContext
all_motors [] = []
all_motors (a ∷ contexts) = bus_motors a.buses ++ all_motors contexts

abbrev pub sum_sent : List MotorContext → ℕ
sum_sent [] = 0
sum_sent (m ∷ motors) = m.sent + sum_sent motors

abbrev pub sum_received : List MotorContext → ℕ
sum_received [] = 0
sum_received (m ∷ motors) = m.received + sum_received motors

-- A total of `motors` that starts with `s` and `r`.
abbrev pub total_from : ℕ → ℕ → List MotorContext → Totals
total_from s r motors = record {
  sent = (s + sum_sent motors) % 2 ^ 64;
  received = (r + sum_received motors) % 2 ^ 64;
}

sum_sent-append : (a b : List MotorContext) → sum_sent (a ++ b) ≡ sum_sent a + sum_sent b
sum_sent-append [] b = omega arith
sum_sent-append (m ∷ a) b = omega (arith, sum_sent-append a b)

sum_received-append :
    (a b : List MotorContext) → sum_received (a ++ b) ≡ sum_received a + sum_received b
sum_received-append [] b = omega arith
sum_received-append (m ∷ a) b = omega (arith, sum_received-append a b)

totals_≡ :
    {s s' r r' : ℕ}
    → s ≡ s'
    → r ≡ r'
    → Path Totals (record { sent = s; received = r }) (record { sent = s'; received = r' })
totals_≡ p q = rw (p, q) refl

motors_loop-total_from :
    (motors : List MotorContext) (s r : ℕ)
    → motors_loop (record { sent = s % 2 ^ 64; received = r % 2 ^ 64 }) motors
      ≡ total_from s r motors
unfolding motors_loop
motors_loop-total_from [] s r = totals_≡ (omega arith) (omega arith)
motors_loop-total_from (m ∷ motors) s r =
    ap (λ t. motors_loop t motors) (totals_≡ (omega arith) (omega arith))
    ∙ motors_loop-total_from motors (s + m.sent) (r + m.received)
    ∙ totals_≡ (omega arith) (omega arith)

buses_loop-total_from :
    (buses : List BusContext) (s r : ℕ)
    → buses_loop (record { sent = s % 2 ^ 64; received = r % 2 ^ 64 }) buses
      ≡ total_from s r (bus_motors buses)
unfolding buses_loop aggregate_bus aggregate_motors
buses_loop-total_from [] s r = totals_≡ (omega arith) (omega arith)
buses_loop-total_from (b ∷ buses) s r =
    let e = motors_loop-total_from b.motors 0 0 in
    rw e (
      ap (λ t. buses_loop t buses) (totals_≡ (omega arith) (omega arith))
      ∙ buses_loop-total_from buses (s + sum_sent b.motors) (r + sum_received b.motors)
      ∙ totals_≡ (omega (arith, sum_sent-append b.motors (bus_motors buses)))
          (omega (arith, sum_received-append b.motors (bus_motors buses))))

adapters_loop-total_from :
    (contexts : List AdapterContext) (s r : ℕ)
    → adapters_loop (record { sent = s % 2 ^ 64; received = r % 2 ^ 64 }) contexts
      ≡ total_from s r (all_motors contexts)
unfolding adapters_loop aggregate_adapter
adapters_loop-total_from [] s r = totals_≡ (omega arith) (omega arith)
adapters_loop-total_from (a ∷ contexts) s r =
    let e = buses_loop-total_from a.buses 0 0 in
    let motors = bus_motors a.buses in
    rw e (
      ap (λ t. adapters_loop t contexts) (totals_≡ (omega arith) (omega arith))
      ∙ adapters_loop-total_from contexts (s + sum_sent motors) (r + sum_received motors)
      ∙ totals_≡ (omega (arith, sum_sent-append motors (all_motors contexts)))
          (omega (arith, sum_received-append motors (all_motors contexts))))

-- Adding up bus by bus and adapter by adapter gives the totals of all motors in one list, which are
-- the sums of their counters modulo 2^64.
pub aggregate_all-all_motors :
    (contexts : List AdapterContext)
    → (aggregate_all contexts ≡ aggregate_motors (all_motors contexts))
      × (aggregate_all contexts ≡ total_from 0 0 (all_motors contexts))
unfolding aggregate_all aggregate_motors
aggregate_all-all_motors contexts =
    let e = adapters_loop-total_from contexts 0 0 in
    (e ∙ sym (motors_loop-total_from (all_motors contexts) 0 0), e)

-- The rows of a text, with a count and a part of a line read before it.
rows_loop-shift :
    (terminal_columns rows extra line_length : ℕ) (text : Bytes)
    → rows_loop terminal_columns (rows + extra) line_length text
      ≡ rows_loop terminal_columns rows line_length text + extra
unfolding rows_loop
rows_loop-shift w rows extra n [] = omega arith
rows_loop-shift w rows extra n (c ∷ text) = elim (Bool-cases (c == b'\n')) [
  | inl e ↦ rw e (
      let eq : rows + extra + line_rows n w ≡ rows + line_rows n w + extra = omega arith in
      rw eq (rows_loop-shift w (rows + line_rows n w) extra 0 text))
  | inr e ↦ rw e (rows_loop-shift w rows extra (n + 1) text)
]

rows_loop-append :
    (w rows n : ℕ) (text rest : Bytes)
    → rows_loop w rows n (text ++ (b'\n' ∷ rest)) ≡ rows_loop w rows n text + rows_loop w 0 0 rest
unfolding rows_loop
rows_loop-append w rows n [] rest =
    let e : rows + line_rows n w ≡ 0 + (rows + line_rows n w) = omega arith in
    ap (λ k. rows_loop w k 0 rest) e
    ∙ rows_loop-shift w 0 (rows + line_rows n w) 0 rest
    ∙ omega arith
rows_loop-append w rows n (c ∷ text) rest = elim (Bool-cases (c == b'\n')) [
  | inl e ↦ rw e (rows_loop-append w (rows + line_rows n w) 0 text rest)
  | inr e ↦ rw e (rows_loop-append w rows (n + 1) text rest)
]

-- On a terminal of some columns, two texts with a line break between them take the rows of both.
pub count_stress_terminal_rows-append :
    (terminal_columns c d : ℕ) (text rest : Bytes)
    → 0 < terminal_columns
    → count_stress_terminal_rows ((c ∷ text) ++ (b'\n' ∷ d ∷ rest)) terminal_columns
      ≡ count_stress_terminal_rows (c ∷ text) terminal_columns
        + count_stress_terminal_rows (d ∷ rest) terminal_columns
unfolding count_stress_terminal_rows
count_stress_terminal_rows-append w c d text rest h =
    let e : (w == 0) ≡ false = ground arith in rw e (rows_loop-append w 0 0 (c ∷ text) (d ∷ rest))

-- A number packed from a slave above 0 and a 16-bit bus is taken apart again, and a 16-bit number is
-- a bus with no slave.
pub decode_stress_bus_address_packed :
    (slave bus : ℕ)
    → bus < 65536
    → decode_stress_bus_address (pos (slave * 65536 + bus)) ≡ (
        if ltb 0 slave
        then record { slave_id = some (pos slave); bus_id = pos bus }
        else record { slave_id = none; bus_id = pos bus })
unfolding decode_stress_bus_address
decode_stress_bus_address_packed slave bus h = ground arith
