-- ===== src/Slave/Run.antt =====
-- src/cli/slave_config.cc: `RunSlaveConfig` behind the parser, and `FormatSlaveTable`.
pub mod Laws
use encos_cli.Base.{
  ℕ, zero, suc, ◌+◌, ◌-◌, ◌%◌, ◌^◌, Bool, true, false, not, Option, none, some, List, [], ◌∷◌, ◌++◌,
  Bytes, codes, ltb, Result, ok, err, runtime_error, ◌>>=◌, ◌>>◌, throw_if, length, ◌≡◌, refl,
}
use encos_cli.Base.Sort.{sort_by}
use encos_cli.Base.Vectors.{replicate}
use encos_cli.Number.{decimal}
use encos_cli.Firmware.Transfer.{Serial, contains}
use encos_cli.Slave.Packets.{
  Datagram, Devices, checked_reply, command_packet, first_response, response_text,
}

-- The lines that are printed, and how the loop over the commands ends: at the first error.
abbrev pub Printed : Type 0
Printed = List Bytes × Result (Unit {0})

abbrev pub print_first : Result Bytes → Printed → Printed
print_first (err e) rest = ([], err e)
print_first (ok line) (lines, outcome) = (line ∷ lines, outcome)

-- `ask i` runs the command of index `i`; the loop does not come to those behind an error.
unfoldable pub run_commands : (ℕ → Bytes → Result Bytes) → ℕ → List Bytes → Printed
run_commands ask i [] = ([], ok tt)
run_commands ask i (command ∷ commands) =
    print_first (ask i command) (run_commands ask (suc i) commands)

-- A command over the serial device, which has been opened.
unfoldable pub serial_command : Serial → Result Bytes
unfolding checked_reply contains
serial_command port = do
  throw_if (not port.wrote) (runtime_error "CDC write failed" [])
  throw_if (not (contains 10 port.reply)) (runtime_error "No complete CDC response" [])
  checked_reply port.reply

-- `UdpConfig::Command`: the number of the request is the next one, of 32 bits.
unfoldable pub udp_command : Bytes → Option Bytes → ℕ → List Datagram → Bytes → Result Bytes
unfolding command_packet first_response response_text
udp_command uuid wanted last_request arrived command = do
  request ← command_packet command ((last_request + 1) % 2 ^ 32) uuid
  response ← first_response 13 true uuid wanted request arrived
  response_text response

unfoldable pub run_serial : Bytes → Bool → (ℕ → Serial) → List Bytes → Printed
unfolding run_commands serial_command
run_serial endpoint false answers commands =
    ([], err (runtime_error "Cannot open CDC device: " endpoint))
run_serial endpoint true answers commands =
    run_commands (λ i command. serial_command (answers i)) 0 commands

unfoldable pub run_udp : Bytes → Option Bytes → ℕ → (ℕ → List Datagram) → List Bytes → Printed
unfolding run_commands udp_command
run_udp uuid wanted request answers commands =
    run_commands (λ i command. udp_command uuid wanted (request + i) (answers i) command) 0 commands

-- `std::left << std::setw(10) << text`.
abbrev pub pad10 : Bytes → Bytes
pad10 text = text ++ replicate (10 - length text) b' '

-- The rows of a table: the number of a slave and the text of its UUID.
abbrev pub row_before : ℕ × Bytes → ℕ × Bytes → Bool
row_before a b = ltb a.0 b.0

unfoldable pub format_rows : List (ℕ × Bytes) → Bytes
unfolding decimal
format_rows [] = []
format_rows ((index, uuid) ∷ rows) =
    pad10 (decimal index) ++ codes " " ++ uuid ++ 10 ∷ format_rows rows

unfoldable pub format_slave_table : List (ℕ × Bytes) → Bytes
unfolding sort_by format_rows
format_slave_table rows =
    pad10 (codes "SlaveIdx") ++ codes " UUID" ++ 10 ∷ format_rows (sort_by row_before rows)

format_slave_table_runs :
    format_slave_table ((3, codes "aa") ∷ (1, codes "bb") ∷ [])
    ≡ codes "SlaveIdx   UUID\n1          bb\n3          aa\n"
unfolding format_slave_table
format_slave_table_runs = refl
