-- ===== src/Tests/Slaves.antt =====
-- The configuration of slaves at concrete inputs.
use encos_cli.Base.{
  ℕ, ◌≤◌, ◌≡◌, refl, Bool, true, false, none, some, List, [], ◌∷◌, ◌++◌, Bytes, Option, codes, ok,
  arith, str_eq, str_eq_iff, ◌=:◌, if◌then◌else◌, length, Bool-cases, inl, inr, drop, up_to,
  starts_with,
}
use mathlib.Core.Path.{subst, sym}
use encos_cli.Base.Vectors.{replicate, copy_at, slice}
use encos_cli.Number.{decimal}
use encos_cli.Firmware.Words.{little_endian, put}
use encos_cli.Slave.Request.{SlaveConfigRequest}
use encos_cli.Slave.Items.{parse_item, parse_slave_config}
use encos_cli.Slave.Items.Laws.{IsDotted, AllFit, parse_slave_config-AllFit}
use encos_cli.Slave.Items.Address.{parse_item-slave_ip}
use encos_cli.Firmware.Transfer.{Serial}
use encos_cli.Slave.Run.{run_serial}
use encos_cli.Slave.Run.Laws.{AllOk, run_serial_answered}
use encos_cli.Slave.Packets.{packet, command_packet, Datagram, first_response, scan}
use encos_cli.Slave.Packets.Laws.{command_packet-text}
use encos_cli.Slave.Packets.Scan.{IsScan, scan-IsScan, first_response-matches}

-- A C library that knows one address.
abbrev one_address : Bytes → Option ℕ
one_address text = if text =: "192.168.100.7" then some 0xc0a86407 else none

one_address-IsDotted : IsDotted one_address
one_address-IsDotted text ip h = elim (Bool-cases (text =: "192.168.100.7")) [
  | inl e ↦
      let same : text ≡ codes "192.168.100.7" = (str_eq_iff text (codes "192.168.100.7")).0 e in
      subst (λ t. length t ≤ 15) (sym same) (omega arith)
  | inr e ↦ absurd (nothing (text =: "192.168.100.7") e h)
]
  where
    nothing : (b : Bool) → b ≡ false → (if b then some 0xc0a86407 else none) ≡ some ip → ⊥
    nothing true e h = cc
    nothing false e h = cc

abbrev set_ip : SlaveConfigRequest
set_ip = record {
  target = record {
    serial = false;
    endpoint = codes "eth0";
    slave = some 3;
    uuid = replicate 16 0;
  };
  commands = codes "NET SETIP 192.168.100.7" ∷ codes "CONFIG SAVE" ∷ codes "REBOOT" ∷ [];
  download = none;
}

set_ip_parsed :
    parse_slave_config one_address [] (
      codes "config"
      ∷ codes "Ethernet:eth0:3"
      ∷ codes "ip"
      ∷ codes "set"
      ∷ codes "192.168.100.7"
      ∷ [])
    ≡ ok (some set_ip)
unfolding parse_slave_config str_eq starts_with
set_ip_parsed = refl

parse_slave_config-AllFit_example : AllFit set_ip.commands
parse_slave_config-AllFit_example =
    parse_slave_config-AllFit one_address one_address-IsDotted []
      (codes "config"
        ∷ codes "Ethernet:eth0:3"
        ∷ codes "ip"
        ∷ codes "set"
        ∷ codes "192.168.100.7"
        ∷ [])
      set_ip set_ip_parsed

parse_item-slave_ip_example :
    parse_item one_address [] true (codes "slave" ∷ codes "set" ∷ codes "6" ∷ [])
    ≡ parse_item one_address [] true (codes "ip" ∷ codes "set" ∷ codes "192.168.100.7" ∷ [])
unfolding decimal str_eq
parse_item-slave_ip_example = parse_item-slave_ip one_address [] true 6 (omega arith) refl

abbrev uuid_ones : Bytes
uuid_ones = replicate 16 1

command_packet-text_example :
    (p : Bytes) × (command_packet (codes "NET GET") 5 uuid_ones ≡ ok p)
    × (length p ≡ 64)
    × (up_to 0 (drop 28 p) ≡ codes "NET GET")
    × (slice p 5 1 ≡ 12 ∷ [])
    × (little_endian (slice p 8 4) ≡ 5)
    × (slice p 12 16 ≡ uuid_ones)
command_packet-text_example =
    command_packet-text (codes "NET GET") 5 uuid_ones (omega arith) (ground arith) refl
      (omega arith)

-- A gateway that answers a scan from 192.168.100.3.
abbrev scan_answer : Datagram
scan_answer = record {
  bytes = copy_at (packet 2 1 uuid_ones) 28 (192 ∷ 168 ∷ 100 ∷ 3 ∷ 255 ∷ 255 ∷ 255 ∷ 0 ∷ []);
  port = 5001;
  source = 192 ∷ 168 ∷ 100 ∷ 3 ∷ [];
  on_interface = true;
}

scanned : scan 1 (scan_answer ∷ []) ≡ ok ((2, uuid_ones) ∷ [])
unfolding scan
scanned = refl

scan-IsScan_example : IsScan ((2, uuid_ones) ∷ [])
scan-IsScan_example = scan-IsScan 1 (scan_answer ∷ []) ((2, uuid_ones) ∷ []) scanned

abbrev response_bytes : Bytes
response_bytes =
    copy_at (put (copy_at (replicate 256 0) 0 (codes "EMM1" ++ 1 ∷ 13 ∷ 0 ∷ 1 ∷ [])) 8 5) 12
      uuid_ones

abbrev command_answer : Datagram
command_answer = record {
  bytes = response_bytes;
  port = 5001;
  source = 192 ∷ 168 ∷ 100 ∷ 3 ∷ [];
  on_interface = true;
}

answered :
    first_response 13 true uuid_ones
      (some (192 ∷ 168 ∷ 100 ∷ 3 ∷ []))
      (packet 12 5 uuid_ones)
      (scan_answer ∷ command_answer ∷ [])
    ≡ ok response_bytes
unfolding first_response packet put
answered = refl

first_response-matches_example :
    (length response_bytes ≡ 256)
    × (little_endian (slice response_bytes 8 4) ≡ little_endian (slice (packet 12 5 uuid_ones) 8 4))
    × (slice response_bytes 12 16 ≡ uuid_ones)
first_response-matches_example =
    first_response-matches uuid_ones (some (192 ∷ 168 ∷ 100 ∷ 3 ∷ [])) (packet 12 5 uuid_ones)
      (scan_answer ∷ command_answer ∷ []) response_bytes answered

-- A device that answers every command.
abbrev obedient : ℕ → Serial
obedient i = record { opened = true; wrote = true; reply = codes "OK MODE\n" }

abbrev printed : List Bytes
printed = codes "OK MODE" ∷ codes "OK MODE" ∷ []

printed_lines :
    run_serial (codes "/dev/ttyACM0") true obedient (codes "MODE GET" ∷ codes "NET GET" ∷ [])
    ≡ (printed, ok tt)
unfolding run_serial starts_with
printed_lines = refl

run_serial_answered_example : (true ≡ true) × (length printed ≡ 2) × AllOk printed
unfolding run_serial starts_with
run_serial_answered_example =
    run_serial_answered (codes "/dev/ttyACM0") true obedient
      (codes "MODE GET" ∷ codes "NET GET" ∷ []) refl
