-- ===== src/Slave/Packets.antt =====
-- src/cli/slave_config.cc: `Packet`, `CheckedReply`, and `Command`, `Scan` and the tests of
-- `Exchange` of `UdpConfig`.
pub mod Laws
pub mod Scan
use encos_cli.Base.{
  ℕ, zero, suc, ◌+◌, ◌-◌, ◌*◌, ◌%◌, ◌/◌, Bool, true, false, not, ◌&&◌, ◌||◌, Option, none, some,
  List, [], ◌∷◌, ◌++◌, Bytes, codes, leb, ltb, ◌==◌, if◌then◌else◌, Result, ok, err, runtime_error,
  ◌>>=◌, ◌>>◌, throw_if, length, is_empty, str_eq, starts_with, up_to, behind, drop, take,
}
use encos_cli.Base.Vectors.{replicate, copy_at, slice, get_or}
use encos_cli.Number.{decimal}
use encos_cli.Firmware.Words.{require, word_bytes, little_endian, put}
use encos_cli.Firmware.Transfer.{trim_line_end}
use encos_cli.Slave.Request.{any_nonzero}

-- `Packet(type, request, target)`.
unfoldable pub packet : ℕ → ℕ → Bytes → Bytes
unfolding copy_at put
packet type request uuid =
    let magic : Bytes = copy_at (replicate 64 0) 0 (codes "EMM1") in
    let typed : Bytes = copy_at magic 4 (1 ∷ type ∷ 64 ∷ []) in
    let numbered : Bytes = put typed 8 request in copy_at numbered 12 uuid

-- `CheckedReply(reply)`.
unfoldable pub checked_reply : Bytes → Result Bytes
unfolding trim_line_end
checked_reply reply = do
  throw_if (not (starts_with (trim_line_end reply) (codes "OK ")))
      (runtime_error "Slave configuration failed: " (trim_line_end reply))
  ok (trim_line_end reply)

-- The request of `UdpConfig::Command`.
unfoldable pub command_packet : Bytes → ℕ → Bytes → Result Bytes
unfolding packet copy_at
command_packet command request uuid =
    require (ltb (length command) 36) "UDP management command must be at most 35 bytes"
    >> ok (copy_at (packet 12 request uuid) 28 command)

-- The rest of `UdpConfig::Command`, on the response.
abbrev pub ended : Option Bytes → Bytes → Result Bytes
ended none text = err (runtime_error "Unterminated management response" [])
ended (some rest) text = checked_reply text

unfoldable pub response_text : Bytes → Result Bytes
unfolding checked_reply up_to behind
response_text response = ended (behind 0 (drop 28 response)) (up_to 0 (drop 28 response))

-- A datagram, with where it came from: the port, the address as four bytes, and whether the
-- interface is the one of the target.
pub record Datagram : Type 0 where
  pub bytes : Bytes
  pub port : ℕ
  pub source : Bytes
  pub on_interface : Bool

abbrev pub expected_size : ℕ → ℕ
expected_size type = if type == 13 then 256 else 64

-- `wanted` is the address of the target; none where the request is broadcast.
abbrev pub from_wanted : Option Bytes → Bytes → Bool
from_wanted none source = true
from_wanted (some wanted) source = str_eq source wanted

-- The tests of a round of `Exchange`: a datagram that fails one is skipped.
unfoldable pub all_hold : List Bool → Bool
all_hold [] = true
all_hold (test ∷ tests) = test && all_hold tests

abbrev pub response_tests : ℕ → Bool → Bytes → Option Bytes → Bytes → Datagram → List Bool
response_tests type check_uuid uuid wanted request d =
    (length d.bytes == expected_size type)
    ∷ (d.port == 5001)
    ∷ str_eq (take 4 d.bytes) (codes "EMM1")
    ∷ (get_or d.bytes 4 0 == 1)
    ∷ (get_or d.bytes 5 0 == type)
    ∷ (little_endian (slice d.bytes 6 2) == expected_size type)
    ∷ (little_endian (slice d.bytes 8 4) == little_endian (slice request 8 4))
    ∷ d.on_interface
    ∷ from_wanted wanted d.source
    ∷ (not (type == 2) || str_eq (slice d.bytes 28 4) d.source)
    ∷ (not check_uuid || str_eq uuid (slice d.bytes 12 16))
    ∷ []

unfoldable pub is_response : ℕ → Bool → Bytes → Option Bytes → Bytes → Datagram → Bool
unfolding str_eq little_endian all_hold
is_response type check_uuid uuid wanted request d =
    all_hold (response_tests type check_uuid uuid wanted request d)

-- The datagrams that `Exchange` collects until its deadline.
unfoldable pub collect : ℕ → Bytes → Option Bytes → Bytes → List Datagram → List Bytes
unfolding is_response
collect type uuid wanted request [] = []
collect type uuid wanted request (d ∷ arrived) =
    let rest : List Bytes = collect type uuid wanted request arrived in
    if is_response type false uuid wanted request d then d.bytes ∷ rest else rest

-- The first datagram that answers, which `Exchange` returns where it does not collect.
unfoldable pub first_response :
    ℕ → Bool → Bytes → Option Bytes → Bytes → List Datagram → Result Bytes
unfolding is_response
first_response type check_uuid uuid wanted request [] =
    err (
      runtime_error "No slave management response (new firmware required for text configuration)"
        [])
first_response type check_uuid uuid wanted request (d ∷ arrived) =
    let rest : Result Bytes = first_response type check_uuid uuid wanted request arrived in
    if is_response type check_uuid uuid wanted request d then ok d.bytes else rest

-- The slaves by number; the UUID is kept as its 16 bytes, which the source writes in hexadecimal.
abbrev pub Devices : Type 0
Devices = List (ℕ × Bytes)

unfoldable pub find_device : ℕ → Devices → Option Bytes
find_device id [] = none
find_device id ((n, uuid) ∷ devices) =
    let rest : Option Bytes = find_device id devices in if n == id then some uuid else rest

-- `devices[id] = uuid` of the ordered map.
unfoldable pub set_device : ℕ → Bytes → Devices → Devices
set_device id uuid [] = (id, uuid) ∷ []
set_device id uuid ((n, other) ∷ devices) =
    let rest : Devices = set_device id uuid devices in
    if ltb id n
    then (id, uuid) ∷ (n, other) ∷ devices
    else if id == n
    then (id, uuid) ∷ devices
    else (n, other) ∷ rest

-- The address and the mask of a slave's own network, 192.168.100.1 to 253.
unfoldable pub is_slave_address : Bytes → Bool
is_slave_address p =
    get_or p 28 0 == 192
    && (get_or p 29 0 == 168
        && (get_or p 30 0 == 100
            && (leb 1 (get_or p 31 0)
                && (leb (get_or p 31 0) 253
                    && (get_or p 32 0 == 255
                        && (get_or p 33 0 == 255
                            && (get_or p 34 0 == 255 && get_or p 35 0 == 0)))))))

abbrev pub agrees : Option Bytes → Bytes → Bool
agrees none uuid = true
agrees (some known) uuid = str_eq known uuid

-- A round of `Scan`.
unfoldable pub scan_packet : Bytes → Devices → Result Devices
unfolding is_slave_address any_nonzero find_device set_device
scan_packet p devices =
    let uuid : Bytes = slice p 12 16 in
    let id : ℕ = get_or p 31 0 - 1 in
    if is_slave_address p && any_nonzero uuid
    then require (agrees (find_device id devices) uuid) "Conflicting slave IDs in discovery"
      >> ok (set_device id uuid devices)
    else ok devices

unfoldable pub scan_packets : List Bytes → Devices → Result Devices
unfolding scan_packet
scan_packets [] devices = ok devices
scan_packets (p ∷ packets) devices = scan_packet p devices >>= scan_packets packets

-- `UdpConfig::Scan`, on the datagrams that arrive.
unfoldable pub scan : ℕ → List Datagram → Result Devices
unfolding packet collect scan_packets
scan request arrived =
    scan_packets (collect 2 (replicate 16 0) none (packet 1 request (replicate 16 0)) arrived) []
