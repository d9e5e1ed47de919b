-- ===== src/Slave/Request.antt =====
-- src/cli/slave_config.cc: `ParseSlaveConfig` and its helpers, the branch that is not Windows.
use encos_cli.Base.{
  ℕ, ◌+◌, ◌*◌, Bool, true, false, not, ◌&&◌, ◌||◌, Option, none, some, List, [], ◌∷◌, Bytes, codes,
  leb, ltb, ◌==◌, ◌=:◌, map, if◌then◌else◌, Result, ok, ◌>>=◌, ◌>>◌, length, is_empty, starts_with,
}
use encos_cli.Number.{stoul, digit_value}
use encos_cli.Firmware.Words.{require}
use encos_cli.Firmware.Status.{all_digits}
use encos_cli.Firmware.Load.{lower}

-- The UUID of a request that names none is 16 zeros.
pub record SlaveConfigTarget : Type 0 where
  pub serial : Bool
  pub endpoint : Bytes
  pub slave : Option ℕ
  pub uuid : Bytes

pub record SlaveConfigRequest : Type 0 where
  pub target : SlaveConfigTarget
  pub commands : List Bytes
  pub download : Option Bytes

abbrev pub is_serial_endpoint : Bytes → Bool
is_serial_endpoint name = starts_with name (codes "/dev/")

-- `Number(value)`.
unfoldable pub slave_number : Bytes → Result ℕ
unfolding all_digits stoul
slave_number value = do
  done ←
      require (not (is_empty value) && (leb (length value) 3 && all_digits value))
        "Slave ID must be 0..252"
  id ← stoul 10 value
  done ← require (leb id.0 252) "Slave ID must be 0..252 (.254 is reserved for host)"
  ok id.0

-- `kGatewayModes` and `FirmwareModeName`.
unfoldable pub firmware_mode_name : Bytes → Option Bytes
firmware_mode_name token =
    if token =: "ecat"
    then some (codes "ECAT")
    else if token =: "enet" || token =: "udp"
    then some (codes "UDP")
    else if token =: "usb3can"
    then some (codes "USB3CAN")
    else if token =: "usb8can"
    then some (codes "USB8CAN")
    else if token =: "sim"
    then some (codes "SIM")
    else if token =: "simsensors"
    then some (codes "SIMSENSORS")
    else none

-- `s.find(p) != npos`.
unfoldable pub has_part : Bytes → Bytes → Bool
has_part [] p = starts_with [] p
has_part (c ∷ s) p = starts_with (c ∷ s) p || has_part s p

-- `IsEthercatPlugin(name)`.
unfoldable pub is_ethercat_plugin : Bytes → Bool
unfolding has_part
is_ethercat_plugin name = has_part (map lower name) (codes "ethercat")

-- The loop over the colons; there is always a first part.
abbrev pub onto_first : ℕ → Bytes × List Bytes → Bytes × List Bytes
onto_first c (first, rest) = (c ∷ first, rest)

abbrev pub new_first : Bytes × List Bytes → Bytes × List Bytes
new_first (first, rest) = ([], first ∷ rest)

unfoldable pub split_colons : Bytes → Bytes × List Bytes
split_colons [] = ([], [])
split_colons (c ∷ s) =
    let rest = split_colons s in if c == b':' then new_first rest else onto_first c rest

-- `pos`: what stands there, what is behind it, and whether it is the first argument.
unfoldable pub find_target : Bool → List Bytes → Option (Bool × Bytes × List Bytes)
find_target first [] = none
find_target first (argument ∷ arguments) =
    let rest = find_target false arguments in
    if starts_with argument (codes "--") then rest else some (first, argument, arguments)

unfoldable pub without_dashes : Bytes → Bytes
without_dashes [] = []
without_dashes (c ∷ s) = let rest : Bytes = without_dashes s in if c == b'-' then rest else c ∷ rest

unfoldable pub all_hex : Bytes → Bool
all_hex [] = true
all_hex (c ∷ s) = ltb (digit_value c) 16 && all_hex s

-- `std::stoul(hex.substr(i * 2, 2), nullptr, 16)` for each pair.
unfoldable pub hex_pairs : Bytes → Bytes
hex_pairs (high ∷ low ∷ s) = (digit_value high * 16 + digit_value low) ∷ hex_pairs s
hex_pairs _ = []

unfoldable pub any_nonzero : Bytes → Bool
any_nonzero [] = false
any_nonzero (b ∷ bytes) = not (b == 0) || any_nonzero bytes

abbrev pub zeros16 : Bytes
zeros16 = 0 ∷ 0 ∷ 0 ∷ 0 ∷ 0 ∷ 0 ∷ 0 ∷ 0 ∷ 0 ∷ 0 ∷ 0 ∷ 0 ∷ 0 ∷ 0 ∷ 0 ∷ 0 ∷ []

unfoldable pub parse_uuid : Bytes → Result Bytes
unfolding without_dashes all_hex hex_pairs any_nonzero
parse_uuid id = do
  done ←
      require (length (without_dashes id) == 32 && all_hex (without_dashes id))
        "UUID must contain 32 hex digits"
  done ← require (any_nonzero (hex_pairs (without_dashes id))) "UUID must be nonzero"
  ok (hex_pairs (without_dashes id))

-- The third part of a target.
abbrev pub target_at : Bytes → Option ℕ → Bytes → SlaveConfigTarget
target_at endpoint slave uuid = record {
  serial = false;
  endpoint = endpoint;
  slave = slave;
  uuid = uuid;
}

unfoldable pub with_id : Bytes → Bytes → Result SlaveConfigTarget
unfolding slave_number parse_uuid
with_id endpoint id =
    if leb (length id) 3
    then slave_number id >>= (λ n. ok (target_at endpoint (some n) zeros16))
    else parse_uuid id >>= (λ uuid. ok (target_at endpoint none uuid))

-- The parts behind the first, once the first has matched; `IFNAMSIZ` is 16.
unfoldable pub parse_slave_target : List Bytes → Option (Result SlaveConfigTarget)
unfolding with_id
parse_slave_target (endpoint ∷ []) = some (
    require (is_serial_endpoint endpoint) "CDC target requires a /dev/... or COMx serial device"
    >> ok (record { serial = true; endpoint = endpoint; slave = none; uuid = zeros16 }))
parse_slave_target (endpoint ∷ id ∷ []) = some (
    require (not (is_empty endpoint) && ltb (length endpoint) 16) "Invalid network interface name"
    >> with_id endpoint id)
parse_slave_target _ = none

-- A target that does not match is left to the other commands.
unfoldable pub match_target : Bytes → Option (Result SlaveConfigTarget)
unfolding split_colons is_ethercat_plugin parse_slave_target
match_target text =
    let parts = split_colons text in
    if parts.0 =: "Ethernet" || (is_ethercat_plugin parts.0 && length parts.1 == 1)
    then parse_slave_target parts.1
    else none
