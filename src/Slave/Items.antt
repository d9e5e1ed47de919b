-- ===== src/Slave/Items.antt =====
-- src/cli/slave_config.cc: the items of a slave request, and `ParseSlaveConfig` as a whole.
pub mod Digits
pub mod Laws
pub mod Address
use encos_cli.Base.{
  ℕ, zero, suc, ◌+◌, ◌-◌, ◌*◌, ◌%◌, ◌/◌, ◌^◌, Bool, true, false, not, ◌&&◌, ◌||◌, Option, none,
  some, List, [], ◌∷◌, ◌++◌, Bytes, codes, leb, ltb, ◌==◌, ◌=:◌, map, if◌then◌else◌, Result, ok,
  err, runtime_error, ◌>>=◌, ◌>>◌, throw_if, length, is_empty, ◌≡◌, refl, String,
}
use encos_cli.Number.{decimal}
use encos_cli.Firmware.Words.{require}
use encos_cli.Firmware.Transfer.{contains}
use encos_cli.Slave.Request.{
  SlaveConfigTarget, SlaveConfigRequest, slave_number, firmware_mode_name, find_target,
  match_target,
}

-- The commands of an item, or the file of a download.
abbrev pub Item : Type 0
Item = List Bytes × Option Bytes

abbrev pub commands_only : List Bytes → Item
commands_only commands = (commands, none)

-- `{command, "CONFIG SAVE", "REBOOT"}`.
abbrev pub saved : Bytes → Item
saved command = commands_only (command ∷ codes "CONFIG SAVE" ∷ codes "REBOOT" ∷ [])

unfoldable pub join_words : Bytes → List Bytes → Bytes
join_words word [] = word
join_words word (next ∷ words) = word ++ b' ' ∷ join_words next words

abbrev pub parse_download : Bool → List Bytes → Result Item
parse_download serial values = do
  done ← require serial "download requires a USB CDC target"
  download_path values
  where
    download_path : List Bytes → Result Item
    download_path (path ∷ []) =
        require (not (is_empty path)) "download requires exactly one .bin or .elf path"
        >> ok ([], some path)
    download_path _ = err (runtime_error "download requires exactly one .bin or .elf path" [])

unfoldable pub parse_raw : List Bytes → Result Item
unfolding join_words contains
parse_raw [] = err (runtime_error "raw requires a CDC command" [])
parse_raw (word ∷ words) =
    let command : Bytes = join_words word words in
    require
      (not (contains 13 command || contains 10 command)
        && (not (is_empty command) && ltb (length command) 36))
      "raw command must be one line, at most 35 bytes"
    >> ok (commands_only (command ∷ []))

-- `values.size() == 1 || (values.size() == 2 && values[1] == "get")`, of what is behind the item.
abbrev pub is_get : List Bytes → Bool
is_get [] = true
is_get (word ∷ []) = word =: "get"
is_get _ = false

-- `values.size() == 3 && values[1] == "set"`.
abbrev pub set_value : List Bytes → Option Bytes
set_value (word ∷ value ∷ []) = if word =: "set" then some value else none
set_value _ = none

abbrev pub mode_commands : Option Bytes → Result Item
mode_commands none =
    err (runtime_error "Mode must be ecat, enet, udp, usb3can, usb8can, sim or simsensors" [])
mode_commands (some mode) = ok (saved (codes "MODE SET " ++ mode))

-- The checks of an address, as a number with its first byte the highest.
abbrev pub ip_commands : Bytes → Option ℕ → Result Item
ip_commands value none = err (runtime_error "Invalid IPv4 address" [])
ip_commands value (some ip) =
    require (ip / 256 == 0xc0a864 && (ltb 0 (ip % 256) && ltb (ip % 256) 254))
      "Slave IP must be 192.168.100.1..253"
    >> ok (saved (codes "NET SETIP " ++ value))

abbrev pub slave_commands : ℕ → Item
slave_commands id = saved (codes "NET SETIP 192.168.100." ++ decimal (id + 1))

-- `inet_pton` is the C library's, with `ntohl` on what it gives; `help` is the text of the help.
module _ (inet_pton : Bytes → Option ℕ) (help : Bytes) where
  abbrev pub set_item : Bytes → Option Bytes → Result Item
  set_item item none = err (runtime_error "Expected <ip|slave|mode> set <value>" [])
  set_item item (some value) =
      if item =: "mode"
      then mode_commands (firmware_mode_name value)
      else if item =: "slave"
      then slave_number value >>= (λ id. ok (slave_commands id))
      else ip_commands value (inet_pton value)

  abbrev pub parse_setting : Bytes → List Bytes → Result Item
  parse_setting item values = do
    done ←
        require (item =: "ip" || (item =: "slave" || item =: "mode"))
          "Unknown slave item; use ip, slave, mode, version, reboot, raw or download"
    if is_get values
        then ok
            (commands_only ((if item =: "mode" then codes "MODE GET" else codes "NET GET") ∷ []))
        else set_item item (set_value values)

  -- The values behind the target.
  unfoldable pub parse_item : Bool → List Bytes → Result Item
  unfolding parse_raw firmware_mode_name slave_number decimal
  parse_item serial [] = err (runtime_error "" help)
  parse_item serial (item ∷ values) =
      if item =: "download"
      then parse_download serial values
      else if item =: "raw"
      then parse_raw values
      else if item =: "version"
      then require (is_get values) "version is read-only; expected version [get]"
        >> ok (commands_only (codes "VERSION GET" ∷ []))
      else if item =: "reboot"
      then require (length values == 0) "reboot takes no values"
        >> ok (commands_only (codes "REBOOT" ∷ []))
      else parse_setting item values

  abbrev pub with_target :
      Bool → List Bytes → Option (Result SlaveConfigTarget) → Result (Option SlaveConfigRequest)
  with_target first values none = ok none
  with_target first values (some checked) = do
    done ← require first "Motor options are not supported in slave configuration mode"
    target ← checked
    item ← parse_item target.serial values
    ok (some (record { target = target; commands = item.0; download = item.1 }))

  abbrev pub at_target : Option (Bool × Bytes × List Bytes) → Result (Option SlaveConfigRequest)
  at_target none = ok none
  at_target (some (first, target, values)) = with_target first values (match_target target)

  -- `ParseSlaveConfig(args)`; none where the arguments are another command's.
  unfoldable pub parse_slave_config : List Bytes → Result (Option SlaveConfigRequest)
  unfolding find_target match_target parse_item
  parse_slave_config [] = ok none
  parse_slave_config (command ∷ arguments) =
      if command =: "config" then at_target (find_target true arguments) else ok none
