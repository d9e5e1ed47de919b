-- ===== src/Slave/Items/Laws.antt =====
-- Every command that ParseSlaveConfig makes fits a packet.
use encos_cli.Base.{
  ℕ, ◌+◌, ◌%◌, ◌/◌, ◌≤◌, ◌<◌, ◌≡◌, refl, Bool, true, false, not, ◌&&◌, ◌||◌, Option, none, some,
  List, [], ◌∷◌, ◌++◌, Bytes, codes, leb, ltb, ◌==◌, ◌=:◌, if◌then◌else◌, Result, ok, ◌>>◌, length,
  is_empty, String, arith, All, leb→le, Ensures, Ensures-bind, Ensures-any, Ensures-ok,
  length-append,
}
use encos_cli.Number.{decimal, stoul}
use encos_cli.Firmware.Status.{all_digits}
use encos_cli.Firmware.Words.{require}
use encos_cli.Firmware.Transfer.{contains}
use encos_cli.Slave.Request.{
  SlaveConfigTarget, SlaveConfigRequest, slave_number, firmware_mode_name, find_target,
  match_target,
}
use encos_cli.Slave.Items.{
  Item, commands_only, saved, parse_download, parse_raw, join_words, is_get, set_value,
  mode_commands, ip_commands, slave_commands, set_item, parse_setting, parse_item, with_target,
  at_target, parse_slave_config,
}
use encos_cli.Slave.Items.Digits.{length-decimal}

-- A command has at most 35 bytes.
abbrev pub AllFit : List Bytes → Type 0
AllFit = All (λ c. length c < 36)

abbrev ItemFits : Item → Type 0
ItemFits item = AllFit item.0

Ensures-if :
    {A : Type 0} (Q : A → Type 0) (b : Bool) (x y : Result A)
    → (b ≡ true → Ensures Q x)
    → (b ≡ false → Ensures Q y)
    → Ensures Q (if b then x else y)
Ensures-if Q true x y hx hy = hx refl
Ensures-if Q false x y hx hy = hy refl

Ensures-require :
    {A : Type 0} (Q : A → Type 0) (b : Bool) (message : String) (r : Result A)
    → (b ≡ true → Ensures Q r)
    → Ensures Q (require b message >> r)
Ensures-require Q true message r h = h refl
Ensures-require Q false message r h = tt

saved-Fits : (command : Bytes) → length command < 36 → ItemFits (saved command)
saved-Fits command h = (h, (omega arith, (omega arith, tt)))

parse_raw-Fits : (values : List Bytes) → Ensures ItemFits (parse_raw values)
unfolding parse_raw
parse_raw-Fits [] = tt
parse_raw-Fits (word ∷ words) =
    let command : Bytes = join_words word words in
    Ensures-require ItemFits
      (not (contains 13 command || contains 10 command)
        && (not (is_empty command) && ltb (length command) 36))
      _ (ok (commands_only (command ∷ []))) (λ h. (ground arith, tt))

-- The names of the modes are short.
abbrev IsShort : Option Bytes → Type 0
IsShort none = Unit
IsShort (some mode) = length mode ≤ 10

IsShort-if : (b : Bool) (x y : Option Bytes) → IsShort x → IsShort y → IsShort (if b then x else y)
IsShort-if true x y hx hy = hx
IsShort-if false x y hx hy = hy

firmware_mode_name-IsShort : (token : Bytes) → IsShort (firmware_mode_name token)
unfolding firmware_mode_name
firmware_mode_name-IsShort token = IsShort-if (token =: "ecat") _ _ (omega arith) (
    IsShort-if (token =: "enet" || token =: "udp") _ _ (omega arith) (
      IsShort-if (token =: "usb3can") _ _ (omega arith) (
        IsShort-if (token =: "usb8can") _ _ (omega arith) (
          IsShort-if (token =: "sim") _ _ (omega arith)
            (IsShort-if (token =: "simsensors") _ _ (omega arith) tt)))))

mode_commands-Fits : (mode : Option Bytes) → IsShort mode → Ensures ItemFits (mode_commands mode)
mode_commands-Fits none h = tt
mode_commands-Fits (some mode) h =
    saved-Fits (codes "MODE SET " ++ mode) (omega (arith, length-append (codes "MODE SET ") mode))

slave_number-bound : (value : Bytes) → Ensures (λ id. id ≤ 252) (slave_number value)
unfolding slave_number
slave_number-bound value =
    Ensures-require (λ id. id ≤ 252)
      (not (is_empty value) && (leb (length value) 3 && all_digits value)) _ _
      (λ h.
        Ensures-bind (λ id. Unit {0}) (λ id. id ≤ 252) (stoul 10 value) _
          (Ensures-any (stoul 10 value))
          (λ id h1.
            Ensures-require (λ n. n ≤ 252) (leb id.0 252) _ (ok id.0) (λ h2. leb→le id.0 252 h2)))

-- The C library takes dotted decimals, of 15 characters at most.
abbrev pub IsDotted : (Bytes → Option ℕ) → Type 0
IsDotted inet_pton = (text : Bytes) (ip : ℕ) → inet_pton text ≡ some ip → length text ≤ 15

ip_commands-Fits :
    (value : Bytes) (ip : Option ℕ)
    → ((n : ℕ) → ip ≡ some n → length value ≤ 15)
    → Ensures ItemFits (ip_commands value ip)
ip_commands-Fits value none h = tt
ip_commands-Fits value (some ip) h =
    Ensures-require ItemFits (ip / 256 == 0xc0a864 && (ltb 0 (ip % 256) && ltb (ip % 256) 254)) _
      (ok (saved (codes "NET SETIP " ++ value)))
      (λ h1.
        saved-Fits (codes "NET SETIP " ++ value)
          (omega (arith, length-append (codes "NET SETIP ") value, h ip refl)))

slave_commands-Fits : (id : ℕ) → id ≤ 252 → ItemFits (slave_commands id)
slave_commands-Fits id h = saved-Fits (codes "NET SETIP 192.168.100." ++ decimal (id + 1)) (
    omega (
      arith,
      length-append (codes "NET SETIP 192.168.100.") (decimal (id + 1)),
      length-decimal (id + 1) (omega arith),
    ))

module _ (inet_pton : Bytes → Option ℕ) (dotted : IsDotted inet_pton) (help : Bytes) where
  set_item-Fits :
      (item : Bytes) (value : Option Bytes) → Ensures ItemFits (set_item inet_pton help item value)
  set_item-Fits item none = tt
  set_item-Fits item (some value) =
      Ensures-if ItemFits (item =: "mode") _ _
        (λ e. mode_commands-Fits (firmware_mode_name value) (firmware_mode_name-IsShort value))
        (λ e.
          Ensures-if ItemFits (item =: "slave") _ _
            (λ e1.
              Ensures-bind (λ id. id ≤ 252) ItemFits (slave_number value)
                (λ id. ok (slave_commands id)) (slave_number-bound value) slave_commands-Fits)
            (λ e1. ip_commands-Fits value (inet_pton value) (dotted value)))

  query_fits : (b : Bool) → length (if b then codes "MODE GET" else codes "NET GET") < 36
  query_fits true = omega arith
  query_fits false = omega arith

  parse_setting-Fits :
      (item : Bytes) (values : List Bytes)
      → Ensures ItemFits (parse_setting inet_pton help item values)
  parse_setting-Fits item values =
      Ensures-require ItemFits (item =: "ip" || (item =: "slave" || item =: "mode")) _ _ (λ h.
        Ensures-if ItemFits (is_get values) _ _ (λ e. (query_fits (item =: "mode"), tt))
          (λ e. set_item-Fits item (set_value values)))

  parse_download-Fits :
      (serial : Bool) (values : List Bytes) → Ensures ItemFits (parse_download serial values)
  parse_download-Fits false values = tt
  parse_download-Fits true [] = tt
  parse_download-Fits true (path ∷ []) =
      Ensures-require ItemFits (not (is_empty path)) _ (ok ([], some path)) (λ h. tt)
  parse_download-Fits true (path ∷ more ∷ values) = tt

  parse_item-Fits :
      (serial : Bool) (values : List Bytes)
      → Ensures ItemFits (parse_item inet_pton help serial values)
  unfolding parse_item
  parse_item-Fits serial [] = tt
  parse_item-Fits serial (item ∷ values) =
      Ensures-if ItemFits (item =: "download") _ _ (λ e. parse_download-Fits serial values)
        (λ e.
          Ensures-if ItemFits (item =: "raw") _ _ (λ e. parse_raw-Fits values)
            (λ e.
              Ensures-if ItemFits (item =: "version") _ _
                (λ e. Ensures-require ItemFits (is_get values) _ _ (λ h. (omega arith, tt)))
                (λ e.
                  Ensures-if ItemFits (item =: "reboot") _ _
                    (λ e.
                      Ensures-require ItemFits (length values == 0) _ _ (λ h. (omega arith, tt)))
                    (λ e. parse_setting-Fits item values))))

  -- Of a request: none that is not for a slave says anything.
  abbrev RequestFits : Option SlaveConfigRequest → Type 0
  RequestFits none = Unit
  RequestFits (some request) = AllFit request.commands

  with_target-Fits :
      (first : Bool) (values : List Bytes) (target : Option (Result SlaveConfigTarget))
      → Ensures RequestFits (with_target inet_pton help first values target)
  with_target-Fits first values none = tt
  with_target-Fits first values (some checked) = Ensures-require RequestFits first _ _ (λ h.
      Ensures-bind (λ t. Unit {0}) RequestFits checked _ (Ensures-any checked)
        (λ target h1.
          Ensures-bind ItemFits RequestFits (parse_item inet_pton help target.serial values) _
            (parse_item-Fits target.serial values) (λ item fits. fits)))

  at_target-Fits :
      (found : Option (Bool × Bytes × List Bytes))
      → Ensures RequestFits (at_target inet_pton help found)
  at_target-Fits none = tt
  at_target-Fits (some (first, target, values)) =
      with_target-Fits first values (match_target target)

  parse_slave_config-Fits :
      (args : List Bytes) → Ensures RequestFits (parse_slave_config inet_pton help args)
  unfolding parse_slave_config
  parse_slave_config-Fits [] = tt
  parse_slave_config-Fits (command ∷ arguments) =
      Ensures-if RequestFits (command =: "config") _ _
        (λ e. at_target-Fits (find_target true arguments)) (λ e. tt)

-- Where the C library takes no address of more than 15 characters, every command of a request that
-- is parsed has at most 35 bytes, which is what a management packet has room for.
pub parse_slave_config-AllFit :
    (inet_pton : Bytes → Option ℕ) (dotted : IsDotted inet_pton) (help : Bytes) (args : List Bytes)
    (request : SlaveConfigRequest)
    → parse_slave_config inet_pton help args ≡ ok (some request)
    → AllFit request.commands
parse_slave_config-AllFit inet_pton dotted help args request h =
    Ensures-ok (RequestFits inet_pton dotted help) (parse_slave_config inet_pton help args)
      (parse_slave_config-Fits inet_pton dotted help args) h
