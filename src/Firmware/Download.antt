-- ===== src/Firmware/Download.antt =====
-- src/cli/firmware_download_platform.cc: `DownloadFirmware`, over what the platform answers.
pub mod Posts
pub mod Waiting
pub mod Termination
pub mod Preparation
pub mod Installation
pub mod Laws
use encos_cli.Base.{
  ℕ, zero, suc, ◌+◌, ◌-◌, ◌*◌, Bool, true, false, not, ◌&&◌, ◌||◌, Option, none, some, List, [],
  ◌∷◌, ◌++◌, Bytes, codes, ltb, leb, ◌==◌, if◌then◌else◌, is_digit, is_empty, length, str_eq, ◌=:◌,
  String, Result, ok, err, Error, runtime_error, throw_if, ◌>>=◌ as ◌and_then◌,
}
use encos_cli.Firmware.Words.{require}
use encos_cli.Firmware.Load.{File, load_ota_firmware}
use encos_cli.Firmware.Package.{make_ota_package}
use encos_cli.Firmware.Status.{OtaStatus, parse_ota_status, ota_confirmed, check_ota_result}

pub record Identity : Type 0 where
  pub serial : Bytes
  pub location : Bytes

-- What the platform's functions answer, and how they move the world on, the clock in milliseconds.
pub record Platform (W : Type 0) : Type 0 where
  pub now : W → ℕ
  pub sleep_for : ℕ → W → W
  pub identify : Bytes → W → Result Identity × W
  pub command : Bytes → Bytes → W → Result Bytes × W
  pub find_volume : Identity → W → Result Bytes × W
  pub try_mount : Identity → W → Bool × W
  pub find_port : Identity → W → Result Bytes × W
  pub write_package : Bytes → Bytes → W → Result (Unit {0}) × W
  pub what : Error → Bytes

-- What is done to the gateway.
pub data Action : Type 0 where
  sent : Bytes → Bytes → Action
  written : Bytes → Bytes → Action

-- The world, and the actions so far, the last one first.
pub record Session (W : Type 0) : Type 0 where
  pub world : W
  pub log : List Action

-- A piece of the function: none when the fuel of a loop is out.
abbrev pub Run : Type 0 → Type 0 → Type 0
Run W A = Session W → Option (Result A × Session W)

module _ {W A B : Type 0} where
  abbrev pub continue :
      (A → Run W B) → Option (Result A × Session W) → Option (Result B × Session W)
  continue rest none = none
  continue rest (some (err e, s)) = some (err e, s)
  continue rest (some (ok a, s)) = rest a s

  infixl 5 ◌>>=◌
  abbrev pub ◌>>=◌ : Run W A → (A → Run W B) → Run W B
  first >>= rest = λ s. continue rest (first s)

module _ {W A : Type 0} where
  abbrev pub lift : Result A → Run W A
  lift r = λ s. some (r, s)

  abbrev pub returned : List Action → Result A × W → Option (Result A × Session W)
  returned log (r, w) = some (r, record { world = w; log = log })

abbrev pub parsed : Result Bytes → Result OtaStatus
parsed (err e) = err e
parsed (ok reply) = parse_ota_status reply

-- `serial.find_first_not_of("0123456789abcdef") == npos`.
unfoldable pub is_hex : Bytes → Bool
is_hex [] = true
is_hex (c ∷ s) = (is_digit c || (leb b'a' c && leb c b'f')) && is_hex s

-- `volume / name`.
unfoldable pub path_join : Bytes → Bytes → Bytes
path_join [] name = b'/' ∷ name
path_join (c ∷ []) name = if c == b'/' then c ∷ name else c ∷ b'/' ∷ name
path_join (c ∷ d ∷ s) name = c ∷ path_join (d ∷ s) name

-- What is known before the gateway is asked to reboot.
pub record Plan : Type 0 where
  pub identity : Identity
  pub before : OtaStatus
  pub version : ℕ
  pub upgrade : Bytes

-- From the reply to `OTA STATUS` on, up to the output of the plan.
unfoldable pub plan_from : Bytes → Identity → Bytes → Result Plan
unfolding parse_ota_status ota_confirmed make_ota_package
plan_from payload identity reply = parse_ota_status reply and_then λ before.
    require (ota_confirmed before)
      "Gateway is not ready or has an unconfirmed OTA trial; retry after startup"
    and_then λ done.
        require (ltb before.version 0xfffffffe) "OTA version exhausted" and_then λ done.
        make_ota_package payload (before.version + 1) and_then λ upgrade. ok (record {
          identity = identity;
          before = before;
          version = before.version + 1;
          upgrade = upgrade;
        })

module _ {W : Type 0} (platform : Platform W) where
  open platform use {
    now, sleep_for, identify, command, find_volume, try_mount, find_port, write_package, what,
  }

  abbrev pub send : Bytes → Bytes → Run W Bytes
  send endpoint text s = returned (sent endpoint text ∷ s.log) (command endpoint text s.world)

  abbrev pub write_to : Bytes → Bytes → Run W (Unit {0})
  write_to path bytes s = returned (written path bytes ∷ s.log) (write_package path bytes s.world)

  abbrev pub rest_of : Session W → W → Session W
  rest_of s w = record s { world = w }

  -- The first lines of the function: what can be validated before the reboot.
  unfoldable pub prepare : Bytes → Bytes → Bytes → File → Run W Plan
  unfolding load_ota_firmware is_hex plan_from
  prepare endpoint filename extension file = do
    payload ← lift (load_ota_firmware filename extension file)
    identity ← λ s. returned s.log (identify endpoint s.world)
    done ← lift (
        require (length identity.serial == 32 && is_hex identity.serial)
          "Gateway USB serial must be a 32-digit UUID; update the bootloader before using one-click download")
    reply ← send endpoint (codes "OTA STATUS")
    lift (plan_from payload identity reply)

  -- `if (!mount_attempted && ...) mount_attempted = TryMount(identity);`
  abbrev pub mount : Bool → ℕ → Identity → W → Bool × W
  mount attempted start identity w =
      if not attempted && ltb 5000 (now w - start) then try_mount identity w else (attempted, w)

  -- A round behind `FindVolume`: the volume ends the loop, which goes on with `again` otherwise.
  abbrev pub on_volume :
      Result Bytes
      → Session W
      → Option (Result Bytes × Session W)
      → Option (Result Bytes × Session W)
  on_volume (err e) s again = some (err e, s)
  on_volume (ok volume) s again = if is_empty volume then again else some (ok volume, s)

  -- The first loop, which returns the volume; it is empty at the deadline.
  unfoldable pub wait_for_volume : ℕ → Identity → ℕ → ℕ → Bool → Run W Bytes
  wait_for_volume zero identity start deadline attempted s = none
  wait_for_volume (suc fuel) identity start deadline attempted s =
      let found = find_volume identity s.world in
      let mounted = mount attempted start identity found.1 in
      let again : Option (Result Bytes × Session W) =
        wait_for_volume fuel identity start deadline mounted.0
          (rest_of s (sleep_for 200 mounted.1)) in
      if ltb (now s.world) deadline
      then on_volume found.0 (rest_of s found.1) again
      else some (ok [], s)

  -- What a round asks of the port that was found: nothing of no port.
  abbrev pub ask_status : Bytes → Session W → Result OtaStatus × Session W
  ask_status port s =
      let answer = command port (codes "OTA STATUS") s.world in
      (parsed answer.0, record { world = answer.1; log = sent port (codes "OTA STATUS") ∷ s.log })

  abbrev pub confirmed_result :
      OtaStatus → OtaStatus → ℕ → Session W → Option (Result OtaStatus × Session W)
  confirmed_result before after version s =
      some ((check_ota_result before after version and_then λ done. ok after), s)

  -- Behind the question: a confirmed status is checked and ends the loop, an error is kept.
  abbrev pub on_status :
      OtaStatus
      → ℕ
      → Bytes
      → Result OtaStatus
      → Session W
      → (Bytes → Option (Result OtaStatus × Session W))
      → Option (Result OtaStatus × Session W)
  on_status before version last_error (err e) s again = again (what e)
  on_status before version last_error (ok status) s again =
      if ota_confirmed status then confirmed_result before status version s else again last_error

  abbrev pub on_port :
      OtaStatus
      → ℕ
      → Bytes
      → Result Bytes
      → Session W
      → (Bytes → Session W → Option (Result OtaStatus × Session W))
      → Option (Result OtaStatus × Session W)
  on_port before version last_error (err e) s again = some (err e, s)
  on_port before version last_error (ok port) s again =
      if is_empty port
      then again last_error s
      else on_status before version last_error (ask_status port s).0 (ask_status port s).1
          (λ e. again e (ask_status port s).1)

  -- The second loop, which returns the status that confirms the update.
  unfoldable pub wait_for_startup : ℕ → Identity → ℕ → OtaStatus → ℕ → Bytes → Run W OtaStatus
  unfolding parse_ota_status ota_confirmed check_ota_result
  wait_for_startup zero identity deadline before version last_error s = none
  wait_for_startup (suc fuel) identity deadline before version last_error s =
      let found = find_port identity s.world in
      if ltb (now s.world) deadline
      then on_port before version last_error found.0 (rest_of s found.1) (λ e t.
        wait_for_startup fuel identity deadline before version e
          (rest_of t (sleep_for 500 t.world)))
      else some (
        err (runtime_error "Application did not confirm the update within 100 s. " last_error),
        s,
      )

  -- From the volume that was found to the end.
  unfoldable pub write_and_wait : ℕ → Plan → Bytes → Run W OtaStatus
  unfolding path_join wait_for_startup
  write_and_wait fuel plan volume = do
    done ← lift (
        require (not (is_empty volume))
          "OTA USB volume did not mount within 40 s; check automount/udisks and USB permissions")
    found ← λ s. returned s.log (find_volume plan.identity s.world)
    done ← lift (require (str_eq found volume) "OTA USB identity changed before write")
    done ← write_to (path_join volume (codes "usb_device_update.upd")) plan.upgrade
    λ s. wait_for_startup fuel plan.identity (now s.world + 100000) plan.before plan.version [] s

  -- From `OTA ENTER` to the end.
  unfoldable pub install : ℕ → Bytes → Plan → Run W OtaStatus
  unfolding wait_for_volume write_and_wait
  install fuel endpoint plan = do
    reply ← send endpoint (codes "OTA ENTER")
    done ←
        lift (throw_if (not (reply =: "OK OTA REBOOT")) (runtime_error "Cannot enter OTA: " reply))
    volume ← λ s. wait_for_volume fuel plan.identity (now s.world) (now s.world + 40000) false s
    write_and_wait fuel plan volume

  unfoldable pub download_firmware : ℕ → Bytes → Bytes → Bytes → File → Run W OtaStatus
  unfolding prepare install
  download_firmware fuel endpoint filename extension file =
      prepare endpoint filename extension file >>= install fuel endpoint
