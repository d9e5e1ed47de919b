-- ===== src/Tests/Downloads.antt =====
-- The firmware download at concrete inputs.
use encos_cli.Base.{str_eq_iff, ◌≢◌}
use encos_cli.Base.{
  ℕ, ◌+◌, ◌<◌, ◌≤◌, ◌≡◌, ◌⊎◌, refl, true, false, some, [], ◌∷◌, Bytes, codes, ok, err, inl, inr,
  runtime_error, ltb, arith, str_eq, ◌=:◌, if◌then◌else◌,
}
use encos_cli.Base.Vectors.{get_or, replicate}
use encos_cli.Firmware.Words.{little_endian}
use encos_cli.Firmware.Package.{make_ota_package, pack, firmware_image}
use encos_cli.Firmware.Package.Blocks.{unpack}
use encos_cli.Firmware.Package.Laws.{DescribesPayload, make_ota_package-unpack}
use encos_cli.Firmware.Load.{no_file, contents, load_elf, entry}
use encos_cli.Firmware.Load.Laws.{load_elf-segments}
use encos_cli.Firmware.Status.{OtaStatus, Fields, parse_ota_status}
use encos_cli.Firmware.Status.Laws.{render_reply}
use encos_cli.Firmware.Status.Render.{parse_ota_status-render}
use encos_cli.Firmware.Transfer.{interrupted, count, write_package_bytes}
use encos_cli.Firmware.Transfer.Laws.{write_package_bytes_complete}
use encos_cli.Firmware.Download.{Platform, Session, sent, written, prepare, download_firmware}
use encos_cli.Firmware.Download.Termination.{IsForward, ends}
use encos_cli.Firmware.Download.Laws.{
  IsDownloaded, download_firmware_success, download_firmware_refused, download_firmware-ends,
}

abbrev app : Bytes
app = codes "abc"

make_ota_package-unpack_example :
    (upgrade : Bytes) × (image : Bytes) × (make_ota_package app 7 ≡ ok upgrade)
    × (unpack 9 0 7 4099 upgrade ≡ some image)
    × DescribesPayload image app 7
make_ota_package-unpack_example =
    make_ota_package-unpack app 7 refl (omega arith) (omega arith) (omega arith)

-- One segment of two bytes at the entry address.
abbrev elf : Bytes
elf =
    0x7f ∷ 0x45 ∷ 0x4c ∷ 0x46 ∷ 1 ∷ 1 ∷ 1 ∷ 0 ∷ 0 ∷ 0 ∷ 0 ∷ 0 ∷ 0 ∷ 0 ∷ 0 ∷ 0 ∷ 2 ∷ 0 ∷ 243 ∷ 0 ∷ 1
    ∷ 0 ∷ 0 ∷ 0 ∷ 0x00 ∷ 0x10 ∷ 0x04 ∷ 0x80 ∷ 52 ∷ 0 ∷ 0 ∷ 0 ∷ 0 ∷ 0 ∷ 0 ∷ 0 ∷ 0 ∷ 0 ∷ 0 ∷ 0 ∷ 52
    ∷ 0 ∷ 32 ∷ 0 ∷ 1 ∷ 0 ∷ 0 ∷ 0 ∷ 0 ∷ 0 ∷ 0 ∷ 0 ∷ 1 ∷ 0 ∷ 0 ∷ 0 ∷ 84 ∷ 0 ∷ 0 ∷ 0 ∷ 0 ∷ 0 ∷ 0 ∷ 0
    ∷ 0x00 ∷ 0x10 ∷ 0x04 ∷ 0x80 ∷ 2 ∷ 0 ∷ 0 ∷ 0 ∷ 2 ∷ 0 ∷ 0 ∷ 0 ∷ 5 ∷ 0 ∷ 0 ∷ 0 ∷ 0 ∷ 0 ∷ 0 ∷ 0
    ∷ 0x13 ∷ 0x05 ∷ []

elf_loads : load_elf elf ≡ ok (0x13 ∷ 0x05 ∷ [])
unfolding load_elf
elf_loads = refl

load_elf-segments_example :
    (entry ≤ 0x80041000) × (1 < 2) × (get_or (0x13 ∷ 0x05 ∷ []) 1 0 ≡ get_or elf 85 0)
unfolding little_endian
load_elf-segments_example =
    load_elf-segments elf (0x13 ∷ 0x05 ∷ []) 0 1 elf_loads (omega arith) refl (omega arith)

differ : (a b : Bytes) → str_eq a b ≡ false → a ≢ b
differ a b h e = let same = (str_eq_iff a b).1 e in cc

abbrev running_seven : OtaStatus
running_seven = record { slot = 1; version = 7; confirmed = 1; pending = 4294967295; ready = 1 }

abbrev other_fields : Fields
other_fields =
    (codes "SLOT", 1)
    ∷ (codes "READY", 1)
    ∷ (codes "CONFIRMED", 1)
    ∷ (codes "PENDING", 4294967295)
    ∷ []

parse_ota_status-render_example :
    parse_ota_status (render_reply (codes "VERSION", 7) other_fields) ≡ ok running_seven
unfolding str_eq
parse_ota_status-render_example =
    parse_ota_status-render (codes "VERSION", 7) other_fields running_seven (ground arith)
      (
        (differ _ _ refl, (differ _ _ refl, (differ _ _ refl, (differ _ _ refl, tt)))),
        (
          (differ _ _ refl, (differ _ _ refl, (differ _ _ refl, tt))),
          ((differ _ _ refl, (differ _ _ refl, tt)), ((differ _ _ refl, tt), (tt, tt))),
        ),
      )
      (record {
        slot = inr (inl (refl, refl));
        version = inl (refl, refl);
        confirmed = inr (inr (inr (inl (refl, refl))));
        pending = inr (inr (inr (inr (inl (refl, refl)))));
        ready = inr (inr (inl (refl, refl)));
      })

write_package_bytes_complete_example : (app ≡ app) × (true ≡ true) × (true ≡ true) × (true ≡ true)
unfolding write_package_bytes
write_package_bytes_complete_example =
    write_package_bytes_complete (codes "usb_device_update.upd") true
      (interrupted ∷ count 1 ∷ count 0 ∷ []) true true app app refl

-- A gateway that runs version 1 in slot 0 until second 1, and then version 2 in slot 1; the world is
-- the clock.
abbrev status_reply : ℕ → Bytes
status_reply w =
    if ltb w 1000
    then codes "OK OTA SLOT=0 VERSION=1 CONFIRMED=0 PENDING=4294967295 READY=1"
    else codes "OK OTA SLOT=1 VERSION=2 CONFIRMED=1 PENDING=4294967295 READY=1"

abbrev gateway : Platform ℕ
gateway = record {
  now = λ w. w;
  sleep_for = λ ms w. w + ms;
  identify =
      λ endpoint w. (ok (record { serial = replicate 32 b'a'; location = codes "/sys/1-1" }), w);
  command = λ endpoint text w. (
    ok (if text =: "OTA ENTER" then codes "OK OTA REBOOT" else status_reply w),
    (if text =: "OTA ENTER" then w + 1000 else w + 1),
  );
  find_volume = λ identity w. (ok (codes "/media/gateway"), w);
  try_mount = λ identity w. (false, w);
  find_port = λ identity w. (ok (codes "/dev/ttyACM0"), w);
  write_package = λ path bytes w. (ok tt, w);
  what = λ e. [];
}

abbrev started : Session ℕ
started = record { world = 0; log = [] }

abbrev device : Bytes
device = codes "/dev/ttyACM0"

abbrev finished : Session ℕ
finished = record {
  world = 1002;
  log =
      sent device (codes "OTA STATUS")
      ∷ written (codes "/media/gateway/usb_device_update.upd") (pack (firmware_image app 2) 2)
      ∷ sent device (codes "OTA ENTER")
      ∷ sent device (codes "OTA STATUS")
      ∷ [];
}

abbrev updated : OtaStatus
updated = record { slot = 1; version = 2; confirmed = 1; pending = 4294967295; ready = 1 }

gateway_updates :
    download_firmware gateway 1 device (codes "app.bin") (codes ".bin") (contents app) started
    ≡ some (ok updated, finished)
unfolding download_firmware str_eq
gateway_updates = refl

download_firmware_success_example :
    IsDownloaded gateway 1 device
      (codes "app.bin")
      (codes ".bin")
      (contents app)
      started
      updated
      finished
download_firmware_success_example =
    download_firmware_success gateway 1 device (codes "app.bin") (codes ".bin") (contents app)
      started finished updated gateway_updates

-- The file is missing: nothing is asked of the gateway.
missing :
    prepare gateway device (codes "app.bin") (codes ".bin") no_file started
    ≡ some (err (runtime_error "Cannot open firmware: " (codes "app.bin")), started)
unfolding prepare str_eq
missing = refl

download_firmware_refused_example :
    (download_firmware gateway 201 device (codes "app.bin") (codes ".bin") no_file started
      ≡ some (err (runtime_error "Cannot open firmware: " (codes "app.bin")), started))
    × ((started.log ≡ started.log) ⊎ (started.log ≡ sent device (codes "OTA STATUS") ∷ started.log))
download_firmware_refused_example =
    download_firmware_refused gateway 201 device (codes "app.bin") (codes ".bin") no_file started
      started (runtime_error "Cannot open firmware: " (codes "app.bin")) missing

command_later : (text : Bytes) (w : ℕ) → w ≤ (if text =: "OTA ENTER" then w + 1000 else w + 1)
command_later text w = ground arith

gateway-IsForward : IsForward gateway
gateway-IsForward = record {
  sleeps = λ ms w. omega arith;
  volume_later = λ i w. omega arith;
  mount_later = λ i w. omega arith;
  port_later = λ i w. omega arith;
  command_later = λ e t w. command_later t w;
}

download_firmware-ends_example :
    ends
      (download_firmware gateway 201 device (codes "app.bin") (codes ".bin") (contents app) started)
    ≡ true
download_firmware-ends_example =
    download_firmware-ends gateway gateway-IsForward device (codes "app.bin") (codes ".bin")
      (contents app) started
