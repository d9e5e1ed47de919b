-- ===== src/Firmware/Load.antt =====
-- src/cli/firmware_download.cc: `LoadOtaFirmware`.
pub mod Segments
pub mod Headers
pub mod Laws
use encos_cli.Base.{
  ℕ, zero, suc, ◌+◌, ◌-◌, ◌*◌, ◌/◌, Bool, true, false, not, ◌&&◌, ◌||◌, List, [], ◌∷◌, ◌++◌, Bytes,
  ltb, leb, ◌==◌, map, ◌=:◌, if◌then◌else◌, Result, ok, err, ◌>>=◌, ◌>>◌, length, is_empty,
  runtime_error, throw_if, ◌<>◌, String,
}
use encos_cli.Base.Vectors.{get_or, replicate}
use encos_cli.Firmware.Words.{require, read}
use encos_cli.Firmware.Package.{max_payload}

-- `kEntry`.
abbrev pub entry : ℕ
entry = 0x80041000

-- `std::tolower`.
abbrev pub lower : ℕ → ℕ
lower c = if leb b'A' c && leb c b'Z' then c + 32 else c

-- The two vectors of the loop: `used` has `kMaxPayload` marks, here a function of the place.
pub record Flash : Type 0 where
  pub payload : Bytes
  pub used : ℕ → Bool

abbrev pub blank : Flash
blank = record { payload = []; used = λ k. false }

-- `payload.resize(std::max(payload.size(), size), 0)`.
unfoldable pub grow : Bytes → ℕ → Bytes
grow payload size = payload ++ replicate (size - length payload) 0

-- `list[i] = v` at an index in range.
unfoldable pub set_at : Bytes → ℕ → ℕ → Bytes
set_at [] i v = []
set_at (x ∷ xs) zero v = v ∷ xs
set_at (x ∷ xs) (suc i) v = x ∷ set_at xs i v

abbrev pub mark : (ℕ → Bool) → ℕ → ℕ → Bool
mark used i k = k == i || used k

-- The inner loop: `n` bytes of the data from `source` on are written from `target` on.
unfoldable pub copy_segment : ℕ → ℕ → ℕ → Bytes → Flash → Result Flash
unfolding set_at
copy_segment zero source target bytes flash = ok flash
copy_segment (suc n) source target bytes flash =
    require (not (flash.used target)) "Overlapping ELF load segments"
    >> copy_segment n (suc source) (suc target) bytes (record {
      payload = set_at flash.payload target (get_or bytes source 0);
      used = mark flash.used target;
    })

-- A program header that is loaded: `source`, `address`, `length` and the size in memory.
unfoldable pub load_segment : ℕ → ℕ → ℕ → ℕ → Bytes → Flash → Result Flash
unfolding grow copy_segment
load_segment source address n memory bytes flash =
    require (leb source (length bytes) && leb n (length bytes - source) && leb n memory)
      "Truncated ELF load segment"
    >> require
        (leb entry address
          && ltb (address - entry) max_payload
          && leb n (max_payload - (address - entry)))
        "ELF load segment is outside OTA application flash"
    >> copy_segment n source (address - entry) bytes
        (record flash { payload = grow flash.payload (address - entry + n) })

-- The segment of `n` bytes that the program header at `p` describes.
unfoldable pub described_segment : ℕ → ℕ → Bytes → Flash → Result Flash
unfolding read load_segment
described_segment p n bytes flash = do
  source ← read bytes (p + 4) 4
  address ← read bytes (p + 12) 4
  memory ← read bytes (p + 20) 4
  load_segment source address n memory bytes flash

-- The body of the loop on the program header at `p`: `PT_LOAD` that is not all BSS is loaded.
unfoldable pub program_header : ℕ → Bytes → Flash → Result Flash
unfolding read described_segment
program_header p bytes flash = do
  kind ← read bytes p 4
  n ← if kind == 1 then read bytes (p + 16) 4 else ok 0
  if n == 0 then ok flash else described_segment p n bytes flash

-- The loop over the program headers, `n` of them from the one of index `i` on.
unfoldable pub program_headers : ℕ → ℕ → ℕ → ℕ → Bytes → Flash → Result Flash
unfolding program_header
program_headers zero i offset stride bytes flash = ok flash
program_headers (suc n) i offset stride bytes flash = do
  next ← program_header (offset + i * stride) bytes flash
  program_headers n (suc i) offset stride bytes next

abbrev pub elf_identity : Bytes → Result Bool
elf_identity bytes = do
  magic ← read bytes 0 4
  kind ← read bytes 16 2
  machine ← read bytes 18 2
  start ← read bytes 24 4
  ok (
      magic == 0x464c457f
      && (get_or bytes 4 0 == 1 && (get_or bytes 5 0 == 1 && get_or bytes 6 0 == 1))
      && (kind == 2 && (machine == 243 && start == entry)))

-- The ELF header: nothing is read from a file that is shorter.
unfoldable pub is_ota_elf : Bytes → Result Bool
unfolding read
is_ota_elf bytes = if leb 52 (length bytes) then elf_identity bytes else ok false

abbrev pub entry_loaded : Flash → Result Bytes
entry_loaded flash =
    require (not (is_empty flash.payload) && flash.used 0) "ELF has no loadable OTA entry point"
    >> ok flash.payload

-- What follows the reading of `offset`, `stride` and `count`.
unfoldable pub load_program : ℕ → ℕ → ℕ → Bytes → Result Bytes
unfolding program_headers
load_program offset stride count bytes =
    require
      (ltb 0 count
        && (leb 32 stride
            && (leb offset (length bytes) && leb count ((length bytes - offset) / stride))))
      "Invalid ELF program headers"
    >> (program_headers count 0 offset stride bytes blank >>= entry_loaded)

unfoldable pub load_elf : Bytes → Result Bytes
unfolding is_ota_elf read load_program
load_elf bytes = do
  is_elf ← is_ota_elf bytes
  done ←
      require is_elf
        "ELF must be an executable little-endian ELF32 RISC-V OTA application linked at 0x80041000"
  offset ← read bytes 28 4
  stride ← read bytes 42 2
  count ← read bytes 44 2
  load_program offset stride count bytes

-- A `.bin` of fewer than four bytes has no first word to refuse.
unfoldable pub load_bin : Bytes → Result Bytes
unfolding read
load_bin bytes = do
  done ← require (leb (length bytes) max_payload) "Firmware exceeds OTA slot"
  first ← if ltb (length bytes) 4 then ok 0 else read bytes 0 4
  done ←
      require
        (not (first == 0x464c457f) && (not (first == 0xbeaf5aa5) && not (first == 0x48504d2d)))
        "Expected raw OTA application .bin, not ELF or an already packaged image"
  done ← require (not (first == 0xfcf90002)) "ROM boot image is not an OTA application"
  ok bytes

-- What the file system answers: no file, a size with no bytes, or the bytes.
pub data File : Type 0 where
  no_file : File
  unreadable : ℕ → File
  contents : Bytes → File

abbrev pub open_file : Bytes → File → Result ℕ
open_file path no_file = err (runtime_error "Cannot open firmware: " path)
open_file path (unreadable size) = ok size
open_file path (contents bytes) = ok (length bytes)

abbrev pub read_file : File → Result Bytes
read_file (contents bytes) = ok bytes
read_file _ = err (runtime_error "Cannot read firmware" [])

-- `LoadOtaFirmware(path)`, from the path's extension and the file.
unfoldable pub load_ota_firmware : Bytes → Bytes → File → Result Bytes
unfolding load_bin load_elf
load_ota_firmware path extension file =
    let ext : Bytes = map lower extension in
    do
      done ←
          require (ext =: ".bin" || ext =: ".elf")
            "download expects an OTA application .bin or .elf"
      size ← open_file path file
      done ←
          require (ltb 0 size && leb size (64 * 1024 * 1024))
            "Firmware file is empty or exceeds 64 MiB"
      bytes ← read_file file
      if ext =: ".bin" then load_bin bytes else load_elf bytes
