-- ===== src/Firmware/Load/Laws.antt =====
-- What LoadOtaFirmware returns: every loadable segment at its address, within the slot.
use encos_cli.Base.{
  ℕ, ◌+◌, ◌-◌, ◌*◌, ◌/◌, ◌≤◌, ◌<◌, ◌≡◌, ◌≢◌, refl, sym, ap, ◌∙◌, Bool, true, false, not, ◌&&◌, ◌||◌,
  [], ◌∷◌, Bytes, ltb, leb, ◌==◌, ◌=:◌, map, if◌then◌else◌, ok, length, is_empty, arith, bind-eq-ok,
  leb→le,
}
use mathlib.Core.Path.{subst}
use encos_cli.Base.Vectors.{get_or, slice}
use encos_cli.Firmware.Words.{require, read, little_endian, read-eq-ok, require-eq-ok}
use encos_cli.Firmware.Package.{max_payload}
use encos_cli.Firmware.Load.{
  Flash, blank, entry, is_ota_elf, program_headers, load_elf, load_bin, load_program, entry_loaded,
  File, no_file, unreadable, contents, open_file, read_file, lower, load_ota_firmware,
}
use encos_cli.Firmware.Load.Headers.{word, program_headers-Stores, program_headers-bound}

abbrev half : Bytes → ℕ → ℕ
half bytes p = little_endian (slice bytes p 2)

-- An ELF that is accepted, with the flash that its program headers fill.
abbrev Filled : ℕ → ℕ → ℕ → Bytes → Bytes → Type 0
Filled offset stride count bytes payload =
    (flash : Flash) × (program_headers count 0 offset stride bytes blank ≡ ok flash)
    × (flash.payload ≡ payload)
    × (is_empty payload ≡ false)

entry_loaded-payload :
    (flash : Flash) (payload : Bytes)
    → entry_loaded flash ≡ ok payload
    → (flash.payload ≡ payload) × (is_empty payload ≡ false)
entry_loaded-payload flash payload h = ground arith

load_program-Filled :
    (offset stride count : ℕ) (bytes payload : Bytes)
    → load_program offset stride count bytes ≡ ok payload
    → Filled offset stride count bytes payload
unfolding load_program
load_program-Filled offset stride count bytes payload h =
    let (done, e, h1) =
      bind-eq-ok
        (require
          (ltb 0 count
            && (leb 32 stride
                && (leb offset (length bytes) && leb count ((length bytes - offset) / stride))))
          "Invalid ELF program headers")
        _ h in
    let (flash, e', h2) = bind-eq-ok (program_headers count 0 offset stride bytes blank) _ h1 in
    let (same, some) = entry_loaded-payload flash payload h2 in (flash, e', same, some)

at_fields :
    (o s c o' s' c' : ℕ) (bytes payload : Bytes)
    → o' ≡ o
    → s' ≡ s
    → c' ≡ c
    → Filled o s c bytes payload
    → Filled o' s' c' bytes payload
at_fields o s c o' s' c' bytes payload e1 e2 e3 filled = rw (e1, e2, e3) filled

load_elf-Filled :
    (bytes payload : Bytes)
    → load_elf bytes ≡ ok payload
    → Filled (word bytes 28) (half bytes 42) (half bytes 44) bytes payload
unfolding load_elf
load_elf-Filled bytes payload h =
    let (is_elf, e1, h1) = bind-eq-ok (is_ota_elf bytes) _ h in
    let (d1, e2, h2) = bind-eq-ok (require is_elf _) _ h1 in
    let (offset, e3, h3) = bind-eq-ok (read bytes 28 4) _ h2 in
    let (stride, e4, h4) = bind-eq-ok (read bytes 42 2) _ h3 in
    let (count, e5, h5) = bind-eq-ok (read bytes 44 2) _ h4 in
    at_fields offset stride count (word bytes 28) (half bytes 42) (half bytes 44) bytes payload
      (read-eq-ok bytes 28 4 offset e3) (read-eq-ok bytes 42 2 stride e4)
      (read-eq-ok bytes 44 2 count e5) (load_program-Filled offset stride count bytes payload h5)

above_zero : (j n : ℕ) → j < n → n ≢ 0
above_zero j n h e = omega arith

-- When an ELF is loaded, each segment of kind 1 with bytes in the file lies in the flash behind the
-- entry address, and each of its bytes stands in the payload at its address less the entry's.
pub load_elf-segments :
    (bytes payload : Bytes) (m j : ℕ)
    → load_elf bytes ≡ ok payload
    → m < half bytes 44
    → word bytes (word bytes 28 + m * half bytes 42) ≡ 1
    → j < word bytes (word bytes 28 + m * half bytes 42 + 16)
    → (entry ≤ word bytes (word bytes 28 + m * half bytes 42 + 12))
      × (word bytes (word bytes 28 + m * half bytes 42 + 12) - entry + j < length payload)
      × (get_or payload (word bytes (word bytes 28 + m * half bytes 42 + 12) - entry + j) 0
          ≡ get_or bytes (word bytes (word bytes 28 + m * half bytes 42 + 4) + j) 0)
load_elf-segments bytes payload m j h hm one hj =
    let (flash, filled, same, some) = load_elf-Filled bytes payload h in
    let ((a, b, c), holds) =
      program_headers-Stores (half bytes 44) 0 (word bytes 28) (half bytes 42) bytes blank flash
        filled m (omega arith) (omega arith) one
        (above_zero j (word bytes (word bytes 28 + m * half bytes 42 + 16)) hj) in
    let (u, byte, room) = holds j hj in
    let at : ℕ = word bytes (word bytes 28 + m * half bytes 42 + 12) - entry + j in
    (b, subst (λ p. at < length p) same room, ap (λ p. get_or p at 0) (sym same) ∙ byte)

load_elf-bound :
    (bytes payload : Bytes)
    → load_elf bytes ≡ ok payload
    → (is_empty payload ≡ false) × (length payload ≤ max_payload)
load_elf-bound bytes payload h =
    let (flash, filled, same, some) = load_elf-Filled bytes payload h in
    (
      some,
      subst (λ p. length p ≤ max_payload) same
          (program_headers-bound (half bytes 44) 0 (word bytes 28) (half bytes 42) bytes blank flash
            filled (omega arith)),
    )

load_bin-bound :
    (bytes payload : Bytes)
    → load_bin bytes ≡ ok payload
    → (bytes ≡ payload) × (length payload ≤ max_payload)
unfolding load_bin
load_bin-bound bytes payload h =
    let (d1, e1, h1) = bind-eq-ok (require (leb (length bytes) max_payload) _) _ h in
    let (first, e2, h2) = bind-eq-ok (if ltb (length bytes) 4 then ok 0 else read bytes 0 4) _ h1 in
    let (d2, e3, h3) =
      bind-eq-ok
        (require
          (not (first == 0x464c457f) && (not (first == 0xbeaf5aa5) && not (first == 0x48504d2d))) _)
        _ h2 in
    let (d3, e4, h4) = bind-eq-ok (require (not (first == 0xfcf90002)) _) _ h3 in
    let small : length bytes ≤ max_payload =
      leb→le (length bytes) max_payload (require-eq-ok (leb (length bytes) max_payload) _ e1) in
    let same : bytes ≡ payload = cc in (same, subst (λ p. length p ≤ max_payload) same small)

opened_size :
    (path : Bytes) (file : File) (size : ℕ) (bytes : Bytes)
    → open_file path file ≡ ok size
    → read_file file ≡ ok bytes
    → size ≡ length bytes
opened_size path no_file size bytes h h' = cc
opened_size path (unreadable n) size bytes h h' = cc
opened_size path (contents read_bytes) size bytes h h' = ground (arith, h, h')

nonempty : (bytes : Bytes) → 0 < length bytes → is_empty bytes ≡ false
nonempty [] h = absurd (omega arith)
nonempty (x ∷ bytes) h = refl

either_format :
    (bin : Bool) (bytes payload : Bytes)
    → 0 < length bytes
    → (if bin then load_bin bytes else load_elf bytes) ≡ ok payload
    → (is_empty payload ≡ false) × (length payload ≤ max_payload)
either_format true bytes payload some h =
    let (same, small) = load_bin-bound bytes payload h in
    (subst (λ p. is_empty p ≡ false) same (nonempty bytes some), small)
either_format false bytes payload some h = load_elf-bound bytes payload h

in_range : (size : ℕ) → (ltb 0 size && leb size (64 * 1024 * 1024)) ≡ true → 0 < size
in_range size h = ground arith

-- Whatever is loaded is not empty and fits the slot of 0xbf000 bytes.
pub load_ota_firmware-bound :
    (path extension : Bytes) (file : File) (payload : Bytes)
    → load_ota_firmware path extension file ≡ ok payload
    → (is_empty payload ≡ false) × (length payload ≤ max_payload)
unfolding load_ota_firmware
load_ota_firmware-bound path extension file payload h =
    let ext : Bytes = map lower extension in
    let (d1, e1, h1) = bind-eq-ok (require (ext =: ".bin" || ext =: ".elf") _) _ h in
    let (size, e2, h2) = bind-eq-ok (open_file path file) _ h1 in
    let (d2, e3, h3) = bind-eq-ok (require (ltb 0 size && leb size (64 * 1024 * 1024)) _) _ h2 in
    let (bytes, e4, h4) = bind-eq-ok (read_file file) _ h3 in
    let some_bytes : 0 < size =
      in_range size (require-eq-ok (ltb 0 size && leb size (64 * 1024 * 1024)) _ e3) in
    let some : 0 < length bytes =
      subst (λ n. 0 < n) (opened_size path file size bytes e2 e4) some_bytes in
    either_format (ext =: ".bin") bytes payload some h4
