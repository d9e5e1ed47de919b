-- ===== src/Firmware/Package/Laws.antt =====
-- The package of MakeOtaPackage holds the image, the blocks in order.
use encos_cli.Base.{
  ℕ, ◌+◌, ◌/◌, ◌^◌, ◌≤◌, ◌<◌, ◌≡◌, refl, sym, ap, ◌∙◌, false, ◌++◌, Bytes, some, drop, ok, length,
  is_empty, arith, length-append,
}
use encos_cli.Base.Vectors.{
  copy_at, slice, slice-copy_at, slice-append_front, length-copy_at, drop-append,
}
use encos_cli.Firmware.Words.{put, word_bytes}
use encos_cli.Firmware.Sha256.{sha256, length-sha256}
use encos_cli.Firmware.Package.{
  max_payload, header_fields, image_header, firmware_image, pack, make_ota_package,
}
use encos_cli.Firmware.Package.Blocks.{field, unpack, field-word, unpack-blocks_from}

length-header_fields : (size version : ℕ) → length (header_fields size version) ≡ 4096
unfolding header_fields put word_bytes copy_at
length-header_fields size version = refl

length-image_header : (payload : Bytes) (version : ℕ) → length (image_header payload version) ≡ 4096
unfolding image_header
length-image_header payload version =
    length-copy_at (header_fields (length payload) version) 28 (sha256 payload)
    ∙ length-header_fields (length payload) version

length-firmware_image :
    (payload : Bytes) (version : ℕ)
    → length (firmware_image payload version) ≡ 4096 + length payload
unfolding firmware_image
length-firmware_image payload version = rw (length-append, length-image_header) refl

-- The package of a version and of a payload that the slot has room for is unpacked to its image.
pub unpack-pack :
    (payload : Bytes) (version : ℕ)
    → length payload ≤ max_payload
    → version < 2 ^ 32
    → unpack
        ((4096 + length payload + 479) / 480)
        0
        version
        (4096 + length payload)
        (pack (firmware_image payload version) version)
      ≡ some (firmware_image payload version)
unfolding pack
unpack-pack payload version hl hv =
    let size : length (firmware_image payload version) ≡ 4096 + length payload =
      length-firmware_image payload version in
    rw (sym size) (
      unpack-blocks_from ((length (firmware_image payload version) + 479) / 480) 0
        (firmware_image payload version) version hv (omega (arith, size)) (omega (arith, size))
        (omega arith))

-- What the header of the image says, and what follows it.
abbrev pub DescribesPayload : Bytes → Bytes → ℕ → Type 0
DescribesPayload image payload version =
    (field image 12 ≡ length payload)
    × (field image 16 ≡ version)
    × (slice image 28 32 ≡ sha256 payload)
    × (drop 4096 image ≡ payload)

header_words :
    (payload : Bytes) (version : ℕ)
    → (slice (image_header payload version) 12 4 ≡ word_bytes 4 (length payload))
      × (slice (image_header payload version) 16 4 ≡ word_bytes 4 version)
unfolding image_header header_fields put word_bytes copy_at
header_words payload version = (refl, refl)

header_hash :
    (payload : Bytes) (version : ℕ) → slice (image_header payload version) 28 32 ≡ sha256 payload
unfolding image_header
header_hash payload version =
    ap (λ n. slice (image_header payload version) 28 n) (sym (length-sha256 payload))
    ∙ slice-copy_at (header_fields (length payload) version) 28 (sha256 payload)
        (omega (arith, length-sha256 payload, length-header_fields (length payload) version))

header_slice :
    (payload : Bytes) (version p n : ℕ)
    → p + n ≤ 4096
    → slice (firmware_image payload version) p n ≡ slice (image_header payload version) p n
unfolding firmware_image
header_slice payload version p n h =
    slice-append_front (image_header payload version) payload p n
      (omega (arith, length-image_header payload version))

firmware_image-drop :
    (payload : Bytes) (version : ℕ) → drop 4096 (firmware_image payload version) ≡ payload
unfolding firmware_image
firmware_image-drop payload version =
    ap (λ n. drop n (image_header payload version ++ payload))
      (sym (length-image_header payload version))
    ∙ drop-append (image_header payload version) payload

pub firmware_image-DescribesPayload :
    (payload : Bytes) (version : ℕ)
    → length payload ≤ max_payload
    → version < 2 ^ 32
    → DescribesPayload (firmware_image payload version) payload version
firmware_image-DescribesPayload payload version hl hv =
    let image : Bytes = firmware_image payload version in
    let (sized, versioned) = header_words payload version in
    (
      field-word image 12 (length payload) (header_slice payload version 12 4 (omega arith) ∙ sized)
          (omega arith),
      field-word image 16 version (header_slice payload version 16 4 (omega arith) ∙ versioned) hv,
      header_slice payload version 28 32 (omega arith) ∙ header_hash payload version,
      firmware_image-drop payload version,
    )

-- A payload of 1 to 0xbf000 bytes and a version from 1 to 0xfffffffe are packaged, and no others.
pub make_ota_package-ok :
    (payload : Bytes) (version : ℕ)
    → is_empty payload ≡ false
    → length payload ≤ max_payload
    → 0 < version
    → version < 0xffffffff
    → make_ota_package payload version ≡ ok (pack (firmware_image payload version) version)
unfolding make_ota_package
make_ota_package-ok payload version h hl h0 hv = ground arith

-- A payload of 1 to 0xbf000 bytes and a version from 1 to 0xfffffffe are packaged. A reader that
-- takes the package in blocks of 512 bytes finds in each the magic numbers, the version, the size of
-- the image, the index of the block, at most 480 bytes and the closing mark, and the bytes joined are
-- an image which gives the payload's size, the version and the hash, with the payload behind 4096
-- bytes.
pub make_ota_package-unpack :
    (payload : Bytes) (version : ℕ)
    → is_empty payload ≡ false
    → length payload ≤ max_payload
    → 0 < version
    → version < 0xffffffff
    → (upgrade : Bytes) × (image : Bytes) × (make_ota_package payload version ≡ ok upgrade)
      × (unpack ((4096 + length payload + 479) / 480) 0 version (4096 + length payload) upgrade
          ≡ some image)
      × DescribesPayload image payload version
make_ota_package-unpack payload version h hl h0 hv = (
  pack (firmware_image payload version) version,
  firmware_image payload version,
  make_ota_package-ok payload version h hl h0 hv,
  unpack-pack payload version hl (omega arith),
  firmware_image-DescribesPayload payload version hl (omega arith),
)

-- Whatever was packaged is read back.
pub make_ota_package-eq-ok :
    (payload : Bytes) (version : ℕ) (upgrade : Bytes)
    → make_ota_package payload version ≡ ok upgrade
    → (length payload ≤ max_payload)
      × (version < 2 ^ 32)
      × (pack (firmware_image payload version) version ≡ upgrade)
unfolding make_ota_package
make_ota_package-eq-ok payload version upgrade h = ground arith
