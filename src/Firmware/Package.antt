-- ===== src/Firmware/Package.antt =====
-- src/cli/firmware_download.cc: `MakeOtaPackage`.
pub mod Blocks
pub mod Laws
use encos_cli.Base.{
  ℕ, zero, suc, ◌+◌, ◌-◌, ◌*◌, ◌/◌, ◌^◌, Bool, not, ◌&&◌, ◌||◌, List, [], ◌∷◌, ◌++◌, Bytes, ltb,
  leb, if◌then◌else◌, Result, ok, ◌>>=◌, ◌>>◌, length, is_empty,
}
use encos_cli.Base.Vectors.{copy_at, slice, replicate}
use encos_cli.Firmware.Words.{require, put}
use encos_cli.Firmware.Sha256.{sha256}

-- `kMaxPayload`.
abbrev pub max_payload : ℕ
max_payload = 0xbf000

-- The fields of the 4096 bytes in front of the payload.
unfoldable pub header_fields : ℕ → ℕ → Bytes
unfolding put copy_at
header_fields size version =
    let magic : Bytes = put (replicate 4096 0) 0 0xbeaf5aa5 in
    let inverse : Bytes = put magic 4 0xa5a55a5a in
    let board : Bytes = put inverse 8 0x3843414e in
    let sized : Bytes = put board 12 size in
    let versioned : Bytes = put sized 16 version in copy_at versioned 21 (1 ∷ 1 ∷ 4 ∷ [])

unfoldable pub image_header : Bytes → ℕ → Bytes
unfolding header_fields copy_at sha256
image_header payload version = copy_at (header_fields (length payload) version) 28 (sha256 payload)

unfoldable pub firmware_image : Bytes → ℕ → Bytes
unfolding image_header
firmware_image payload version = image_header payload version ++ payload

-- The bytes of the image that block `i` carries.
unfoldable pub chunk_length : ℕ → ℕ → ℕ
chunk_length size i = if leb 480 (size - i * 480) then 480 else size - i * 480

-- The fields of block `i`, which carries `n` bytes of an image of `size` bytes.
unfoldable pub block_fields : ℕ → ℕ → ℕ → ℕ → Bytes
unfolding put copy_at
block_fields size version i n =
    let start : Bytes = put (replicate 512 0) 0 0x48504d2d in
    let magic : Bytes = put start 4 0x9e5d5157 in
    let versioned : Bytes = put magic 12 version in
    let total : Bytes = put versioned 16 size in
    let index : Bytes = put total 20 i in
    let sized : Bytes = put index 24 n in put sized 508 0x48454e44

-- The body of the loop, which writes the 512 bytes of block `i` of the buffer.
unfoldable pub block : Bytes → ℕ → ℕ → Bytes
unfolding block_fields copy_at chunk_length
block image version i =
    let n : ℕ = chunk_length (length image) i in
    copy_at (block_fields (length image) version i n) 28 (slice image (i * 480) n)

-- The blocks from `i` on, `n` of them, one behind the other.
unfoldable pub blocks_from : ℕ → ℕ → Bytes → ℕ → Bytes
unfolding block
blocks_from zero i image version = []
blocks_from (suc n) i image version = block image version i ++ blocks_from n (suc i) image version

unfoldable pub pack : Bytes → ℕ → Bytes
unfolding blocks_from
pack image version = blocks_from ((length image + 479) / 480) 0 image version

unfoldable pub make_ota_package : Bytes → ℕ → Result Bytes
unfolding firmware_image pack
make_ota_package payload version =
    require (not (is_empty payload) && leb (length payload) max_payload)
      "Firmware is empty or exceeds OTA slot"
    >> require (ltb 0 version && ltb version 0xffffffff)
        "OTA version exhausted (valid range 1..0xfffffffe)"
    >> ok (pack (firmware_image payload version) version)
