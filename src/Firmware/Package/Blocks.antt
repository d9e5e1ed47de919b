-- ===== src/Firmware/Package/Blocks.antt =====
-- The 512-byte blocks of MakeOtaPackage, and a reader that takes them apart.
use encos_cli.Base.{
  ℕ, zero, suc, ◌+◌, ◌*◌, ◌^◌, ◌≤◌, ◌<◌, ◌≡◌, refl, sym, ap, ◌∙◌, Bool, true, ◌&&◌, [], ◌++◌, Bytes,
  leb, ◌==◌, Option, some, none, take, drop, if◌then◌else◌, length, arith,
}
use encos_cli.Base.Vectors.{
  copy_at, slice, slice-copy_at, slice-copy_at_after, length-copy_at, length-take, length-drop,
  take-append, drop-append, take_min-append-drop, drop-drop, drop-all,
}
use encos_cli.Firmware.Words.{put, little_endian, word_bytes, little_endian-word_bytes}
use encos_cli.Firmware.Package.{chunk_length, block_fields, block, blocks_from}

-- A field of four bytes.
abbrev pub field : Bytes → ℕ → ℕ
field bytes p = little_endian (slice bytes p 4)

-- What a reader of the package can check of block `i`.
abbrev pub block_ok : ℕ → ℕ → ℕ → Bytes → Bool
block_ok version total i b =
    field b 0 == 0x48504d2d
    && (field b 4 == 0x9e5d5157
        && (field b 12 == version
            && (field b 16 == total
                && (field b 20 == i && (leb (field b 24) 480 && field b 508 == 0x48454e44)))))

abbrev pub prepend : Bytes → Option Bytes → Option Bytes
prepend front none = none
prepend front (some rest) = some (front ++ rest)

-- The image that `n` blocks carry, where each block from `i` on passes the checks.
unfoldable pub unpack : ℕ → ℕ → ℕ → ℕ → Bytes → Option Bytes
unpack zero i version total bytes = some []
unpack (suc n) i version total bytes =
    let b : Bytes = take 512 bytes in
    let rest : Option Bytes = unpack n (suc i) version total (drop 512 bytes) in
    if block_ok version total i b then prepend (slice b 28 (field b 24)) rest else none

length-block : (image : Bytes) (version i : ℕ) → length (block image version i) ≡ 512
unfolding block block_fields put word_bytes copy_at
length-block image version i =
    length-copy_at (block_fields (length image) version i (chunk_length (length image) i)) 28
      (slice image (i * 480) (chunk_length (length image) i))

length-chunk :
    (image : Bytes) (i : ℕ)
    → length (slice image (i * 480) (chunk_length (length image) i)) ≡ chunk_length (length image) i
unfolding chunk_length
length-chunk image i = ground (
  arith,
  length-take (chunk_length (length image) i) (drop (i * 480) image),
  length-drop (i * 480) image,
)

chunk_length-bound : (size i : ℕ) → chunk_length size i ≤ 480
unfolding chunk_length
chunk_length-bound size i = ground arith

fields :
    (image : Bytes) (version i : ℕ)
    → (slice (block image version i) 0 4 ≡ word_bytes 4 0x48504d2d)
      × (slice (block image version i) 4 4 ≡ word_bytes 4 0x9e5d5157)
      × (slice (block image version i) 12 4 ≡ word_bytes 4 version)
      × (slice (block image version i) 16 4 ≡ word_bytes 4 (length image))
      × (slice (block image version i) 20 4 ≡ word_bytes 4 i)
      × (slice (block image version i) 24 4 ≡ word_bytes 4 (chunk_length (length image) i))
unfolding block block_fields put copy_at word_bytes
fields image version i = (refl, refl, refl, refl, refl, refl)

trailer :
    (image : Bytes) (version i : ℕ) → slice (block image version i) 508 4 ≡ word_bytes 4 0x48454e44
unfolding block block_fields put copy_at word_bytes
trailer image version i =
    slice-copy_at_after (block_fields (length image) version i (chunk_length (length image) i)) 28
      (slice image (i * 480) (chunk_length (length image) i)) 508 4
      (omega (arith, length-chunk image i, chunk_length-bound (length image) i))

length-block_fields : (size version i n : ℕ) → length (block_fields size version i n) ≡ 512
unfolding block_fields put word_bytes copy_at
length-block_fields size version i n = refl

chunk_read :
    (image : Bytes) (version i : ℕ)
    → slice (block image version i) 28 (chunk_length (length image) i)
      ≡ slice image (i * 480) (chunk_length (length image) i)
unfolding block
chunk_read image version i =
    let n : ℕ = chunk_length (length image) i in
    ap (λ k. slice (block image version i) 28 k) (sym (length-chunk image i))
    ∙ slice-copy_at (block_fields (length image) version i n) 28 (slice image (i * 480) n) (
        omega (
          arith,
          length-block_fields (length image) version i n,
          length-chunk image i,
          chunk_length-bound (length image) i,
        ))

pub field-word : (b : Bytes) (p v : ℕ) → slice b p 4 ≡ word_bytes 4 v → v < 2 ^ 32 → field b p ≡ v
field-word b p v e h = rw e (little_endian-word_bytes v h)

block-block_ok :
    (image : Bytes) (version i : ℕ)
    → version < 2 ^ 32
    → length image < 2 ^ 32
    → i < 2 ^ 32
    → block_ok version (length image) i (block image version i) ≡ true
block-block_ok image version i hv hl hi =
    let b : Bytes = block image version i in
    let n : ℕ = chunk_length (length image) i in
    let (f0, f4, f12, f16, f20, f24) = fields image version i in
    let hn : n ≤ 480 = chunk_length-bound (length image) i in
    rw
      (
        field-word b 0 0x48504d2d f0 (omega arith),
        field-word b 4 0x9e5d5157 f4 (omega arith),
        field-word b 12 version f12 hv,
        field-word b 16 (length image) f16 hl,
        field-word b 20 i f20 hi,
        field-word b 24 n f24 (omega arith),
        field-word b 508 0x48454e44 (trailer image version i) (omega arith),
      )
      (ground arith)

chunk-append :
    (image : Bytes) (i : ℕ)
    → slice image (i * 480) (chunk_length (length image) i) ++ drop (suc i * 480) image
      ≡ drop (i * 480) image
unfolding chunk_length
chunk-append image i =
    let next : suc i * 480 ≡ 480 + i * 480 = omega arith in
    rw (sym (length-drop (i * 480) image), next, sym (drop-drop 480 (i * 480) image))
      (take_min-append-drop 480 (drop (i * 480) image))

unpack-append :
    (n i version total : ℕ) (b rest : Bytes)
    → length b ≡ 512
    → block_ok version total i b ≡ true
    → unpack (suc n) i version total (b ++ rest)
      ≡ prepend (slice b 28 (field b 24)) (unpack n (suc i) version total rest)
unfolding unpack
unpack-append n i version total b rest h ok_b =
    let front : take 512 (b ++ rest) ≡ b = rw (sym h) (take-append b rest) in
    let behind : drop 512 (b ++ rest) ≡ rest = rw (sym h) (drop-append b rest) in
    rw (front, behind, ok_b) refl

blocks_from-suc :
    (n i : ℕ) (image : Bytes) (version : ℕ)
    → blocks_from (suc n) i image version
      ≡ block image version i ++ blocks_from n (suc i) image version
unfolding blocks_from
blocks_from-suc n i image version = refl

block-data :
    (image : Bytes) (version i : ℕ)
    → slice (block image version i) 28 (field (block image version i) 24)
      ≡ slice image (i * 480) (chunk_length (length image) i)
block-data image version i =
    let (f0, f4, f12, f16, f20, f24) = fields image version i in
    rw
      (field-word (block image version i) 24 (chunk_length (length image) i) f24
        (omega (arith, chunk_length-bound (length image) i)))
      (chunk_read image version i)

unpack-zero : (i version total : ℕ) (bytes : Bytes) → unpack zero i version total bytes ≡ some []
unfolding unpack
unpack-zero i version total bytes = refl

pub unpack-blocks_from :
    (n i : ℕ) (image : Bytes) (version : ℕ)
    → version < 2 ^ 32
    → length image < 2 ^ 32
    → n + i < 2 ^ 32
    → length image ≤ (n + i) * 480
    → unpack n i version (length image) (blocks_from n i image version)
      ≡ some (drop (i * 480) image)
unpack-blocks_from zero i image version hv hl hi h =
    unpack-zero i version (length image) (blocks_from zero i image version)
    ∙ ap some (sym (drop-all (i * 480) image (omega arith)))
unpack-blocks_from (suc n) i image version hv hl hi h =
    let step =
      unpack-append n i version (length image) (block image version i)
        (blocks_from n (suc i) image version) (length-block image version i)
        (block-block_ok image version i hv hl (omega arith)) in
    rw
      (
        blocks_from-suc,
        step,
        unpack-blocks_from n (suc i) image version hv hl (omega arith) (omega arith),
        block-data,
      )
      (ap some (chunk-append image i))
