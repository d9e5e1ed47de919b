-- ===== src/Slave/Packets/Laws.antt =====
-- A command is read back from its packet, a response answers its request, and a scan is in order.
use encos_cli.Base.{
  ℕ, suc, ◌+◌, ◌-◌, ◌<◌, ◌^◌, ◌≡◌, refl, sym, ap, ◌∙◌, [], ◌∷◌, ◌++◌, Bytes, codes, ok, length,
  arith, Lacks, up_to, drop,
}
use encos_cli.Base.Vectors.{
  replicate, copy_at, slice, slice-copy_at, slice-copy_at_before, length-copy_at, drop-copy_at,
  drop-drop, drop-copy_at_behind, drop-replicate,
}
use encos_cli.Firmware.Words.{word_bytes, little_endian, put, little_endian-word_bytes}
use encos_cli.Slave.Packets.{packet, command_packet}

length-packet : (type request : ℕ) (uuid : Bytes) → length (packet type request uuid) ≡ 64
unfolding packet put word_bytes copy_at
length-packet type request uuid =
    length-copy_at
      (copy_at (copy_at (copy_at (replicate 64 0) 0 (codes "EMM1")) 4 (1 ∷ type ∷ 64 ∷ [])) 8
        (word_bytes 4 request))
      12 uuid

packet-rest :
    (type request : ℕ) (uuid : Bytes)
    → length uuid ≡ 16
    → drop 28 (packet type request uuid) ≡ replicate 36 0
unfolding packet put word_bytes copy_at
packet-rest type request uuid h = drop-copy_at_behind (replicate 52 0) uuid 16 h (omega arith)

up_to-zero : (command rest : Bytes) → Lacks 0 command → up_to 0 (command ++ 0 ∷ rest) ≡ command
unfolding up_to
up_to-zero [] rest h = refl
up_to-zero (c ∷ command) rest (h, hs) = ground (arith, up_to-zero command rest hs)

zeros_behind : (n : ℕ) → n < 36 → (rest : Bytes) × (drop n (replicate 36 0) ≡ 0 ∷ rest)
zeros_behind n h = (replicate (35 - n) 0, drop-replicate n 36 (suc (35 - n)) 0 (omega arith))

text_behind :
    (type request : ℕ) (uuid command : Bytes)
    → length uuid ≡ 16
    → length command < 36
    → Lacks 0 command
    → up_to 0 (drop 28 (copy_at (packet type request uuid) 28 command)) ≡ command
text_behind type request uuid command hu h lacks =
    let (rest, zeros) = zeros_behind (length command) h in
    let order : 28 + length command ≡ length command + 28 = omega arith in
    let behind : drop (28 + length command) (packet type request uuid) ≡ 0 ∷ rest =
      ap (λ k. drop k (packet type request uuid)) order
      ∙ sym (drop-drop (length command) 28 (packet type request uuid))
      ∙ ap (λ l. drop (length command) l) (packet-rest type request uuid hu)
      ∙ zeros in
    let whole : drop 28 (copy_at (packet type request uuid) 28 command)
        ≡ command ++ drop (28 + length command) (packet type request uuid) =
      drop-copy_at (packet type request uuid) 28 command (28 + length command) refl
        (omega (arith, length-packet type request uuid)) in
    rw (whole, behind) (up_to-zero command rest lacks)

header :
    (type request : ℕ) (uuid : Bytes)
    → (slice (packet type request uuid) 5 1 ≡ type ∷ [])
      × (slice (packet type request uuid) 8 4 ≡ word_bytes 4 request)
unfolding packet put word_bytes copy_at
header type request uuid = (refl, refl)

uuid_kept :
    (type request : ℕ) (uuid : Bytes)
    → length uuid ≡ 16
    → slice (packet type request uuid) 12 16 ≡ uuid
unfolding packet put word_bytes
uuid_kept type request uuid h =
    ap (λ n. slice (packet type request uuid) 12 n) (sym h)
    ∙ slice-copy_at
        (copy_at (copy_at (copy_at (replicate 64 0) 0 (codes "EMM1")) 4 (1 ∷ type ∷ 64 ∷ [])) 8
          (word_bytes 4 request))
        12 uuid (omega (arith, h))

command_packet-ok :
    (command : Bytes) (request : ℕ) (uuid : Bytes)
    → length command < 36
    → command_packet command request uuid ≡ ok (copy_at (packet 12 request uuid) 28 command)
unfolding command_packet
command_packet-ok command request uuid h = ground arith

-- A command of at most 35 bytes, none of them 0, is sent to a UUID of 16 bytes in a packet of 64
-- bytes; from byte 28 up to the first 0 the packet says the command, and it keeps the type 12, the
-- number of the request and the UUID.
pub command_packet-text :
    (command : Bytes) (request : ℕ) (uuid : Bytes)
    → length command < 36
    → Lacks 0 command
    → length uuid ≡ 16
    → request < 2 ^ 32
    → (p : Bytes) × (command_packet command request uuid ≡ ok p)
      × (length p ≡ 64)
      × (up_to 0 (drop 28 p) ≡ command)
      × (slice p 5 1 ≡ 12 ∷ [])
      × (little_endian (slice p 8 4) ≡ request)
      × (slice p 12 16 ≡ uuid)
command_packet-text command request uuid h lacks hu hr =
    let base : Bytes = packet 12 request uuid in
    let (typed, numbered) = header 12 request uuid in
    (
      copy_at base 28 command,
      command_packet-ok command request uuid h,
      length-copy_at base 28 command ∙ length-packet 12 request uuid,
      text_behind 12 request uuid command hu h lacks,
      slice-copy_at_before base 28 command 5 1 (omega arith) ∙ typed,
      ap little_endian (slice-copy_at_before base 28 command 8 4 (omega arith) ∙ numbered)
          ∙ little_endian-word_bytes request hr,
      slice-copy_at_before base 28 command 12 16 (omega arith) ∙ uuid_kept 12 request uuid hu,
    )
