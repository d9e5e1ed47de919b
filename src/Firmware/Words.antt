-- ===== src/Firmware/Words.antt =====
-- src/cli/firmware_download.cc: `Require`, `Read`, `Put` and `Rotate`.
use Prim.Native.Nat.{bit_or}
use encos_cli.Base.{
  ℕ, zero, suc, ◌+◌, ◌-◌, ◌*◌, ◌/◌, ◌%◌, ◌^◌, ◌≤◌, ◌<◌, ◌≡◌, refl, ap, Bool, true, false, not, ◌&&◌,
  [], ◌∷◌, Bytes, String, leb, Result, ok, runtime_error, ◌>>◌, throw_if, length, arith,
}
use encos_cli.Base.Vectors.{copy_at, slice}

-- `Require(ok, message)`, where the message quotes nothing.
abbrev pub require : Bool → String → Result (Unit {0})
require holds message = throw_if (not holds) (runtime_error message [])

-- The loop of `Read`: the or of the bytes, each shifted to its place, is their sum.
unfoldable pub little_endian : Bytes → ℕ
little_endian [] = 0
little_endian (byte ∷ bytes) = byte + 256 * little_endian bytes

unfoldable pub read : Bytes → ℕ → ℕ → Result ℕ
unfolding little_endian
read b p n =
    require (leb p (length b) && leb n (length b - p)) "Truncated ELF"
    >> ok (little_endian (slice b p n))

-- The bytes of a word, the lowest first.
unfoldable pub word_bytes : ℕ → ℕ → Bytes
word_bytes zero v = []
word_bytes (suc n) v = v % 256 ∷ word_bytes n (v / 256)

-- `Put(b, p, v)`; every call in the code has room for the word.
unfoldable pub put : Bytes → ℕ → ℕ → Bytes
unfolding word_bytes copy_at
put b p v = copy_at b p (word_bytes 4 v)

-- `Rotate(n, s)` of a 32-bit word.
unfoldable pub rotate : ℕ → ℕ → ℕ
rotate n s = bit_or (n / 2 ^ s) (n * 2 ^ (32 - s) % 2 ^ 32)

pub length-word_bytes : (n v : ℕ) → length (word_bytes n v) ≡ n
unfolding word_bytes
length-word_bytes zero v = refl
length-word_bytes (suc n) v = ap suc (length-word_bytes n (v / 256))

-- A 32-bit word is read back from its bytes.
pub little_endian-word_bytes : (v : ℕ) → v < 2 ^ 32 → little_endian (word_bytes 4 v) ≡ v
unfolding word_bytes little_endian
little_endian-word_bytes v h = omega arith

pub read-inside :
    (b : Bytes) (p n : ℕ) → p + n ≤ length b → read b p n ≡ ok (little_endian (slice b p n))
unfolding read
read-inside b p n h = ground arith

pub read-eq-ok : (b : Bytes) (p n v : ℕ) → read b p n ≡ ok v → little_endian (slice b p n) ≡ v
unfolding read
read-eq-ok b p n v h = ground arith

pub require-eq-ok :
    (b : Bool) (message : String) {done : Unit {0}} → require b message ≡ ok done → b ≡ true
require-eq-ok true message h = refl
require-eq-ok false message h = cc
