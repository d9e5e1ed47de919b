-- ===== src/Firmware/Sha256.antt =====
-- src/cli/firmware_download.cc: `Sha256`.
use Prim.Native.Nat.{bit_and, bit_xor}
use encos_cli.Base.{
  ℕ, zero, suc, ◌+◌, ◌-◌, ◌*◌, ◌/◌, ◌%◌, ◌^◌, ◌≡◌, refl, List, [], ◌∷◌, ◌++◌, Bytes, length, codes,
  drop, take,
}
use encos_cli.Base.Vectors.{replicate, get_or}
use encos_cli.Firmware.Words.{rotate}

abbrev pub round_constants : List ℕ
round_constants =
    0x428a2f98 ∷ 0x71374491 ∷ 0xb5c0fbcf ∷ 0xe9b5dba5 ∷ 0x3956c25b ∷ 0x59f111f1 ∷ 0x923f82a4
    ∷ 0xab1c5ed5 ∷ 0xd807aa98 ∷ 0x12835b01 ∷ 0x243185be ∷ 0x550c7dc3 ∷ 0x72be5d74 ∷ 0x80deb1fe
    ∷ 0x9bdc06a7 ∷ 0xc19bf174 ∷ 0xe49b69c1 ∷ 0xefbe4786 ∷ 0x0fc19dc6 ∷ 0x240ca1cc ∷ 0x2de92c6f
    ∷ 0x4a7484aa ∷ 0x5cb0a9dc ∷ 0x76f988da ∷ 0x983e5152 ∷ 0xa831c66d ∷ 0xb00327c8 ∷ 0xbf597fc7
    ∷ 0xc6e00bf3 ∷ 0xd5a79147 ∷ 0x06ca6351 ∷ 0x14292967 ∷ 0x27b70a85 ∷ 0x2e1b2138 ∷ 0x4d2c6dfc
    ∷ 0x53380d13 ∷ 0x650a7354 ∷ 0x766a0abb ∷ 0x81c2c92e ∷ 0x92722c85 ∷ 0xa2bfe8a1 ∷ 0xa81a664b
    ∷ 0xc24b8b70 ∷ 0xc76c51a3 ∷ 0xd192e819 ∷ 0xd6990624 ∷ 0xf40e3585 ∷ 0x106aa070 ∷ 0x19a4c116
    ∷ 0x1e376c08 ∷ 0x2748774c ∷ 0x34b0bcb5 ∷ 0x391c0cb3 ∷ 0x4ed8aa4a ∷ 0x5b9cca4f ∷ 0x682e6ff3
    ∷ 0x748f82ee ∷ 0x78a5636f ∷ 0x84c87814 ∷ 0x8cc70208 ∷ 0x90befffa ∷ 0xa4506ceb ∷ 0xbef9a3f7
    ∷ 0xc67178f2 ∷ []

abbrev u32 : ℕ → ℕ
u32 n = n % 2 ^ 32

-- `~n` on 32 bits.
abbrev complement : ℕ → ℕ
complement n = 2 ^ 32 - 1 - n

abbrev xor3 : ℕ → ℕ → ℕ → ℕ
xor3 a b c = bit_xor (bit_xor a b) c

-- The eight working variables, `a` to `v`, and the eight words of the hash.
pub record Hash : Type 0 where
  pub a : ℕ
  pub b : ℕ
  pub c : ℕ
  pub d : ℕ
  pub e : ℕ
  pub f : ℕ
  pub g : ℕ
  pub v : ℕ

abbrev pub initial_hash : Hash
initial_hash = record {
  a = 0x6a09e667;
  b = 0xbb67ae85;
  c = 0x3c6ef372;
  d = 0xa54ff53a;
  e = 0x510e527f;
  f = 0x9b05688c;
  g = 0x1f83d9ab;
  v = 0x5be0cd19;
}

-- The highest of `n` bytes first.
unfoldable pub big_endian : ℕ → ℕ → Bytes
big_endian zero word = []
big_endian (suc n) word = word / 256 ^ n % 256 ∷ big_endian n word

-- The zeros are what lacks to a rest of 56 behind the byte 0x80.
unfoldable pub padded : Bytes → Bytes
unfolding big_endian
padded input =
    input
    ++ (0x80 ∷ [])
    ++ replicate ((119 - length input % 64) % 64) 0
    ++ big_endian 8 (length input * 8)

-- The 16 words of a block of 64 bytes.
unfoldable pub words : ℕ → Bytes → List ℕ
words (suc n) (p ∷ q ∷ r ∷ s ∷ rest) = (((p * 256 + q) * 256 + r) * 256 + s) ∷ words n rest
words _ _ = []

-- `w[i]` from the words before it, the last one first.
unfoldable pub next_word : List ℕ → ℕ
unfolding rotate
next_word w =
    let x : ℕ = get_or w 14 0 in
    let y : ℕ = get_or w 1 0 in
    u32 (
      get_or w 15 0
      + xor3 (rotate x 7) (rotate x 18) (x / 2 ^ 3)
      + get_or w 6 0
      + xor3 (rotate y 17) (rotate y 19) (y / 2 ^ 10))

unfoldable pub extend : ℕ → List ℕ → List ℕ
unfolding next_word
extend zero w = w
extend (suc n) w = extend n (next_word w ∷ w)

unfoldable pub round : Hash → ℕ → ℕ → Hash
unfolding rotate
round h k w =
    let t1 : ℕ =
      h.v
      + xor3 (rotate h.e 6) (rotate h.e 11) (rotate h.e 25)
      + bit_xor (bit_and h.e h.f) (bit_and (complement h.e) h.g)
      + k
      + w in
    let t2 : ℕ =
      xor3 (rotate h.a 2) (rotate h.a 13) (rotate h.a 22)
      + xor3 (bit_and h.a h.b) (bit_and h.a h.c) (bit_and h.b h.c) in
    record {
      a = u32 (t1 + t2);
      b = h.a;
      c = h.b;
      d = h.c;
      e = u32 (h.d + t1);
      f = h.e;
      g = h.f;
      v = h.g;
    }

unfoldable pub rounds : List ℕ → List ℕ → Hash → Hash
unfolding round
rounds (k ∷ ks) (w ∷ ws) h = rounds ks ws (round h k w)
rounds _ _ h = h

abbrev reversed_onto : List ℕ → List ℕ → List ℕ
reversed_onto [] out = out
reversed_onto (x ∷ xs) out = reversed_onto xs (x ∷ out)

unfoldable pub compress : Hash → Bytes → Hash
unfolding words extend rounds
compress h block =
    let first : List ℕ = reversed_onto (words 16 block) [] in
    let w : List ℕ = reversed_onto (extend 48 first) [] in
    let r : Hash = rounds round_constants w h in
    record {
      a = u32 (h.a + r.a);
      b = u32 (h.b + r.b);
      c = u32 (h.c + r.c);
      d = u32 (h.d + r.d);
      e = u32 (h.e + r.e);
      f = u32 (h.f + r.f);
      g = u32 (h.g + r.g);
      v = u32 (h.v + r.v);
    }

unfoldable pub blocks : ℕ → Bytes → Hash → Hash
unfolding compress
blocks zero input h = h
blocks (suc n) input h = blocks n (drop 64 input) (compress h (take 64 input))

unfoldable pub digest : Hash → Bytes
unfolding big_endian
digest h =
    big_endian 4 h.a
    ++ big_endian 4 h.b
    ++ big_endian 4 h.c
    ++ big_endian 4 h.d
    ++ big_endian 4 h.e
    ++ big_endian 4 h.f
    ++ big_endian 4 h.g
    ++ big_endian 4 h.v

unfoldable pub sha256 : Bytes → Bytes
unfolding padded blocks digest
sha256 input =
    let message = padded input in digest (blocks (length message / 64) message initial_hash)

pub length-sha256 : (input : Bytes) → length (sha256 input) ≡ 32
unfolding sha256 digest big_endian
length-sha256 input = refl

sha256_runs :
    sha256 (codes "abc")
    ≡ 0xba ∷ 0x78 ∷ 0x16 ∷ 0xbf ∷ 0x8f ∷ 0x01 ∷ 0xcf ∷ 0xea ∷ 0x41 ∷ 0x41 ∷ 0x40 ∷ 0xde ∷ 0x5d
      ∷ 0xae ∷ 0x22 ∷ 0x23 ∷ 0xb0 ∷ 0x03 ∷ 0x61 ∷ 0xa3 ∷ 0x96 ∷ 0x17 ∷ 0x7a ∷ 0x9c ∷ 0xb4 ∷ 0x10
      ∷ 0xff ∷ 0x61 ∷ 0xf2 ∷ 0x00 ∷ 0x15 ∷ 0xad ∷ []
unfolding sha256
sha256_runs = refl
