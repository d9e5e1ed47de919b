-- ===== src/Firmware/Load/Headers.antt =====
-- The segments that the loop of LoadOtaFirmware stores, one per program header.
use encos_cli.Base.{
  ℕ, zero, suc, ◌+◌, ◌-◌, ◌*◌, ◌≤◌, ◌<◌, ◌≡◌, ◌≢◌, ◌⊎◌, sym, ◌∙◌, Bytes, ◌==◌, if◌then◌else◌, ok,
  length, arith, Bool-cases, inl, inr, bind-eq-ok,
}
use mathlib.Core.Path.{subst}
use encos_cli.Base.Vectors.{get_or, slice}
use encos_cli.Firmware.Words.{read, little_endian, read-eq-ok}
use encos_cli.Firmware.Package.{max_payload}
use encos_cli.Firmware.Load.{
  Flash, entry, grow, copy_segment, load_segment, described_segment, program_header,
  program_headers,
}
use encos_cli.Firmware.Load.Segments.{
  Extends, Extends-refl, Extends-trans, Holds, Extends-Holds, copy_segment-Extends,
  length-copy_segment, copy_segment-Holds, get_or-grow, length-grow,
}

abbrev grown : ℕ → Flash → Flash
grown size f = record f { payload = grow f.payload size }

-- The guards of a segment that is accepted.
abbrev pub Fits : ℕ → ℕ → ℕ → Bytes → Type 0
Fits source address n bytes =
    (source + n ≤ length bytes) × (entry ≤ address) × (address - entry + n ≤ max_payload)

load_segment-guards :
    (source address n memory : ℕ) (bytes : Bytes) (f out : Flash)
    → load_segment source address n memory bytes f ≡ ok out
    → Fits source address n bytes
      × (copy_segment n source (address - entry) bytes (grown (address - entry + n) f) ≡ ok out)
unfolding load_segment
load_segment-guards source address n memory bytes f out h = ground arith

Extends-grown : (size : ℕ) (f : Flash) → Extends f (grown size f)
Extends-grown size f = record {
  keeps_mark = λ k h. h;
  keeps_byte = λ k h. get_or-grow f.payload size k;
  keeps_room = ground (arith, length-grow f.payload size);
}

-- A flash holds `n` bytes from `source` on at their address.
abbrev pub Stores : Flash → ℕ → ℕ → ℕ → Bytes → Type 0
Stores f source address n bytes =
    Fits source address n bytes
    × ((j : ℕ) → j < n → Holds f (address - entry + j) (get_or bytes (source + j) 0))

Stores-Extends :
    (f g : Flash) (source address n : ℕ) (bytes : Bytes)
    → Extends f g
    → Stores f source address n bytes
    → Stores g source address n bytes
Stores-Extends f g source address n bytes e (fits, holds) = (
  fits,
  λ j hj. Extends-Holds f g (address - entry + j) (get_or bytes (source + j) 0) e (holds j hj),
)

load_segment-Stores :
    (source address n memory : ℕ) (bytes : Bytes) (f out : Flash)
    → load_segment source address n memory bytes f ≡ ok out
    → Extends f out × Stores out source address n bytes
load_segment-Stores source address n memory bytes f out h =
    let (fits, copied) = load_segment-guards source address n memory bytes f out h in
    let target : ℕ = address - entry in
    let g : Flash = grown (target + n) f in
    let room : target + n ≤ length g.payload = ground (arith, length-grow f.payload (target + n)) in
    (
      Extends-trans f g out (Extends-grown (target + n) f)
          (copy_segment-Extends n source target bytes g out copied),
      (fits, copy_segment-Holds n source target bytes g out room copied),
    )

abbrev pub word : Bytes → ℕ → ℕ
word bytes p = little_endian (slice bytes p 4)

-- The segment that the program header at `p` describes.
abbrev pub StoresHeader : Flash → Bytes → ℕ → Type 0
StoresHeader f bytes p =
    Stores f (word bytes (p + 4)) (word bytes (p + 12)) (word bytes (p + 16)) bytes

described_segment-Stores :
    (p n : ℕ) (bytes : Bytes) (f out : Flash)
    → described_segment p n bytes f ≡ ok out
    → Extends f out × Stores out (word bytes (p + 4)) (word bytes (p + 12)) n bytes
unfolding described_segment
described_segment-Stores p n bytes f out h =
    let (source, e1, h1) = bind-eq-ok (read bytes (p + 4) 4) _ h in
    let (address, e2, h2) = bind-eq-ok (read bytes (p + 12) 4) _ h1 in
    let (memory, e3, h3) = bind-eq-ok (read bytes (p + 20) 4) _ h2 in
    rw (read-eq-ok bytes (p + 4) 4 source e1, read-eq-ok bytes (p + 12) 4 address e2)
      (load_segment-Stores source address n memory bytes f out h3)

-- The size that the loop reads is the header's, if the segment is of the kind that is loaded.
size_read :
    (p kind n : ℕ) (bytes : Bytes)
    → read bytes p 4 ≡ ok kind
    → (if kind == 1 then read bytes (p + 16) 4 else ok 0) ≡ ok n
    → word bytes p ≡ 1
    → word bytes (p + 16) ≡ n
size_read p kind n bytes e e' h =
    let one : kind ≡ 1 = sym (read-eq-ok bytes p 4 kind e) ∙ h in
    read-eq-ok bytes (p + 16) 4 n (rw one at e')

either_way :
    (p n : ℕ) (bytes : Bytes) (f out : Flash)
    → (if n == 0 then ok f else described_segment p n bytes f) ≡ ok out
    → ((n ≡ 0) × (f ≡ out)) ⊎ (described_segment p n bytes f ≡ ok out)
either_way p n bytes f out h = elim (Bool-cases (n == 0)) [
  | inl e ↦ inl (ground arith, ground arith)
  | inr e ↦ inr (ground arith)
]

program_header-Extends :
    (p : ℕ) (bytes : Bytes) (f out : Flash) → program_header p bytes f ≡ ok out → Extends f out
unfolding program_header
program_header-Extends p bytes f out h =
    let (kind, e, h1) = bind-eq-ok (read bytes p 4) _ h in
    let (n, e', h2) = bind-eq-ok (if kind == 1 then read bytes (p + 16) 4 else ok 0) _ h1 in
    elim (either_way p n bytes f out h2) [
      | inl (z, same) ↦ subst (λ g. Extends f g) same (Extends-refl f)
      | inr loaded ↦ (described_segment-Stores p n bytes f out loaded).0
    ]

program_header-Stores :
    (p : ℕ) (bytes : Bytes) (f out : Flash)
    → program_header p bytes f ≡ ok out
    → word bytes p ≡ 1
    → word bytes (p + 16) ≢ 0
    → StoresHeader out bytes p
unfolding program_header
program_header-Stores p bytes f out h one some =
    let (kind, e, h1) = bind-eq-ok (read bytes p 4) _ h in
    let (n, e', h2) = bind-eq-ok (if kind == 1 then read bytes (p + 16) 4 else ok 0) _ h1 in
    let size : word bytes (p + 16) ≡ n = size_read p kind n bytes e e' one in
    elim (either_way p n bytes f out h2) [
      | inl (z, same) ↦ absurd (some (size ∙ z))
      | inr loaded ↦
          subst (λ k. Stores out (word bytes (p + 4)) (word bytes (p + 12)) k bytes) (sym size)
            (described_segment-Stores p n bytes f out loaded).1
    ]

program_headers-zero :
    (i offset stride : ℕ) (bytes : Bytes) (f out : Flash)
    → program_headers zero i offset stride bytes f ≡ ok out
    → f ≡ out
unfolding program_headers
program_headers-zero i offset stride bytes f out h = cc

program_headers-suc :
    (n i offset stride : ℕ) (bytes : Bytes) (f out : Flash)
    → program_headers (suc n) i offset stride bytes f ≡ ok out
    → (g : Flash) × (program_header (offset + i * stride) bytes f ≡ ok g)
      × (program_headers n (suc i) offset stride bytes g ≡ ok out)
unfolding program_headers
program_headers-suc n i offset stride bytes f out h =
    bind-eq-ok (program_header (offset + i * stride) bytes f) _ h

program_headers-Extends :
    (n i offset stride : ℕ) (bytes : Bytes) (f out : Flash)
    → program_headers n i offset stride bytes f ≡ ok out
    → Extends f out
program_headers-Extends zero i offset stride bytes f out h =
    subst (λ g. Extends f g) (program_headers-zero i offset stride bytes f out h) (Extends-refl f)
program_headers-Extends (suc n) i offset stride bytes f out h =
    let (g, first, rest) = program_headers-suc n i offset stride bytes f out h in
    Extends-trans f g out (program_header-Extends (offset + i * stride) bytes f g first)
      (program_headers-Extends n (suc i) offset stride bytes g out rest)

-- Each header from index `i` on whose segment is loaded has it stored.
pub program_headers-Stores :
    (n i offset stride : ℕ) (bytes : Bytes) (f out : Flash)
    → program_headers n i offset stride bytes f ≡ ok out
    → (m : ℕ) → i ≤ m
    → m < i + n
    → word bytes (offset + m * stride) ≡ 1
    → word bytes (offset + m * stride + 16) ≢ 0
    → StoresHeader out bytes (offset + m * stride)
program_headers-Stores zero i offset stride bytes f out h m lo hi one some = absurd (omega arith)
program_headers-Stores (suc n) i offset stride bytes f out h m lo hi one some =
    let (g, first, rest) = program_headers-suc n i offset stride bytes f out h in
    elim (Bool-cases (m == i)) [
      | inl e ↦
          let same : i ≡ m = ground arith in
          let here : program_header (offset + m * stride) bytes f ≡ ok g =
            subst (λ k. program_header (offset + k * stride) bytes f ≡ ok g) same first in
          let p : ℕ = offset + m * stride in
          Stores-Extends g out (word bytes (p + 4)) (word bytes (p + 12)) (word bytes (p + 16))
            bytes (program_headers-Extends n (suc i) offset stride bytes g out rest)
            (program_header-Stores p bytes f g here one some)
      | inr e ↦
          program_headers-Stores n (suc i) offset stride bytes g out rest m (ground arith)
            (omega arith) one some
    ]

-- What is stored stays within the slot.
load_segment-bound :
    (source address n memory : ℕ) (bytes : Bytes) (f out : Flash)
    → load_segment source address n memory bytes f ≡ ok out
    → length f.payload ≤ max_payload
    → length out.payload ≤ max_payload
load_segment-bound source address n memory bytes f out h fits =
    let ((a, b, c), copied) = load_segment-guards source address n memory bytes f out h in
    let target : ℕ = address - entry in
    ground (
      arith,
      length-copy_segment n source target bytes (grown (target + n) f) out copied,
      length-grow f.payload (target + n),
    )

described_segment-bound :
    (p n : ℕ) (bytes : Bytes) (f out : Flash)
    → described_segment p n bytes f ≡ ok out
    → length f.payload ≤ max_payload
    → length out.payload ≤ max_payload
unfolding described_segment
described_segment-bound p n bytes f out h fits =
    let (source, e1, h1) = bind-eq-ok (read bytes (p + 4) 4) _ h in
    let (address, e2, h2) = bind-eq-ok (read bytes (p + 12) 4) _ h1 in
    let (memory, e3, h3) = bind-eq-ok (read bytes (p + 20) 4) _ h2 in
    load_segment-bound source address n memory bytes f out h3 fits

program_header-bound :
    (p : ℕ) (bytes : Bytes) (f out : Flash)
    → program_header p bytes f ≡ ok out
    → length f.payload ≤ max_payload
    → length out.payload ≤ max_payload
unfolding program_header
program_header-bound p bytes f out h fits =
    let (kind, e, h1) = bind-eq-ok (read bytes p 4) _ h in
    let (n, e', h2) = bind-eq-ok (if kind == 1 then read bytes (p + 16) 4 else ok 0) _ h1 in
    elim (either_way p n bytes f out h2) [
      | inl (z, same) ↦ subst (λ g. length g.payload ≤ max_payload) same fits
      | inr loaded ↦ described_segment-bound p n bytes f out loaded fits
    ]

pub program_headers-bound :
    (n i offset stride : ℕ) (bytes : Bytes) (f out : Flash)
    → program_headers n i offset stride bytes f ≡ ok out
    → length f.payload ≤ max_payload
    → length out.payload ≤ max_payload
program_headers-bound zero i offset stride bytes f out h fits =
    subst (λ g. length g.payload ≤ max_payload) (program_headers-zero i offset stride bytes f out h)
      fits
program_headers-bound (suc n) i offset stride bytes f out h fits =
    let (g, first, rest) = program_headers-suc n i offset stride bytes f out h in
    program_headers-bound n (suc i) offset stride bytes g out rest
      (program_header-bound (offset + i * stride) bytes f g first fits)
