-- ===== src/Firmware/Load/Segments.antt =====
-- The bytes of a segment in the flash that LoadOtaFirmware fills.
use encos_cli.Base.{
  ℕ, zero, suc, ◌+◌, ◌-◌, ◌≤◌, ◌<◌, ◌≡◌, ◌≢◌, refl, sym, ap, ◌∙◌, true, false, [], ◌∷◌, ◌++◌, Bytes,
  leb, if◌then◌else◌, ok, length, arith, length-append,
}
use encos_cli.Base.Vectors.{get_or, replicate, length-replicate}
use encos_cli.Firmware.Load.{Flash, grow, set_at, mark, copy_segment}

length-set_at : (xs : Bytes) (i v : ℕ) → length (set_at xs i v) ≡ length xs
unfolding set_at
length-set_at [] i v = refl
length-set_at (x ∷ xs) zero v = refl
length-set_at (x ∷ xs) (suc i) v = ap suc (length-set_at xs i v)

get_or-set_at : (xs : Bytes) (i v : ℕ) → i < length xs → get_or (set_at xs i v) i 0 ≡ v
unfolding set_at
get_or-set_at [] i v h = absurd (omega arith)
get_or-set_at (x ∷ xs) zero v h = refl
get_or-set_at (x ∷ xs) (suc i) v h = get_or-set_at xs i v (omega arith)

get_or-set_at_other : (xs : Bytes) (i v k : ℕ) → k ≢ i → get_or (set_at xs i v) k 0 ≡ get_or xs k 0
unfolding set_at
get_or-set_at_other [] i v k h = refl
get_or-set_at_other (x ∷ xs) zero v zero h = absurd (h refl)
get_or-set_at_other (x ∷ xs) zero v (suc k) h = refl
get_or-set_at_other (x ∷ xs) (suc i) v zero h = refl
get_or-set_at_other (x ∷ xs) (suc i) v (suc k) h = get_or-set_at_other xs i v k (λ e. h (ap suc e))

get_or-replicate : (n k : ℕ) → get_or {A = ℕ} (replicate n 0) k 0 ≡ 0
get_or-replicate zero k = refl
get_or-replicate (suc n) zero = refl
get_or-replicate (suc n) (suc k) = get_or-replicate n k

get_or-append_zeros : (xs : Bytes) (n k : ℕ) → get_or (xs ++ replicate n 0) k 0 ≡ get_or xs k 0
get_or-append_zeros [] n k = get_or-replicate n k
get_or-append_zeros (x ∷ xs) n zero = refl
get_or-append_zeros (x ∷ xs) n (suc k) = get_or-append_zeros xs n k

-- Growing shows in no byte, since what is out of range reads as 0.
pub get_or-grow : (xs : Bytes) (n k : ℕ) → get_or (grow xs n) k 0 ≡ get_or xs k 0
unfolding grow
get_or-grow xs n k = get_or-append_zeros xs (n - length xs) k

pub length-grow :
    (xs : Bytes) (n : ℕ) → length (grow xs n) ≡ (if leb n (length xs) then length xs else n)
unfolding grow
length-grow xs n = ground (
  arith,
  length-append xs (replicate (n - length xs) 0),
  length-replicate {A = ℕ} (n - length xs) 0,
)

-- What stands in the flash `before` stays as it is.
pub record Extends (before after : Flash) : Type 0 where
  pub keeps_mark : (k : ℕ) → before.used k ≡ true → after.used k ≡ true
  pub keeps_byte :
      (k : ℕ) → before.used k ≡ true → get_or after.payload k 0 ≡ get_or before.payload k 0
  pub keeps_room : length before.payload ≤ length after.payload

pub Extends-refl : (f : Flash) → Extends f f
Extends-refl f = record {
  keeps_mark = λ k h. h;
  keeps_byte = λ k h. refl;
  keeps_room = omega arith;
}

pub Extends-trans : (f g h : Flash) → Extends f g → Extends g h → Extends f h
Extends-trans f g h p q = record {
  keeps_mark = λ k u. q.keeps_mark k (p.keeps_mark k u);
  keeps_byte = λ k u. q.keeps_byte k (p.keeps_mark k u) ∙ p.keeps_byte k u;
  keeps_room = omega (arith, p.keeps_room, q.keeps_room);
}

-- The byte `k` of the flash is written, with `v`.
abbrev pub Holds : Flash → ℕ → ℕ → Type 0
Holds f k v = (f.used k ≡ true) × (get_or f.payload k 0 ≡ v) × (k < length f.payload)

pub Extends-Holds : (f g : Flash) (k v : ℕ) → Extends f g → Holds f k v → Holds g k v
Extends-Holds f g k v e (u, b, l) =
    (e.keeps_mark k u, e.keeps_byte k u ∙ b, omega (arith, e.keeps_room))

abbrev pub after_byte : ℕ → ℕ → Bytes → Flash → Flash
after_byte source target bytes f = record {
  payload = set_at f.payload target (get_or bytes source 0);
  used = mark f.used target;
}

copy_segment-suc :
    (n source target : ℕ) (bytes : Bytes) (f out : Flash)
    → copy_segment (suc n) source target bytes f ≡ ok out
    → (f.used target ≡ false)
      × (copy_segment n (suc source) (suc target) bytes (after_byte source target bytes f) ≡ ok out)
unfolding copy_segment
copy_segment-suc n source target bytes f out h = ground arith

copy_segment-zero :
    (source target : ℕ) (bytes : Bytes) (f out : Flash)
    → copy_segment zero source target bytes f ≡ ok out
    → f ≡ out
unfolding copy_segment
copy_segment-zero source target bytes f out h = cc

-- Before the byte is written its place is free, and it is written once.
Extends-after_byte :
    (source target : ℕ) (bytes : Bytes) (f : Flash)
    → f.used target ≡ false
    → Extends f (after_byte source target bytes f)
Extends-after_byte source target bytes f free = record {
  keeps_mark = λ k h. ground arith;
  keeps_byte = λ k h. get_or-set_at_other f.payload target (get_or bytes source 0) k (differ k h);
  keeps_room = omega (arith, length-set_at f.payload target (get_or bytes source 0));
}
  where
    differ : (k : ℕ) → f.used k ≡ true → k ≢ target
    differ k h e = ground (arith, free, h, e)

pub copy_segment-Extends :
    (n source target : ℕ) (bytes : Bytes) (f out : Flash)
    → copy_segment n source target bytes f ≡ ok out
    → Extends f out
copy_segment-Extends zero source target bytes f out h =
    rw (sym (copy_segment-zero source target bytes f out h)) (Extends-refl f)
copy_segment-Extends (suc n) source target bytes f out h =
    let (free, rest) = copy_segment-suc n source target bytes f out h in
    Extends-trans f (after_byte source target bytes f) out
      (Extends-after_byte source target bytes f free)
      (copy_segment-Extends n (suc source) (suc target) bytes (after_byte source target bytes f) out
        rest)

pub length-copy_segment :
    (n source target : ℕ) (bytes : Bytes) (f out : Flash)
    → copy_segment n source target bytes f ≡ ok out
    → length out.payload ≡ length f.payload
length-copy_segment zero source target bytes f out h =
    ap (λ g. length g.payload) (sym (copy_segment-zero source target bytes f out h))
length-copy_segment (suc n) source target bytes f out h =
    let (free, rest) = copy_segment-suc n source target bytes f out h in
    length-copy_segment n (suc source) (suc target) bytes (after_byte source target bytes f) out
      rest
    ∙ length-set_at f.payload target (get_or bytes source 0)

-- Every byte of the segment is in the flash.
pub copy_segment-Holds :
    (n source target : ℕ) (bytes : Bytes) (f out : Flash)
    → target + n ≤ length f.payload
    → copy_segment n source target bytes f ≡ ok out
    → (j : ℕ) → j < n
    → Holds out (target + j) (get_or bytes (source + j) 0)
copy_segment-Holds zero source target bytes f out room h j hj = absurd (omega arith)
copy_segment-Holds (suc n) source target bytes f out room h zero hj =
    let (free, rest) = copy_segment-suc n source target bytes f out h in
    let next : Flash = after_byte source target bytes f in
    let written : Holds next target (get_or bytes source 0) = (
      ground arith,
      get_or-set_at f.payload target (get_or bytes source 0) (omega arith),
      omega (arith, length-set_at f.payload target (get_or bytes source 0)),
    ) in
    let here : target ≡ target + 0 = omega arith in
    let there : source ≡ source + 0 = omega arith in
    rw (sym here, sym there)
      (Extends-Holds next out target (get_or bytes source 0)
        (copy_segment-Extends n (suc source) (suc target) bytes next out rest) written)
copy_segment-Holds (suc n) source target bytes f out room h (suc j) hj =
    let (free, rest) = copy_segment-suc n source target bytes f out h in
    let e : suc target + j ≡ target + suc j = omega arith in
    let e' : suc source + j ≡ source + suc j = omega arith in
    let held =
      copy_segment-Holds n (suc source) (suc target) bytes (after_byte source target bytes f) out
        (omega (arith, length-set_at f.payload target (get_or bytes source 0))) rest j
        (omega arith) in
    rw (sym e, sym e') held
