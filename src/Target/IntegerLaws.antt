-- ===== src/Target/IntegerLaws.antt =====
-- What `ParseInteger` and its two callers accept.
use encos_cli.Base.{
  ℕ, suc, ◌-◌, ◌^◌, ◌<◌, ◌≡◌, refl, ◌∙◌, [], ◌∷◌, Bytes, String, ok, some, arith, All, append-nil,
  Result, err, Ensures, ◌>>=◌, ◌>>◌, throw_if, runtime_error, ◌<>◌,
}
use encos_cli.Base.Int.{ℤ, pos, negsuc, IsInt32, to_int32-IsInt32, to_int32, ltb_ℤ, max_int32}
use encos_cli.Number.{skip_space, stoll, strto, decimal}
use encos_cli.Number.RoundTrip.{
  IsDigit, strto-minus, decimal-All, decimal-StartsWithDigit, stoll-decimal,
}
use encos_cli.Target.Integer.{radix, convert, parse_integer, parse_int32, parse_uint16}

radix_decimal : (s : Bytes) → All IsDigit s → radix s ≡ (10, 0)
unfolding radix
radix_decimal [] h = refl
radix_decimal (z ∷ []) h = refl
radix_decimal (z ∷ x ∷ []) h = refl
radix_decimal (z ∷ x ∷ d ∷ s) h = ground arith

parse_integer_digits :
    (c : ℕ) (t : Bytes) (field : String)
    → All IsDigit (c ∷ t)
    → parse_integer (c ∷ t) field ≡ convert (stoll 10 (c ∷ t)) (c ∷ t) field
parse_integer_digits c t field h =
    let r = radix_decimal (c ∷ t) h in unfold parse_integer in rw r (ground arith)

convert_whole :
    (base : ℕ) (s value : Bytes) (field : String) (z : ℤ)
    → stoll base s ≡ ok (z, [])
    → convert (stoll base s) value field ≡ ok z
unfolding convert
convert_whole base s value field z e = rw e

-- Decimal text below 2^63 is read as its number.
pub parse_integer-decimal :
    (n : ℕ) (field : String) → n < 2 ^ 63 → parse_integer (decimal n) field ≡ ok (pos n)
parse_integer-decimal n field h = let (c, t, e, d) = decimal-StartsWithDigit n in step c t e
  where
    whole : stoll 10 (decimal n) ≡ ok (pos n, [])
    whole = rw append-nil at (stoll-decimal n [] h tt)

    step : (c : ℕ) (t : Bytes) → decimal n ≡ c ∷ t → parse_integer (decimal n) field ≡ ok (pos n)
    step c t e = rw e (
        parse_integer_digits c t field (rw e at (decimal-All n))
        ∙ convert_whole 10 (c ∷ t) (c ∷ t) field (pos n) (rw e at whole))

pub parse_int32-decimal :
    (n : ℕ) (field : String) → n < 2 ^ 31 → parse_int32 (decimal n) field ≡ ok (pos n)
unfolding parse_int32
parse_int32-decimal n field h = rw (parse_integer-decimal n field (omega arith)) (ground arith)

pub parse_uint16-decimal :
    (n : ℕ) (field : String) → n < 2 ^ 16 → parse_uint16 (decimal n) field ≡ ok n
unfolding parse_uint16
parse_uint16-decimal n field h = rw (parse_integer-decimal n field (omega arith)) (ground arith)

-- Whatever is accepted fits the field's type.
pub parse_int32-Ensures :
    (value : Bytes) (field : String) → Ensures IsInt32 (parse_int32 value field)
unfolding parse_int32
parse_int32-Ensures value field = go (parse_integer value field)
  where
    go :
        (r : Result ℤ)
        → Ensures IsInt32 (
            r >>= λ parsed.
            throw_if
              (ltb_ℤ (pos max_int32) parsed)
              (runtime_error (field <> " is out of range") value)
            >> ok (to_int32 parsed))
    go (ok parsed) = ground (arith, to_int32-IsInt32 parsed)
    go (err e) = tt

pub parse_uint16-Ensures :
    (value : Bytes) (field : String) → Ensures (λ m. m < 2 ^ 16) (parse_uint16 value field)
unfolding parse_uint16
parse_uint16-Ensures value field = ground arith

strto_space : (s : Bytes) → strto 10 (b' ' ∷ s) ≡ strto 10 s
unfolding strto skip_space
strto_space s = refl

stoll_space_minus :
    (n : ℕ) → n < 2 ^ 63 → stoll 10 (b' ' ∷ b'-' ∷ decimal (suc n)) ≡ ok (negsuc n, [])
stoll_space_minus n h =
    let e : strto 10 (b'-' ∷ decimal (suc n)) ≡ some (negsuc n, []) =
      rw append-nil at (strto-minus n [] tt) in
    unfold stoll in ground (arith, strto_space (b'-' ∷ decimal (suc n)))

pub parse_integer_space_minus :
    (n : ℕ) (field : String)
    → n < 2 ^ 63
    → parse_integer (b' ' ∷ b'-' ∷ decimal (suc n)) field ≡ ok (negsuc n)
parse_integer_space_minus n field h =
    let (c, t, e, d) = decimal-StartsWithDigit (suc n) in step c t e
  where
    step :
        (c : ℕ) (t : Bytes)
        → decimal (suc n) ≡ c ∷ t
        → parse_integer (b' ' ∷ b'-' ∷ decimal (suc n)) field ≡ ok (negsuc n)
    step c t e = rw e (
        unfold parse_integer in
        convert_whole 10 (b' ' ∷ b'-' ∷ c ∷ t) (b' ' ∷ b'-' ∷ c ∷ t) field (negsuc n)
          (rw e at (stoll_space_minus n h)))

-- The refusal of a minus sign looks at the first character alone: behind a space a negative number
-- passes, and the cast turns -(n + 1) into 65535 - n.
pub parse_uint16_space_minus :
    (n : ℕ) (field : String)
    → n < 2 ^ 16
    → parse_uint16 (b' ' ∷ b'-' ∷ decimal (suc n)) field ≡ ok (65535 - n)
unfolding parse_uint16
parse_uint16_space_minus n field h =
    rw (parse_integer_space_minus n field (omega arith)) (ground arith)
