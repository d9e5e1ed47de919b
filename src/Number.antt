-- ===== src/Number.antt =====
-- Text and numbers: `std::stoi`, `std::stol`, `std::stoll`, `std::stoul` and `std::to_string` of
-- the standard library, in the C locale, as the parsers use them.
pub mod RoundTrip
use encos_cli.Base.{
  ℕ, zero, suc, ◌+◌, ◌-◌, ◌*◌, ◌/◌, ◌%◌, ◌^◌, ◌<◌, ◌≡◌, refl, Bool, true, false, ◌&&◌, ◌||◌, Option,
  none, some, List, [], ◌∷◌, ◌++◌, Bytes, codes, ltb, leb, ◌==◌, if◌then◌else◌, is_digit, Result,
  ok, err, Error, invalid_argument, out_of_range, ◌>>=◌, ◌>>◌, throw_if, length,
}
use encos_cli.Base.Int.{ℤ, pos, negsuc, neg, ltb_ℤ, max_int32, max_int64, wrap}

-- `std::isspace`.
abbrev pub is_space : ℕ → Bool
is_space c = c == b' ' || (leb 9 c && leb c 13)

unfoldable pub skip_space : Bytes → Bytes
skip_space [] = []
skip_space (c ∷ s) = if is_space c then skip_space s else c ∷ s

-- The value of a digit or a letter in bases up to 36; 36 for any other byte.
abbrev pub digit_value : ℕ → ℕ
digit_value c =
    if is_digit c
    then c - b'0'
    else if leb b'a' c && leb c b'z'
    then c - b'a' + 10
    else if leb b'A' c && leb c b'Z'
    then c - b'A' + 10
    else 36

-- The digits of base `base` at the front of the text, read behind `n`, and what follows them.
unfoldable pub scan_digits : ℕ → Bytes → ℕ → ℕ × Bytes
scan_digits base [] n = (n, [])
scan_digits base (c ∷ s) n =
    let stop : ℕ × Bytes = (n, c ∷ s) in
    let more : ℕ × Bytes = scan_digits base s (n * base + digit_value c) in
    if ltb (digit_value c) base then more else stop

-- No conversion is performed unless a digit stands first.
unfoldable pub scan_unsigned : ℕ → Bytes → Option (ℕ × Bytes)
unfolding scan_digits
scan_unsigned base [] = none
scan_unsigned base (c ∷ s) =
    if ltb (digit_value c) base then some (scan_digits base (c ∷ s) 0) else none

-- In base 16 a prefix `0x` in front of a hexadecimal digit is skipped.
unfoldable pub skip_prefix : ℕ → Bytes → Bytes
skip_prefix base (z ∷ x ∷ d ∷ s) =
    if base == 16 && (z == b'0' && ((x == b'x' || x == b'X') && ltb (digit_value d) 16))
    then d ∷ s
    else z ∷ x ∷ d ∷ s
skip_prefix base s = s

abbrev pub signed : Bool → ℕ × Bytes → ℤ × Bytes
signed minus (n, rest) = (if minus then neg (pos n) else pos n, rest)

abbrev pub map_option : (ℕ × Bytes → ℤ × Bytes) → Option (ℕ × Bytes) → Option (ℤ × Bytes)
map_option f none = none
map_option f (some p) = some (f p)

unfoldable pub scan_signed : ℕ → Bytes → Option (ℤ × Bytes)
unfolding skip_prefix scan_unsigned
scan_signed base [] = none
scan_signed base (c ∷ s) =
    if c == b'-'
    then map_option (signed true) (scan_unsigned base (skip_prefix base s))
    else if c == b'+'
    then map_option (signed false) (scan_unsigned base (skip_prefix base s))
    else map_option (signed false) (scan_unsigned base (skip_prefix base (c ∷ s)))

-- `strtol` with no bound: the number, and the text behind it.
unfoldable pub strto : ℕ → Bytes → Option (ℤ × Bytes)
unfolding skip_space scan_signed
strto base s = scan_signed base (skip_space s)

abbrev pub fits_signed : ℕ → ℤ → Bool
fits_signed max (pos n) = leb n max
fits_signed max (negsuc n) = leb n max

abbrev pub check_signed : ℕ → Option (ℤ × Bytes) → Result (ℤ × Bytes)
check_signed max none = err invalid_argument
check_signed max (some (z, rest)) = if fits_signed max z then ok (z, rest) else err out_of_range

-- `std::stoll(s, &pos, base)` and `std::stoi(s, &pos, base)`; `pos` is the size less the rest's.
unfoldable pub stoll : ℕ → Bytes → Result (ℤ × Bytes)
unfolding strto
stoll base s = check_signed max_int64 (strto base s)

unfoldable pub stoi : ℕ → Bytes → Result (ℤ × Bytes)
unfolding strto
stoi base s = check_signed max_int32 (strto base s)

-- `std::stoul` on a 64-bit `unsigned long`: a minus sign negates modulo 2^64.
abbrev pub check_unsigned : Option (ℤ × Bytes) → Result (ℕ × Bytes)
check_unsigned none = err invalid_argument
check_unsigned (some (pos n, rest)) = if ltb n (2 ^ 64) then ok (n, rest) else err out_of_range
check_unsigned (some (negsuc n, rest)) =
    if ltb n (2 ^ 64 - 1) then ok (2 ^ 64 - 1 - n, rest) else err out_of_range

unfoldable pub stoul : ℕ → Bytes → Result (ℕ × Bytes)
unfolding strto
stoul base s = check_unsigned (strto base s)

-- The decimal digits of `n` in front of `out`. Fuel `n + 1` is enough: each round divides by ten.
unfoldable pub digits_onto : ℕ → ℕ → Bytes → Bytes
digits_onto zero n out = out
digits_onto (suc f) n out = elim (ltb n 10) [
  | true ↦ (b'0' + n) ∷ out
  | false ↦ digits_onto f (n / 10) ((b'0' + n % 10) ∷ out)
]

unfoldable pub decimal : ℕ → Bytes
unfolding digits_onto
decimal n = digits_onto (suc n) n []

-- `std::to_string`.
unfoldable pub to_string : ℤ → Bytes
unfolding decimal
to_string (pos n) = decimal n
to_string (negsuc n) = b'-' ∷ decimal (suc n)

stoi_runs :
    (stoi 10 (codes " +42:") ≡ ok (pos 42, codes ":"))
    × (stoi 10 (codes "2147483648") ≡ err out_of_range)
    × (stoi 10 (codes "-2147483648") ≡ ok (negsuc 2147483647, []))
    × (stoll 16 (codes "0xfFg") ≡ ok (pos 255, codes "g"))
    × (stoul 10 (codes "-1") ≡ ok (18446744073709551615, []))
    × (stoi 10 (codes "-") ≡ err invalid_argument)
unfolding stoi stoll stoul
stoi_runs = (refl, refl, refl, refl, refl, refl)

to_string_runs : (to_string (pos 1000) ≡ codes "1000") × (to_string (negsuc 41) ≡ codes "-42")
unfolding to_string
to_string_runs = (refl, refl)
