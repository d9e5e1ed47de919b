-- ===== src/Number/RoundTrip.antt =====
-- Decimal text is read back as the number that it spells.
use encos_cli.Base.{
  ℕ, zero, suc, ◌+◌, ◌/◌, ◌%◌, ◌^◌, ◌<◌, ◌≤◌, ◌≡◌, ◌⊎◌, refl, false, some, [], ◌∷◌, ◌++◌, ◌∙◌,
  Bytes, ltb, ok, arith, sym, ap, ◌∙◌, All, Lacks, inl, inr, Bool-cases,
}
use encos_cli.Base.Int.{ℤ, pos, negsuc, IsInt32}
use encos_cli.Number.{
  skip_space, digit_value, scan_digits, scan_unsigned, skip_prefix, strto, stoll, stoi, stoul,
  digits_onto, decimal, to_string, map_option, signed,
}

abbrev pub IsDigit : ℕ → Type 0
IsDigit c = (b'0' ≤ c) × (c ≤ b'9')

-- The text does not go on with a decimal digit.
abbrev pub Stops : Bytes → Type 0
Stops [] = Unit
Stops (c ∷ s) = ltb (digit_value c) 10 ≡ false

digits_onto-append :
    (f n : ℕ) (out rest : Bytes) → digits_onto f n out ++ rest ≡ digits_onto f n (out ++ rest)
unfolding digits_onto
digits_onto-append zero n out rest = refl
digits_onto-append (suc f) n out rest =
    ground (arith, digits_onto-append f (n / 10) ((b'0' + n % 10) ∷ out) rest)

scan_digits-digits_onto :
    (f n : ℕ) (out : Bytes) → n < f → scan_digits 10 (digits_onto f n out) 0 ≡ scan_digits 10 out n
unfolding scan_digits digits_onto
scan_digits-digits_onto zero n out h = elim h [ ]
scan_digits-digits_onto (suc f) n out h =
    ground (arith, scan_digits-digits_onto f (n / 10) ((b'0' + n % 10) ∷ out))

scan_digits-Stops : (rest : Bytes) (n : ℕ) → Stops rest → scan_digits 10 rest n ≡ (n, rest)
unfolding scan_digits
scan_digits-Stops [] n h = refl
scan_digits-Stops (c ∷ s) n h = ground arith

-- The text of a number is not empty, and begins with a digit.
abbrev pub StartsWithDigit : Bytes → Type 0
StartsWithDigit s = (c : ℕ) × (t : Bytes) × (s ≡ c ∷ t) × IsDigit c

digits_onto-StartsWithDigit : (f n : ℕ) (out : Bytes) → StartsWithDigit (digits_onto (suc f) n out)
unfolding digits_onto
digits_onto-StartsWithDigit zero n out = elim (Bool-cases (ltb n 10)) [
  | inl e ↦ (b'0' + n, out, ground arith, ground arith)
  | inr e ↦ (b'0' + n % 10, out, ground arith, ground arith)
]
digits_onto-StartsWithDigit (suc f) n out = elim (Bool-cases (ltb n 10)) [
  | inl e ↦ (b'0' + n, out, ground arith, ground arith)
  | inr e ↦ rw (e, digits_onto) (digits_onto-StartsWithDigit f (n / 10) ((b'0' + n % 10) ∷ out))
]

pub decimal-StartsWithDigit : (n : ℕ) → StartsWithDigit (decimal n)
unfolding decimal
decimal-StartsWithDigit n = digits_onto-StartsWithDigit n n []

digits_onto-All : (f n : ℕ) (out : Bytes) → All IsDigit out → All IsDigit (digits_onto f n out)
unfolding digits_onto
digits_onto-All zero n out h = h
digits_onto-All (suc f) n out h = ground (arith, digits_onto-All f (n / 10) ((b'0' + n % 10) ∷ out))

pub decimal-All : (n : ℕ) → All IsDigit (decimal n)
unfolding decimal
decimal-All n = digits_onto-All (suc n) n [] tt

pub scan_digits-decimal :
    (n : ℕ) (rest : Bytes) → Stops rest → scan_digits 10 (decimal n ++ rest) 0 ≡ (n, rest)
unfolding decimal
scan_digits-decimal n rest h =
    rw (digits_onto-append, scan_digits-digits_onto (suc n) n rest (omega arith))
      (scan_digits-Stops rest n h)

pub decimal_injective : (m n : ℕ) → decimal m ≡ decimal n → m ≡ n
decimal_injective m n e =
    let read = λ (s : Bytes). (scan_digits 10 (s ++ []) 0).0 in
    sym (ap (λ p. p.0) (scan_digits-decimal m [] tt))
    ∙ ap read e
    ∙ ap (λ p. p.0) (scan_digits-decimal n [] tt)

pub scan_unsigned-decimal :
    (n : ℕ) (rest : Bytes) → Stops rest → scan_unsigned 10 (decimal n ++ rest) ≡ some (n, rest)
scan_unsigned-decimal n rest h = let (c, t, e, d) = decimal-StartsWithDigit n in step c t e d
  where
    step :
        (c : ℕ) (t : Bytes)
        → decimal n ≡ c ∷ t
        → IsDigit c
        → scan_unsigned 10 (decimal n ++ rest) ≡ some (n, rest)
    step c t e d =
        rw e (unfold scan_unsigned in ground (arith, rw e at (scan_digits-decimal n rest h)))

skip_prefix_ten : (s : Bytes) → skip_prefix 10 s ≡ s
unfolding skip_prefix
skip_prefix_ten [] = refl
skip_prefix_ten (z ∷ []) = refl
skip_prefix_ten (z ∷ x ∷ []) = refl
skip_prefix_ten (z ∷ x ∷ d ∷ s) = refl

-- Text that begins with a digit is read with no space and no sign.
strto_digit :
    (c : ℕ) (t : Bytes)
    → IsDigit c
    → strto 10 (c ∷ t) ≡ map_option (signed false) (scan_unsigned 10 (c ∷ t))
unfolding strto skip_space
strto_digit c t d = ground (arith, skip_prefix_ten (c ∷ t))

module _ (n : ℕ) (rest : Bytes) (stops : Stops rest) where
  pub strto-decimal : strto 10 (decimal n ++ rest) ≡ some (pos n, rest)
  strto-decimal = let (c, t, e, d) = decimal-StartsWithDigit n in step c t e d
    where
      step :
          (c : ℕ) (t : Bytes)
          → decimal n ≡ c ∷ t
          → IsDigit c
          → strto 10 (decimal n ++ rest) ≡ some (pos n, rest)
      step c t e d =
          rw e (strto_digit c (t ++ rest) d ∙ cc (rw e at (scan_unsigned-decimal n rest stops)))

pub strto-minus :
    (n : ℕ) (rest : Bytes)
    → Stops rest
    → strto 10 (b'-' ∷ (decimal (suc n) ++ rest)) ≡ some (negsuc n, rest)
unfolding strto skip_space
strto-minus n rest stops =
    rw (skip_prefix_ten, scan_unsigned-decimal (suc n) rest stops) (ground arith)

-- `strto` reads a printed integer, and leaves what follows it.
pub strto-to_string :
    (z : ℤ) (rest : Bytes) → Stops rest → strto 10 (to_string z ++ rest) ≡ some (z, rest)
unfolding to_string
strto-to_string (pos n) rest h = strto-decimal n rest h
strto-to_string (negsuc n) rest h = strto-minus n rest h

-- Every `int32_t` is read back from its print, whatever follows that is no digit.
pub stoi-to_string :
    (z : ℤ) (rest : Bytes) → IsInt32 z → Stops rest → stoi 10 (to_string z ++ rest) ≡ ok (z, rest)
stoi-to_string (pos n) rest h stops = unfold stoi in rw strto-to_string (ground arith)
stoi-to_string (negsuc n) rest h stops = unfold stoi in rw strto-to_string (ground arith)

-- So is every unsigned number by `stoul` and `stoll`.
pub stoul-decimal :
    (n : ℕ) (rest : Bytes) → n < 2 ^ 64 → Stops rest → stoul 10 (decimal n ++ rest) ≡ ok (n, rest)
stoul-decimal n rest h stops = unfold stoul in rw (strto-decimal n rest stops) (ground arith)

pub stoll-decimal :
    (n : ℕ) (rest : Bytes)
    → n < 2 ^ 63
    → Stops rest
    → stoll 10 (decimal n ++ rest) ≡ ok (pos n, rest)
stoll-decimal n rest h stops = unfold stoll in rw (strto-decimal n rest stops) (ground arith)

pub decimal-Lacks : (b n : ℕ) → (b < b'0') ⊎ (b'9' < b) → Lacks b (decimal n)
decimal-Lacks b n out = weaken (decimal n) (decimal-All n)
  where
    weaken : (s : Bytes) → All IsDigit s → Lacks b s
    weaken [] h = tt
    weaken (c ∷ s) (d, h) = (ground arith, weaken s h)
