-- ===== src/Slave/Items/Digits.antt =====
-- How many digits a small number has.
use encos_cli.Base.{
  ℕ, zero, suc, ◌+◌, ◌%◌, ◌/◌, ◌≤◌, ◌<◌, ◌≡◌, refl, ap, true, false, [], ◌∷◌, Bytes, ltb, length,
  arith, Bool-cases, inl, inr,
}
use encos_cli.Number.{decimal, digits_onto}

-- A number below 1000 has three digits at most.
last_digit :
    (f n : ℕ) (out : Bytes)
    → ltb n 10 ≡ true
    → length (digits_onto (suc f) n out) ≡ suc (length out)
unfolding digits_onto
last_digit f n out e =
    let one : digits_onto (suc f) n out ≡ (b'0' + n) ∷ out = rw (e, digits_onto) refl in
    ap length one

next_digit :
    (f n : ℕ) (out : Bytes)
    → ltb n 10 ≡ false
    → digits_onto (suc f) n out ≡ digits_onto f (n / 10) ((b'0' + n % 10) ∷ out)
unfolding digits_onto
next_digit f n out e = rw (e, digits_onto) refl

-- With one digit less for the quotient, a number has one digit more.
more_digits :
    (k f n : ℕ) (out : Bytes)
    → (length (digits_onto f (n / 10) ((b'0' + n % 10) ∷ out)) ≤ k + suc (length out))
    → length (digits_onto (suc f) n out) ≤ suc k + length out
more_digits k f n out h = elim (Bool-cases (ltb n 10)) [
  | inl e ↦ omega (arith, last_digit f n out e)
  | inr e ↦ rw (next_digit f n out e) (omega (arith, h))
]

no_digits : (n : ℕ) (out : Bytes) → length (digits_onto zero n out) ≡ length out
unfolding digits_onto
no_digits n out = refl

digits1 : (f n : ℕ) (out : Bytes) → n < 10 → length (digits_onto f n out) ≤ 1 + length out
digits1 zero n out h = omega (arith, no_digits n out)
digits1 (suc f) n out h =
    let e : ltb n 10 ≡ true = ground arith in omega (arith, last_digit f n out e)

digits2 : (f n : ℕ) (out : Bytes) → n < 100 → length (digits_onto f n out) ≤ 2 + length out
digits2 zero n out h = omega (arith, no_digits n out)
digits2 (suc f) n out h =
    more_digits 1 f n out (digits1 f (n / 10) ((b'0' + n % 10) ∷ out) (omega arith))

digits3 : (f n : ℕ) (out : Bytes) → n < 1000 → length (digits_onto f n out) ≤ 3 + length out
digits3 zero n out h = omega (arith, no_digits n out)
digits3 (suc f) n out h =
    more_digits 2 f n out (digits2 f (n / 10) ((b'0' + n % 10) ∷ out) (omega arith))

pub length-decimal : (n : ℕ) → n < 1000 → length (decimal n) ≤ 3
unfolding decimal
length-decimal n h = digits3 (suc n) n [] h
