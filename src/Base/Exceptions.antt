-- ===== src/Base/Exceptions.antt =====
-- Exceptions as values, and the monad of the code that may throw.
use Prim.Native.String.{String}
use mathlib.Core.Bool.{Bool, true, false}
use mathlib.Core.List.{List}
use mathlib.Core.Logic.{◌⊎◌, inl, inr}
use mathlib.Core.Path.{◌≡◌, refl}
use Prim.Native.Nat.{ℕ}

-- A `std::runtime_error` keeps the fixed text of its message and the text that the message quotes.
-- `std::sto*` throws the other two, which some callers let through.
pub data Error : Type 0 where
  runtime_error : String → List ℕ → Error
  invalid_argument : Error
  out_of_range : Error

-- What a call returns, or the exception that leaves it.
pub data Result {ℓ} (A : Type ℓ) : Type ℓ where
  err : Error → Result A
  ok : A → Result A

-- `if (b) throw e;`
abbrev pub throw_if : Bool → Error → Result (Unit {0})
throw_if true e = err e
throw_if false e = ok tt

infixl 5 ◌>>=◌ ◌>>◌
-- The rest of a function runs on what a call returns; an exception skips it.
abbrev pub ◌>>=◌ {ℓ κ} :
    {A : Type ℓ} {B : Type κ} (call : Result A) (rest : A → Result B) → Result B
err thrown >>= rest = err thrown
ok returned >>= rest = rest returned

abbrev pub ◌>>◌ {κ} : {B : Type κ} (call : Result (Unit {0})) (rest : Result B) → Result B
call >> rest = call >>= λ done. rest

-- Inversion of a successful bind, for proofs where the parts stay shut.
pub bind-eq-ok {ℓ κ} :
    {A : Type ℓ} {B : Type κ} (call : Result A) (rest : A → Result B) {result : B}
    → (call >>= rest) ≡ ok result
    → (returned : A) × (call ≡ ok returned) × (rest returned ≡ ok result)
bind-eq-ok (err thrown) rest h = cc
bind-eq-ok (ok returned) rest h = (returned, refl, h)

pub Result-cases {ℓ} :
    {A : Type ℓ} (r : Result A) → ((a : A) × (r ≡ ok a)) ⊎ ((e : Error) × (r ≡ err e))
Result-cases (ok a) = inl (a, refl)
Result-cases (err e) = inr (e, refl)

-- A postcondition of what is returned, with nothing said of an exception.
abbrev pub Ensures {ℓ κ} : {A : Type ℓ} → (A → Type κ) → Result A → Type κ
Ensures P (ok a) = P a
Ensures P (err e) = Unit

pub Ensures-ok {ℓ κ} :
    {A : Type ℓ} (P : A → Type κ) (r : Result A) {a : A} → Ensures P r → r ≡ ok a → P a
Ensures-ok P r h e = rw e at h

pub Ensures-bind {ℓ κ μ ν} :
    {A : Type ℓ} {B : Type κ} (P : A → Type μ) (Q : B → Type ν) (m : Result A) (f : A → Result B)
    → Ensures P m
    → ((a : A) → P a → Ensures Q (f a))
    → Ensures Q (m >>= f)
Ensures-bind P Q (ok a) f h k = k a h
Ensures-bind P Q (err e) f h k = tt

pub Ensures-any {ℓ} : {A : Type ℓ} (r : Result A) → Ensures (λ _. Unit {0}) r
Ensures-any (ok a) = tt
Ensures-any (err e) = tt

pub Ensures-throw_if {ℓ κ} :
    {A : Type ℓ} (Q : A → Type κ) (b : Bool) (e : Error) (r : Result A)
    → (b ≡ false → Ensures Q r)
    → Ensures Q (throw_if b e >> r)
Ensures-throw_if Q true e r h = tt
Ensures-throw_if Q false e r h = h refl
