-- ===== src/Base/Vectors.antt =====
-- Reads and writes of a `std::vector` by index, for code that checks its bounds itself.
use Prim.Native.Nat.{ℕ, zero, suc, ◌+◌, ◌-◌, ◌≤◌}
use mathlib.Core.Path.{◌≡◌, refl, ap, sym, ◌∙◌}
use mathlib.Core.List.{List, [], ◌∷◌, ◌++◌, append-nil}
use native.Mathlib.Omega.{arith}
use mathlib.Core.Logic.{inl, inr}
use encos_cli.Base.Tests.{leb, Bool-cases, if◌then◌else◌}
use encos_cli.Base.Lists.{length, take, drop}

module _ {ℓ} {A : Type ℓ} where
  -- `list[i]`; a read out of range, which the code does not make, gives `d`.
  abbrev pub get_or : List A → ℕ → A → A
  get_or [] i d = d
  get_or (x ∷ xs) zero d = x
  get_or (x ∷ xs) (suc i) d = get_or xs i d

  abbrev pub replicate : ℕ → A → List A
  replicate zero a = []
  replicate (suc n) a = a ∷ replicate n a

  -- `std::copy(src.begin(), src.end(), dst.begin() + p)`; what would pass the end is dropped.
  unfoldable pub copy_at : List A → ℕ → List A → List A
  copy_at [] p src = []
  copy_at (d ∷ dst) zero [] = d ∷ dst
  copy_at (d ∷ dst) zero (s ∷ src) = s ∷ copy_at dst zero src
  copy_at (d ∷ dst) (suc p) src = d ∷ copy_at dst p src

  abbrev pub slice : List A → ℕ → ℕ → List A
  slice list p n = take n (drop p list)

module _ {ℓ} {A : Type ℓ} where
  pub length-replicate : (n : ℕ) (a : A) → length (replicate n a) ≡ n
  length-replicate zero a = refl
  length-replicate (suc n) a = ap suc (length-replicate n a)

  pub length-copy_at :
      (dst : List A) (p : ℕ) (src : List A) → length (copy_at dst p src) ≡ length dst
  unfolding copy_at
  length-copy_at [] p src = refl
  length-copy_at (d ∷ dst) zero [] = refl
  length-copy_at (d ∷ dst) zero (s ∷ src) = ap suc (length-copy_at dst zero src)
  length-copy_at (d ∷ dst) (suc p) src = ap suc (length-copy_at dst p src)

  slice-copy_at_start :
      (dst src : List A) → length src ≤ length dst → take (length src) (copy_at dst zero src) ≡ src
  unfolding copy_at
  slice-copy_at_start dst [] h = refl
  slice-copy_at_start [] (s ∷ src) h = absurd (omega arith)
  slice-copy_at_start (x ∷ dst) (s ∷ src) h =
      ap (λ l. s ∷ l) (slice-copy_at_start dst src (omega arith))

  -- What was written is read back.
  pub slice-copy_at :
      (dst : List A) (p : ℕ) (src : List A)
      → p + length src ≤ length dst
      → slice (copy_at dst p src) p (length src) ≡ src
  unfolding copy_at
  slice-copy_at dst zero src h = slice-copy_at_start dst src (omega arith)
  slice-copy_at [] (suc p) src h = absurd (omega arith)
  slice-copy_at (x ∷ dst) (suc p) src h = slice-copy_at dst p src (omega arith)

  -- What is outside the range that was written is as before.
  pub slice-copy_at_before :
      (dst : List A) (p : ℕ) (src : List A) (q n : ℕ)
      → q + n ≤ p
      → slice (copy_at dst p src) q n ≡ slice dst q n
  unfolding copy_at
  slice-copy_at_before [] p src q n h = refl
  slice-copy_at_before (x ∷ dst) zero src zero zero h = refl
  slice-copy_at_before (x ∷ dst) zero src zero (suc n) h = absurd (omega arith)
  slice-copy_at_before (x ∷ dst) zero src (suc q) n h = absurd (omega arith)
  slice-copy_at_before (x ∷ dst) (suc p) src zero zero h = refl
  slice-copy_at_before (x ∷ dst) (suc p) src zero (suc n) h =
      ap (λ l. x ∷ l) (slice-copy_at_before dst p src zero n (omega arith))
  slice-copy_at_before (x ∷ dst) (suc p) src (suc q) n h =
      slice-copy_at_before dst p src q n (omega arith)

  pub slice-copy_at_after :
      (dst : List A) (p : ℕ) (src : List A) (q n : ℕ)
      → p + length src ≤ q
      → slice (copy_at dst p src) q n ≡ slice dst q n
  unfolding copy_at
  slice-copy_at_after [] p src q n h = refl
  slice-copy_at_after (x ∷ dst) zero [] q n h = refl
  slice-copy_at_after (x ∷ dst) zero (s ∷ src) zero n h = absurd (omega arith)
  slice-copy_at_after (x ∷ dst) zero (s ∷ src) (suc q) n h =
      slice-copy_at_after dst zero src q n (omega arith)
  slice-copy_at_after (x ∷ dst) (suc p) src zero n h = absurd (omega arith)
  slice-copy_at_after (x ∷ dst) (suc p) src (suc q) n h =
      slice-copy_at_after dst p src q n (omega arith)

  pub take-length : (xs : List A) → take (length xs) xs ≡ xs
  take-length [] = refl
  take-length (x ∷ xs) = ap (λ l. x ∷ l) (take-length xs)

  pub slice-append : (xs ys : List A) → slice (xs ++ ys) (length xs) (length ys) ≡ ys
  slice-append [] ys = take-length ys
  slice-append (x ∷ xs) ys = slice-append xs ys

  pub take-append-drop : (n : ℕ) (xs : List A) → take n xs ++ drop n xs ≡ xs
  take-append-drop zero xs = refl
  take-append-drop (suc n) [] = refl
  take-append-drop (suc n) (x ∷ xs) = ap (λ l. x ∷ l) (take-append-drop n xs)

  pub length-take :
      (n : ℕ) (xs : List A) → length (take n xs) ≡ (if leb n (length xs) then n else length xs)
  length-take zero xs = ground arith
  length-take (suc n) [] = ground arith
  length-take (suc n) (x ∷ xs) = ground (arith, length-take n xs)

  pub length-drop : (n : ℕ) (xs : List A) → length (drop n xs) ≡ length xs - n
  length-drop zero xs = omega arith
  length-drop (suc n) [] = omega arith
  length-drop (suc n) (x ∷ xs) = omega (arith, length-drop n xs)

  pub take-append : (xs ys : List A) → take (length xs) (xs ++ ys) ≡ xs
  take-append [] ys = refl
  take-append (x ∷ xs) ys = ap (λ l. x ∷ l) (take-append xs ys)

  pub drop-append : (xs ys : List A) → drop (length xs) (xs ++ ys) ≡ ys
  drop-append [] ys = refl
  drop-append (x ∷ xs) ys = drop-append xs ys

  pub drop-nil : (n : ℕ) → drop {A = A} n [] ≡ []
  drop-nil zero = refl
  drop-nil (suc n) = refl

  pub drop-drop : (m n : ℕ) (xs : List A) → drop m (drop n xs) ≡ drop (m + n) xs
  drop-drop m zero xs = ap (λ k. drop k xs) (omega arith)
  drop-drop m (suc n) [] = drop-nil m ∙ sym (drop-nil (m + suc n))
  drop-drop m (suc n) (x ∷ xs) =
      let e : suc (m + n) ≡ m + suc n = omega arith in
      drop-drop m n xs ∙ ap (λ k. drop k (x ∷ xs)) e

  pub drop-all : (n : ℕ) (xs : List A) → length xs ≤ n → drop n xs ≡ []
  drop-all zero [] h = refl
  drop-all zero (x ∷ xs) h = absurd (omega arith)
  drop-all (suc n) [] h = refl
  drop-all (suc n) (x ∷ xs) h = drop-all n xs (omega arith)

  -- A chunk of at most `n` elements, and what is behind it.
  pub take_min-append-drop :
      (n : ℕ) (xs : List A) → take (if leb n (length xs) then n else length xs) xs ++ drop n xs ≡ xs
  take_min-append-drop n xs = elim (Bool-cases (leb n (length xs))) [
    | inl h ↦ rw h (take-append-drop n xs)
    | inr h ↦ rw (h, drop-all n xs (ground arith), append-nil, take-length) refl
  ]

  pub slice-append_front :
      (xs ys : List A) (p n : ℕ) → p + n ≤ length xs → slice (xs ++ ys) p n ≡ slice xs p n
  slice-append_front [] ys zero zero h = refl
  slice-append_front [] ys zero (suc n) h = absurd (omega arith)
  slice-append_front [] ys (suc p) n h = absurd (omega arith)
  slice-append_front (x ∷ xs) ys zero zero h = refl
  slice-append_front (x ∷ xs) ys zero (suc n) h =
      ap (λ l. x ∷ l) (slice-append_front xs ys zero n (omega arith))
  slice-append_front (x ∷ xs) ys (suc p) n h = slice-append_front xs ys p n (omega arith)

  copy_nothing : (xs : List A) → copy_at xs 0 [] ≡ xs
  unfolding copy_at
  copy_nothing [] = refl
  copy_nothing (x ∷ xs) = refl

  -- What was written, and what is behind it, from `n` on.
  pub drop-copy_at :
      (dst : List A) (p : ℕ) (src : List A) (n : ℕ)
      → p + length src ≡ n
      → n ≤ length dst
      → drop p (copy_at dst p src) ≡ src ++ drop n dst
  unfolding copy_at
  drop-copy_at dst zero [] n e h =
      let none_written : 0 ≡ n = omega arith in copy_nothing dst ∙ ap (λ k. drop k dst) none_written
  drop-copy_at [] zero (s ∷ src) n e h = absurd (omega arith)
  drop-copy_at (d ∷ dst) zero (s ∷ src) zero e h = absurd (omega arith)
  drop-copy_at (d ∷ dst) zero (s ∷ src) (suc n) e h =
      ap (λ l. s ∷ l) (drop-copy_at dst zero src n (omega arith) (omega arith))
  drop-copy_at [] (suc p) src n e h = absurd (omega arith)
  drop-copy_at (d ∷ dst) (suc p) src zero e h = absurd (omega arith)
  drop-copy_at (d ∷ dst) (suc p) src (suc n) e h =
      drop-copy_at dst p src n (omega arith) (omega arith)

  pub drop-replicate : (n m k : ℕ) (a : A) → n + k ≡ m → drop n (replicate m a) ≡ replicate k a
  drop-replicate zero m k a e = let same : m ≡ k = omega arith in ap (λ i. replicate i a) same
  drop-replicate (suc n) zero k a e = absurd (omega arith)
  drop-replicate (suc n) (suc m) k a e = drop-replicate n m k a (omega arith)

  pub drop-copy_at_behind :
      (dst src : List A) (n : ℕ)
      → length src ≡ n
      → n ≤ length dst
      → drop n (copy_at dst 0 src) ≡ drop n dst
  unfolding copy_at
  drop-copy_at_behind dst [] n e h = ap (λ l. drop n l) (copy_nothing dst)
  drop-copy_at_behind [] (s ∷ src) n e h = absurd (omega arith)
  drop-copy_at_behind (d ∷ dst) (s ∷ src) zero e h = absurd (omega arith)
  drop-copy_at_behind (d ∷ dst) (s ∷ src) (suc n) e h =
      drop-copy_at_behind dst src n (omega arith) (omega arith)
