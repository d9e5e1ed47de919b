-- ===== src/Base/Text.antt =====
-- Text as bytes: literals, equality, and the searches of `std::string` that the code uses.
use Prim.Native.Char.{code}
use Prim.Native.String.{String}
use Prim.Native.Nat.{ℕ}
use mathlib.Core.Bool.{Bool, true, false, ◌&&◌, ◌||◌}
use mathlib.Core.List.{List, [], ◌∷◌, ◌++◌}
use mathlib.Core.Logic.{◌≢◌, ◌↔◌}
use mathlib.Core.Option.{Option, none, some}
use mathlib.Core.Path.{◌≡◌, refl}
use native.Mathlib.Omega.{arith}
use encos_cli.Base.Tests.{leb, ◌==◌, if◌then◌else◌}
use encos_cli.Base.Lists.{All}

abbrev pub Bytes : Type 0
Bytes = List ℕ

-- The code points of a literal: its bytes, if it is ASCII.
abbrev pub codes : String → Bytes
codes String.[] = []
codes (String.◌∷◌ c s) = code c ∷ codes s

-- `operator==` of `std::string`.
unfoldable pub str_eq : Bytes → Bytes → Bool
str_eq [] [] = true
str_eq (x ∷ xs) (y ∷ ys) = x == y && str_eq xs ys
str_eq _ _ = false

pub str_eq_iff : (a b : Bytes) → (str_eq a b ≡ true) ↔ (a ≡ b)
unfolding str_eq
str_eq_iff (x ∷ a) (y ∷ b) = ground (arith, str_eq_iff a b)
str_eq_iff _ _ = ground arith

-- A comparison with a literal.
infix 50 ◌=:◌
abbrev pub ◌=:◌ : Bytes → String → Bool
s =: t = str_eq s (codes t)

-- `s.compare(0, p.size(), p) == 0`, `s.rfind(p, 0) == 0`.
unfoldable pub starts_with : Bytes → Bytes → Bool
starts_with s [] = true
starts_with [] (y ∷ ys) = false
starts_with (x ∷ xs) (y ∷ ys) = x == y && starts_with xs ys

pub starts_with-append : (p s : Bytes) → starts_with (p ++ s) p ≡ true
unfolding starts_with
starts_with-append [] s = refl
starts_with-append (x ∷ p) s = ground (arith, starts_with-append p s)

abbrev pub is_empty : Bytes → Bool
is_empty [] = true
is_empty (x ∷ xs) = false

-- `std::any_of(parts, part.empty())`.
unfoldable pub has_empty : List Bytes → Bool
has_empty [] = false
has_empty (p ∷ ps) = is_empty p || has_empty ps

abbrev pub Lacks : ℕ → Bytes → Type 0
Lacks b = All (λ c. c ≢ b)

abbrev pub is_digit : ℕ → Bool
is_digit c = leb b'0' c && leb c b'9'

-- The text up to a character, and the text behind it if it is there.
unfoldable pub up_to : ℕ → Bytes → Bytes
up_to b [] = []
up_to b (c ∷ s) = let rest = up_to b s in if c == b then [] else c ∷ rest

unfoldable pub behind : ℕ → Bytes → Option Bytes
behind b [] = none
behind b (c ∷ s) = let rest = behind b s in if c == b then some s else rest
