-- ===== src/DriverVersion.antt =====
-- src/driver_version.cc: which versions of the driver library are supported.
pub mod Laws
use encos_cli.Base.{
  ℕ, zero, suc, ◌+◌, ◌-◌, ◌*◌, ◌^◌, Bool, true, false, not, ◌&&◌, ◌||◌, Option, none, some, List,
  [], ◌∷◌, Bytes, ◌==◌, ltb, leb, is_digit, if◌then◌else◌,
}

-- The loop of `ParseVersionComponent`; none where it returns false.
unfoldable pub component_loop : ℕ → Bytes → Option ℕ
component_loop parsed [] = some parsed
component_loop parsed (c ∷ text) =
    let next = parsed * 10 + (c - b'0') in
    let rest = component_loop next text in
    if not (is_digit c) then none else if ltb (2 ^ 32 - 1) next then none else rest

unfoldable pub parse_version_component : Bytes → Option ℕ
unfolding component_loop
parse_version_component [] = none
parse_version_component (c ∷ text) = component_loop 0 (c ∷ text)

abbrev pub in_front : ℕ → Bytes × Option Bytes → Bytes × Option Bytes
in_front c (component, rest) = (c ∷ component, rest)

-- The text up to the first point, and the text behind it if there is one.
unfoldable pub cut_point : Bytes → Bytes × Option Bytes
cut_point [] = ([], none)
cut_point (c ∷ text) =
    let rest = cut_point text in if c == b'.' then ([], some text) else in_front c rest

abbrev pub prepend : Option ℕ → Option (List ℕ) → Option (List ℕ)
prepend (some v) (some vs) = some (v ∷ vs)
prepend _ _ = none

abbrev pub last_component : Option ℕ → Option (List ℕ)
last_component none = none
last_component (some v) = some (v ∷ [])

-- The loop of `ParseVersion` with `later` components to read after this one. Only the last one may
-- and must have no point behind it.
unfoldable pub version_loop : ℕ → Bytes → Option (List ℕ)
unfolding cut_point parse_version_component
version_loop zero text =
    let (component, rest) = cut_point text in
    elim rest [ none ↦ last_component (parse_version_component component) | some later_text ↦ none ]
version_loop (suc later) text =
    let (component, rest) = cut_point text in
    elim rest [
      | none ↦ none
      | some later_text ↦
          prepend (parse_version_component component) (version_loop later later_text)
    ]

unfoldable pub parse_version : Bytes → Option (List ℕ)
unfolding version_loop
parse_version text = version_loop 2 text

-- `operator<` of two arrays of one size.
unfoldable pub array_less : List ℕ → List ℕ → Bool
array_less (x ∷ xs) (y ∷ ys) = ltb x y || (x == y && array_less xs ys)
array_less _ _ = false

abbrev pub in_range : Option (List ℕ) → Bool
in_range none = false
in_range (some version) =
    not (array_less version (4 ∷ 0 ∷ 0 ∷ [])) && array_less version (4 ∷ 1 ∷ 0 ∷ [])

unfoldable pub is_supported_encos_driver_version : Option Bytes → Bool
unfolding parse_version array_less
is_supported_encos_driver_version none = true
is_supported_encos_driver_version (some text) = in_range (parse_version text)
