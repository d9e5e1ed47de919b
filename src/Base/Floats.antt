-- ===== src/Base/Floats.antt =====
-- Floating point, which antt does not have: the type `float` with what the command line does to it.
use encos_cli.Base.Text.{Bytes}
use encos_cli.Base.Exceptions.{Result}
use mathlib.Core.Bool.{Bool}

-- `stof` returns the number and the text behind it, or throws as `std::stof` does; `to_radians` is
-- the product by `kDegreesToRadians`.
pub record Floats : Type 1 where
  pub Float : Type 0
  pub stof : Bytes → Result (Float × Bytes)
  pub is_finite : Float → Bool
  pub to_radians : Float → Float
