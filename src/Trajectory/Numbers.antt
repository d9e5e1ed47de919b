-- ===== src/Trajectory/Numbers.antt =====
-- The floating-point types of the trajectories, which antt does not have: `double` and `float`
-- with the operations that the code makes on them. `print_margin` is the literal 1e-9.
use encos_cli.Base.{Bytes, Bool}
use encos_cli.Base.Exceptions.{Result}

pub record Numbers : Type 1 where
  pub Double : Type 0
  pub Float : Type 0
  pub zero_s : Double
  pub add : Double → Double → Double
  pub sub : Double → Double → Double
  pub mul : Double → Double → Double
  pub div : Double → Double → Double
  pub twice : Double → Double
  pub fmod : Double → Double → Double
  pub max_zero : Double → Double
  pub le : Double → Double → Bool
  pub lt : Double → Double → Bool
  pub print_margin : Double
  pub stod : Bytes → Result (Double × Bytes)
  pub is_finite : Double → Bool
  pub to_float : Double → Float
  pub to_double : Float → Double
  pub sub_float : Float → Float → Float
