-- ===== src/Command/Config/Shape.antt =====
-- What an accepted `config` command has: a target, and the values that its item wants.
use encos_cli.Base.{
  ℕ, ◌≡◌, ◌⊎◌, inl, inr, refl, Bool, List, [], ◌∷◌, Bytes, codes, String, ◌=:◌, str_eq_iff, length,
  Ensures, Ensures-bind, Result-cases, All, arith, Bool-cases,
}
use encos_cli.Target.Motor.{TargetScope, single_motor}
use encos_cli.Target.Shape.{IsWellFormed, parse_motor_target-IsWellFormed}
use encos_cli.Command.Flags.{extract_canfd_flag}
use encos_cli.Command.Config.{
  ConfigItem, id, position, kt, can_timeout, brake, communication_mode, ConfigOperation, read, set,
  CliCommand, ConfigSpec, config_specs, find_spec, brake_command, communication_command,
  position_command, set_command, item_command, config_command, parse_cli_command,
}

-- How many values `set` takes.
abbrev pub values_of : ConfigItem → ℕ
values_of id = 1
values_of kt = 1
values_of can_timeout = 1
values_of brake = 1
values_of communication_mode = 1
values_of position = 1
values_of _ = 2

abbrev OneOf : Bytes → String → String → Type 0
OneOf v s t = (v ≡ codes s) ⊎ (v ≡ codes t)

abbrev pub HasValues : ConfigItem → ConfigOperation → TargetScope → List Bytes → Type 0
HasValues id read scope values = ⊥
HasValues communication_mode read scope values = ⊥
HasValues item read scope values = values ≡ []
HasValues id set scope values = (scope ≡ single_motor) × (length values ≡ 1)
HasValues position set scope values = (values ≡ []) ⊎ (length values ≡ 1)
HasValues brake set scope values = (values ≡ codes "engage" ∷ []) ⊎ (values ≡ codes "release" ∷ [])
HasValues communication_mode set scope values =
    (values ≡ codes "can" ∷ []) ⊎ ((values ≡ codes "canfd" ∷ []) ⊎ (values ≡ codes "canopen" ∷ []))
HasValues item set scope values = length values ≡ values_of item

pub record IsConfig (c : CliCommand) : Type 0 where
  pub target : IsWellFormed c.target
  pub values : HasValues c.item c.operation c.target.scope c.values

abbrev IsSpec : String × ConfigSpec → Type 0
IsSpec (name, s) = s.value_count ≡ values_of s.item

find_spec-Ensures :
    (name : Bytes) (specs : List (String × ConfigSpec))
    → All IsSpec specs
    → Ensures (λ s. s.value_count ≡ values_of s.item) (find_spec name specs)
unfolding find_spec
find_spec-Ensures name [] h = tt
find_spec-Ensures name ((key, s) ∷ specs) (h, hs) = ground (arith, find_spec-Ensures name specs hs)

-- The items whose values are counted by `ConfigSpecs`.
abbrev pub IsCounted : ConfigItem → Type 0
IsCounted brake = ⊥
IsCounted communication_mode = ⊥
IsCounted position = ⊥
IsCounted _ = Unit

module _ (c : CliCommand) (w : IsWellFormed c.target) where
  brake_command-IsConfig :
      (rest : List Bytes) → c.item ≡ brake → Ensures IsConfig (brake_command c rest)
  unfolding brake_command
  brake_command-IsConfig [] e = ground arith
  brake_command-IsConfig (v ∷ []) e =
      ground (arith, str_eq_iff v (codes "engage"), str_eq_iff v (codes "release"))
  brake_command-IsConfig (v ∷ u ∷ rest) e = tt

  communication_command-IsConfig :
      (rest : List Bytes)
      → c.item ≡ communication_mode
      → Ensures IsConfig (communication_command c rest)
  unfolding communication_command
  communication_command-IsConfig [] e = tt
  communication_command-IsConfig (op ∷ []) e = tt
  communication_command-IsConfig (op ∷ v ∷ []) e = ground (
    arith,
    str_eq_iff v (codes "can"),
    str_eq_iff v (codes "canfd"),
    str_eq_iff v (codes "canopen"),
  )
  communication_command-IsConfig (op ∷ v ∷ u ∷ rest) e = tt

  position_command-IsConfig :
      (rest : List Bytes) → c.item ≡ position → Ensures IsConfig (position_command c rest)
  unfolding position_command
  position_command-IsConfig [] e = tt
  position_command-IsConfig (op ∷ []) e = ground arith
  position_command-IsConfig (op ∷ v ∷ []) e = ground arith
  position_command-IsConfig (op ∷ v ∷ u ∷ rest) e = tt

  set_command-IsConfig :
      (name op : Bytes) (values : List Bytes) (item : ConfigItem)
      → IsCounted item
      → c.item ≡ item
      → Ensures IsConfig (set_command c (values_of item) name op values)
  unfolding set_command
  set_command-IsConfig name op values brake p e = absurd p
  set_command-IsConfig name op values communication_mode p e = absurd p
  set_command-IsConfig name op values position p e = absurd p
  set_command-IsConfig name op values _ p e = ground arith

  item_command-IsConfig :
      (name : Bytes) (item : ConfigItem) (rest : List Bytes)
      → c.item ≡ item
      → Ensures IsConfig (item_command c (values_of item) name item rest)
  unfolding item_command
  item_command-IsConfig name brake rest e = brake_command-IsConfig rest e
  item_command-IsConfig name communication_mode rest e = communication_command-IsConfig rest e
  item_command-IsConfig name id [] e = tt
  item_command-IsConfig name _ [] e = ground arith
  item_command-IsConfig name position (op ∷ values) e = position_command-IsConfig (op ∷ values) e
  item_command-IsConfig name item (op ∷ values) e = set_command-IsConfig name op values item tt e

specs_agree : All IsSpec config_specs
specs_agree = omega arith

config_command-IsConfig :
    (canfd : Bool) (args : List Bytes) → Ensures IsConfig (config_command canfd args)
unfolding config_command
config_command-IsConfig canfd [] = tt
config_command-IsConfig canfd (command ∷ []) = tt
config_command-IsConfig canfd (command ∷ target ∷ []) = tt
config_command-IsConfig canfd (command ∷ target ∷ name ∷ rest) =
    elim (Bool-cases (command =: "config")) [
      | inl e ↦ rw e (
          Ensures-bind (λ s. s.value_count ≡ values_of s.item) IsConfig _ _
            (find_spec-Ensures name config_specs specs_agree)
            λ s agrees.
              Ensures-bind IsWellFormed IsConfig _ _ (parse_motor_target-IsWellFormed target) λ t w.
                rw agrees (
                  item_command-IsConfig
                    (record {
                      target = t;
                      item = s.item;
                      operation = read;
                      canfd = canfd;
                      values = [];
                    })
                    w name s.item rest refl))
      | inr e ↦ rw e tt
    ]

-- An accepted `config` command has a well-formed target. `id` and `comm` are only set, `id` on a
-- single motor; reading takes no value; `brake` and `comm` are set to one of their words; every
-- other item is set to as many values as it has (`position` also to none, by `reset`).
pub parse_cli_command-IsConfig : (args : List Bytes) → Ensures IsConfig (parse_cli_command args)
unfolding parse_cli_command
parse_cli_command-IsConfig args = elim (Result-cases (extract_canfd_flag args)) [
  | inl (flags, e) ↦ rw e (config_command-IsConfig flags.canfd flags.arguments)
  | inr (error, e) ↦ rw e tt
]
