-- ===== src/Command/Config/Accept.antt =====
-- The `config` commands that are accepted, and what they are read as.
use encos_cli.Base.{
  ℕ, ◌≡◌, ◌<◌, refl, ◌∙◌, List, [], ◌∷◌, Bytes, codes, str_eq, leb, lt→ltb, length, ok, arith,
}
use encos_cli.Target.Motor.{single_motor, MotorTarget, parse_motor_target}
use encos_cli.Command.Flags.{extract_canfd_flag-count_flags, without_flag, count_flags}
use encos_cli.Command.Config.Shape.{IsCounted}
use encos_cli.Command.Config.{
  ConfigItem, id, position, brake, communication_mode, read, set, CliCommand, ConfigSpec,
  config_specs, find_spec, set_command, item_command, config_command, parse_cli_command,
}

set_command-ok :
    (c : CliCommand) (name : Bytes) (values : List Bytes) (item : ConfigItem) (count : ℕ)
    → c.item ≡ item
    → (item ≡ id → c.target.scope ≡ single_motor)
    → length values ≡ count
    → set_command c count name (codes "set") values
      ≡ ok (record c { operation = set; values = values })
unfolding set_command str_eq
set_command-ok c name values item count e single n = ground (arith, single)

item_command-set :
    (c : CliCommand) (name : Bytes) (values : List Bytes) (item : ConfigItem) (count : ℕ)
    → IsCounted item
    → c.item ≡ item
    → (item ≡ id → c.target.scope ≡ single_motor)
    → length values ≡ count
    → item_command c count name item (codes "set" ∷ values)
      ≡ ok (record c { operation = set; values = values })
unfolding item_command
item_command-set c name values brake count p e single n = absurd p
item_command-set c name values communication_mode count p e single n = absurd p
item_command-set c name values position count p e single n = absurd p
item_command-set c name values item count p e single n =
    set_command-ok c name values item count e single n

-- The flag is taken out, and the rest is read with it.
pub parse_cli_command_flags :
    (args : List Bytes)
    → count_flags args < 2
    → parse_cli_command args ≡ config_command (leb 1 (count_flags args)) (without_flag args)
unfolding parse_cli_command
parse_cli_command_flags args h = rw (extract_canfd_flag-count_flags, lt→ltb _ _ h) refl

module _ (args values : List Bytes) (target name : Bytes) (s : ConfigSpec) (t : MotorTarget)
    (flags : count_flags args < 2)
    (line : without_flag args ≡ codes "config" ∷ target ∷ name ∷ codes "set" ∷ values)
    (known : find_spec name config_specs ≡ ok s) (counted : IsCounted s.item)
    (targeted : parse_motor_target target ≡ ok t) (single : s.item ≡ id → t.scope ≡ single_motor)
    (enough : length values ≡ s.value_count) where
  -- `config <target> <item> set <values>`, with at most one `--canfd` anywhere, is accepted for every
  -- target that `ParseMotorTarget` reads, every known item that counts its values and a list of that
  -- length; for the item `id` the target must be a single motor.
  pub parse_cli_command-set :
      parse_cli_command args
      ≡ ok (record {
        target = t;
        item = s.item;
        operation = set;
        canfd = leb 1 (count_flags args);
        values = values;
      })
  parse_cli_command-set =
      parse_cli_command_flags args flags
      ∙ rw line (
          unfold config_command in
          unfold str_eq in
          rw (known, targeted)
            (item_command-set
              (record {
                target = t;
                item = s.item;
                operation = read;
                canfd = leb 1 (count_flags args);
                values = [];
              })
              name values s.item s.value_count counted refl single enough))
