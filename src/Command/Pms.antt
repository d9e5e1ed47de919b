-- ===== src/Command/Pms.antt =====
-- cli_command.h and cli_command.cc: `ParsePmsChannel` and `ParsePmsCommand`.
pub mod Laws
use encos_cli.Base.{
  ℕ, Bool, true, false, not, ◌||◌, List, [], ◌∷◌, ◌++◌, Bytes, ◌=:◌, ◌==◌, if◌then◌else◌, Result,
  ok, err, runtime_error, ◌>>=◌, ◌>>◌, throw_if,
}
use encos_cli.Target.Motor.{PmsTarget, parse_pms_target}

pub data PmsChannel : Type 0 where
  v48_1 v48_2 v48_3 v48_4 v48_5 v48_6 : PmsChannel

pub data PmsCommandAction : Type 0 where
  show enable disable : PmsCommandAction

pub record PmsCommand : Type 0 where
  pub target : PmsTarget
  pub action : PmsCommandAction
  pub channels : List PmsChannel

-- `operator==` of the enumeration.
abbrev pub number : PmsChannel → ℕ
number v48_1 = 1
number v48_2 = 2
number v48_3 = 3
number v48_4 = 4
number v48_5 = 5
number v48_6 = 6

abbrev pub same_channel : PmsChannel → PmsChannel → Bool
same_channel a b = number a == number b

unfoldable pub parse_pms_channel : Bytes → Result PmsChannel
parse_pms_channel value =
    if value =: "V48_1"
    then ok v48_1
    else if value =: "V48_2"
    then ok v48_2
    else if value =: "V48_3"
    then ok v48_3
    else if value =: "V48_4"
    then ok v48_4
    else if value =: "V48_5"
    then ok v48_5
    else if value =: "V48_6"
    then ok v48_6
    else err (runtime_error "Unsupported PMS control channel, expected V48_1 through V48_6" value)

-- `std::find(channels.begin(), channels.end(), channel) != channels.end()`.
unfoldable pub has_channel : PmsChannel → List PmsChannel → Bool
has_channel c [] = false
has_channel c (d ∷ ds) = same_channel d c || has_channel c ds

-- One round of the loop over the channel names.
unfoldable pub channel_step : Bytes → List PmsChannel → Result (List PmsChannel)
channel_step argument channels = do
  channel ← parse_pms_channel argument
  throw_if (has_channel channel channels) (runtime_error "Duplicate PMS control channel" argument)
  ok (channels ++ channel ∷ [])

unfoldable pub channel_loop : List Bytes → List PmsChannel → Result (List PmsChannel)
unfolding channel_step
channel_loop [] channels = ok channels
channel_loop (argument ∷ rest) channels = do
  channels' ← channel_step argument channels
  channel_loop rest channels'

unfoldable pub pms_show : PmsTarget → List Bytes → Result PmsCommand
pms_show t [] = ok (record { target = t; action = show; channels = [] })
pms_show t _ = err (runtime_error "PMS show expects exactly one target" [])

unfoldable pub pms_switch : PmsTarget → PmsCommandAction → List Bytes → Result PmsCommand
unfolding channel_loop
pms_switch t action [] =
    err (runtime_error "PMS enable/disable expects at least one V48 channel" [])
pms_switch t action (argument ∷ rest) = do
  channels ← channel_loop (argument ∷ rest) []
  ok (record { target = t; action = action; channels = channels })

unfoldable pub pms_action : PmsTarget → Bytes → List Bytes → Result PmsCommand
unfolding pms_show pms_switch
pms_action t word rest =
    if word =: "show"
    then pms_show t rest
    else if word =: "enable"
    then pms_switch t enable rest
    else if word =: "disable"
    then pms_switch t disable rest
    else err (runtime_error "Unsupported PMS action" word)

unfoldable pub parse_pms_command : List Bytes → Result PmsCommand
unfolding pms_action
parse_pms_command (command ∷ word ∷ target ∷ rest) = do
  throw_if (not (command =: "pms")) (runtime_error "Invalid PMS command" [])
  t ← parse_pms_target target
  pms_action t word rest
parse_pms_command _ = err (runtime_error "Invalid PMS command" [])
