-- ===== src/Play/Logs.antt =====
-- src/cli/play.cc: switching the logs of the motors on and off.
-- A motor is its index in `monitored_motors_`. The driver and the file system answer as they like:
-- their answers are arguments. What is reported goes to the live table or to stderr; it is collected,
-- but for the message of a success.
pub mod Laws
pub mod Outcome
use encos_cli.Base.{
  ℕ, ◌+◌, Bool, true, false, not, ◌&&◌, ◌||◌, Option, none, some, List, [], ◌∷◌, ◌++◌, map, Bytes,
  codes, leb, if◌then◌else◌, is_digit, is_empty, Result, ok, err,
}
use encos_cli.Base.Int.{pos}
use encos_cli.Number.{to_string}

-- `std::isalnum` in the "C" locale.
abbrev pub is_alnum : ℕ → Bool
is_alnum c = is_digit c || leb b'A' c && leb c b'Z' || leb b'a' c && leb c b'z'

unfoldable pub sanitize_log_name : Bytes → Bytes
sanitize_log_name = map (λ c. if is_alnum c then c else b'_')

-- The path behind the directory, which `std::filesystem` puts in front.
unfoldable pub log_file_name : Bytes → ℕ → Bytes
unfolding sanitize_log_name
log_file_name motor_name motor_index =
    sanitize_log_name motor_name ++ (b'_' ∷ to_string (pos motor_index))

pub data LogReport : Type 0 where
  still_closing : LogReport
  no_directory : Bytes → LogReport
  not_enabled : Bytes → LogReport
  enabling_threw : LogReport
  not_closed : ℕ → LogReport

pub record PlayLogs : Type 0 where
  pub monitored : List Bytes
  pub logging : List ℕ
  pub logs_enabled : Bool
  pub log_directory : Option Bytes
  pub reports : List LogReport

-- The answers to one operation: whether the directory is there, whether `EnableLog` on a path leaves
-- the motor logged, or throws, and whether `DisableLog` returns.
pub record LogAnswers : Type 0 where
  pub created : Bytes → Bool
  pub enable : ℕ → Bytes → Result Bool
  pub closes : ℕ → Bool

abbrev pub report : LogReport → PlayLogs → PlayLogs
report what s = record s { reports = s.reports ++ (what ∷ []) }

-- The loop of `DisableLogs`: the motors that stay, and what is reported of them.
unfoldable pub still_logging : LogAnswers → List ℕ → List ℕ
still_logging a [] = []
still_logging a (motor ∷ motors) =
    let rest = still_logging a motors in if a.closes motor then rest else motor ∷ rest

unfoldable pub disable_logs : LogAnswers → PlayLogs → PlayLogs × Bool
unfolding still_logging
disable_logs a s =
    let rest = still_logging a s.logging in
    (
      record s {
        logging = rest;
        logs_enabled = not (is_empty rest);
        reports = s.reports ++ map not_closed rest;
      },
      is_empty rest,
    )

-- A failure closes the logs that were opened.
abbrev pub give_up : LogAnswers → LogReport → PlayLogs → PlayLogs × Bool
give_up a what s = ((disable_logs a (report what s)).0, false)

-- Behind `EnableLog` of a motor: on to the rest, or out of the loop.
unfoldable pub after_enabling :
    LogAnswers → Bytes → PlayLogs → PlayLogs × Bool → Result Bool → PlayLogs × Bool
unfolding disable_logs
after_enabling a name s rest (ok true) = rest
after_enabling a name s rest (ok false) = give_up a (not_enabled name) s
after_enabling a name s rest (err thrown) = give_up a enabling_threw s

-- The loop of `EnableLogs` over the motors from an index on; `join` is `operator/` of paths.
unfoldable pub enable_from :
    (Bytes → Bytes → Bytes) → LogAnswers → Bytes → ℕ → List Bytes → PlayLogs → PlayLogs × Bool
unfolding log_file_name after_enabling
enable_from join a directory index [] s = (record s { logs_enabled = true }, true)
enable_from join a directory index (name ∷ names) s =
    let entered = record s { logging = s.logging ++ (index ∷ []) } in
    let rest = enable_from join a directory (index + 1) names entered in
    after_enabling a name entered rest (a.enable index (join directory (log_file_name name index)))

unfoldable pub enable_logs :
    (Bytes → Bytes → Bytes) → LogAnswers → Bytes → PlayLogs → PlayLogs × Bool
unfolding enable_from
enable_logs join a directory s =
    if not (is_empty s.logging)
    then (report still_closing (record s { logs_enabled = true }), false)
    else if not (a.created directory)
    then (report (no_directory directory) s, false)
    else enable_from join a directory 0 s.monitored s

abbrev pub or_default : Option Bytes → Bytes
or_default none = codes "./logs"
or_default (some directory) = directory

unfoldable pub toggle_logs_from_tui :
    (Bytes → Bytes → Bytes) → LogAnswers → PlayLogs → PlayLogs × Bool
unfolding disable_logs enable_logs
toggle_logs_from_tui join a s =
    let directory = or_default s.log_directory in
    if s.logs_enabled
    then disable_logs a s
    else enable_logs join a directory (record s { log_directory = some directory })

-- What happens to the logs: the start of play, the key of the live table, and the end.
pub data LogOperation : Type 0 where
  at_start : LogAnswers → LogOperation
  on_key : LogAnswers → LogOperation
  at_end : LogAnswers → LogOperation

-- `Initialize` switches the logs on if a directory was asked for.
unfoldable pub start_logs :
    (Bytes → Bytes → Bytes) → LogAnswers → Option Bytes → PlayLogs → PlayLogs
unfolding enable_logs
start_logs join a none s = s
start_logs join a (some directory) s = (enable_logs join a directory s).0

unfoldable pub operate : (Bytes → Bytes → Bytes) → LogOperation → PlayLogs → PlayLogs
unfolding start_logs disable_logs toggle_logs_from_tui
operate join (at_start a) s = start_logs join a s.log_directory s
operate join (on_key a) s = (toggle_logs_from_tui join a s).0
operate join (at_end a) s = (disable_logs a s).0

unfoldable pub run_logs : (Bytes → Bytes → Bytes) → List LogOperation → PlayLogs → PlayLogs
unfolding operate
run_logs join [] s = s
run_logs join (o ∷ operations) s = run_logs join operations (operate join o s)
