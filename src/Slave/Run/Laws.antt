-- ===== src/Slave/Run/Laws.antt =====
-- The commands of a slave request are run in order, up to the first that fails.
use encos_cli.Base.{
  ℕ, suc, ◌≡◌, refl, ap, Bool, true, false, List, [], ◌∷◌, Bytes, codes, Result, ok, err, Error,
  length, starts_with, bind-eq-ok, All, not, throw_if, ◌>>◌, arith,
}
use mathlib.Core.Path.{subst}
use encos_cli.Firmware.Transfer.{Serial, contains, trim_line_end}
use encos_cli.Slave.Packets.{checked_reply}
use encos_cli.Slave.Run.{run_commands, print_first, serial_command, run_serial, Printed}

-- The lines of a run, when it ends without an error.
abbrev pub AllOk : List Bytes → Type 0
AllOk = All (λ line. starts_with line (codes "OK ") ≡ true)

abbrev Answered : List Bytes → List Bytes → Type 0
Answered commands lines = (length lines ≡ length commands) × AllOk lines

print_first-Answered :
    (command : Bytes) (commands : List Bytes) (r : Result Bytes) (rest : Printed)
    → ((line : Bytes) → r ≡ ok line → starts_with line (codes "OK ") ≡ true)
    → (rest.1 ≡ ok tt → Answered commands rest.0)
    → (print_first r rest).1 ≡ ok tt
    → Answered (command ∷ commands) (print_first r rest).0
print_first-Answered command commands (err e) rest f g h = cc
print_first-Answered command commands (ok line) (lines, outcome) f g h =
    let (size, each) = g h in (ap suc size, (f line refl, each))

run_commands-Answered :
    (ask : ℕ → Bytes → Result Bytes)
    → ((i : ℕ) (command line : Bytes)
        → ask i command ≡ ok line
        → starts_with line (codes "OK ") ≡ true)
    → (i : ℕ) (commands : List Bytes) → (run_commands ask i commands).1 ≡ ok tt
    → Answered commands (run_commands ask i commands).0
unfolding run_commands
run_commands-Answered ask good i [] h = (refl, tt)
run_commands-Answered ask good i (command ∷ commands) h =
    print_first-Answered command commands (ask i command) (run_commands ask (suc i) commands)
      (good i command) (run_commands-Answered ask good (suc i) commands) h

kept :
    (b : Bool) (e : Error) (text line : Bytes)
    → (throw_if (not b) e >> ok text) ≡ ok line
    → (b ≡ true) × (text ≡ line)
kept true e text line h = (refl, ground (arith, h))
kept false e text line h = cc

checked_reply-starts_with :
    (reply line : Bytes) → checked_reply reply ≡ ok line → starts_with line (codes "OK ") ≡ true
unfolding checked_reply
checked_reply-starts_with reply line h =
    let text : Bytes = trim_line_end reply in
    let (found, same) = kept (starts_with text (codes "OK ")) _ text line h in
    subst (λ t. starts_with t (codes "OK ") ≡ true) same found

serial_command-starts_with :
    (port : Serial) (line : Bytes)
    → serial_command port ≡ ok line
    → starts_with line (codes "OK ") ≡ true
unfolding serial_command
serial_command-starts_with port line h =
    let (d1, e1, h1) = bind-eq-ok (throw_if (not port.wrote) _) _ h in
    let (d2, e2, h2) = bind-eq-ok (throw_if (not (contains 10 port.reply)) _) _ h1 in
    checked_reply-starts_with port.reply line h2

-- A run over the serial device that ends without an error has opened it and has printed, for every
-- command, a line that begins with `OK `.
pub run_serial_answered :
    (endpoint : Bytes) (opened : Bool) (answers : ℕ → Serial) (commands : List Bytes)
    → (run_serial endpoint opened answers commands).1 ≡ ok tt
    → (opened ≡ true)
      × (length (run_serial endpoint opened answers commands).0 ≡ length commands)
      × AllOk (run_serial endpoint opened answers commands).0
unfolding run_serial
run_serial_answered endpoint false answers commands h = cc
run_serial_answered endpoint true answers commands h =
    let (size, each) =
      run_commands-Answered (λ i command. serial_command (answers i))
        (λ i command line e. serial_command-starts_with (answers i) line e) 0 commands h in
    (refl, size, each)
