-- ===== src/Target.antt =====
-- cli_command.cc: the targets of the command line. `Split`, `Integer` and `Motor` model the code,
-- and the other children prove what it does.
pub mod Split
pub mod Integer
pub mod Motor
pub mod Quoting
pub mod IntegerLaws
pub mod Grammar
pub mod Shape
