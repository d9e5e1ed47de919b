-- ===== src/Command.antt =====
-- cli_command.h and cli_command.cc: the commands of the command line. `Flags`, `Config`, `Control`,
-- `Sensor`, `Pms`, `Glove` and `Table` model the code; their children prove what it does.
pub mod Flags
pub mod Config
pub mod Control
pub mod Sensor
pub mod Pms
pub mod Glove
pub mod Table
