-- ===== src/Play.antt =====
-- src/cli/play.cc: the play command: its control loop, and what keeps time, counts packets and scrolls.
pub mod Clock
pub mod Loss
pub mod Tui
pub mod Motors
pub mod Requests
pub mod Loop
pub mod Logs
pub mod Snapshots
pub mod Names
pub mod Opening
pub mod Setup
