-- ===== src/Slave.antt =====
-- src/cli/slave_config.cc: the configuration of slaves.
pub mod Request
pub mod Items
pub mod Packets
pub mod Run
