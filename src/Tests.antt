-- ===== src/Tests.antt =====
-- The theorems at concrete inputs.
mod Targets
mod Commands
mod Playing
mod Trajectories
mod Tools
mod Downloads
mod Slaves
mod Setups
