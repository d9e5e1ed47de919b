-- ===== src/Trajectory.antt =====
-- src/calibration_config.h, src/csv_parser.cc, src/trajectory_csv_parser.cc, src/trajectory_player.h
-- and src/trajectory_player.cc: trajectories, from the text of a file to the positions at a time.
pub mod Connection
pub mod Numbers
pub mod Csv
pub mod Player
