-- ===== src/Firmware.antt =====
-- src/cli/firmware_download.cc and src/cli/firmware_download_platform.cc: the download command.
pub mod Words
pub mod Sha256
pub mod Package
pub mod Load
pub mod Status
pub mod Transfer
pub mod Download
