-- ===== src/Platform.antt =====
-- platform: what the host says about processes, images, its firmware and its accelerators.
pub mod Process
pub mod Image
pub mod Firmware
pub mod Detect
