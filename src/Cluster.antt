-- ===== src/Cluster.antt =====
-- The package cluster.
pub mod Network
pub mod Version
pub mod Disks
pub mod Identity
pub mod Retry
pub mod Up
pub mod Config
pub mod Reconfigure
pub mod Membership
