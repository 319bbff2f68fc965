-- ===== src/Tinq.antt =====
-- cmd/tinq: the QEMU driver of the host.
pub mod Halt
pub mod Destroy
pub mod Segment
pub mod Endpoints
pub mod Driver
pub mod ClusterNet
pub mod Site
pub mod Lifecycle
pub mod Join
pub mod Create
pub mod Options
pub mod Adopt
pub mod Capacity
pub mod Reconfigure
pub mod Tests
