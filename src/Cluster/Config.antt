-- ===== src/Cluster/Config.antt =====
-- cluster/config.go: the machine config that a bring-up generates.
pub mod Documents
pub mod Kubernetes
pub mod Registries
pub mod Volumes
pub mod Node
pub mod Options
pub mod Patch
pub mod Generate
pub mod Tests
