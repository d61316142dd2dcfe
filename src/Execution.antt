-- ===== src/Execution.antt =====
-- The V6 reorganisation: its sealed manifest, the durable journal, and what a restart observes.
pub mod Paths
pub mod Platform
pub mod Manifest
pub mod Journal
pub mod Preflight
pub mod Mounts
pub mod Criticality
pub mod Restart
pub mod World
pub mod Rename
pub mod Sequence
pub mod Rollback
