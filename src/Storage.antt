-- ===== src/Storage.antt =====
-- The filesystem storage boundary (internal/storage): finalized objects, upload staging, trash and
-- quarantine under one root, addressed by validated identifiers only.
pub mod Local
pub mod Session
pub mod Staging
pub mod Staged
pub mod StateFile
pub mod Quarantine
