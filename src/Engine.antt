-- ===== src/Engine.antt =====
-- apps/cli/src/lib/engine/engine.ts: `composeEngine`.
pub mod State
pub mod Update
pub mod Queries
pub mod Tracking
pub mod Commits
pub mod Rebase
pub mod Remote
pub mod Cache
pub mod CacheFiles
pub mod Reads
pub mod Links
