-- ===== src/Actions.antt =====
-- apps/cli/src/actions/: the commands, built from the engine's methods.
pub mod Context
pub mod Restack
pub mod Remote
pub mod Stack
pub mod Traversal
pub mod Submit
pub mod Track
pub mod Changes
pub mod Downstack
pub mod Clean
pub mod Sync
pub mod Split
pub mod Log
pub mod Links
