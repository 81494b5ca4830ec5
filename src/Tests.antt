-- ===== src/Tests.antt =====
-- Runs of the model on concrete data, at which the theorems are applied.
mod World
mod Limiting
mod Sessions
mod Executing
mod Storing
mod Logging
mod Watching
mod Redacting
mod Administering
mod Snapshots
mod Managing
mod Working
mod Following
mod Previewing
