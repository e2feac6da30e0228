-- ===== src/Updater.antt =====
-- generic_config_updater: applies patches to the configuration in an order that keeps it valid, and
-- rolls back to checkpoints.
pub mod Moves
pub mod Dfs
pub mod Bfs
pub mod Memoization
pub mod Sorters
pub mod Apply
pub mod Checkpoints
mod Tests
