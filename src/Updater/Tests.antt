-- ===== src/Updater/Tests.antt =====
-- Tests of the updater on small concrete inputs.
mod Searches
mod Sorted
mod Checkpoints
