-- ===== src/Examples.antt =====
-- Concrete runs of the theorems, one module for each part.
mod Ballots
mod Closing
mod Counts
mod Discussion
mod Graphs
mod Pipelines
mod Sessions
mod Locking
mod Smart
mod Tasks
