-- ===== src/Task.antt =====
-- agora/coordinator/task_*.py and storage/tasks.py: the task execution engine.
pub mod Resource
pub mod Status
pub mod Store
pub mod World
pub mod Verify
pub mod Exec
pub mod Retry
pub mod Graph
pub mod Assign
pub mod Parallel
