-- ===== src/Pipeline.antt =====
-- The pipeline from an idea to a release: agora/coordinator/pipeline.py and the pipeline_*.py files.
pub mod Types
pub mod Retry
pub mod Review
pub mod Release
pub mod Executor
pub mod Outcomes
