-- ===== src/Smart.antt =====
-- The smart discussion of agora/coordinator: messages, their assessment and the rounds.
pub mod Messages
pub mod Assess
pub mod Guard
pub mod Advocate
pub mod Deadlock
pub mod Rounds
pub mod Speaking
pub mod Dynamic
pub mod Jump
pub mod Realtime
pub mod Scheduler
