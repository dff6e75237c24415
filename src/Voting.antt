-- ===== src/Voting.antt =====
-- agora/coordinator/voting: the counters and the manager that closes a motion.
pub mod Types
pub mod Binary
pub mod Ranked
pub mod Leader
pub mod Choice
pub mod Weighted
pub mod Approval
