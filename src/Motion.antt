-- ===== src/Motion.antt =====
-- agora/coordinator/state.py, ws_vote.py, storage/motions.py and storage/votes.py: the life of a
-- motion, who may speak and vote on it, the handler of a vote, and the closing of a vote.
pub mod Store
pub mod State
pub mod Ballot
pub mod Closing
