-- ===== src/Agent.antt =====
-- agent/: the ICE agent.
pub mod Address
pub mod Candidate
pub mod PseudoTcp
pub mod CheckList
