-- ===== src/Paxos.antt =====
-- Agreement on one slot: the acceptors (acceptor.cpp) and proposers (proposer.cpp) of all nodes as
-- captain.cpp drives them.
pub mod Count
pub mod System
pub mod Invariant
pub mod Growth
pub mod Replying
pub mod Serving
pub mod Asking
pub mod Answering
pub mod Continuing
pub mod Reaching
pub mod Agreement
pub mod Validity
pub mod Loaded
pub mod Runs
pub mod Progress
