-- ===== src/Captain.antt =====
-- libndnpaxos/captain.hpp and captain.cpp: the replica, which keeps an acceptor and possibly a proposer
-- for each slot, and the log of the chosen values.
pub mod State
pub mod Log
pub mod Start
pub mod Handlers
pub mod Dispatch
pub mod Replica
pub mod Depth
