-- ===== src/Lib.antt =====
-- NDNPaxos: Paxos over Named Data Networking (libndnpaxos).
--
-- The program. Each node runs a Captain (captain.cpp), the replica: it keeps, for each slot of a log,
-- an Acceptor (acceptor.cpp) and, for the slots that it fills itself, a Proposer (proposer.cpp), and
-- the log of chosen values. A View (view.cpp) says how large the cluster is, who the node is and who
-- the master is. Commo (commo.cpp) sends the messages as interests and data packets and hands what
-- arrives to the captain. A Client (client.cpp) loads the master with read and write requests, and a
-- DBManager (dbmanager.cpp) executes the values of the log as SQL statements. The macro
-- MODE_TYPE selects one of four builds: basic, RS (values are split by a Reed-Solomon code,
-- rs_encoder.hpp and rs_decoder.hpp), multi (the master skips the prepare phase) and quorum.
--
-- The files.
--   Prelude           shared names, Boolean tests, lists by native numbers, results with faults
--                     (Fallible, Settling), and std::map as a sorted association list (SortedMap,
--                     Below)
--   Types             libndnpaxos/internal_types.hpp and ndnpaxos.proto; `Mode` is MODE_TYPE
--   View              libndnpaxos/view.cpp: `new_view` is the constructor and `load` what it makes of the
--                     file; View/Quorum the quorum sizes
--   Acceptor          libndnpaxos/acceptor.cpp: `handle_msg_prepare`, `handle_msg_accept`;
--                     Acceptor/Promise, Acceptor/History and Acceptor/Reference its theorems
--   Rs                libndnpaxos/rs_encoder.hpp and rs_decoder.hpp: `rs_encode`, `rs_decode`;
--                     Rs/Split, Pick, RoundTrip, Lengths and Unrecovered their
--                     theorems
--   Proposer          libndnpaxos/proposer.cpp, every method; Proposer/Ballots, Choice, History,
--                     Answers and Steps its theorems
--   Captain           libndnpaxos/captain.cpp: State (the fields, the constructor), Log
--                     (`add_chosen_value`, `add_callback`), Start (`commit`, `master_change`), Handlers
--                     and Dispatch (`handle_msg`, one function for each case of its switch);
--                     Captain/Replica: the relations that the steps of a replica keep, shown for Sending,
--                     Handling and Dispatching, the Runs of a replica, its Queues, and the Numbers (ids)
--                     that it gives to values;
--                     Captain/Depth: how deep the calls for its own messages nest (Acks, Requests,
--                     Starting, Answers, Choices and Nesting go through the handlers, Calls through
--                     runs)
--   Paxos             one slot over all nodes: System (the step relation: what captain.cpp does with
--                     the acceptor and the proposer of a slot, and a network that keeps all packets),
--                     Count (sets of nodes), Invariant, Growth (what is never taken back), Replying,
--                     Serving, Asking, Answering and Continuing (the steps keep the invariant),
--                     Reaching (all states that are reached satisfy it), Agreement, Validity, Loaded
--                     (the cluster of a configuration file), Runs (sequences of steps) and Progress
--                     (a master that runs undisturbed: the replies it gets, its two phases, its
--                     restarts, and Choosing)
--   Commo             libndnpaxos/commo.cpp: `broadcast_msg`, `send_one_msg`; Commo/Wire `deal_msg`,
--                     Commo/Names the constructor and the names of requests, Commo/Making what the
--                     constructor makes, Commo/Routing where requests arrive
--   Client            libndnpaxos/client.cpp
--   DbManager         libndnpaxos/dbmanager.cpp: a database that executes the values of the log;
--                     DbManager/Replay (the statements of a log) and Runs its theorems
--   Examples          concrete data, at which the theorems are applied
--
-- Conventions. A method takes the object's state and returns the new one with its result. `Outcome` has
-- `ok`, `fault` (what C++ leaves undefined, or an exception that nobody catches) and `spent` (fuel that
-- ran out). A message that a replica sends to itself is handled in the middle of the call, as in the
-- source, so the handlers of Captain take the handler of such messages as an argument, and `handle_msg`
-- ties the knot on the depth of the nesting, for which four is enough outside the RS build where
-- quorums have two nodes or more. What a replica does to the outside is recorded as events.
-- The loop of `add_callback` runs on the number of slots above the prefix without holes, which is as
-- often as it can go round. Numbers of 16, 32 and 64 bits wrap where the source can reach the bound;
-- slots stay below 2^31, where the loops over `int i` agree with the 64-bit numbers.
--
-- Parameters. libzfec (a copy of the zfec library), protocol buffers and the names of ndn-cxx are
-- arguments: `Fec`, `Codec`, `NameApi`, `NameLibrary` and the type `Name`; sqlite is `Sqlite`, whose
-- calls may depend on how many came before. The callbacks of the captain are events, which DbManager
-- answers after the call that made them, since the captain does not read the database; they are
-- taken not to call the captain again.
--
-- Not modelled. The thread pool (a copy of a Boost library), libzfec, the
-- Producer and Consumer samples of ndn-cxx, the test programs and examples, log output, the commands
-- that constructors run, and the locks: a handler is one step.
pub mod Acceptor
pub mod Captain
pub mod Client
pub mod Commo
pub mod DbManager
pub mod Examples
pub mod Paxos
pub mod Prelude
pub mod Proposer
pub mod Rs
pub mod Types
pub mod View
