-- ===== src/Examples/Depth.antt =====
-- The depth of the calls of a replica, in a run of the master of three nodes and in a restart.
use ndnpaxos.Prelude.{ℕ, List, [], ◌∷◌, arith, none, false}
use ndnpaxos.Prelude.Settling.{Settles}
use ndnpaxos.Types.{Mode, MsgType, Message}
use ndnpaxos.Captain.State.{new_captain, named}
use ndnpaxos.Captain.Depth.{IsShallow}
use ndnpaxos.Captain.Depth.Calls.{Input, handles, commits, call_all, calls_settle}
use ndnpaxos.Examples.Data.{node, ballot, no_fec}
use ndnpaxos.Examples.Master.{promise_of_1, accepted_by_1, taught}

-- Node 2 refuses the first ballot of the second slot.
abbrev refusal_of_2 : Message
refusal_of_2 = Message.promise (record {
  header = record { msg_type = MsgType.promise; node_id = 2; slot_id = 2 };
  ballot_id = ballot 1 0;
  reply = false;
  max_ballot_id = 0;
  max_prop_value = none;
})

abbrev inputs : List (Input ℕ)
inputs =
    commits (b'v' ∷ []) (named 7)
    ∷ handles promise_of_1 (named 8)
    ∷ handles accepted_by_1 (named 8)
    ∷ handles taught (named 9)
    ∷ commits (b'w' ∷ []) (named 7)
    ∷ handles refusal_of_2 (named 8)
    ∷ []

calls_settle_example :
    Settles IsShallow (call_all Mode.quorum no_fec 4 inputs (new_captain Mode.quorum (node 0) 2 0))
calls_settle_example =
    calls_settle Mode.quorum no_fec 0 (node 0) 2 0 inputs (λ e. omega arith) (omega arith)
