-- ===== src/Paxos/Progress.antt =====
-- One proposer that runs with a quorum of the acceptors, which nobody else asks: the states of its
-- round with the ballot `b`. The acceptors 0, …, j - 1 have been asked. Under `C` the round is clean:
-- no acceptor has seen a ballot above `b`, and so nobody refuses.
pub mod Replies
pub mod Restarting
pub mod VotePhase
pub mod PreparePhase
pub mod Rounds
pub mod Choosing
use ndnpaxos.Prelude.{ℕ, ◌+◌, ◌^◌, ◌≤◌, ◌<◌, ◌≡◌, [], none, some}
use ndnpaxos.Prelude.Below.{below}
use ndnpaxos.Types.{PropValue, AckType, MsgAccept, MsgAckAccept}
use ndnpaxos.Acceptor.{Acceptor}
use ndnpaxos.Proposer.{Proposer, handle_msg_accepted, get_chosen_value}
use ndnpaxos.Proposer.Steps.{Granted, Taken}
use ndnpaxos.Paxos.System.{Cluster, ask_accept, accepted, Nodes, In}
use ndnpaxos.Paxos.Invariant.{Inv}
use ndnpaxos.Paxos.Runs.{Requested, Moves}

-- The proposer has asked for promises.
pub record Asker (C : Type 0) (b j : ℕ) (p : Proposer) : Type 0 where
  pub ballot : p.curr_ballot ≡ b
  pub unset : p.curr_value ≡ none
  pub heard : j ≤ below j p.msg_ack_prepare
  pub granted : C → Granted p.msg_ack_prepare
  pub untaken : C → p.msg_ack_accept ≡ []

pub record Lowered (C : Type 0) (k : Cluster) (limit b j : ℕ) (f : ℕ → Acceptor) : Type 0 where
  pub bounded : (a : ℕ) → a < k.n → (f a).max_proposed_ballot ≤ limit
  pub within : C → (a : ℕ) → a < k.n → (f a).max_proposed_ballot ≤ b
  pub lower : C → (a : ℕ) → a < k.n → j ≤ a → (f a).max_proposed_ballot < b

pub record Preparing (C : Type 0) (k : Cluster) (i limit b j : ℕ) (w : Nodes) : Type 0 where
  pub inv : Inv k w
  pub request : Requested w.net i b
  pub proposer : Asker C b j (w.proposers i)
  pub acceptors : Lowered C k limit b j w.acceptors

-- The proposer has sent its value.
pub record Sender (C : Type 0) (b j : ℕ) (p : Proposer) : Type 0 where
  pub ballot : p.curr_ballot ≡ b
  pub value : PropValue
  pub holds : p.curr_value ≡ some value
  pub heard : j ≤ below j p.msg_ack_accept
  pub taken : C → Taken p.msg_ack_accept

pub record Voting (C : Type 0) (k : Cluster) (i limit b j : ℕ) (w : Nodes) : Type 0 where
  pub inv : Inv k w
  pub m : MsgAccept
  pub at : In (ask_accept m) w.net
  pub m_ballot : m.ballot_id ≡ b
  pub m_node : m.header.node_id ≡ i
  pub proposer : Sender C b j (w.proposers i)
  pub bounded : (a : ℕ) → a < k.n → (w.acceptors a).max_proposed_ballot ≤ limit
  pub within : C → (a : ℕ) → a < k.n → (w.acceptors a).max_proposed_ballot ≤ b

-- The proposer has just asked with the ballot `b`.
pub record Fresh (k : Cluster) (i limit b : ℕ) (w : Nodes) : Type 0 where
  pub inv : Inv k w
  pub request : Requested w.net i b
  pub ballot : (w.proposers i).curr_ballot ≡ b
  pub unset : (w.proposers i).curr_value ≡ none
  pub unanswered : ((w.proposers i).msg_ack_prepare ≡ []) × ((w.proposers i).msg_ack_accept ≡ [])
  pub bounded : (a : ℕ) → a < k.n → (w.acceptors a).max_proposed_ballot ≤ limit

-- The next step of the proposer of node `i` reports a value as chosen.
pub record Ready (i : ℕ) (w : Nodes) : Type 0 where
  pub m : MsgAckAccept
  pub p : Proposer
  pub x : PropValue
  pub at : In (accepted i m) w.net
  pub choice : handle_msg_accepted m (w.proposers i) ≡ (AckType.choose, p)
  pub value : get_chosen_value p ≡ some x

-- How the round ends.
pub data Ending (C : Type 0) (k : Cluster) (i limit b : ℕ) (w : Nodes) : Type 0 where
  chooses : (t : Nodes) → Moves k i w t → Inv k t → Ready i t → Ending C k i limit b w
  restarts :
      (t : Nodes)
      → Moves k i w t
      → Fresh k i limit (b + 2 ^ 16) t
      → (C → ⊥)
      → Ending C k i limit b w
