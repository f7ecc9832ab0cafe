-- ===== src/Paxos/System.antt =====
-- One slot over all nodes: the acceptor and the proposer that the captains keep for the slot
-- (captain.cpp), and the messages between them. The network keeps every message, so it may lose,
-- repeat, delay and reorder them. An ack goes to the node that asked: commo.cpp sends it as the data
-- packet for that node's interest. This is the basic and the quorum build; a captain stops asking its
-- proposer once its value is chosen, which here is a run that takes no further step of it.
use ndnpaxos.Prelude.{
  ℕ, ◌+◌, ◌^◌, ◌<◌, ◌≡◌, ◌≢◌, ◌⊎◌, List, [], ◌∷◌, ◌==◌, if◌then◌else◌, Option, ok,
}
use ndnpaxos.Types.{
  Mode, mode_type, AckType, PropValue, MsgPrepare, MsgAckPrepare, MsgAccept, MsgAckAccept,
}
use ndnpaxos.View.{View}
use ndnpaxos.Acceptor.{Acceptor, new_acceptor, handle_msg_prepare, handle_msg_accept}
use ndnpaxos.Rs.{Fec}
use ndnpaxos.Proposer.{
  Proposer, new_proposer, msg_prepare, restart_msg_prepare, msg_accept, handle_msg_promise,
  handle_msg_accepted, get_chosen_value,
}

-- The nodes 0, …, n - 1, their views, and the value that each wants in the slot.
pub record Cluster : Type 0 where
  pub mode : Mode
  pub fec : Fec
  pub n : ℕ
  pub q : ℕ
  pub view : ℕ → View
  pub value : ℕ → PropValue

-- Every node knows its number and the size of a quorum, which is a majority.
pub record IsCluster (k : Cluster) : Type 0 where
  pub not_rs : mode_type k.mode ≢ 1
  pub not_multi : mode_type k.mode ≢ 2
  pub numbered : (i : ℕ) → i < k.n → (k.view i).node_id ≡ i
  pub quorums : (i : ℕ) → (k.view i).q_size ≡ k.q
  pub majority : k.n < k.q + k.q
  pub few : k.n < 2 ^ 16

-- A request, or an ack with the node that it goes to.
pub data Packet : Type 0 where
  ask_prepare : MsgPrepare → Packet
  promised : ℕ → MsgAckPrepare → Packet
  ask_accept : MsgAccept → Packet
  accepted : ℕ → MsgAckAccept → Packet

pub record Nodes : Type 0 where
  pub acceptors : ℕ → Acceptor
  pub proposers : ℕ → Proposer
  pub net : List Packet

-- `chosen` lists what proposers have reported as chosen: ballot and value.
pub record System : Type 0 where
  pub nodes : Nodes
  pub chosen : List (ℕ × PropValue)

abbrev pub put {ℓ} : {A : Type ℓ} → (ℕ → A) → ℕ → A → ℕ → A
put f i a j = if i == j then a else f j

abbrev pub In : {A : Type 0} → A → List A → Type 0
In x [] = ⊥
In x (y ∷ ys) = (x ≡ y) ⊎ In x ys

abbrev pub init : Cluster → System
init k = record {
  nodes = record {
    acceptors = λ i. new_acceptor;
    proposers = λ i. new_proposer k.mode (k.view i) (k.value i);
    net = [];
  };
  chosen = [];
}

-- The counter of ballots does not run over: fewer than 2^48 ballots of one proposer.
abbrev pub HasRoom : Proposer → Type 0
HasRoom p = p.curr_ballot + 2 ^ 17 < 2 ^ 64

abbrev pub with_proposer : ℕ → Proposer → List Packet → Nodes → Nodes
with_proposer i p packets w = record w { proposers = put w.proposers i p; net = packets }

abbrev pub with_acceptor : ℕ → Acceptor → List Packet → Nodes → Nodes
with_acceptor i a packets w = record w { acceptors = put w.acceptors i a; net = packets }

-- What one node does, from `w` on. Any node may serve any request, which is more than Commo carries: it
-- asks a part of the nodes in the quorum build, and the master listens to its clients only.
pub data Move (k : Cluster) (w : Nodes) : Nodes → Type 0 where
  -- `commit`: the proposer's first prepare request
  begin :
      (i : ℕ)
      → i < k.n
      → (w.proposers i).curr_ballot ≡ 0
      → Move k w (
          with_proposer i
            (msg_prepare (k.view i) (w.proposers i)).1
            (Packet.ask_prepare (msg_prepare (k.view i) (w.proposers i)).0 ∷ w.net)
            w)
  -- `handle_msg` of PREPARE
  serve_prepare :
      (i : ℕ) (m : MsgPrepare)
      → i < k.n
      → In (Packet.ask_prepare m) w.net
      → Move k w (
          with_acceptor i
            (handle_msg_prepare (k.view i) m (w.acceptors i)).1
            (Packet.promised m.header.node_id (handle_msg_prepare (k.view i) m (w.acceptors i)).0
              ∷ w.net)
            w)
  -- `handle_msg` of ACCEPT
  serve_accept :
      (i : ℕ) (m : MsgAccept)
      → i < k.n
      → In (Packet.ask_accept m) w.net
      → Move k w (
          with_acceptor i
            (handle_msg_accept (k.view i) m (w.acceptors i)).1
            (Packet.accepted m.header.node_id (handle_msg_accept (k.view i) m (w.acceptors i)).0
              ∷ w.net)
            w)
  -- `handle_msg` of PROMISE: DROP and NOT_ENOUGH, CONTINUE, RESTART
  wait_promise :
      (i : ℕ) (m : MsgAckPrepare) (ack : AckType) (p : Proposer)
      → In (Packet.promised i m) w.net
      → handle_msg_promise k.mode k.fec (k.view i) m (w.proposers i) ≡ ok (ack, p)
      → (ack ≡ AckType.drop) ⊎ (ack ≡ AckType.not_enough)
      → Move k w (with_proposer i p w.net w)
  continue :
      (i : ℕ) (m : MsgAckPrepare) (p : Proposer) (r : MsgAccept)
      → In (Packet.promised i m) w.net
      → handle_msg_promise k.mode k.fec (k.view i) m (w.proposers i) ≡ ok (AckType.continue, p)
      → msg_accept (k.view i) p ≡ ok r
      → Move k w (with_proposer i p (Packet.ask_accept r ∷ w.net) w)
  restart :
      (i : ℕ) (m : MsgAckPrepare) (p : Proposer)
      → In (Packet.promised i m) w.net
      → handle_msg_promise k.mode k.fec (k.view i) m (w.proposers i) ≡ ok (AckType.restart, p)
      → HasRoom p
      → Move k w (
          with_proposer i
            (restart_msg_prepare (k.view i) p).1
            (Packet.ask_prepare (restart_msg_prepare (k.view i) p).0 ∷ w.net)
            w)
  -- `handle_msg` of ACCEPTED: DROP and NOT_ENOUGH, RESTART
  wait_accepted :
      (i : ℕ) (m : MsgAckAccept) (ack : AckType) (p : Proposer)
      → In (Packet.accepted i m) w.net
      → handle_msg_accepted m (w.proposers i) ≡ (ack, p)
      → (ack ≡ AckType.drop) ⊎ (ack ≡ AckType.not_enough)
      → Move k w (with_proposer i p w.net w)
  retry :
      (i : ℕ) (m : MsgAckAccept) (p : Proposer)
      → In (Packet.accepted i m) w.net
      → handle_msg_accepted m (w.proposers i) ≡ (AckType.restart, p)
      → HasRoom p
      → Move k w (
          with_proposer i
            (restart_msg_prepare (k.view i) p).1
            (Packet.ask_prepare (restart_msg_prepare (k.view i) p).0 ∷ w.net)
            w)

pub data Step (k : Cluster) (s : System) : System → Type 0 where
  move : (w : Nodes) → Move k s.nodes w → Step k s (record s { nodes = w })
  -- `handle_msg` of ACCEPTED: CHOOSE
  choose :
      (i : ℕ) (m : MsgAckAccept) (p : Proposer) (x : PropValue)
      → In (Packet.accepted i m) s.nodes.net
      → handle_msg_accepted m (s.nodes.proposers i) ≡ (AckType.choose, p)
      → get_chosen_value p ≡ Option.some x
      → Step k s (record {
        nodes = with_proposer i p s.nodes.net s.nodes;
        chosen = (p.curr_ballot, x) ∷ s.chosen;
      })

pub data Reach (k : Cluster) : System → Type 0 where
  start : Reach k (init k)
  later : {s t : System} → Reach k s → Step k s t → Reach k t
