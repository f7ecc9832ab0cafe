-- ===== src/Paxos/Invariant.antt =====
-- The invariant of one slot over all nodes: what the packets, the acceptors and the proposers show of
-- the ballots.
use ndnpaxos.Prelude.{ℕ, ◌%◌, ◌^◌, ◌≤◌, ◌<◌, ◌≡◌, ◌⊎◌, Bool, true, List, Option, none, some, All}
use ndnpaxos.Prelude.SortedMap.{IsSorted}
use ndnpaxos.Types.{PropValue, MsgAckPrepare, MsgAccept, MsgAckAccept}
use ndnpaxos.Acceptor.{Acceptor}
use ndnpaxos.Proposer.{Proposer}
use ndnpaxos.Paxos.Count.{count}
use ndnpaxos.Paxos.System.{Cluster, Packet, ask_prepare, promised, ask_accept, accepted, Nodes, In}

-- Some accept request has the ballot and the value.
abbrev pub Proposed : List Packet → ℕ → PropValue → Type 0
Proposed net b x = (m : MsgAccept) × In (ask_accept m) net × (m.ballot_id ≡ b) × (m.prop_value ≡ x)

-- The node has accepted the ballot.
abbrev pub Accepted : List Packet → ℕ → ℕ → Type 0
Accepted net a b =
    (i : ℕ) × (m : MsgAckAccept) × In (accepted i m) net
    × (m.header.node_id ≡ a)
    × (m.ballot_id ≡ b)
    × (m.reply ≡ true)

-- Where a ballot and a value that are held or reported come from.
abbrev pub Source : List Packet → ℕ → Option PropValue → Type 0
Source net b none = b ≡ 0
Source net b (some x) = (y : PropValue) × Proposed net b y × (y.id ≡ x.id)

-- A quorum has accepted the ballot.
abbrev pub Voted : Cluster → List Packet → ℕ → Type 0
Voted k net b =
    (set : ℕ → Bool) × (k.q ≤ count set k.n) × ((a : ℕ) → set a ≡ true → Accepted net a b)

-- A quorum has not accepted the ballot, and never will.
abbrev pub Blocked : Cluster → Nodes → ℕ → Type 0
Blocked k w b =
    (set : ℕ → Bool) × (k.q ≤ count set k.n)
    × ((a : ℕ)
        → set a ≡ true
        → (b < (w.acceptors a).max_proposed_ballot) × (Accepted w.net a b → ⊥))

-- No ballot below `b` can choose another value id.
abbrev pub Ruled : Cluster → Nodes → ℕ → ℕ → Type 0
Ruled k w b id =
    (c : ℕ) → 0 < c → c < b → ((y : PropValue) × Proposed w.net c y × (y.id ≡ id)) ⊎ Blocked k w c

-- The ballot is one that the proposer of node `i` has made.
abbrev pub Owned : Cluster → Nodes → ℕ → ℕ → Type 0
Owned k w i b = (i < k.n) × (0 < b) × (b ≤ (w.proposers i).curr_ballot) × (b % 2 ^ 16 ≡ i)

abbrev pub PacketOk : Cluster → Nodes → Packet → Type 0
PacketOk k w (ask_prepare m) = Owned k w m.header.node_id m.ballot_id
PacketOk k w (promised i m) =
    Owned k w i m.ballot_id
    × (m.header.node_id < k.n)
    × (m.reply ≡ true
        → (m.ballot_id ≤ (w.acceptors m.header.node_id).max_proposed_ballot)
          × Source w.net m.max_ballot_id m.max_prop_value
          × ((c : ℕ)
              → Accepted w.net m.header.node_id c
              → (c ≤ m.max_ballot_id) ⊎ (m.ballot_id ≤ c)))
PacketOk k w (ask_accept m) =
    Owned k w m.header.node_id m.ballot_id
    × ((m.ballot_id < (w.proposers m.header.node_id).curr_ballot)
        ⊎ ((w.proposers m.header.node_id).curr_value ≡ some m.prop_value))
    × Ruled k w m.ballot_id m.prop_value.id
PacketOk k w (accepted i m) =
    Owned k w i m.ballot_id
    × (m.header.node_id < k.n)
    × (m.reply ≡ true → m.ballot_id ≤ (w.acceptors m.header.node_id).max_accepted_ballot)

pub record AcceptorOk (net : List Packet) (a : Acceptor) : Type 0 where
  pub ordered : a.max_accepted_ballot ≤ a.max_proposed_ballot
  pub source : Source net a.max_accepted_ballot a.max_value

-- An entry of the acks of node `i` for ballot `b`.
abbrev pub PromiseIn : Cluster → List Packet → ℕ → ℕ → ℕ × MsgAckPrepare → Type 0
PromiseIn k net i b e =
    (e.0 < k.n) × (e.1.header.node_id ≡ e.0) × (e.1.ballot_id ≡ b) × In (promised i e.1) net

abbrev pub AcceptedIn : Cluster → List Packet → ℕ → ℕ → ℕ × MsgAckAccept → Type 0
AcceptedIn k net i b e =
    (e.0 < k.n) × (e.1.header.node_id ≡ e.0) × (e.1.ballot_id ≡ b) × In (accepted i e.1) net

pub record ProposerOk (k : Cluster) (net : List Packet) (i : ℕ) (p : Proposer) : Type 0 where
  pub quorums : (p.qr ≡ k.q) × (p.qw ≡ k.q)
  pub form : (p.curr_ballot ≡ 0) ⊎ (p.curr_ballot % 2 ^ 16 ≡ i)
  pub value : (x : PropValue) → p.curr_value ≡ some x → Proposed net p.curr_ballot x
  pub source : Source net p.max_ballot p.max_value
  pub sorted : IsSorted p.msg_ack_prepare × IsSorted p.msg_ack_accept
  pub promises : All (PromiseIn k net i p.curr_ballot) p.msg_ack_prepare
  pub accepts : All (AcceptedIn k net i p.curr_ballot) p.msg_ack_accept

pub record Inv (k : Cluster) (w : Nodes) : Type 0 where
  pub packets : (p : Packet) → In p w.net → PacketOk k w p
  pub acceptors : (a : ℕ) → AcceptorOk w.net (w.acceptors a)
  pub proposers : (i : ℕ) → ProposerOk k w.net i (w.proposers i)
  pub unique : (b : ℕ) (x y : PropValue) → Proposed w.net b x → Proposed w.net b y → x ≡ y
