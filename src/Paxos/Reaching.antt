-- ===== src/Paxos/Reaching.antt =====
-- Every state that a cluster reaches satisfies the invariant of the slot.
use ndnpaxos.Prelude.{ℕ, ◌≤◌, ◌<◌, ◌≡◌, ◌≢◌, refl, ◌∙◌, inl, inr, List, [], ◌∷◌, some, arith, All}
use ndnpaxos.Types.{PropValue, AckType, MsgAckAccept}
use ndnpaxos.Acceptor.{handle_msg_prepare, handle_msg_accept}
use ndnpaxos.Proposer.{Proposer, new_proposer, count_yes}
use ndnpaxos.Proposer.Choice.{handle_msg_promise-Continues, handle_msg_accepted-Chooses}
use ndnpaxos.Proposer.Answers.{handle_msg_promise-Answers}
use ndnpaxos.Paxos.Count.{count_entries, passes, count_entries-count, passes-All}
use ndnpaxos.Paxos.System.{
  Cluster, IsCluster, Packet, promised, accepted, Nodes, System, init, with_proposer, Move, begin,
  serve_prepare, serve_accept, wait_promise, continue, restart, wait_accepted, retry, move, choose,
  Reach, start, later,
}
use ndnpaxos.Paxos.Invariant.{Proposed, Voted, AcceptedIn, ProposerOk, Inv}
use ndnpaxos.Paxos.Growth.{Within, All-map, Proposed-Within, Voted-Within}
use ndnpaxos.Paxos.Replying.{handle_msg_prepare-Prepared, handle_msg_accept-Taken}
use ndnpaxos.Paxos.Serving.{prepared-Inv, taken-Inv}
use ndnpaxos.Paxos.Asking.{begin-Inv, restart-Inv, proposer-Grows, proposer-Inv}
use ndnpaxos.Paxos.Answering.{waits-ProposerOk, accepted-ProposerOk}
use ndnpaxos.Paxos.Continuing.{continue-Inv}

new_proposer-ProposerOk :
    (k : Cluster) (i : ℕ)
    → IsCluster k
    → ProposerOk k [] i (new_proposer k.mode (k.view i) (k.value i))
unfolding new_proposer
new_proposer-ProposerOk k i c = record {
  quorums = ground (arith, c.not_rs, c.quorums i);
  form = inl refl;
  value = λ x e. cc;
  source = refl;
  sorted = (tt, tt);
  promises = tt;
  accepts = tt;
}

init-Inv : (k : Cluster) → IsCluster k → Inv k (init k).nodes
init-Inv k c = record {
  packets = λ p at. absurd at;
  acceptors = λ a. record { ordered = omega arith; source = refl };
  proposers = λ i. new_proposer-ProposerOk k i c;
  unique = λ b x y f g. absurd f.1;
}

-- A step that changes one proposer and sends nothing, and keeps its ballot and its value.
quiet-Inv :
    (k : Cluster) (w : Nodes) (i : ℕ) (q : Proposer)
    → Inv k w
    → ProposerOk k w.net i q
    → q.curr_ballot ≡ (w.proposers i).curr_ballot
    → q.curr_value ≡ (w.proposers i).curr_value
    → Inv k (with_proposer i q w.net w)
quiet-Inv k w i q inv own ballot value =
    proposer-Inv k w i q w.net inv
      (proposer-Grows w i q w.net (λ p h. h) (omega arith) (λ x e. inl (value ∙ e)) (λ a b h. h))
      own (λ p h. inl h) inv.unique

pub Move-Inv : (k : Cluster) (w t : Nodes) → IsCluster k → Inv k w → Move k w t → Inv k t
Move-Inv k w t c inv (begin i below idle) = begin-Inv k c w i inv below idle
Move-Inv k w t c inv (serve_prepare i m below at) =
    prepared-Inv k c w inv i below m (handle_msg_prepare (k.view i) m (w.acceptors i)).1
      (handle_msg_prepare (k.view i) m (w.acceptors i)).0
      (handle_msg_prepare-Prepared (k.view i) m (w.acceptors i)) at
Move-Inv k w t c inv (serve_accept i m below at) =
    taken-Inv k c w inv i below m (handle_msg_accept (k.view i) m (w.acceptors i)).1
      (handle_msg_accept (k.view i) m (w.acceptors i)).0
      (handle_msg_accept-Taken (k.view i) m (w.acceptors i)) at
Move-Inv k w t c inv (wait_promise i m ack q at e kind) =
    let a = handle_msg_promise-Answers k.mode k.fec (k.view i) m (w.proposers i) q ack c.not_rs e in
    let other : ack ≢ AckType.continue = ground arith in
    quiet-Inv k w i q inv (waits-ProposerOk k c w inv i m ack q at a other) a.same.1 (a.value other)
Move-Inv k w t c inv (continue i m q r at e sent) =
    continue-Inv k c w inv i m q r at
      (handle_msg_promise-Answers k.mode k.fec (k.view i) m (w.proposers i) q AckType.continue
        c.not_rs e)
      (handle_msg_promise-Continues k.mode k.fec (k.view i) m (w.proposers i) q c.not_rs e) sent
Move-Inv k w t c inv (restart i m q at e room) =
    let a =
      handle_msg_promise-Answers k.mode k.fec (k.view i) m (w.proposers i) q AckType.restart
        c.not_rs e in
    restart-Inv k c w i q inv (inv.packets (promised i m) at).0.0
      (waits-ProposerOk k c w inv i m AckType.restart q at a (λ h. cc)) (omega (arith, a.same.1))
      room
Move-Inv k w t c inv (wait_accepted i m ack q at e kind) =
    let (own, ballot, value) = accepted-ProposerOk k c w inv i m ack q at e in
    quiet-Inv k w i q inv own ballot value
Move-Inv k w t c inv (retry i m q at e room) =
    let (own, ballot, value) = accepted-ProposerOk k c w inv i m AckType.restart q at e in
    restart-Inv k c w i q inv (inv.packets (accepted i m) at).0.0 own (omega (arith, ballot)) room

pub Move-Within : (k : Cluster) (w t : Nodes) → Move k w t → Within w.net t.net
Move-Within k w t (begin i below idle) p h = inr h
Move-Within k w t (serve_prepare i m below at) p h = inr h
Move-Within k w t (serve_accept i m below at) p h = inr h
Move-Within k w t (wait_promise i m ack q at e kind) p h = h
Move-Within k w t (continue i m q r at e sent) p h = inr h
Move-Within k w t (restart i m q at e room) p h = inr h
Move-Within k w t (wait_accepted i m ack q at e kind) p h = h
Move-Within k w t (retry i m q at e room) p h = inr h

count_yes-count_entries :
    (acks : List (ℕ × MsgAckAccept)) → count_yes acks ≡ count_entries (λ m. m.reply) acks
unfolding count_yes count_entries
count_yes-count_entries [] = refl
count_yes-count_entries ((node, m) ∷ acks) = omega (arith, count_yes-count_entries acks)

-- A chosen value was proposed with its ballot, and a quorum has accepted the ballot.
abbrev pub ChosenOk : Cluster → List Packet → ℕ × PropValue → Type 0
ChosenOk k net e = Proposed net e.0 e.1 × Voted k net e.0

choose-ChosenOk :
    (k : Cluster) (net : List Packet) (i : ℕ) (q : Proposer) (x : PropValue)
    → ProposerOk k net i q
    → q.qw ≤ count_yes q.msg_ack_accept
    → q.curr_value ≡ some x
    → ChosenOk k net (q.curr_ballot, x)
choose-ChosenOk k net i q x own enough value = (
  own.value x value,
  (
    passes (λ m. m.reply) q.msg_ack_accept,
    omega (
      arith,
      own.quorums.1,
      enough,
      count_yes-count_entries q.msg_ack_accept,
      count_entries-count (λ m. m.reply) k.n q.msg_ack_accept own.sorted.1
          (All-map (AcceptedIn k net i q.curr_ballot) (λ e. e.0 < k.n) q.msg_ack_accept (λ e h. h.0)
            own.accepts),
    ),
    λ a within.
        let (m, agreed, (small, node, ballot, at)) =
          passes-All (λ m. m.reply) (AcceptedIn k net i q.curr_ballot) q.msg_ack_accept a within
            own.accepts in
        (i, m, at, node, ballot, agreed),
  ),
)

pub record SystemOk (k : Cluster) (s : System) : Type 0 where
  pub inv : Inv k s.nodes
  pub chosen : All (ChosenOk k s.nodes.net) s.chosen

pub Reach-SystemOk : (k : Cluster) (s : System) → IsCluster k → Reach k s → SystemOk k s
Reach-SystemOk k s c start = record { inv = init-Inv k c; chosen = tt }
Reach-SystemOk k s c (later {s = r} before (move w step)) =
    let h = Reach-SystemOk k r c before in
    let nets = Move-Within k r.nodes w step in
    record {
      inv = Move-Inv k r.nodes w c h.inv step;
      chosen =
          All-map (ChosenOk k r.nodes.net) (ChosenOk k w.net) r.chosen
            (λ e (p, v). (
              Proposed-Within r.nodes.net w.net e.0 e.1 nets p,
              Voted-Within k r.nodes.net w.net e.0 nets v,
            ))
            h.chosen;
    }
Reach-SystemOk k s c (later {s = r} before (choose i m q x at e value)) =
    let h = Reach-SystemOk k r c before in
    let (own, ballot, same) = accepted-ProposerOk k c r.nodes h.inv i m AckType.choose q at e in
    record {
      inv = quiet-Inv k r.nodes i q h.inv own ballot same;
      chosen = (
        choose-ChosenOk k r.nodes.net i q x own
            (handle_msg_accepted-Chooses m (r.nodes.proposers i) q e).quorum value,
        h.chosen,
      );
    }
