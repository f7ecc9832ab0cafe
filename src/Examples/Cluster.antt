-- ===== src/Examples/Cluster.antt =====
-- Three nodes and two proposers that want different values: nodes 0 and 1 choose with the first, then
-- node 1 asks nodes 1 and 2 with a higher ballot, and takes over the value of node 0.
use ndnpaxos.Prelude.{ℕ, ◌≡◌, refl, inl, inr, true, [], ◌∷◌, Option, none, some, arith}
use ndnpaxos.Prelude.SortedMap
use ndnpaxos.Types.{
  Mode, AckType, MsgType, PropValue, MsgPrepare, MsgAckPrepare, MsgAccept, MsgAckAccept,
}
use ndnpaxos.Acceptor.{handle_msg_prepare, handle_msg_accept}
use ndnpaxos.Proposer.{
  Proposer, new_proposer, msg_prepare, gen_next_ballot, msg_accept, handle_msg_promise,
  handle_msg_accepted, scan_acks, count_yes, adopt,
}
use ndnpaxos.Proposer.Choice.{with_ack, decided}
use ndnpaxos.Paxos.System.{
  Cluster, IsCluster, accepted, Nodes, System, In, init, with_proposer, Move, begin, serve_prepare,
  serve_accept, wait_promise, continue, wait_accepted, move, choose, Reach, start, later,
}
use ndnpaxos.Paxos.Agreement.{agreement, ballot_agreement}
use ndnpaxos.Paxos.Validity.{Wanted, validity}
use ndnpaxos.Paxos.Loaded.{loaded, loaded-IsCluster}
use ndnpaxos.Examples.Data.{three_hosts, node, value, ballot, no_fec}

abbrev three : Cluster
three = record { mode = Mode.quorum; fec = no_fec; n = 3; q = 2; view = node; value = value }

three-IsCluster : IsCluster three
three-IsCluster = record {
  not_rs = λ e. omega arith;
  not_multi = λ e. omega arith;
  numbered = λ i below. refl;
  quorums = λ i. refl;
  majority = omega arith;
  few = omega arith;
}

abbrev Reached : Type 0
Reached = (s : System) × Reach three s

abbrev next : (r : Reached) {w : Nodes} → Move three r.0.nodes w → Reached
next r {w} m = (record r.0 { nodes = w }, later r.1 (move w m))

abbrev with_accepted : MsgAckAccept → Proposer → Proposer
with_accepted m p = record p {
  msg_ack_accept = SortedMap.insert m.header.node_id m p.msg_ack_accept;
}

abbrev chooses :
    (r : Reached) (i : ℕ) (m : MsgAckAccept) (x : PropValue)
    → In (accepted i m) r.0.nodes.net
    → handle_msg_accepted m (r.0.nodes.proposers i)
      ≡ (AckType.choose, with_accepted m (r.0.nodes.proposers i))
    → (r.0.nodes.proposers i).curr_value ≡ some x
    → Reached
chooses r i m x at e value =
    let q = with_accepted m (r.0.nodes.proposers i) in
    (
      record {
        nodes = with_proposer i q r.0.nodes.net r.0.nodes;
        chosen = (q.curr_ballot, x) ∷ r.0.chosen;
      },
      later r.1 (choose i m q x at e value),
    )

abbrev prepare_from : ℕ → MsgPrepare
prepare_from i = record {
  header = record { msg_type = MsgType.prepare; node_id = i; slot_id = 0 };
  ballot_id = ballot 1 i;
}

abbrev promise_by : ℕ → ℕ → ℕ → Option PropValue → MsgAckPrepare
promise_by j i top held = record {
  header = record { msg_type = MsgType.promise; node_id = j; slot_id = 0 };
  ballot_id = ballot 1 i;
  reply = true;
  max_ballot_id = top;
  max_prop_value = held;
}

abbrev accept_from : ℕ → PropValue → MsgAccept
accept_from i x = record {
  header = record { msg_type = MsgType.accept; node_id = i; slot_id = 0 };
  ballot_id = ballot 1 i;
  prop_value = x;
}

abbrev accepted_by : ℕ → ℕ → MsgAckAccept
accepted_by j i = record {
  header = record { msg_type = MsgType.accepted; node_id = j; slot_id = 0 };
  ballot_id = ballot 1 i;
  reply = true;
}

r0 : Reached
r0 = (init three, start)

-- Node 0 asks, nodes 0 and 1 promise.
r1 : Reached
unfolding r0 new_proposer msg_prepare gen_next_ballot handle_msg_prepare handle_msg_promise
    SortedMap.insert
r1 =
    let a = next r0 (begin 0 (omega arith) refl) in
    let b = next a (serve_prepare 0 (prepare_from 0) (omega arith) (inl refl)) in
    let c = next b (serve_prepare 1 (prepare_from 0) (omega arith) (inr (inl refl))) in
    next c (
      wait_promise 0 (promise_by 0 0 0 none) AckType.not_enough
        (with_ack (promise_by 0 0 0 none) (c.0.nodes.proposers 0)) (inr (inl refl)) refl (inr refl))

-- It proposes its own value, which both accept.
r2 : Reached
unfolding r0 r1 new_proposer msg_prepare gen_next_ballot msg_accept handle_msg_prepare
    handle_msg_promise handle_msg_accept handle_msg_accepted scan_acks adopt SortedMap.insert
r2 =
    let a = next r1 (
      continue 0 (promise_by 1 0 0 none)
        (decided (with_ack (promise_by 1 0 0 none) (r1.0.nodes.proposers 0)))
        (accept_from 0 (value 0)) (inl refl) refl refl) in
    let b = next a (serve_accept 0 (accept_from 0 (value 0)) (omega arith) (inl refl)) in
    let c = next b (serve_accept 1 (accept_from 0 (value 0)) (omega arith) (inr (inl refl))) in
    next c (
      wait_accepted 0 (accepted_by 0 0) AckType.not_enough
        (with_accepted (accepted_by 0 0) (c.0.nodes.proposers 0)) (inr (inl refl)) refl (inr refl))

r3 : Reached
unfolding r0 r1 r2 new_proposer msg_prepare gen_next_ballot msg_accept handle_msg_prepare
    handle_msg_promise handle_msg_accept handle_msg_accepted scan_acks adopt count_yes
    SortedMap.insert
r3 = chooses r2 0 (accepted_by 1 0) (value 0) (inl refl) refl refl

-- Node 1 asks with its own ballot: node 1 reports what it accepted, node 2 nothing.
r4 : Reached
unfolding r0 r1 r2 r3 new_proposer msg_prepare gen_next_ballot msg_accept handle_msg_prepare
    handle_msg_promise handle_msg_accept handle_msg_accepted scan_acks adopt count_yes
    SortedMap.insert
r4 =
    let a = next r3 (begin 1 (omega arith) refl) in
    let b = next a (serve_prepare 1 (prepare_from 1) (omega arith) (inl refl)) in
    let c = next b (serve_prepare 2 (prepare_from 1) (omega arith) (inr (inl refl))) in
    let d = next c (
      wait_promise 1 (promise_by 1 1 (ballot 1 0) (some (value 0))) AckType.not_enough
        (with_ack (promise_by 1 1 (ballot 1 0) (some (value 0))) (c.0.nodes.proposers 1))
        (inr (inl refl)) refl (inr refl)) in
    next d (
      continue 1 (promise_by 2 1 0 none)
        (decided (with_ack (promise_by 2 1 0 none) (d.0.nodes.proposers 1)))
        (accept_from 1 (value 0)) (inl refl) refl refl)

-- Nodes 1 and 2 accept the value that it took over.
r5 : Reached
unfolding r0 r1 r2 r3 r4 new_proposer msg_prepare gen_next_ballot msg_accept handle_msg_prepare
    handle_msg_promise handle_msg_accept handle_msg_accepted scan_acks adopt count_yes
    SortedMap.insert
r5 =
    let a = next r4 (serve_accept 1 (accept_from 1 (value 0)) (omega arith) (inl refl)) in
    let b = next a (serve_accept 2 (accept_from 1 (value 0)) (omega arith) (inr (inl refl))) in
    let c = next b (
      wait_accepted 1 (accepted_by 1 1) AckType.not_enough
        (with_accepted (accepted_by 1 1) (b.0.nodes.proposers 1)) (inr (inl refl)) refl
        (inr refl)) in
    chooses c 1 (accepted_by 2 1) (value 0) (inl refl) refl refl

r5_chosen : r5.0.chosen ≡ (ballot 1 1, value 0) ∷ (ballot 1 0, value 0) ∷ []
unfolding r0 r1 r2 r3 r4 r5 new_proposer msg_prepare gen_next_ballot
r5_chosen = refl

agreement_example : (value 0).id ≡ (value 0).id
unfolding r0 r1 r2 r3 r4 r5 new_proposer msg_prepare gen_next_ballot
agreement_example =
    agreement three r5.0 (ballot 1 1) (ballot 1 0) (value 0) (value 0) three-IsCluster r5.1
      (inl refl) (inr (inl refl))

validity_example : Wanted three (value 0).id
unfolding r0 r1 r2 r3 r4 r5 new_proposer msg_prepare gen_next_ballot
validity_example = validity three r5.0 (ballot 1 1) (value 0) three-IsCluster r5.1 (inl refl)

loaded-IsCluster_example : IsCluster (loaded Mode.quorum no_fec three_hosts value)
loaded-IsCluster_example =
    loaded-IsCluster Mode.quorum no_fec three_hosts value (λ e. omega arith) (λ e. omega arith)
      (omega arith) (omega arith)

ballot_agreement_example : value 0 ≡ value 0
unfolding r0 r1 r2 r3 r4 r5 new_proposer msg_prepare gen_next_ballot
ballot_agreement_example =
    ballot_agreement three r5.0 (ballot 1 1) (value 0) (value 0) three-IsCluster r5.1 (inl refl)
      (inl refl)

-- While node 0, the master, has its promises, node 1 begins, and its request outruns the master's.
disturbed : Reached
unfolding r0 r1 new_proposer msg_prepare gen_next_ballot msg_accept handle_msg_prepare
    handle_msg_promise handle_msg_accept handle_msg_accepted scan_acks adopt count_yes
    SortedMap.insert
disturbed =
    let a = next r1 (begin 1 (omega arith) refl) in
    let b = next a (serve_prepare 1 (prepare_from 1) (omega arith) (inl refl)) in
    next b (serve_prepare 2 (prepare_from 1) (omega arith) (inr (inl refl)))
