-- ===== src/Examples/Roles.antt =====
-- The theorems on views, acceptors and proposers, applied.
use ndnpaxos.Prelude.{
  length, inl, ℕ, ◌+◌, ◌-◌, ◌*◌, ◌^◌, ◌≤◌, ◌<◌, ◌≡◌, ◌⊎◌, fault, refl, Bool, true, false, List, [],
  ◌∷◌, Option, none, some, All, arith, ok, ltb, leb,
}
use ndnpaxos.Types.{
  Mode, AckType, MsgType, PropValue, MsgPrepare, MsgAccept, MsgAckPrepare, MsgAckAccept,
}
use ndnpaxos.View.{View, load, new_view}
use ndnpaxos.View.Quorum.{new_view_majority, load_rs_overlap}
use ndnpaxos.Acceptor.{
  new_acceptor, Request, prepares, accepts, handle_msg_prepare, handle_msg_accept, serve_all, serve,
}
use ndnpaxos.Acceptor.Promise.{IsValid, serve_all-IsValid, promise_kept}
use ndnpaxos.Acceptor.History.{acceptances, last_or, reported, promise_reports}
use ndnpaxos.Acceptor.Reference.{highest, last_taken, serve_all_reference}
use ndnpaxos.Proposer.{
  Proposer, new_proposer, gen_next_ballot, handle_msg_promise, scan_acks, handle_msg_accepted,
  count_yes, adopt,
}
use ndnpaxos.Prelude.SortedMap
use ndnpaxos.Proposer.History.{IsRising, last_ack, hear_all, choice_has_quorum}
use ndnpaxos.Proposer.Ballots.{generate, generate_form}
use ndnpaxos.Proposer.Choice.{Continues, handle_msg_promise-Continues, refusal_restarts}
use ndnpaxos.Examples.Data.{three_hosts, node, value, header, ballot, prepare_of, accept_of, no_fec}

new_view_majority_example :
    ((three_hosts.has_db ≡ true) × (3 ≤ 1) × (new_view Mode.basic 1 three_hosts ≡ fault))
    ⊎ (((three_hosts.has_db ≡ false) ⊎ (1 < 3))
        × (v : View) × (new_view Mode.basic 1 three_hosts ≡ ok v)
        × (v.size ≡ 3)
        × (v.size < 2 * v.q_size)
        × (2 * (v.q_size - 1) ≤ v.size)
        × (v.q_size ≤ v.size)
        × (v.node_id < v.size))
new_view_majority_example = new_view_majority Mode.basic 1 three_hosts (omega arith) (omega arith)

load_rs_overlap_example :
    let v = load Mode.rs 2 three_hosts in
    (v.rs_qr + v.rs_qw ≡ v.rs_n + v.rs_x)
    × (v.rs_f + v.rs_qr ≡ v.size)
    × (v.rs_x ≤ v.rs_qr)
    × (v.rs_qr ≤ v.size)
load_rs_overlap_example = load_rs_overlap 2 three_hosts refl (omega arith) (omega arith)

-- An acceptor that promised to node 1 and accepted its value, and then promised to node 2.
abbrev history : List Request
history = prepares (prepare_of 1 1) ∷ accepts (accept_of 1 1) ∷ prepares (prepare_of 2 2) ∷ []

serve_all-IsValid_example :
    IsValid (serve_all (node 0) history new_acceptor)
    × (0 ≤ (serve_all (node 0) history new_acceptor).max_proposed_ballot)
serve_all-IsValid_example =
    serve_all-IsValid (node 0) history new_acceptor
      (record { ordered = omega arith; unset = λ e. refl })

promise_kept_example :
    let late =
      serve_all (node 0) history (handle_msg_prepare (node 0) (prepare_of 1 2) new_acceptor).1 in
    ((handle_msg_accept (node 0) (accept_of 1 1) late).0.reply ≡ false)
    × ((handle_msg_accept (node 0) (accept_of 1 1) late).1 ≡ late)
unfolding handle_msg_prepare
promise_kept_example =
    promise_kept (node 0) (prepare_of 1 2) new_acceptor history (accept_of 1 1) refl (omega arith)

promise_reports_example :
    let reply =
      (handle_msg_prepare (node 0) (prepare_of 3 1) (serve_all (node 0) history new_acceptor)).0 in
    (reported reply ≡ last_or none (acceptances (node 0) new_acceptor history))
    × All (λ p. p.0 ≤ reply.max_ballot_id) (acceptances (node 0) new_acceptor history)
unfolding handle_msg_prepare handle_msg_accept serve_all serve
promise_reports_example = promise_reports (node 0) history (prepare_of 3 1) refl

generate_form_example :
    let p = generate (node 2) 4 (new_proposer Mode.basic (node 2) (value 2)) in
    ((gen_next_ballot (node 2) p).curr_ballot ≡ 5 * 2 ^ 16 + 2)
    × (p.curr_ballot < (gen_next_ballot (node 2) p).curr_ballot)
generate_form_example = generate_form Mode.basic (node 2) (value 2) 4 (omega arith) (omega arith)

-- Answers of acceptor `i` to the proposer of node 0 in its first ballot.
abbrev promise_from : ℕ → Bool → Option PropValue → MsgAckPrepare
promise_from i reply seen = record {
  header = header MsgType.promise i;
  ballot_id = ballot 1 0;
  reply = reply;
  max_ballot_id = elim seen [ none ↦ 0 | some x ↦ 7 ];
  max_prop_value = seen;
}

abbrev accepted_from : ℕ → MsgAckAccept
accepted_from i = record {
  header = header MsgType.accepted i;
  ballot_id = ballot 1 0;
  reply = true;
}

-- The proposer of node 0 with an ack of acceptor 1 that reports a value.
abbrev asking : Proposer
asking = record {
  init_value = value 0;
  curr_ballot = ballot 1 0;
  curr_value = none;
  max_ballot = 0;
  max_value = none;
  msg_ack_prepare = (1, promise_from 1 true (some (value 9))) ∷ [];
  msg_ack_accept = [];
  qr = 2;
  qw = 2;
  rs_encoder = record { k = 0; n = 0; encoded_data = [] };
  rs_decoder = record { k = 0; n = 0; decoded_data = [] };
  rs_values = [];
}

abbrev adopted : Proposer
adopted = record asking {
  curr_value = some (value 9);
  max_ballot = 7;
  max_value = some (value 9);
  msg_ack_prepare = (0, promise_from 0 true none) ∷ (1, promise_from 1 true (some (value 9))) ∷ [];
}

handle_msg_promise-Continues_example : Continues asking (promise_from 0 true none) adopted
unfolding handle_msg_promise scan_acks adopt SortedMap.insert
handle_msg_promise-Continues_example =
    handle_msg_promise-Continues Mode.basic no_fec (node 0) (promise_from 0 true none) asking
      adopted (λ e. omega arith) refl

-- Acceptor 1 has refused; the yes of acceptor 2 makes two acks, and acceptor 0 is not waited for.
-- The ack of node 2 arrives twice, then that of node 0.
choice_has_quorum_example :
    (nodes : List ℕ) × IsRising nodes
    × (2 ≤ length nodes)
    × All
        (λ node.
          (w : MsgAckAccept) × (last_ack
              (ballot 1 0)
              node
              none
              (accepted_from 2 ∷ accepted_from 2 ∷ accepted_from 0 ∷ [])
            ≡ some w)
          × (w.reply ≡ true))
        nodes
unfolding handle_msg_accepted count_yes SortedMap.insert hear_all
choice_has_quorum_example =
    choice_has_quorum (accepted_from 2 ∷ accepted_from 2 ∷ []) (accepted_from 0) adopted
      (record adopted { msg_ack_accept = (0, accepted_from 0) ∷ (2, accepted_from 2) ∷ [] }) refl
      refl

refusal_restarts_example :
    (q : Proposer) × (handle_msg_promise Mode.basic no_fec
        (node 0)
        (promise_from 2 true none)
        (record asking { msg_ack_prepare = (1, promise_from 1 false none) ∷ [] })
      ≡ ok (AckType.restart, q))
unfolding SortedMap.insert
refusal_restarts_example =
    refusal_restarts Mode.basic no_fec (node 0) (promise_from 2 true none)
      (record asking { msg_ack_prepare = (1, promise_from 1 false none) ∷ [] }) refl (omega arith)
      refl (inl refl)

serve_all_reference_example :
    ((m : MsgPrepare)
      → let ack = (handle_msg_prepare (node 0) m (serve_all (node 0) history new_acceptor)).0 in
        (ack.reply ≡ ltb (highest history) m.ballot_id)
        × (ack.reply ≡ true → reported ack ≡ last_taken 0 none history))
    × ((m : MsgAccept)
        → (handle_msg_accept (node 0) m (serve_all (node 0) history new_acceptor)).0.reply
          ≡ leb (highest history) m.ballot_id)
serve_all_reference_example = serve_all_reference (node 0) history
