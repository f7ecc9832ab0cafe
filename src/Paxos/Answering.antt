-- ===== src/Paxos/Answering.antt =====
-- The steps of a proposer that take an ack (proposer.cpp, `handle_msg_promise` and
-- `handle_msg_accepted`): what it holds afterwards comes from packets of the network.
use ndnpaxos.Prelude.{
  ℕ, ◌%◌, ◌^◌, ◌<◌, ◌≡◌, ◌≢◌, refl, sym, ◌∙◌, subst, ◌⊎◌, inl, inr, List, [], ◌∷◌, Option, none,
  some, arith, All,
}
use ndnpaxos.Prelude.SortedMap
use ndnpaxos.Prelude.Below.{All-insert}
use ndnpaxos.Types.{PropValue, AckType, MsgAckPrepare, MsgAckAccept, u16, default_value}
use ndnpaxos.Proposer.{Proposer, handle_msg_accepted}
use ndnpaxos.Proposer.Choice.{Among}
use ndnpaxos.Proposer.Answers.{Answers, handle_msg_accepted_step}
use ndnpaxos.Paxos.System.{Cluster, IsCluster, Packet, promised, accepted, Nodes, In}
use ndnpaxos.Paxos.Invariant.{Proposed, Source, PromiseIn, AcceptedIn, ProposerOk, Inv}
use ndnpaxos.Paxos.Growth.{Within, Source-same, Source-Within, All-map}

-- A reported ballot above 0 comes with a value.
Source-set :
    (net : List Packet) (b : ℕ) (o : Option PropValue)
    → 0 < b
    → Source net b o
    → Source net b (some (elim o [ none ↦ default_value | some x ↦ x ]))
Source-set net b none pos s = absurd (omega arith)
Source-set net b (some x) pos s = s

module _ (k : Cluster) (c : IsCluster k) (w : Nodes) (inv : Inv k w) (i : ℕ) where
  -- What a yes answer among the acks reports.
  Among-Source :
      (b d : ℕ) (x : Option PropValue) (acks : List (ℕ × MsgAckPrepare))
      → 0 < d
      → All (PromiseIn k w.net i b) acks
      → Among d x acks
      → Source w.net d x
  Among-Source b d x [] pos h a = absurd a
  Among-Source b d x ((node, m) ∷ acks) pos ((small, en, eb, at), h) a = elim a [
    | inr later ↦ Among-Source b d x acks pos h later
    | inl (agreed, em, ex) ↦
        let (owned, below, reports) = inv.packets (promised i m) at in
        Source-same w.net refl ex (
          Source-set w.net d m.max_prop_value pos
            (subst (λ n. Source w.net n m.max_prop_value) em (reports agreed).1))
  ]

  promises-Answers :
      (m : MsgAckPrepare) (ack : AckType) (q : Proposer)
      → In (promised i m) w.net
      → Answers (w.proposers i) m ack q
      → SortedMap.IsSorted q.msg_ack_prepare
        × All (PromiseIn k w.net i q.curr_ballot) q.msg_ack_prepare
  promises-Answers m ack q at a =
      let p = w.proposers i in
      let own = inv.proposers i in
      let (owned, below, reports) = inv.packets (promised i m) at in
      elim a.acks [
        | inl same ↦ rw (same, a.same.1) (own.sorted.0, own.promises)
        | inr (current, same) ↦
            let exact : u16 m.header.node_id ≡ m.header.node_id = omega (arith, c.few, below) in
            rw (same, a.same.1)
              (
                SortedMap.insert-IsSorted (u16 m.header.node_id) m p.msg_ack_prepare own.sorted.0,
                All-insert (PromiseIn k w.net i p.curr_ballot) (u16 m.header.node_id) m
                    p.msg_ack_prepare
                    (omega (arith, exact, below), sym exact, omega (arith, owned.2, current), at)
                    own.promises,
              )
      ]

  -- A proposer after an ack of the prepare phase, given that its value was proposed.
  pub Answers-ProposerOk :
      (net : List Packet) (m : MsgAckPrepare) (ack : AckType) (q : Proposer)
      → In (promised i m) w.net
      → Answers (w.proposers i) m ack q
      → Within w.net net
      → ((x : PropValue) → q.curr_value ≡ some x → Proposed net q.curr_ballot x)
      → ProposerOk k net i q
  Answers-ProposerOk net m ack q at a nets value =
      let p = w.proposers i in
      let own = inv.proposers i in
      let acks = promises-Answers m ack q at a in
      record {
        quorums = (a.same.2 ∙ own.quorums.0, a.same.3 ∙ own.quorums.1);
        form = subst (λ b. (b ≡ 0) ⊎ (b % 2 ^ 16 ≡ i)) (sym a.same.1) own.form;
        value = value;
        source = Source-Within w.net net q.max_ballot q.max_value nets (elim a.source [
          | inl (eb, ex) ↦ Source-same w.net eb ex own.source
          | inr (higher, among) ↦
              Among-Source q.curr_ballot q.max_ballot q.max_value q.msg_ack_prepare (omega arith)
                acks.1 among
        ]);
        sorted = (acks.0, rw a.same.4 own.sorted.1);
        promises =
            All-map (PromiseIn k w.net i q.curr_ballot) (PromiseIn k net i q.curr_ballot)
              q.msg_ack_prepare
              (λ e (below, node, ballot, old). (below, node, ballot, nets (promised i e.1) old))
              acks.1;
        accepts =
            All-map (AcceptedIn k w.net i (w.proposers i).curr_ballot)
              (AcceptedIn k net i q.curr_ballot) q.msg_ack_accept
              (λ e (below, node, ballot, old).
                (below, node, ballot ∙ sym a.same.1, nets (accepted i e.1) old))
              (rw a.same.4 own.accepts);
      }

  -- A proposer after an ack of the prepare phase that did not make it continue.
  pub waits-ProposerOk :
      (m : MsgAckPrepare) (ack : AckType) (q : Proposer)
      → In (promised i m) w.net
      → Answers (w.proposers i) m ack q
      → ack ≢ AckType.continue
      → ProposerOk k w.net i q
  waits-ProposerOk m ack q at a other =
      Answers-ProposerOk w.net m ack q at a (λ r h. h)
        (λ x e.
          subst (λ b. Proposed w.net b x) (sym a.same.1)
            ((inv.proposers i).value x (sym (a.value other) ∙ e)))

  -- A proposer after an ack of the accept phase.
  pub accepted-ProposerOk :
      (m : MsgAckAccept) (ack : AckType) (q : Proposer)
      → In (accepted i m) w.net
      → handle_msg_accepted m (w.proposers i) ≡ (ack, q)
      → ProposerOk k w.net i q
        × (q.curr_ballot ≡ (w.proposers i).curr_ballot)
        × (q.curr_value ≡ (w.proposers i).curr_value)
  accepted-ProposerOk m ack q at e =
      let p = w.proposers i in
      let own = inv.proposers i in
      let (owned, below, reports) = inv.packets (accepted i m) at in
      elim (handle_msg_accepted_step m p q ack e) [
        | inl same ↦ rw same (own, refl, refl)
        | inr (current, same) ↦
            let exact : u16 m.header.node_id ≡ m.header.node_id = omega (arith, c.few, below) in
            rw same (
              record {
                quorums = own.quorums;
                form = own.form;
                value = own.value;
                source = own.source;
                sorted = (
                  own.sorted.0,
                  SortedMap.insert-IsSorted (u16 m.header.node_id) m p.msg_ack_accept own.sorted.1,
                );
                promises = own.promises;
                accepts =
                    All-insert (AcceptedIn k w.net i p.curr_ballot) (u16 m.header.node_id) m
                      p.msg_ack_accept
                      (omega (arith, exact, below), sym exact, omega (arith, owned.2, current), at)
                      own.accepts;
              },
              refl,
              refl,
            )
      ]
