-- ===== src/Paxos/Serving.antt =====
-- The steps of an acceptor and the invariant of the slot: what acceptor.cpp answers to the requests.
use ndnpaxos.Prelude.{ℕ, ◌≤◌, ◌<◌, ◌≡◌, refl, sym, ◌∙◌, ap, subst, ◌⊎◌, inl, inr, ◌∷◌, arith}
use ndnpaxos.Types.{PropValue, MsgPrepare, MsgAckPrepare, MsgAccept, MsgAckAccept}
use ndnpaxos.Acceptor.{Acceptor}
use ndnpaxos.Paxos.System.{
  Cluster, IsCluster, promised, ask_prepare, ask_accept, accepted, Nodes, In, with_acceptor,
}
use ndnpaxos.Paxos.Invariant.{Proposed, Accepted, Source, Owned, PacketOk, AcceptorOk, Inv}
use ndnpaxos.Paxos.Growth.{
  Grows, put-each, put-at, Source-Within, Source-same, AcceptorOk-Within, ProposerOk-Within,
  Inv-Grows,
}
use ndnpaxos.Paxos.Replying.{Prepared, Taken}

module _ (k : Cluster) (c : IsCluster k) (w : Nodes) (inv : Inv k w) (i : ℕ) (below : i < k.n) where
  -- A node has accepted no ballot above its highest.
  Accepted-le : (a b : ℕ) → Accepted w.net a b → b ≤ (w.acceptors a).max_accepted_ballot
  Accepted-le a b (j, m, at, node, ballot, agreed) =
      let (owned, small, h) = inv.packets (accepted j m) at in
      subst (λ n. b ≤ (w.acceptors n).max_accepted_ballot) node (omega (arith, h agreed, ballot))

  module _ (m : MsgPrepare) (b : Acceptor) (reply : MsgAckPrepare)
      (r : Prepared (k.view i) m (w.acceptors i) b reply) where
    abbrev t : Nodes
    t = with_acceptor i b (promised m.header.node_id reply ∷ w.net) w

    Accepted-old : (a c : ℕ) → Accepted t.net a c → Accepted w.net a c
    Accepted-old a c (j, n, at, node, ballot, agreed) = elim at [
      | inl e ↦ cc
      | inr old ↦ (j, n, old, node, ballot, agreed)
    ]

    prepared-Grows : Grows w t
    prepared-Grows = record {
      nets = λ p at. inr at;
      proposed =
          put-each (λ j x. (w.acceptors j).max_proposed_ballot ≤ x.max_proposed_ballot) w.acceptors
            i b r.rises (λ j. omega arith);
      taken =
          put-each (λ j x. (w.acceptors j).max_accepted_ballot ≤ x.max_accepted_ballot) w.acceptors
            i b (omega (arith, r.same.0)) (λ j. omega arith);
      ballots = λ j. omega arith;
      values = λ j x e. inl e;
      fresh = λ a n taken. inl (Accepted-old a n taken);
    }

    reply-ok : In (ask_prepare m) w.net → PacketOk k t (promised m.header.node_id reply)
    reply-ok asked = (
      subst (Owned k t m.header.node_id) (sym r.ballot) (inv.packets (ask_prepare m) asked),
      subst (λ n. n < k.n) (sym node) below,
      λ yes_reply.
          let (high, bound, held) = r.agreed yes_reply in
          (
            subst (λ x. reply.ballot_id ≤ x.max_proposed_ballot)
                (put-at w.acceptors i reply.header.node_id b node) (omega (arith, r.ballot, high)),
            Source-same t.net bound held (
                Source-Within w.net t.net (w.acceptors i).max_accepted_ballot
                  (w.acceptors i).max_value (λ p at. inr at) (inv.acceptors i).source),
            λ n taken. inl (
                omega (
                  arith,
                  bound,
                  Accepted-le i n (
                      subst (λ j. Accepted w.net j n) node
                        (Accepted-old reply.header.node_id n taken)),
                )),
          ),
    )
      where
        node : reply.header.node_id ≡ i
        node = r.node ∙ c.numbered i below

    -- A step by a prepare request.
    pub prepared-Inv : In (ask_prepare m) w.net → Inv k t
    prepared-Inv asked =
        Inv-Grows k w t prepared-Grows inv
          (λ p at. elim at [
            | inl e ↦ inr (subst (PacketOk k t) (sym e) (reply-ok asked))
            | inr old ↦ inl old
          ])
          (put-each (λ j x. AcceptorOk t.net x) w.acceptors i b
            (record {
              ordered = omega (arith, r.rises, r.same.0, (inv.acceptors i).ordered);
              source = Source-same t.net r.same.0 r.same.1 (
                  Source-Within w.net t.net (w.acceptors i).max_accepted_ballot
                    (w.acceptors i).max_value (λ p at. inr at) (inv.acceptors i).source);
            })
            (λ j. AcceptorOk-Within w.net t.net (w.acceptors j) (λ p at. inr at) (inv.acceptors j)))
          (λ j.
            ProposerOk-Within k w.net t.net j (w.proposers j) (λ p at. inr at) (inv.proposers j))
          (λ n x y f g. inv.unique n x y (Proposed-old n x f) (Proposed-old n y g))
      where
        Proposed-old : (n : ℕ) (x : PropValue) → Proposed t.net n x → Proposed w.net n x
        Proposed-old n x (q, at, eb, ex) = elim at [ inl e ↦ cc | inr old ↦ (q, old, eb, ex) ]

  module _ (m : MsgAccept) (b : Acceptor) (reply : MsgAckAccept)
      (r : Taken (k.view i) m (w.acceptors i) b reply) where
    abbrev u : Nodes
    u = with_acceptor i b (accepted m.header.node_id reply ∷ w.net) w

    own_node : reply.header.node_id ≡ i
    own_node = r.node ∙ c.numbered i below

    Accepted-new :
        (a n : ℕ)
        → Accepted u.net a n
        → Accepted w.net a n ⊎ ((w.acceptors a).max_proposed_ballot ≤ n)
    Accepted-new a n (j, q, at, node, ballot, agreed) = elim at [
      | inr old ↦ inl (j, q, old, node, ballot, agreed)
      | inl e ↦
          let same : q ≡ reply = cc in
          let here : i ≡ a = sym own_node ∙ ap (λ x. x.header.node_id) (sym same) ∙ node in
          inr (
            subst (λ x. (w.acceptors x).max_proposed_ballot ≤ n) here
              (omega (
                arith,
                (r.agreed (ap (λ x. x.reply) (sym same) ∙ agreed)).1,
                r.ballot,
                ap (λ x. x.ballot_id) (sym same) ∙ ballot,
              )))
    ]

    taken-Grows : Grows w u
    taken-Grows = record {
      nets = λ p at. inr at;
      proposed =
          put-each (λ j x. (w.acceptors j).max_proposed_ballot ≤ x.max_proposed_ballot) w.acceptors
            i b r.rises (λ j. omega arith);
      taken =
          put-each (λ j x. (w.acceptors j).max_accepted_ballot ≤ x.max_accepted_ballot) w.acceptors
            i b (r.ordered (inv.acceptors i).ordered).0 (λ j. omega arith);
      ballots = λ j. omega arith;
      values = λ j x e. inl e;
      fresh = Accepted-new;
    }

    taken-Source : In (ask_accept m) w.net → Source u.net b.max_accepted_ballot b.max_value
    taken-Source asked = elim r.value [
      | inl (same, held) ↦ Source-same u.net same held (
          Source-Within w.net u.net (w.acceptors i).max_accepted_ballot (w.acceptors i).max_value
            (λ p at. inr at) (inv.acceptors i).source)
      | inr (same, x, held, id) ↦
          Source-same u.net same held (m.prop_value, (m, inr asked, refl, refl), id)
    ]

    -- A step by an accept request.
    pub taken-Inv : In (ask_accept m) w.net → Inv k u
    taken-Inv asked =
        Inv-Grows k w u taken-Grows inv
          (λ p at. elim at [
            | inl e ↦ inr (
                subst (PacketOk k u) (sym e) (
                  subst (Owned k u m.header.node_id) (sym r.ballot)
                      (inv.packets (ask_accept m) asked).0,
                  subst (λ n. n < k.n) (sym own_node) below,
                  λ agreed.
                      subst (λ x. reply.ballot_id ≤ x.max_accepted_ballot)
                        (put-at w.acceptors i reply.header.node_id b own_node)
                        (omega (arith, r.ballot, (r.agreed agreed).0)),
                ))
            | inr old ↦ inl old
          ])
          (put-each (λ j x. AcceptorOk u.net x) w.acceptors i b
            (record {
              ordered = (r.ordered (inv.acceptors i).ordered).1;
              source = taken-Source asked;
            })
            (λ j. AcceptorOk-Within w.net u.net (w.acceptors j) (λ p at. inr at) (inv.acceptors j)))
          (λ j.
            ProposerOk-Within k w.net u.net j (w.proposers j) (λ p at. inr at) (inv.proposers j))
          (λ n x y f g. inv.unique n x y (Proposed-old n x f) (Proposed-old n y g))
      where
        Proposed-old : (n : ℕ) (x : PropValue) → Proposed u.net n x → Proposed w.net n x
        Proposed-old n x (q, at, eb, ex) = elim at [ inl e ↦ cc | inr old ↦ (q, old, eb, ex) ]
