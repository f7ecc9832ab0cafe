-- ===== src/Paxos/Progress/VotePhase.antt =====
-- The accept phase of a round: the acceptors vote one after the other.
use ndnpaxos.Prelude.{
  ℕ, zero, suc, ◌+◌, ◌^◌, ◌≤◌, ◌<◌, ◌≡◌, ◌⊎◌, inl, inr, refl, sym, ◌∙◌, ap, subst, ◌∷◌, true, arith,
  length,
}
use ndnpaxos.Prelude.SortedMap
use ndnpaxos.Prelude.Below.{below, below-le, below-insert, All-insert}
use ndnpaxos.Types.{AckType, MsgAckAccept, u16}
use ndnpaxos.Acceptor.{handle_msg_accept}
use ndnpaxos.Proposer.{Proposer, handle_msg_accepted, count_yes}
use ndnpaxos.Proposer.Steps.{with_accepted, handle_msg_accepted_cases, count_yes-Taken}
use ndnpaxos.Paxos.System.{
  Cluster, IsCluster, accepted, Nodes, In, with_proposer, with_acceptor, Move, serve_accept,
  wait_accepted, retry,
}
use ndnpaxos.Paxos.Invariant.{Inv}
use ndnpaxos.Paxos.Growth.{put-at}
use ndnpaxos.Paxos.Reaching.{Move-Inv}
use ndnpaxos.Paxos.Runs.{Delivered, Moves, stay, also, Moves-trans}
use ndnpaxos.Paxos.Progress.{Sender, Voting, Ending, chooses, restarts}
use ndnpaxos.Paxos.Progress.Replies.{handle_msg_accept_reply, put-bounded}
use ndnpaxos.Paxos.Progress.Restarting.{restart-Fresh}

-- The proposer after an ack of node `j`.
with_accepted-Sender :
    (C : Type 0) (b j : ℕ) (m : MsgAckAccept) (p : Proposer)
    → u16 m.header.node_id ≡ j
    → (C → m.reply ≡ true)
    → Sender C b j p
    → Sender C b (suc j) (with_accepted m p)
with_accepted-Sender C b j m p key agreed s = record {
  ballot = s.ballot;
  value = s.value;
  holds = s.holds;
  heard =
      subst (λ n. suc j ≤ below (suc j) (SortedMap.insert n m p.msg_ack_accept)) (sym key)
        (omega (arith, below-insert j m p.msg_ack_accept, s.heard));
  taken = λ clean.
      All-insert (λ e. e.1.reply ≡ true) (u16 m.header.node_id) m p.msg_ack_accept (agreed clean)
        (s.taken clean);
}

module _ (k : Cluster) (c : IsCluster k) (i : ℕ) (small : i < k.n) (live : k.q ≤ k.n) (C : Type 0)
    (limit b : ℕ) (pos : 0 < b) (top : b ≤ limit) (room : b + 2 ^ 17 < 2 ^ 64) where
  module _ (j : ℕ) (low : j < k.q) (w : Nodes) (v : Voting C k i limit b j w) where
    abbrev reply : MsgAckAccept
    reply = (handle_msg_accept (k.view j) v.m (w.acceptors j)).0

    abbrev voted : Nodes
    voted =
        with_acceptor j (handle_msg_accept (k.view j) v.m (w.acceptors j)).1
          (accepted v.m.header.node_id reply ∷ w.net) w

    abbrev vote_move : Move k w voted
    vote_move = serve_accept j v.m (omega arith) v.at

    vote-Delivered : Delivered k i w voted vote_move
    vote-Delivered = (v.m_node, low)

    voted-Inv : Inv k voted
    voted-Inv = Move-Inv k w voted c v.inv vote_move

    reply_at : In (accepted i reply) voted.net
    reply_at = inl (ap (λ n. accepted n reply) (sym v.m_node))

    reply_key : u16 reply.header.node_id ≡ j
    reply_key = omega (
      arith,
      (handle_msg_accept_reply (k.view j) v.m (w.acceptors j)).0,
      c.numbered j (omega arith),
      c.few,
    )

    reply_ballot : reply.ballot_id ≡ b
    reply_ballot = (handle_msg_accept_reply (k.view j) v.m (w.acceptors j)).1 ∙ v.m_ballot

    reply_agrees : C → reply.reply ≡ true
    reply_agrees clean =
        (handle_msg_accept_reply (k.view j) v.m (w.acceptors j)).2
          (omega (arith, v.m_ballot, v.within clean j (omega arith)))

    voted_bounded : (a : ℕ) → a < k.n → (voted.acceptors a).max_proposed_ballot ≤ limit
    voted_bounded =
        put-bounded k.n limit j w.acceptors (handle_msg_accept (k.view j) v.m (w.acceptors j)).1
          (λ h. ground (
            arith,
            v.bounded j h,
            v.m_ballot,
            (handle_msg_accept_reply (k.view j) v.m (w.acceptors j)).3,
          ))
          v.bounded

    voted_within : C → (a : ℕ) → a < k.n → (voted.acceptors a).max_proposed_ballot ≤ b
    voted_within clean =
        put-bounded k.n b j w.acceptors (handle_msg_accept (k.view j) v.m (w.acceptors j)).1
          (λ h. ground (
            arith,
            v.within clean j h,
            v.m_ballot,
            (handle_msg_accept_reply (k.view j) v.m (w.acceptors j)).3,
          ))
          (v.within clean)

    abbrev heard_by : Proposer
    heard_by = with_accepted reply (w.proposers i)

    heard_by-Sender : Sender C b (suc j) heard_by
    heard_by-Sender =
        with_accepted-Sender C b j reply (w.proposers i) reply_key reply_agrees v.proposer

    -- With too few acks the next acceptor is asked.
    waits :
        handle_msg_accepted reply (w.proposers i) ≡ (AckType.not_enough, heard_by)
        → length heard_by.msg_ack_accept < (w.proposers i).qw
        → (t : Nodes) × Moves k i w t × Voting C k i limit b (suc j) t × (suc j < k.q)
    waits e short =
        let t = with_proposer i heard_by voted.net voted in
        let m : Move k voted t =
          wait_accepted i reply AckType.not_enough heard_by reply_at e (inr refl) in
        (
          t,
          also (also stay vote_move vote-Delivered) m tt,
          record {
            inv = Move-Inv k voted t c voted-Inv m;
            m = v.m;
            at = inr v.at;
            m_ballot = v.m_ballot;
            m_node = v.m_node;
            proposer =
                subst (Sender C b (suc j)) (put-at w.proposers i i heard_by refl) heard_by-Sender;
            bounded = voted_bounded;
            within = voted_within;
          },
          omega (
            arith,
            heard_by-Sender.heard,
            below-le (suc j) heard_by.msg_ack_accept,
            (v.inv.proposers i).quorums.1,
          ),
        )

    gives_up :
        handle_msg_accepted reply (w.proposers i) ≡ (AckType.restart, heard_by)
        → (w.proposers i).qw ≤ length heard_by.msg_ack_accept
        → count_yes heard_by.msg_ack_accept < (w.proposers i).qw
        → Ending C k i limit b w
    gives_up e long few =
        let m = retry i reply heard_by reply_at e (omega (arith, v.proposer.ballot)) in
        restarts _ (also (also stay vote_move vote-Delivered) m tt)
          (restart-Fresh k c i limit b heard_by voted small pos room v.proposer.ballot voted_bounded
            (Move-Inv k voted _ c voted-Inv m))
          (λ clean.
            omega (arith, count_yes-Taken heard_by.msg_ack_accept (heard_by-Sender.taken clean)))

    vote_step :
        Ending C k i limit b w
        ⊎ ((t : Nodes) × Moves k i w t × Voting C k i limit b (suc j) t × (suc j < k.q))
    vote_step =
        elim (handle_msg_accepted_cases reply (w.proposers i) (λ e. cc (v.proposer.holds))
          (omega (arith, v.proposer.ballot, reply_ballot))) [
            | inl (e, short) ↦ inr (waits e short)
            | inr (inl e) ↦ inl (
                chooses voted (also stay vote_move vote-Delivered) voted-Inv (record {
                  m = reply;
                  p = heard_by;
                  x = v.proposer.value;
                  at = reply_at;
                  choice = e;
                  value = v.proposer.holds;
                }))
            | inr (inr (e, long, few)) ↦ inl (gives_up e long few)
          ]

  pub Ending-after : (w t : Nodes) → Moves k i w t → Ending C k i limit b t → Ending C k i limit b w
  Ending-after w t before (chooses u after inv r) = chooses u (Moves-trans k i before after) inv r
  Ending-after w t before (restarts u after f dirty) =
      restarts u (Moves-trans k i before after) f dirty

  -- The proposer hears of at most a quorum before the round ends.
  pub vote :
      (rest j : ℕ) (w : Nodes)
      → j + rest ≡ k.q
      → j < k.q
      → Voting C k i limit b j w
      → Ending C k i limit b w
  vote zero j w sum low v = absurd (omega arith)
  vote (suc rest) j w sum low v = elim (vote_step j low w v) [
    | inl end ↦ end
    | inr (t, before, u, more) ↦ Ending-after w t before (vote rest (suc j) t (omega arith) more u)
  ]
