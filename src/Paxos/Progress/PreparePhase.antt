-- ===== src/Paxos/Progress/PreparePhase.antt =====
-- The prepare phase of a round: the acceptors promise one after the other, and the proposer goes on to
-- the accept phase or restarts.
use ndnpaxos.Prelude.{
  ℕ, zero, suc, ◌+◌, ◌^◌, ◌≤◌, ◌<◌, ◌≡◌, ◌⊎◌, inl, inr, refl, sym, ◌∙◌, ap, subst, [], ◌∷◌, some,
  true, arith, length, ok,
}
use ndnpaxos.Prelude.SortedMap
use ndnpaxos.Prelude.Below.{below, below-le, below-insert, All-insert}
use ndnpaxos.Types.{AckType, PropValue, MsgAckPrepare, MsgAccept, u16}
use ndnpaxos.View.{View}
use ndnpaxos.Acceptor.{handle_msg_prepare}
use ndnpaxos.Proposer.{Proposer, handle_msg_promise, msg_accept, accept_of}
use ndnpaxos.Proposer.Choice.{with_ack, decided, count_promised}
use ndnpaxos.Proposer.Steps.{rescanned, handle_msg_promise_cases, count_promised-Granted}
use ndnpaxos.Paxos.System.{
  Cluster, IsCluster, promised, ask_accept, Nodes, In, with_proposer, with_acceptor, Move,
  serve_prepare, wait_promise, continue, restart,
}
use ndnpaxos.Paxos.Invariant.{Inv}
use ndnpaxos.Paxos.Growth.{put-at}
use ndnpaxos.Paxos.Continuing.{msg_accept_lem}
use ndnpaxos.Paxos.Reaching.{Move-Inv}
use ndnpaxos.Paxos.Runs.{Delivered, Moves, stay, also, Requested-Within}
use ndnpaxos.Paxos.Progress.{Asker, Lowered, Preparing, Sender, Ending, restarts}
use ndnpaxos.Paxos.Progress.Replies.{handle_msg_prepare_reply, put-Lowered}
use ndnpaxos.Paxos.Progress.Restarting.{restart-Fresh}
use ndnpaxos.Paxos.Progress.VotePhase.{vote, Ending-after}

-- The proposer after an ack of node `j`.
with_ack-Asker :
    (C : Type 0) (b j : ℕ) (m : MsgAckPrepare) (p : Proposer)
    → u16 m.header.node_id ≡ j
    → (C → m.reply ≡ true)
    → Asker C b j p
    → Asker C b (suc j) (with_ack m p)
with_ack-Asker C b j m p key agreed s = record {
  ballot = s.ballot;
  unset = s.unset;
  heard =
      subst (λ n. suc j ≤ below (suc j) (SortedMap.insert n m p.msg_ack_prepare)) (sym key)
        (omega (arith, below-insert j m p.msg_ack_prepare, s.heard));
  granted = λ clean.
      All-insert (λ e. e.1.reply ≡ true) (u16 m.header.node_id) m p.msg_ack_prepare (agreed clean)
        (s.granted clean);
  untaken = s.untaken;
}

-- The proposer that has its value for the accept phase.
decided-Sender :
    (C : Type 0) (b : ℕ) (m : MsgAckPrepare) (p : Proposer)
    → p.curr_ballot ≡ b
    → (C → p.msg_ack_accept ≡ [])
    → Sender C b 0 (decided (with_ack m p))
decided-Sender C b m p same untaken = record {
  ballot = same;
  value = _;
  holds = refl;
  heard = omega arith;
  taken = λ clean. rw (untaken clean) tt;
}

msg_accept_set :
    (v : View) (p : Proposer) (x : PropValue)
    → p.curr_value ≡ some x
    → (r : MsgAccept) × (msg_accept v p ≡ ok r)
unfolding msg_accept
msg_accept_set v p x e = (accept_of v p x, rw e refl)

module _ (k : Cluster) (c : IsCluster k) (i : ℕ) (small : i < k.n) (live : k.q ≤ k.n) (C : Type 0)
    (limit b : ℕ) (pos : 0 < b) (top : b ≤ limit) (room : b + 2 ^ 17 < 2 ^ 64) where
  module _ (j : ℕ) (low : j < k.q) (w : Nodes) (v : Preparing C k i limit b j w) where
    abbrev reply : MsgAckPrepare
    reply = (handle_msg_prepare (k.view j) v.request.m (w.acceptors j)).0

    abbrev asked : Nodes
    asked =
        with_acceptor j (handle_msg_prepare (k.view j) v.request.m (w.acceptors j)).1
          (promised v.request.m.header.node_id reply ∷ w.net) w

    abbrev ask_move : Move k w asked
    ask_move = serve_prepare j v.request.m (omega arith) v.request.at

    ask-Delivered : Delivered k i w asked ask_move
    ask-Delivered = (v.request.node, low)

    asked-Inv : Inv k asked
    asked-Inv = Move-Inv k w asked c v.inv ask_move

    reply_at : In (promised i reply) asked.net
    reply_at = inl (ap (λ n. promised n reply) (sym v.request.node))

    reply_key : u16 reply.header.node_id ≡ j
    reply_key = omega (
      arith,
      (handle_msg_prepare_reply (k.view j) v.request.m (w.acceptors j)).0,
      c.numbered j (omega arith),
      c.few,
    )

    reply_ballot : reply.ballot_id ≡ b
    reply_ballot =
        (handle_msg_prepare_reply (k.view j) v.request.m (w.acceptors j)).1 ∙ v.request.ballot

    reply_agrees : C → reply.reply ≡ true
    reply_agrees clean =
        (handle_msg_prepare_reply (k.view j) v.request.m (w.acceptors j)).2
          (omega (arith, v.request.ballot, v.acceptors.lower clean j (omega arith) (omega arith)))

    asked-Lowered : Lowered C k limit b (suc j) asked.acceptors
    asked-Lowered =
        put-Lowered C k limit b j w.acceptors
          (handle_msg_prepare (k.view j) v.request.m (w.acceptors j)).1 top (omega arith)
          (ground (
            arith,
            v.request.ballot,
            (handle_msg_prepare_reply (k.view j) v.request.m (w.acceptors j)).3,
          ))
          v.acceptors

    abbrev heard_by : Proposer
    heard_by = with_ack reply (w.proposers i)

    heard_by-Asker : Asker C b (suc j) heard_by
    heard_by-Asker = with_ack-Asker C b j reply (w.proposers i) reply_key reply_agrees v.proposer

    -- With too few acks the next acceptor is asked.
    waits :
        handle_msg_promise k.mode k.fec (k.view i) reply (w.proposers i)
          ≡ ok (AckType.not_enough, heard_by)
        → length heard_by.msg_ack_prepare < (w.proposers i).qr
        → (t : Nodes) × Moves k i w t × Preparing C k i limit b (suc j) t × (suc j < k.q)
    waits e short =
        let t = with_proposer i heard_by asked.net asked in
        let m : Move k asked t =
          wait_promise i reply AckType.not_enough heard_by reply_at e (inr refl) in
        (
          t,
          also (also stay ask_move ask-Delivered) m tt,
          record {
            inv = Move-Inv k asked t c asked-Inv m;
            request = Requested-Within w.net asked.net i b (λ p at. inr at) v.request;
            proposer =
                subst (Asker C b (suc j)) (put-at w.proposers i i heard_by refl) heard_by-Asker;
            acceptors = asked-Lowered;
          },
          omega (
            arith,
            heard_by-Asker.heard,
            below-le (suc j) heard_by.msg_ack_prepare,
            (v.inv.proposers i).quorums.0,
          ),
        )

    gives_up :
        handle_msg_promise k.mode k.fec (k.view i) reply (w.proposers i)
          ≡ ok (AckType.restart, rescanned reply (w.proposers i))
        → (w.proposers i).qr ≤ length heard_by.msg_ack_prepare
        → count_promised heard_by.msg_ack_prepare < (w.proposers i).qr
        → Ending C k i limit b w
    gives_up e long few =
        let p = rescanned reply (w.proposers i) in
        let m = restart i reply p reply_at e (omega (arith, v.proposer.ballot)) in
        restarts _ (also (also stay ask_move ask-Delivered) m tt)
          (restart-Fresh k c i limit b p asked small pos room v.proposer.ballot
            asked-Lowered.bounded (Move-Inv k asked _ c asked-Inv m))
          (λ clean.
            omega (
              arith,
              count_promised-Granted heard_by.msg_ack_prepare (heard_by-Asker.granted clean),
            ))

    goes_on :
        handle_msg_promise k.mode k.fec (k.view i) reply (w.proposers i)
          ≡ ok (AckType.continue, decided heard_by)
        → Ending C k i limit b w
    goes_on e =
        let q = decided heard_by in
        let (r, sent) = msg_accept_set (k.view i) q _ refl in
        let (node, ballot, value) = msg_accept_lem (k.view i) q r sent in
        let t = with_proposer i q (ask_accept r ∷ asked.net) asked in
        let m : Move k asked t = continue i reply q r reply_at e sent in
        Ending-after k c i small live C limit b pos top room w t
          (also (also stay ask_move ask-Delivered) m tt)
          (vote k c i small live C limit b pos top room k.q 0 t (omega arith) (omega arith)
            (record {
              inv = Move-Inv k asked t c asked-Inv m;
              m = r;
              at = inl refl;
              m_ballot = ballot ∙ v.proposer.ballot;
              m_node = node ∙ c.numbered i small;
              proposer =
                  subst (Sender C b 0) (put-at w.proposers i i q refl)
                    (decided-Sender C b reply (w.proposers i) v.proposer.ballot v.proposer.untaken);
              bounded = asked-Lowered.bounded;
              within = asked-Lowered.within;
            }))

    ask_step :
        Ending C k i limit b w
        ⊎ ((t : Nodes) × Moves k i w t × Preparing C k i limit b (suc j) t × (suc j < k.q))
    ask_step =
        elim (handle_msg_promise_cases k.mode k.fec (k.view i) reply (w.proposers i) c.not_rs
          v.proposer.unset (omega (arith, v.proposer.ballot, reply_ballot))) [
            | inl (e, short) ↦ inr (waits e short)
            | inr (inl e) ↦ inl (goes_on e)
            | inr (inr (e, long, few)) ↦ inl (gives_up e long few)
          ]

  -- The proposer hears of at most a quorum before it goes on or restarts.
  pub ask :
      (rest j : ℕ) (w : Nodes)
      → j + rest ≡ k.q
      → j < k.q
      → Preparing C k i limit b j w
      → Ending C k i limit b w
  ask zero j w sum low v = absurd (omega arith)
  ask (suc rest) j w sum low v = elim (ask_step j low w v) [
    | inl end ↦ end
    | inr (t, before, u, more) ↦
        Ending-after k c i small live C limit b pos top room w t before
          (ask rest (suc j) t (omega arith) more u)
  ]
