-- ===== src/Paxos/Progress/Replies.antt =====
-- The replies of the acceptors (acceptor.cpp) to the proposer of a round, and their ballots after it.
use ndnpaxos.Prelude.{ℕ, suc, ◌≤◌, ◌<◌, ◌≡◌, ◌⊎◌, true, arith}
use ndnpaxos.Types.{MsgPrepare, MsgAccept}
use ndnpaxos.View.{View}
use ndnpaxos.Acceptor.{Acceptor, handle_msg_prepare, handle_msg_accept}
use ndnpaxos.Paxos.System.{Cluster, put}
use ndnpaxos.Paxos.Growth.{put-each}
use ndnpaxos.Paxos.Progress.{Lowered}

pub handle_msg_prepare_reply :
    (v : View) (m : MsgPrepare) (a : Acceptor)
    → let (ack, after) = handle_msg_prepare v m a in
      (ack.header.node_id ≡ v.node_id)
      × (ack.ballot_id ≡ m.ballot_id)
      × (a.max_proposed_ballot < m.ballot_id → ack.reply ≡ true)
      × ((after.max_proposed_ballot ≡ a.max_proposed_ballot)
          ⊎ (after.max_proposed_ballot ≡ m.ballot_id))
unfolding handle_msg_prepare
handle_msg_prepare_reply v m a = (ground arith, ground arith, ground arith, ground arith)

pub handle_msg_accept_reply :
    (v : View) (m : MsgAccept) (a : Acceptor)
    → let (ack, after) = handle_msg_accept v m a in
      (ack.header.node_id ≡ v.node_id)
      × (ack.ballot_id ≡ m.ballot_id)
      × (a.max_proposed_ballot ≤ m.ballot_id → ack.reply ≡ true)
      × ((after.max_proposed_ballot ≡ a.max_proposed_ballot)
          ⊎ (after.max_proposed_ballot ≡ m.ballot_id))
unfolding handle_msg_accept
handle_msg_accept_reply v m a = (ground arith, ground arith, ground arith, ground arith)

-- Node `j` answers a request of the round.
pub put-bounded :
    (n limit j : ℕ) (f : ℕ → Acceptor) (x : Acceptor)
    → (j < n → x.max_proposed_ballot ≤ limit)
    → ((a : ℕ) → a < n → (f a).max_proposed_ballot ≤ limit)
    → (a : ℕ) → a < n
    → (put f j x a).max_proposed_ballot ≤ limit
put-bounded n limit j f x new old =
    put-each (λ a y. a < n → y.max_proposed_ballot ≤ limit) f j x new old

pub put-Lowered :
    (C : Type 0) (k : Cluster) (limit b j : ℕ) (f : ℕ → Acceptor) (x : Acceptor)
    → b ≤ limit
    → j < k.n
    → (x.max_proposed_ballot ≡ (f j).max_proposed_ballot) ⊎ (x.max_proposed_ballot ≡ b)
    → Lowered C k limit b j f
    → Lowered C k limit b (suc j) (put f j x)
put-Lowered C k limit b j f x top small after h = record {
  bounded = put-bounded k.n limit j f x (λ low. ground (arith, h.bounded j small)) h.bounded;
  within = λ clean.
      put-bounded k.n b j f x (λ low. ground (arith, h.within clean j small)) (h.within clean);
  lower = λ clean.
      put-each (λ a y. a < k.n → suc j ≤ a → y.max_proposed_ballot < b) f j x
        (λ low past. absurd (omega arith)) (λ a low past. h.lower clean a low (omega arith));
}
