-- ===== src/Paxos/Progress/Restarting.antt =====
-- A restart of the proposer (proposer.cpp, `restart_msg_prepare`) begins a round with a higher ballot.
use ndnpaxos.Prelude.{ℕ, ◌+◌, ◌^◌, ◌≤◌, ◌<◌, ◌≡◌, refl, subst, [], ◌∷◌, none, arith}
use ndnpaxos.View.{View}
use ndnpaxos.Proposer.{Proposer, gen_next_ballot, msg_prepare, restart_msg_prepare}
use ndnpaxos.Paxos.System.{Cluster, IsCluster, ask_prepare, Nodes, with_proposer}
use ndnpaxos.Paxos.Invariant.{Inv}
use ndnpaxos.Paxos.Growth.{put-at}
use ndnpaxos.Paxos.Runs.{Requested, restart-Requested}
use ndnpaxos.Paxos.Progress.{Fresh}

-- The proposer holds no value and no acks, and has the ballot `b`.
abbrev IsEmpty : ℕ → Proposer → Type 0
IsEmpty b p =
    (p.curr_ballot ≡ b) × (p.curr_value ≡ none) × (p.msg_ack_prepare ≡ []) × (p.msg_ack_accept ≡ [])

restart-IsEmpty :
    (v : View) (b : ℕ) (p : Proposer)
    → 0 < b
    → b + 2 ^ 17 < 2 ^ 64
    → p.curr_ballot ≡ b
    → IsEmpty (b + 2 ^ 16) (restart_msg_prepare v p).1
unfolding restart_msg_prepare msg_prepare gen_next_ballot
restart-IsEmpty v b p pos room same = (ground arith, refl, refl, refl)

pub restart-Fresh :
    (k : Cluster) (c : IsCluster k) (i limit b : ℕ) (p : Proposer) (w : Nodes)
    → i < k.n
    → 0 < b
    → b + 2 ^ 17 < 2 ^ 64
    → p.curr_ballot ≡ b
    → ((a : ℕ) → a < k.n → (w.acceptors a).max_proposed_ballot ≤ limit)
    → let t =
        with_proposer i
          (restart_msg_prepare (k.view i) p).1
          (ask_prepare (restart_msg_prepare (k.view i) p).0 ∷ w.net)
          w in
      Inv k t → Fresh k i limit (b + 2 ^ 16) t
restart-Fresh k c i limit b p w small pos room same bounded inv =
    let q = (restart_msg_prepare (k.view i) p).1 in
    let empty = restart-IsEmpty (k.view i) b p pos room same in
    let (eb, ev, ea, ec) = subst (IsEmpty (b + 2 ^ 16)) (put-at w.proposers i i q refl) empty in
    record {
      inv = inv;
      request = subst (Requested _ i) empty.0 (restart-Requested k c i p w.net small);
      ballot = eb;
      unset = ev;
      unanswered = (ea, ec);
      bounded = bounded;
    }
