-- ===== src/Paxos/Progress/Choosing.antt =====
-- From every state of a slot, the master can still get a value chosen (proposer.cpp and acceptor.cpp as
-- captain.cpp drives them).
use ndnpaxos.Prelude.{ℕ, ◌+◌, ◌^◌, ◌≤◌, ◌<◌, ◌≡◌, ◌⊎◌, inl, inr, refl, subst, List, ◌∷◌, arith}
use ndnpaxos.View.{View}
use ndnpaxos.Proposer.{Proposer, msg_prepare, gen_next_ballot}
use ndnpaxos.Paxos.System.{
  Cluster, IsCluster, Packet, ask_prepare, Nodes, System, with_proposer, Move, begin,
}
use ndnpaxos.Paxos.Invariant.{Inv}
use ndnpaxos.Paxos.Growth.{put-at}
use ndnpaxos.Paxos.Reaching.{Move-Inv}
use ndnpaxos.Paxos.Runs.{stay, also, Requested, msg_prepare-Requested}
use ndnpaxos.Paxos.Progress.Rounds.{CanChoose, CanChoose-after, asked-CanChoose}

-- The proposer has asked for its ballot, which is not above `limit`.
abbrev IsBegun : ℕ → List Packet → ℕ → Proposer → Type 0
IsBegun limit net i p =
    (0 < p.curr_ballot) × (p.curr_ballot ≤ limit) × Requested net i p.curr_ballot

first_ballot :
    (v : View) (p : Proposer)
    → p.curr_ballot ≡ 0
    → v.node_id < 2 ^ 16
    → (0 < (msg_prepare v p).1.curr_ballot) × ((msg_prepare v p).1.curr_ballot < 2 ^ 17)
unfolding msg_prepare gen_next_ballot
first_ballot v p idle small = ground arith

module _ (k : Cluster) (c : IsCluster k) (i : ℕ) (small : i < k.n) (live : k.q ≤ k.n) (limit : ℕ)
    (large : 2 ^ 17 ≤ limit) (room : limit + 2 ^ 18 < 2 ^ 64) (w : Nodes) (inv : Inv k w)
    (bounded : (a : ℕ) → a < k.n → (w.acceptors a).max_proposed_ballot ≤ limit) where
  idle-CanChoose : (w.proposers i).curr_ballot ≡ 0 → CanChoose k c i small live w
  idle-CanChoose idle =
      let p = (msg_prepare (k.view i) (w.proposers i)).1 in
      let net = ask_prepare (msg_prepare (k.view i) (w.proposers i)).0 ∷ w.net in
      let t = with_proposer i p net w in
      let m : Move k w t = begin i small idle in
      let (pos, low) =
        first_ballot (k.view i) (w.proposers i) idle (omega (arith, c.numbered i small, c.few)) in
      let (pos2, le, r) =
        subst (IsBegun limit net i) (put-at w.proposers i i p refl)
          (pos, omega arith, msg_prepare-Requested k c i (w.proposers i) w.net small) in
      CanChoose-after k c i small live w t (also stay m tt)
        (asked-CanChoose k c i small live limit room t (Move-Inv k w t c inv m) bounded le pos2 r)

  pub proposer-CanChoose :
      (w.proposers i).curr_ballot ≤ limit
      → ((w.proposers i).curr_ballot ≡ 0) ⊎ Requested w.net i (w.proposers i).curr_ballot
      → CanChoose k c i small live w
  proposer-CanChoose le (inl idle) = idle-CanChoose idle
  proposer-CanChoose le (inr r) =
      let (low, pos, made, form) = inv.packets (ask_prepare r.m) r.at in
      asked-CanChoose k c i small live limit room w inv bounded le (omega (arith, r.ballot)) r
