-- ===== src/Paxos/Progress/Rounds.antt =====
-- Rounds of one proposer (proposer.cpp) that competes with nobody: each restart raises its ballot, until
-- no acceptor refuses it.
use ndnpaxos.Prelude.{
  ℕ, zero, suc, ◌+◌, ◌^◌, ◌≤◌, ◌<◌, ◌≡◌, ◌⊎◌, inl, inr, refl, [], none, some, arith, dec_lt,
  Option-cases,
}
use ndnpaxos.Types.{PropValue}
use ndnpaxos.Proposer.{Proposer}
use ndnpaxos.Paxos.System.{Cluster, IsCluster, ask_accept, Nodes}
use ndnpaxos.Paxos.Invariant.{Inv}
use ndnpaxos.Paxos.Runs.{Moves, Moves-trans, Requested}
use ndnpaxos.Paxos.Progress.{Asker, Lowered, Preparing, Fresh, Ready, Ending, chooses, restarts}
use ndnpaxos.Paxos.Progress.PreparePhase.{ask}
use ndnpaxos.Paxos.Progress.VotePhase.{vote}

Fresh-Asker :
    (C : Type 0) (b : ℕ) (p : Proposer)
    → p.curr_ballot ≡ b
    → p.curr_value ≡ none
    → p.msg_ack_prepare ≡ []
    → p.msg_ack_accept ≡ []
    → Asker C b 0 p
Fresh-Asker C b p same unset promises accepts = record {
  ballot = same;
  unset = unset;
  heard = omega arith;
  granted = λ clean. rw promises tt;
  untaken = λ clean. accepts;
}

-- A clean round, and one with refusals.
clean-Preparing :
    (k : Cluster) (i limit b : ℕ) (w : Nodes)
    → limit < b
    → Fresh k i limit b w
    → Preparing Unit k i b b 0 w
clean-Preparing k i limit b w less f = record {
  inv = f.inv;
  request = f.request;
  proposer = Fresh-Asker Unit b (w.proposers i) f.ballot f.unset f.unanswered.0 f.unanswered.1;
  acceptors = record {
    bounded = λ a low. omega (arith, f.bounded a low);
    within = λ clean a low. omega (arith, f.bounded a low);
    lower = λ clean a low past. omega (arith, f.bounded a low);
  };
}

any-Lowered :
    (k : Cluster) (limit b : ℕ) (w : Nodes)
    → ((a : ℕ) → a < k.n → (w.acceptors a).max_proposed_ballot ≤ limit)
    → Lowered ⊥ k limit b 0 w.acceptors
any-Lowered k limit b w h = record {
  bounded = h;
  within = λ clean. absurd clean;
  lower = λ clean. absurd clean;
}

any-Preparing :
    (k : Cluster) (i limit b : ℕ) (w : Nodes)
    → Inv k w
    → Requested w.net i b
    → (w.proposers i).curr_ballot ≡ b
    → (w.proposers i).curr_value ≡ none
    → ((a : ℕ) → a < k.n → (w.acceptors a).max_proposed_ballot ≤ limit)
    → Preparing ⊥ k i limit b 0 w
any-Preparing k i limit b w inv request same unset bounded = record {
  inv = inv;
  request = request;
  proposer = record {
    ballot = same;
    unset = unset;
    heard = omega arith;
    granted = λ clean. absurd clean;
    untaken = λ clean. absurd clean;
  };
  acceptors = any-Lowered k limit b w bounded;
}

module _ (k : Cluster) (c : IsCluster k) (i : ℕ) (small : i < k.n) (live : k.q ≤ k.n) where
  -- From `w` the proposer gets to choose.
  abbrev pub CanChoose : Nodes → Type 0
  CanChoose w = (t : Nodes) × Moves k i w t × Inv k t × Ready i t

  pub CanChoose-after : (w t : Nodes) → Moves k i w t → CanChoose t → CanChoose w
  CanChoose-after w t before (u, after, inv, r) = (u, Moves-trans k i before after, inv, r)

  -- One round: a restart shows that some acceptor had seen a ballot as high.
  Fresh-round :
      (b limit : ℕ) (w : Nodes)
      → 0 < b
      → b ≤ limit + 2 ^ 16
      → limit + 2 ^ 18 < 2 ^ 64
      → Fresh k i limit b w
      → CanChoose w ⊎ ((b ≤ limit) × ((t : Nodes) × Moves k i w t × Fresh k i limit (b + 2 ^ 16) t))
  Fresh-round b limit w pos near room f = elim (dec_lt limit b) [
    | yes less ↦
        elim (ask k c i small live Unit b b pos (omega arith) (omega arith) k.q 0 w (omega arith)
          (omega (arith, c.majority)) (clean-Preparing k i limit b w less f)) [
            | chooses t before inv r ↦ inl (t, before, inv, r)
            | restarts t before g dirty ↦ absurd (dirty tt)
          ]
    | no more ↦
        elim (ask k c i small live ⊥ limit b pos (omega arith) (omega arith) k.q 0 w (omega arith)
          (omega (arith, c.majority))
          (any-Preparing k i limit b w f.inv f.request f.ballot f.unset f.bounded)) [
            | chooses t before inv r ↦ inl (t, before, inv, r)
            | restarts t before g dirty ↦ inr (omega arith, (t, before, g))
          ]
  ]

  -- `fuel` bounds the restarts: each raises the ballot, and the acceptors stay below `limit`.
  Fresh-CanChoose :
      (fuel b limit : ℕ) (w : Nodes)
      → limit < b + fuel
      → 0 < b
      → b ≤ limit + 2 ^ 16
      → limit + 2 ^ 18 < 2 ^ 64
      → Fresh k i limit b w
      → CanChoose w
  Fresh-CanChoose zero b limit w enough pos near room f =
      elim (Fresh-round b limit w pos near room f) [
        | inl done ↦ done
        | inr (le, again) ↦ absurd (omega arith)
      ]
  Fresh-CanChoose (suc fuel) b limit w enough pos near room f =
      elim (Fresh-round b limit w pos near room f) [
        | inl done ↦ done
        | inr (le, (t, before, g)) ↦ CanChoose-after w t before (
            Fresh-CanChoose fuel (b + 2 ^ 16) limit t (omega arith) (omega arith) (omega arith) room
              g)
      ]

  -- The end of a round that other nodes may have disturbed.
  Ending-CanChoose :
      (b limit : ℕ) (w : Nodes)
      → b ≤ limit
      → limit + 2 ^ 18 < 2 ^ 64
      → Ending ⊥ k i limit b w
      → CanChoose w
  Ending-CanChoose b limit w le room (chooses t before inv r) = (t, before, inv, r)
  Ending-CanChoose b limit w le room (restarts t before f dirty) =
      CanChoose-after w t before (
        Fresh-CanChoose limit (b + 2 ^ 16) limit t (omega arith) (omega arith) (omega arith) room f)

  module _ (limit : ℕ) (room : limit + 2 ^ 18 < 2 ^ 64) (w : Nodes) (inv : Inv k w)
      (bounded : (a : ℕ) → a < k.n → (w.acceptors a).max_proposed_ballot ≤ limit) where
    preparing-CanChoose :
        (b : ℕ)
        → 0 < b
        → b ≤ limit
        → (w.proposers i).curr_ballot ≡ b
        → (w.proposers i).curr_value ≡ none
        → Requested w.net i b
        → CanChoose w
    preparing-CanChoose b pos le same unset r = Ending-CanChoose b limit w le room (
        ask k c i small live ⊥ limit b pos le (omega arith) k.q 0 w (omega arith)
          (omega (arith, c.majority)) (any-Preparing k i limit b w inv r same unset bounded))

    voting-CanChoose :
        (x : PropValue)
        → (w.proposers i).curr_ballot ≤ limit
        → (w.proposers i).curr_value ≡ some x
        → CanChoose w
    voting-CanChoose x le holds =
        let own = inv.proposers i in
        let (m, at, ballot, value) = own.value x holds in
        let (below, pos, made, form) = (inv.packets (ask_accept m) at).0 in
        let b = (w.proposers i).curr_ballot in
        Ending-CanChoose b limit w le room (
          vote k c i small live ⊥ limit b (omega arith) le (omega arith) k.q 0 w (omega arith)
            (omega (arith, c.majority))
            (record {
              inv = inv;
              m = m;
              at = at;
              m_ballot = ballot;
              m_node = omega (arith, own.form);
              proposer = record {
                ballot = refl;
                value = x;
                holds = holds;
                heard = omega arith;
                taken = λ clean. absurd clean;
              };
              bounded = bounded;
              within = λ clean. absurd clean;
            }))

    pub asked-CanChoose :
        (w.proposers i).curr_ballot ≤ limit
        → 0 < (w.proposers i).curr_ballot
        → Requested w.net i (w.proposers i).curr_ballot
        → CanChoose w
    asked-CanChoose le pos r = elim (Option-cases (w.proposers i).curr_value) [
      | inl unset ↦ preparing-CanChoose (w.proposers i).curr_ballot pos le refl unset r
      | inr (x, holds) ↦ voting-CanChoose x le holds
    ]
