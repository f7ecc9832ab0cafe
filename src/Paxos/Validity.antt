-- ===== src/Paxos/Validity.antt =====
-- Which values can be chosen for a slot.
use ndnpaxos.Prelude.{
  ℕ, ◌<◌, ◌≡◌, refl, sym, ◌∙◌, ap, subst, ◌⊎◌, inl, inr, List, ◌∷◌, Option, none, some,
  some-injective,
}
use ndnpaxos.Types.{PropValue, AckType, MsgAccept, MsgAckAccept}
use ndnpaxos.View.{View}
use ndnpaxos.Proposer.{
  Proposer, new_proposer, msg_prepare, restart_msg_prepare, handle_msg_accepted,
}
use ndnpaxos.Proposer.Choice.{handle_msg_promise-Continues, value_to_propose}
use ndnpaxos.Proposer.Answers.{handle_msg_promise-Answers, handle_msg_accepted_step}
use ndnpaxos.Paxos.System.{
  Cluster, IsCluster, Packet, ask_accept, promised, Nodes, System, In, with_proposer, Move, begin,
  serve_prepare, serve_accept, wait_promise, continue, restart, wait_accepted, retry, move, choose,
  Reach, start, later,
}
use ndnpaxos.Paxos.Invariant.{Source, Inv}
use ndnpaxos.Paxos.Growth.{put-each}
use ndnpaxos.Paxos.Continuing.{msg_accept_lem, continue-Source}
use ndnpaxos.Paxos.Reaching.{Reach-SystemOk}
use ndnpaxos.Paxos.Agreement.{In-All}

-- Some node wants a value with this id.
abbrev pub Wanted : Cluster → ℕ → Type 0
Wanted k id = (i : ℕ) × (i < k.n) × ((k.value i).id ≡ id)

-- Proposers keep the values that they were made for, and propose only values that are wanted.
record IsWanted (k : Cluster) (w : Nodes) : Type 0 where
  own : (i : ℕ) → (w.proposers i).init_value ≡ k.value i
  asked : (m : MsgAccept) → In (ask_accept m) w.net → Wanted k m.prop_value.id

msg_prepare-init_value : (v : View) (p : Proposer) → (msg_prepare v p).1.init_value ≡ p.init_value
unfolding msg_prepare
msg_prepare-init_value v p = refl

restart-init_value :
    (v : View) (p : Proposer) → (restart_msg_prepare v p).1.init_value ≡ p.init_value
unfolding restart_msg_prepare msg_prepare
restart-init_value v p = refl

accepted-init_value :
    (m : MsgAckAccept) (p q : Proposer) (ack : AckType)
    → handle_msg_accepted m p ≡ (ack, q)
    → q.init_value ≡ p.init_value
accepted-init_value m p q ack e = elim (handle_msg_accepted_step m p q ack e) [
  | inl same ↦ ap (λ x. x.init_value) same
  | inr (current, same) ↦ ap (λ x. x.init_value) same
]

-- A step of one proposer that keeps the value it was made for.
step-IsWanted :
    (k : Cluster) (w : Nodes) (i : ℕ) (p : Proposer) (net : List Packet)
    → IsWanted k w
    → p.init_value ≡ (w.proposers i).init_value
    → ((m : MsgAccept) → In (ask_accept m) net → In (ask_accept m) w.net ⊎ Wanted k m.prop_value.id)
    → IsWanted k (with_proposer i p net w)
step-IsWanted k w i p net h same new = record {
  own = put-each (λ j x. x.init_value ≡ k.value j) w.proposers i p (same ∙ h.own i) h.own;
  asked = λ m at. elim (new m at) [ inl old ↦ h.asked m old | inr shown ↦ shown ];
}

-- The value of an accept request is the proposer's own, or one that was proposed before.
continue-Wanted :
    (k : Cluster) (w : Nodes) (i : ℕ) (p : Proposer) (top : ℕ) (seen : Option PropValue)
    → IsWanted k w
    → i < k.n
    → p.init_value ≡ k.value i
    → Source w.net top seen
    → Wanted k (value_to_propose p.init_value seen).id
continue-Wanted k w i p top none h below own s = (i, below, ap (λ x. x.id) (sym own))
continue-Wanted k w i p top (some x) h below own (y, (m, at, eb, ey), id) =
    let (j, small, e) = h.asked m at in (j, small, e ∙ ap (λ v. v.id) ey ∙ id)

other_packet :
    (k : Cluster) (net : List Packet) (p : Packet)
    → ((m : MsgAccept) → ask_accept m ≡ p → ⊥)
    → (m : MsgAccept) → In (ask_accept m) (p ∷ net)
    → In (ask_accept m) net ⊎ Wanted k m.prop_value.id
other_packet k net p differ m at = elim at [ inl e ↦ absurd (differ m e) | inr old ↦ inl old ]

Move-IsWanted :
    (k : Cluster) (w t : Nodes) → IsCluster k → Inv k w → IsWanted k w → Move k w t → IsWanted k t
Move-IsWanted k w t c inv h (begin i below idle) =
    step-IsWanted k w i _ _ h (msg_prepare-init_value (k.view i) (w.proposers i))
      (other_packet k w.net _ (λ m e. cc))
Move-IsWanted k w t c inv h (serve_prepare i m below at) = record {
  own = h.own;
  asked = λ r here. elim here [ inl e ↦ cc | inr old ↦ h.asked r old ];
}
Move-IsWanted k w t c inv h (serve_accept i m below at) = record {
  own = h.own;
  asked = λ r here. elim here [ inl e ↦ cc | inr old ↦ h.asked r old ];
}
Move-IsWanted k w t c inv h (wait_promise i m ack q at e kind) =
    let a = handle_msg_promise-Answers k.mode k.fec (k.view i) m (w.proposers i) q ack c.not_rs e in
    step-IsWanted k w i q w.net h a.same.0 (λ r here. inl here)
Move-IsWanted k w t c inv h (continue i m q r at e sent) =
    let a =
      handle_msg_promise-Answers k.mode k.fec (k.view i) m (w.proposers i) q AckType.continue
        c.not_rs e in
    let s = handle_msg_promise-Continues k.mode k.fec (k.view i) m (w.proposers i) q c.not_rs e in
    let (node, ballot, value) = msg_accept_lem (k.view i) q r sent in
    let wanted : Wanted k r.prop_value.id =
      subst (λ x. Wanted k x.id) (some-injective (sym s.value ∙ value))
        (continue-Wanted k w i (w.proposers i) q.max_ballot q.max_value h
          (inv.packets (promised i m) at).0.0 (h.own i) (continue-Source k c w inv i m q at a)) in
    step-IsWanted k w i q (ask_accept r ∷ w.net) h a.same.0 (λ f here. elim here [
      | inl same ↦ inr (subst (λ x. Wanted k x) (ap value_of (sym same)) wanted)
      | inr old ↦ inl old
    ])
  where
    value_of : Packet → ℕ
    value_of (ask_accept x) = x.prop_value.id
    value_of _ = 0
Move-IsWanted k w t c inv h (restart i m q at e room) =
    let a =
      handle_msg_promise-Answers k.mode k.fec (k.view i) m (w.proposers i) q AckType.restart
        c.not_rs e in
    step-IsWanted k w i _ _ h (restart-init_value (k.view i) q ∙ a.same.0)
      (other_packet k w.net _ (λ r x. cc))
Move-IsWanted k w t c inv h (wait_accepted i m ack q at e kind) =
    step-IsWanted k w i q w.net h (accepted-init_value m (w.proposers i) q ack e)
      (λ r here. inl here)
Move-IsWanted k w t c inv h (retry i m q at e room) =
    step-IsWanted k w i _ _ h
      (restart-init_value (k.view i) q ∙ accepted-init_value m (w.proposers i) q AckType.restart e)
      (other_packet k w.net _ (λ r x. cc))

new_proposer-init_value :
    (k : Cluster) (i : ℕ) → (new_proposer k.mode (k.view i) (k.value i)).init_value ≡ k.value i
unfolding new_proposer
new_proposer-init_value k i = refl

Reach-IsWanted : (k : Cluster) (s : System) → IsCluster k → Reach k s → IsWanted k s.nodes
Reach-IsWanted k s c start = record { own = new_proposer-init_value k; asked = λ m at. absurd at }
Reach-IsWanted k s c (later {s = r} before (move w step)) =
    Move-IsWanted k r.nodes w c (Reach-SystemOk k r c before).inv (Reach-IsWanted k r c before) step
Reach-IsWanted k s c (later {s = r} before (choose i m q x at e value)) =
    step-IsWanted k r.nodes i q r.nodes.net (Reach-IsWanted k r c before)
      (accepted-init_value m (r.nodes.proposers i) q AckType.choose e) (λ f here. inl here)

-- Validity: in every run, in a cluster as for agreement, a value that is reported as chosen has the id
-- of the value that some node of the cluster wants in the slot.
pub validity :
    (k : Cluster) (s : System) (b : ℕ) (x : PropValue)
    → IsCluster k
    → Reach k s
    → In (b, x) s.chosen
    → Wanted k x.id
validity k s b x c r at =
    let (m, asked, eb, ex) = (In-All _ s.chosen (b, x) at (Reach-SystemOk k s c r).chosen).0 in
    let (i, small, id) = (Reach-IsWanted k s c r).asked m asked in
    (i, small, id ∙ ap (λ v. v.id) ex)
