-- ===== src/Paxos/Runs.antt =====
-- Sequences of steps of one slot, and what each proposer has asked for.
use ndnpaxos.Prelude.{
  ℕ, ◌<◌, ◌≡◌, refl, sym, ◌∙◌, ap, subst, ◌⊎◌, inl, inr, List, [], ◌∷◌, none, ◌≢◌, ℕ_discrete,
}
use ndnpaxos.Types.{MsgPrepare, MsgAckAccept, AckType}
use ndnpaxos.Proposer.{
  Proposer, msg_prepare, restart_msg_prepare, new_proposer, handle_msg_accepted,
}
use ndnpaxos.Proposer.Answers.{handle_msg_promise-Answers, handle_msg_accepted_step}
use ndnpaxos.Paxos.System.{
  Cluster, IsCluster, Packet, ask_prepare, Nodes, System, In, with_proposer, Move, begin,
  serve_prepare, serve_accept, wait_promise, continue, restart, wait_accepted, retry, Step, move,
  choose, Reach, start, later,
}
use ndnpaxos.Paxos.Growth.{Within, put-each}

-- The request of node `i` is served by a node that is asked in both builds.
abbrev pub Delivered : (k : Cluster) (i : ℕ) (w t : Nodes) → Move k w t → Type 0
Delivered k i w t (serve_prepare j m below at) = (m.header.node_id ≡ i) × (j < k.q)
Delivered k i w t (serve_accept j m below at) = (m.header.node_id ≡ i) × (j < k.q)
Delivered k i w t m = Unit

-- A request from `node` gets to the replica of node `j` (commo.cpp): `j` is below the size of a quorum,
-- where requests are sent in both builds, and is the sender itself or not the master, which listens to
-- its clients only.
abbrev pub Received : Cluster → ℕ → ℕ → Type 0
Received k node j = (j < k.q) × ((node ≡ j) ⊎ ((k.view j).master_id ≢ j))

-- Commo carries what the step takes.
abbrev pub Carried : (k : Cluster) (s t : System) → Step k s t → Type 0
Carried k s t (move w (serve_prepare j m below at)) = Received k m.header.node_id j
Carried k s t (move w (serve_accept j m below at)) = Received k m.header.node_id j
Carried k s t e = Unit

-- From `w` by any number of moves, for which only the requests of node `i` are served.
pub data Moves (k : Cluster) (i : ℕ) (w : Nodes) : Nodes → Type 0 where
  stay : Moves k i w w
  also : {t u : Nodes} → Moves k i w t → (m : Move k t u) → Delivered k i t u m → Moves k i w u

-- From `s` by any number of steps that Commo carries.
pub data Leads (k : Cluster) (s : System) : System → Type 0 where
  here : Leads k s s
  on : {t u : System} → Leads k s t → (e : Step k t u) → Carried k t u e → Leads k s u

-- A node that takes the sender for the master gets the request, or is the sender.
master-Received :
    (k : Cluster) (i node j : ℕ) → (k.view j).master_id ≡ i → node ≡ i → j < k.q → Received k node j
master-Received k i node j master same low = elim (ℕ_discrete i j) [
  | yes own ↦ (low, inl (same ∙ own))
  | no other ↦ (low, inr (λ e. other (sym master ∙ e)))
]

Delivered-Carried :
    (k : Cluster) (i : ℕ) (s : System) (w : Nodes) (m : Move k s.nodes w)
    → ((j : ℕ) → j < k.n → (k.view j).master_id ≡ i)
    → Delivered k i s.nodes w m
    → Carried k s (record s { nodes = w }) (move w m)
Delivered-Carried k i s w (begin j below idle) master d = tt
Delivered-Carried k i s w (serve_prepare j m below at) master (node, low) =
    master-Received k i m.header.node_id j (master j below) node low
Delivered-Carried k i s w (serve_accept j m below at) master (node, low) =
    master-Received k i m.header.node_id j (master j below) node low
Delivered-Carried k i s w (wait_promise j m ack p at e kind) master d = tt
Delivered-Carried k i s w (continue j m p r at e sent) master d = tt
Delivered-Carried k i s w (restart j m p at e room) master d = tt
Delivered-Carried k i s w (wait_accepted j m ack p at e kind) master d = tt
Delivered-Carried k i s w (retry j m p at e room) master d = tt

pub Moves-Leads :
    (k : Cluster) (i : ℕ) (s : System) (w : Nodes)
    → ((j : ℕ) → j < k.n → (k.view j).master_id ≡ i)
    → Moves k i s.nodes w
    → Leads k s (record s { nodes = w })
Moves-Leads k i s w master stay = here
Moves-Leads k i s w master (also {t} before m d) =
    on (Moves-Leads k i s t master before) (move w m)
      (Delivered-Carried k i (record s { nodes = t }) w m master d)

pub Moves-trans :
    (k : Cluster) (i : ℕ) {w t u : Nodes} → Moves k i w t → Moves k i t u → Moves k i w u
Moves-trans k i a stay = a
Moves-trans k i a (also b m d) = also (Moves-trans k i a b) m d

-- The prepare request for the proposer's ballot was sent.
pub record Requested (net : List Packet) (i b : ℕ) : Type 0 where
  pub m : MsgPrepare
  pub at : In (ask_prepare m) net
  pub ballot : m.ballot_id ≡ b
  pub node : m.header.node_id ≡ i

pub Requested-Within :
    (old new : List Packet) (i b : ℕ) → Within old new → Requested old i b → Requested new i b
Requested-Within old new i b h r = record {
  m = r.m;
  at = h (ask_prepare r.m) r.at;
  ballot = r.ballot;
  node = r.node;
}

-- A proposer has not begun, or has asked for its ballot.
abbrev Asked : List Packet → ℕ → Proposer → Type 0
Asked net i p = (p.curr_ballot ≡ 0) ⊎ Requested net i p.curr_ballot

abbrev AllAsked : Cluster → Nodes → Type 0
AllAsked k w = (i : ℕ) → i < k.n → Asked w.net i (w.proposers i)

Asked-Within :
    (old new : List Packet) (i : ℕ) (p q : Proposer)
    → Within old new
    → q.curr_ballot ≡ p.curr_ballot
    → Asked old i p
    → Asked new i q
Asked-Within old new i p q h e (inl idle) = inl (e ∙ idle)
Asked-Within old new i p q h e (inr r) =
    inr (subst (Requested new i) (sym e) (Requested-Within old new i p.curr_ballot h r))

-- A step of one proposer.
proposer-Asked :
    (k : Cluster) (w : Nodes) (i : ℕ) (p : Proposer) (net : List Packet)
    → AllAsked k w
    → Within w.net net
    → (i < k.n → Asked net i p)
    → AllAsked k (with_proposer i p net w)
proposer-Asked k w i p net h nets own =
    put-each (λ j x. j < k.n → Asked net j x) w.proposers i p own
      (λ j below. Asked-Within w.net net j (w.proposers j) (w.proposers j) nets refl (h j below))

pub msg_prepare-Requested :
    (k : Cluster) (c : IsCluster k) (i : ℕ) (p : Proposer) (net : List Packet)
    → i < k.n
    → Requested
        (ask_prepare (msg_prepare (k.view i) p).0 ∷ net)
        i
        (msg_prepare (k.view i) p).1.curr_ballot
unfolding msg_prepare
msg_prepare-Requested k c i p net below = record {
  m = (msg_prepare (k.view i) p).0;
  at = inl refl;
  ballot = refl;
  node = c.numbered i below;
}

pub restart-Requested :
    (k : Cluster) (c : IsCluster k) (i : ℕ) (p : Proposer) (net : List Packet)
    → i < k.n
    → Requested
        (ask_prepare (restart_msg_prepare (k.view i) p).0 ∷ net)
        i
        (restart_msg_prepare (k.view i) p).1.curr_ballot
unfolding restart_msg_prepare
restart-Requested k c i p net below =
    msg_prepare-Requested k c i
      (record p { curr_value = none; msg_ack_prepare = []; msg_ack_accept = [] }) net below

pub accepted-ballot :
    (m : MsgAckAccept) (p q : Proposer) (ack : AckType)
    → handle_msg_accepted m p ≡ (ack, q)
    → q.curr_ballot ≡ p.curr_ballot
accepted-ballot m p q ack e = elim (handle_msg_accepted_step m p q ack e) [
  | inl same ↦ ap (λ x. x.curr_ballot) same
  | inr (current, same) ↦ ap (λ x. x.curr_ballot) same
]

Move-Asked : (k : Cluster) (w t : Nodes) → IsCluster k → AllAsked k w → Move k w t → AllAsked k t
Move-Asked k w t c h (begin i below idle) =
    proposer-Asked k w i _ _ h (λ p at. inr at)
      (λ low. inr (msg_prepare-Requested k c i (w.proposers i) w.net low))
Move-Asked k w t c h (serve_prepare i m below at) = λ j low.
    Asked-Within w.net t.net j (w.proposers j) (w.proposers j) (λ p there. inr there) refl (h j low)
Move-Asked k w t c h (serve_accept i m below at) = λ j low.
    Asked-Within w.net t.net j (w.proposers j) (w.proposers j) (λ p there. inr there) refl (h j low)
Move-Asked k w t c h (wait_promise i m ack q at e kind) =
    let a = handle_msg_promise-Answers k.mode k.fec (k.view i) m (w.proposers i) q ack c.not_rs e in
    proposer-Asked k w i q w.net h (λ p there. there)
      (λ low. Asked-Within w.net w.net i (w.proposers i) q (λ p there. there) a.same.1 (h i low))
Move-Asked k w t c h (continue i m q r at e sent) =
    let a =
      handle_msg_promise-Answers k.mode k.fec (k.view i) m (w.proposers i) q AckType.continue
        c.not_rs e in
    proposer-Asked k w i q _ h (λ p there. inr there)
      (λ low. Asked-Within w.net _ i (w.proposers i) q (λ p there. inr there) a.same.1 (h i low))
Move-Asked k w t c h (restart i m q at e room) =
    proposer-Asked k w i _ _ h (λ p there. inr there)
      (λ low. inr (restart-Requested k c i q w.net low))
Move-Asked k w t c h (wait_accepted i m ack q at e kind) =
    proposer-Asked k w i q w.net h (λ p there. there)
      (λ low.
        Asked-Within w.net w.net i (w.proposers i) q (λ p there. there)
          (accepted-ballot m (w.proposers i) q ack e) (h i low))
Move-Asked k w t c h (retry i m q at e room) =
    proposer-Asked k w i _ _ h (λ p there. inr there)
      (λ low. inr (restart-Requested k c i q w.net low))

new_proposer-ballot :
    (k : Cluster) (i : ℕ) → (new_proposer k.mode (k.view i) (k.value i)).curr_ballot ≡ 0
unfolding new_proposer
new_proposer-ballot k i = refl

pub Reach-Asked : (k : Cluster) (s : System) → IsCluster k → Reach k s → AllAsked k s.nodes
Reach-Asked k s c start = λ i below. inl (new_proposer-ballot k i)
Reach-Asked k s c (later {s = r} before (move w m)) =
    Move-Asked k r.nodes w c (Reach-Asked k r c before) m
Reach-Asked k s c (later {s = r} before (choose i m q x at e value)) =
    let h = Reach-Asked k r c before in
    proposer-Asked k r.nodes i q r.nodes.net h (λ p there. there)
      (λ low.
        Asked-Within r.nodes.net r.nodes.net i (r.nodes.proposers i) q (λ p there. there)
          (accepted-ballot m (r.nodes.proposers i) q AckType.choose e) (h i low))
