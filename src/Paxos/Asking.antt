-- ===== src/Paxos/Asking.antt =====
-- The steps of a proposer that ask with a new ballot (proposer.cpp, `msg_prepare` and
-- `restart_msg_prepare`), and the invariant of the slot.
use ndnpaxos.Prelude.{
  ℕ, ◌+◌, ◌%◌, ◌^◌, ◌≤◌, ◌<◌, ◌≡◌, refl, sym, ◌∙◌, ap, subst, ◌⊎◌, inl, inr, List, [], ◌∷◌, none,
  some, arith, All, Option-cases,
}
use ndnpaxos.Types.{PropValue, MsgPrepare}
use ndnpaxos.View.{View}
use ndnpaxos.Proposer.{Proposer, gen_next_ballot, msg_prepare, restart_msg_prepare}
use ndnpaxos.Paxos.System.{
  Cluster, IsCluster, Packet, promised, ask_prepare, ask_accept, accepted, Nodes, In, with_proposer,
  HasRoom,
}
use ndnpaxos.Paxos.Invariant.{
  Proposed, Accepted, Owned, PacketOk, PromiseIn, AcceptedIn, ProposerOk, Inv,
}
use ndnpaxos.Paxos.Growth.{
  Within, Grows, put-each, put-at, AcceptorOk-Within, ProposerOk-Within, Inv-Grows,
}

-- A step of the proposer of node `i` takes nothing back.
pub proposer-Grows :
    (w : Nodes) (i : ℕ) (p : Proposer) (net : List Packet)
    → Within w.net net
    → (w.proposers i).curr_ballot ≤ p.curr_ballot
    → ((x : PropValue)
        → (w.proposers i).curr_value ≡ some x
        → (p.curr_value ≡ some x) ⊎ ((w.proposers i).curr_ballot < p.curr_ballot))
    → ((a b : ℕ) → Accepted net a b → Accepted w.net a b)
    → Grows w (with_proposer i p net w)
proposer-Grows w i p net nets rises values fresh = record {
  nets = nets;
  proposed = λ a. omega arith;
  taken = λ a. omega arith;
  ballots =
      put-each (λ j x. (w.proposers j).curr_ballot ≤ x.curr_ballot) w.proposers i p rises
        (λ j. omega arith);
  values =
      put-each
        (λ j y.
          (x : PropValue)
          → (w.proposers j).curr_value ≡ some x
          → (y.curr_value ≡ some x) ⊎ ((w.proposers j).curr_ballot < y.curr_ballot))
        w.proposers i p values (λ j x e. inl e);
  fresh = λ a b taken. inl (fresh a b taken);
}

-- The invariant after a step of a proposer.
pub proposer-Inv :
    (k : Cluster) (w : Nodes) (i : ℕ) (p : Proposer) (net : List Packet)
    → Inv k w
    → Grows w (with_proposer i p net w)
    → ProposerOk k net i p
    → ((q : Packet) → In q net → In q w.net ⊎ PacketOk k (with_proposer i p net w) q)
    → ((b : ℕ) (x y : PropValue) → Proposed net b x → Proposed net b y → x ≡ y)
    → Inv k (with_proposer i p net w)
proposer-Inv k w i p net inv g own new unique =
    Inv-Grows k w (with_proposer i p net w) g inv new
      (λ a. AcceptorOk-Within w.net net (w.acceptors a) g.nets (inv.acceptors a))
      (put-each (ProposerOk k net) w.proposers i p own
        (λ j. ProposerOk-Within k w.net net j (w.proposers j) g.nets (inv.proposers j)))
      unique

gen_next_ballot_form :
    (v : View) (p : Proposer)
    → p.curr_ballot + 2 ^ 17 < 2 ^ 64
    → v.node_id < 2 ^ 16
    → (p.curr_ballot ≡ 0) ⊎ (p.curr_ballot % 2 ^ 16 ≡ v.node_id)
    → (p.curr_ballot < (gen_next_ballot v p).curr_ballot)
      × ((gen_next_ballot v p).curr_ballot % 2 ^ 16 ≡ v.node_id)
unfolding gen_next_ballot
gen_next_ballot_form v p room small form = ground arith

-- A prepare request with a new ballot, `p` being the proposer's state after it.
new_ballot-Inv :
    (k : Cluster) (w : Nodes) (i : ℕ) (p : Proposer) (m : MsgPrepare)
    → Inv k w
    → i < k.n
    → ProposerOk k w.net i p
    → (w.proposers i).curr_ballot < p.curr_ballot
    → p.curr_ballot % 2 ^ 16 ≡ i
    → m.header.node_id ≡ i
    → m.ballot_id ≡ p.curr_ballot
    → Inv k (with_proposer i p (ask_prepare m ∷ w.net) w)
new_ballot-Inv k w i p m inv below own rises form node ballot =
    proposer-Inv k w i p net inv grows (ProposerOk-Within k w.net net i p (λ q at. inr at) own)
      (λ q at. elim at [ inl e ↦ inr (subst (PacketOk k t) (sym e) asked) | inr old ↦ inl old ])
      (λ b x y f g. inv.unique b x y (Proposed-old b x f) (Proposed-old b y g))
  where
    net : List Packet
    net = ask_prepare m ∷ w.net

    t : Nodes
    t = with_proposer i p net w

    Accepted-old : (a b : ℕ) → Accepted net a b → Accepted w.net a b
    Accepted-old a b (j, q, at, en, eb, agreed) = elim at [
      | inl e ↦ cc
      | inr old ↦ (j, q, old, en, eb, agreed)
    ]

    Proposed-old : (b : ℕ) (x : PropValue) → Proposed net b x → Proposed w.net b x
    Proposed-old b x (q, at, eb, ex) = elim at [ inl e ↦ cc | inr old ↦ (q, old, eb, ex) ]

    grows : Grows w t
    grows = proposer-Grows w i p net (λ q at. inr at) (omega arith) (λ x e. inr rises) Accepted-old

    asked : PacketOk k t (ask_prepare m)
    asked =
        subst (λ n. Owned k t n m.ballot_id) (sym node)
          (
            below,
            omega arith,
            subst (λ x. m.ballot_id ≤ x.curr_ballot) (put-at w.proposers i i p refl) (omega arith),
            omega (arith, form, ballot),
          )

msg_prepare_lem :
    (v : View) (p : Proposer)
    → ((msg_prepare v p).0.header.node_id ≡ v.node_id)
      × ((msg_prepare v p).0.ballot_id ≡ (gen_next_ballot v p).curr_ballot)
      × ((msg_prepare v p).1 ≡ record p { curr_ballot = (gen_next_ballot v p).curr_ballot })
unfolding msg_prepare gen_next_ballot
msg_prepare_lem v p = (refl, refl, refl)

-- What a proposer keeps when its ballot changes: it holds no value and no acks.
with_ballot-ProposerOk :
    (k : Cluster) (net : List Packet) (i b : ℕ) (p : Proposer)
    → ProposerOk k net i p
    → p.curr_value ≡ none
    → p.msg_ack_prepare ≡ []
    → p.msg_ack_accept ≡ []
    → b % 2 ^ 16 ≡ i
    → ProposerOk k net i (record p { curr_ballot = b })
with_ballot-ProposerOk k net i b p own unset promises accepts form = record {
  quorums = own.quorums;
  form = inr form;
  value = λ x e. cc;
  source = own.source;
  sorted = own.sorted;
  promises = rw promises tt;
  accepts = rw accepts tt;
}

empty_of {ℓ κ} :
    {A : Type ℓ} (P : A → Type κ) (xs : List A) → ((x : A) → P x → ⊥) → All P xs → xs ≡ []
empty_of P [] none_of h = refl
empty_of P (x ∷ xs) none_of h = absurd (none_of x h.0)

msg_prepare-Inv :
    (k : Cluster) (c : IsCluster k) (w : Nodes) (i : ℕ) (p : Proposer)
    → Inv k w
    → i < k.n
    → ProposerOk k w.net i p
    → (w.proposers i).curr_ballot ≤ p.curr_ballot
    → HasRoom p
    → p.curr_value ≡ none
    → p.msg_ack_prepare ≡ []
    → p.msg_ack_accept ≡ []
    → Inv k (
        with_proposer i
          (msg_prepare (k.view i) p).1
          (ask_prepare (msg_prepare (k.view i) p).0 ∷ w.net)
          w)
msg_prepare-Inv k c w i p inv below own rises room unset promises accepts =
    let (node, ballot, after) = msg_prepare_lem (k.view i) p in
    let (higher, form) =
      gen_next_ballot_form (k.view i) p room (omega (arith, c.numbered i below, c.few)) (
        subst (λ n. (p.curr_ballot ≡ 0) ⊎ (p.curr_ballot % 2 ^ 16 ≡ n)) (sym (c.numbered i below))
          own.form) in
    let same : (msg_prepare (k.view i) p).1.curr_ballot
        ≡ (gen_next_ballot (k.view i) p).curr_ballot =
      ap (λ q. q.curr_ballot) after in
    new_ballot-Inv k w i (msg_prepare (k.view i) p).1 (msg_prepare (k.view i) p).0 inv below
      (subst (ProposerOk k w.net i) (sym after) (
        with_ballot-ProposerOk k w.net i (gen_next_ballot (k.view i) p).curr_ballot p own unset
          promises accepts (form ∙ c.numbered i below)))
      (omega (arith, same, higher)) (ap (λ n. n % 2 ^ 16) same ∙ form ∙ c.numbered i below)
      (node ∙ c.numbered i below) (ballot ∙ sym same)

-- The first prepare request.
pub begin-Inv :
    (k : Cluster) (c : IsCluster k) (w : Nodes) (i : ℕ)
    → Inv k w
    → i < k.n
    → (w.proposers i).curr_ballot ≡ 0
    → Inv k (
        with_proposer i
          (msg_prepare (k.view i) (w.proposers i)).1
          (ask_prepare (msg_prepare (k.view i) (w.proposers i)).0 ∷ w.net)
          w)
begin-Inv k c w i inv below idle =
    let own = inv.proposers i in
    msg_prepare-Inv k c w i (w.proposers i) inv below own (omega arith) (omega arith)
      (elim (Option-cases (w.proposers i).curr_value) [
        | inl e ↦ e
        | inr (x, e) ↦
            let (m, at, eb, ex) = own.value x e in
            absurd (omega (arith, (inv.packets (ask_accept m) at).0.1, eb))
      ])
      (empty_of (PromiseIn k w.net i (w.proposers i).curr_ballot) (w.proposers i).msg_ack_prepare
        (λ e (small, node, ballot, at).
          omega (arith, (inv.packets (promised i e.1) at).0.1, ballot))
        own.promises)
      (empty_of (AcceptedIn k w.net i (w.proposers i).curr_ballot) (w.proposers i).msg_ack_accept
        (λ e (small, node, ballot, at).
          omega (arith, (inv.packets (accepted i e.1) at).0.1, ballot))
        own.accepts)

-- A restart from the state `p`, which keeps what the proposer has to.
pub restart-Inv :
    (k : Cluster) (c : IsCluster k) (w : Nodes) (i : ℕ) (p : Proposer)
    → Inv k w
    → i < k.n
    → ProposerOk k w.net i p
    → (w.proposers i).curr_ballot ≤ p.curr_ballot
    → HasRoom p
    → Inv k (
        with_proposer i
          (restart_msg_prepare (k.view i) p).1
          (ask_prepare (restart_msg_prepare (k.view i) p).0 ∷ w.net)
          w)
unfolding restart_msg_prepare
restart-Inv k c w i p inv below own rises room =
    msg_prepare-Inv k c w i
      (record p { curr_value = none; msg_ack_prepare = []; msg_ack_accept = [] }) inv below
      (record {
        quorums = own.quorums;
        form = own.form;
        value = λ x e. cc;
        source = own.source;
        sorted = (tt, tt);
        promises = tt;
        accepts = tt;
      })
      rises room refl refl refl
