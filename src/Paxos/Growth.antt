-- ===== src/Paxos/Growth.antt =====
-- What the nodes never take back, and that it keeps the facts of the invariant.
use ndnpaxos.Prelude.{
  ℕ, ◌≤◌, ◌<◌, ◌≡◌, sym, subst, ◌⊎◌, inl, inr, List, [], ◌∷◌, Option, none, some, arith, All,
  ℕ_discrete,
}
use ndnpaxos.Types.{PropValue}
use ndnpaxos.Acceptor.{Acceptor}
use ndnpaxos.Proposer.{Proposer}
use ndnpaxos.Paxos.System.{
  Cluster, Packet, ask_prepare, promised, ask_accept, accepted, Nodes, In, put,
}
use ndnpaxos.Paxos.Invariant.{
  Proposed, Accepted, Source, Voted, Blocked, Ruled, Owned, PacketOk, AcceptorOk, PromiseIn,
  AcceptedIn, ProposerOk, Inv,
}

-- The packets of `old` are among those of `new`.
abbrev pub Within : List Packet → List Packet → Type 0
Within old new = (p : Packet) → In p old → In p new

pub record Grows (v w : Nodes) : Type 0 where
  pub nets : Within v.net w.net
  pub proposed : (a : ℕ) → (v.acceptors a).max_proposed_ballot ≤ (w.acceptors a).max_proposed_ballot
  pub taken : (a : ℕ) → (v.acceptors a).max_accepted_ballot ≤ (w.acceptors a).max_accepted_ballot
  pub ballots : (i : ℕ) → (v.proposers i).curr_ballot ≤ (w.proposers i).curr_ballot
  pub values :
      (i : ℕ) (x : PropValue)
      → (v.proposers i).curr_value ≡ some x
      → ((w.proposers i).curr_value ≡ some x)
        ⊎ ((v.proposers i).curr_ballot < (w.proposers i).curr_ballot)
  pub fresh :
      (a b : ℕ)
      → Accepted w.net a b
      → Accepted v.net a b ⊎ ((v.acceptors a).max_proposed_ballot ≤ b)

-- A property of all nodes, after a write to one.
pub put-each {ℓ κ} :
    {A : Type ℓ} (P : ℕ → A → Type κ) (f : ℕ → A) (i : ℕ) (a : A)
    → P i a
    → ((j : ℕ) → P j (f j))
    → (j : ℕ) → P j (put f i a j)
put-each P f i a h rest j = elim (ℕ_discrete i j) [
  | yes e ↦ subst (λ x. P j x) (e1 e) (subst (λ n. P n a) e h)
  | no ne ↦ subst (λ x. P j x) (e2 ne) (rest j)
]
  where
    e1 : i ≡ j → a ≡ put f i a j
    e1 e = ground arith

    e2 : (i ≡ j → ⊥) → f j ≡ put f i a j
    e2 ne = ground arith

pub put-at {ℓ} : {A : Type ℓ} (f : ℕ → A) (i n : ℕ) (a : A) → n ≡ i → a ≡ put f i a n
put-at f i n a e = ground arith

pub Proposed-Within :
    (old new : List Packet) (b : ℕ) (x : PropValue)
    → Within old new
    → Proposed old b x
    → Proposed new b x
Proposed-Within old new b x h (m, at, eb, ex) = (m, h (ask_accept m) at, eb, ex)

pub Source-Within :
    (old new : List Packet) (b : ℕ) (x : Option PropValue)
    → Within old new
    → Source old b x
    → Source new b x
Source-Within old new b none h s = s
Source-Within old new b (some x) h (y, p, e) = (y, Proposed-Within old new b y h p, e)

pub Source-same :
    (net : List Packet) {b c : ℕ} {x y : Option PropValue}
    → b ≡ c
    → x ≡ y
    → Source net c y
    → Source net b x
Source-same net {b} {c} {x} {y} eb ex s =
    subst (Source net b) (sym ex) (subst (λ n. Source net n y) (sym eb) s)

pub Voted-Within :
    (k : Cluster) (old new : List Packet) (b : ℕ) → Within old new → Voted k old b → Voted k new b
Voted-Within k old new b h (set, enough, all) = (
  set,
  enough,
  λ a within.
      let (i, m, at, node, ballot, agreed) = all a within in
      (i, m, h (accepted i m) at, node, ballot, agreed),
)

pub All-map {ℓ κ μ} :
    {A : Type ℓ} (P : A → Type κ) (Q : A → Type μ) (xs : List A)
    → ((x : A) → P x → Q x)
    → All P xs
    → All Q xs
All-map P Q [] f h = tt
All-map P Q (x ∷ xs) f h = (f x h.0, All-map P Q xs f h.1)

pub AcceptorOk-Within :
    (old new : List Packet) (a : Acceptor) → Within old new → AcceptorOk old a → AcceptorOk new a
AcceptorOk-Within old new a h ok = record {
  ordered = ok.ordered;
  source = Source-Within old new a.max_accepted_ballot a.max_value h ok.source;
}

pub ProposerOk-Within :
    (k : Cluster) (old new : List Packet) (i : ℕ) (p : Proposer)
    → Within old new
    → ProposerOk k old i p
    → ProposerOk k new i p
ProposerOk-Within k old new i p h ok = record {
  quorums = ok.quorums;
  form = ok.form;
  value = λ x e. Proposed-Within old new p.curr_ballot x h (ok.value x e);
  source = Source-Within old new p.max_ballot p.max_value h ok.source;
  sorted = ok.sorted;
  promises =
      All-map (PromiseIn k old i p.curr_ballot) (PromiseIn k new i p.curr_ballot) p.msg_ack_prepare
        (λ e (below, node, ballot, at). (below, node, ballot, h (promised i e.1) at)) ok.promises;
  accepts =
      All-map (AcceptedIn k old i p.curr_ballot) (AcceptedIn k new i p.curr_ballot) p.msg_ack_accept
        (λ e (below, node, ballot, at). (below, node, ballot, h (accepted i e.1) at)) ok.accepts;
}

module _ (k : Cluster) (v w : Nodes) (g : Grows v w) where
  pub Owned-Grows : (i b : ℕ) → Owned k v i b → Owned k w i b
  Owned-Grows i b (below, pos, made, low) = (below, pos, omega (arith, g.ballots i), low)

  Blocked-Grows : (b : ℕ) → Blocked k v b → Blocked k w b
  Blocked-Grows b (set, enough, all) = (
    set,
    enough,
    λ a within.
        let (above, none_yet) = all a within in
        (
          omega (arith, g.proposed a),
          λ taken. elim (g.fresh a b taken) [
            | inl before ↦ none_yet before
            | inr late ↦ omega arith
          ],
        ),
  )

  pub Ruled-Grows : (b id : ℕ) → Ruled k v b id → Ruled k w b id
  Ruled-Grows b id h c pos below = elim (h c pos below) [
    | inl (y, p, e) ↦ inl (y, Proposed-Within v.net w.net c y g.nets p, e)
    | inr blocked ↦ inr (Blocked-Grows c blocked)
  ]

  -- What a packet shows stays true.
  pub PacketOk-Grows : (p : Packet) → PacketOk k v p → PacketOk k w p
  PacketOk-Grows (ask_prepare m) h = Owned-Grows m.header.node_id m.ballot_id h
  PacketOk-Grows (promised i m) (owned, below, h) = (
    Owned-Grows i m.ballot_id owned,
    below,
    λ agreed.
        let (kept, source, bound) = h agreed in
        (
          omega (arith, g.proposed m.header.node_id),
          Source-Within v.net w.net m.max_ballot_id m.max_prop_value g.nets source,
          λ c taken. elim (g.fresh m.header.node_id c taken) [
            | inl before ↦ bound c before
            | inr late ↦ inr (omega arith)
          ],
        ),
  )
  PacketOk-Grows (ask_accept m) (owned, coupled, ruled) = (
    Owned-Grows m.header.node_id m.ballot_id owned,
    elim coupled [
      | inl past ↦ inl (omega (arith, g.ballots m.header.node_id))
      | inr now ↦ elim (g.values m.header.node_id m.prop_value now) [
        | inl same ↦ inr same
        | inr later ↦ inl (omega (arith, owned.2))
      ]
    ],
    Ruled-Grows m.ballot_id m.prop_value.id ruled,
  )
  PacketOk-Grows (accepted i m) (owned, below, h) = (
    Owned-Grows i m.ballot_id owned,
    below,
    λ agreed. omega (arith, g.taken m.header.node_id, h agreed),
  )

  -- The invariant after a step: the new packets and the changed nodes are what is to be shown.
  pub Inv-Grows :
      Inv k v
      → ((p : Packet) → In p w.net → In p v.net ⊎ PacketOk k w p)
      → ((a : ℕ) → AcceptorOk w.net (w.acceptors a))
      → ((i : ℕ) → ProposerOk k w.net i (w.proposers i))
      → ((b : ℕ) (x y : PropValue) → Proposed w.net b x → Proposed w.net b y → x ≡ y)
      → Inv k w
  Inv-Grows inv new acceptors_ok proposers_ok unique = record {
    packets = λ p at. elim (new p at) [
      | inl old ↦ PacketOk-Grows p (inv.packets p old)
      | inr shown ↦ shown
    ];
    acceptors = acceptors_ok;
    proposers = proposers_ok;
    unique = unique;
  }
