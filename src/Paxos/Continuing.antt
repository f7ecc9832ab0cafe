-- ===== src/Paxos/Continuing.antt =====
-- The accept request that a proposer sends on (proposer.cpp, `handle_msg_promise` with CONTINUE and
-- `msg_accept`).
use ndnpaxos.Prelude.{
  ℕ, ◌+◌, ◌≤◌, ◌<◌, ◌≡◌, refl, sym, ◌∙◌, ap, subst, ◌⊎◌, inl, inr, true, List, [], ◌∷◌, Option,
  none, some, arith, All, if◌then◌else◌, ok, dec_lt, some-injective,
}
use ndnpaxos.Types.{PropValue, AckType, MsgAckPrepare, MsgAccept}
use ndnpaxos.View.{View}
use ndnpaxos.Proposer.{Proposer, msg_accept}
use ndnpaxos.Proposer.Choice.{count_promised, AtMost, Continues, value_to_propose}
use ndnpaxos.Proposer.Answers.{Answers}
use ndnpaxos.Paxos.Count.{count_entries, passes, count_entries-count, passes-All}
use ndnpaxos.Paxos.System.{
  Cluster, IsCluster, Packet, promised, ask_accept, Nodes, In, with_proposer,
}
use ndnpaxos.Paxos.Invariant.{
  Proposed, Accepted, Source, Blocked, Ruled, Owned, PacketOk, PromiseIn, ProposerOk, Inv,
}
use ndnpaxos.Paxos.Growth.{Grows, put-at, All-map, Ruled-Grows, Owned-Grows}
use ndnpaxos.Paxos.Asking.{proposer-Grows, proposer-Inv}
use ndnpaxos.Paxos.Answering.{Answers-ProposerOk}

count_promised-count_entries :
    (acks : List (ℕ × MsgAckPrepare)) → count_promised acks ≡ count_entries (λ m. m.reply) acks
unfolding count_promised count_entries
count_promised-count_entries [] = refl
count_promised-count_entries ((node, m) ∷ acks) =
    ap (λ n. (if m.reply then 1 else 0) + n) (count_promised-count_entries acks)

abbrev BoundedBy : ℕ → ℕ × MsgAckPrepare → Type 0
BoundedBy b e = e.1.reply ≡ true → e.1.max_ballot_id ≤ b

All-with_AtMost {κ} :
    (P : ℕ × MsgAckPrepare → Type κ) (b : ℕ) (acks : List (ℕ × MsgAckPrepare))
    → All P acks
    → AtMost b acks
    → All (λ e. P e × BoundedBy b e) acks
All-with_AtMost P b [] h a = tt
All-with_AtMost P b (e ∷ acks) h a = ((h.0, a.0), All-with_AtMost P b acks h.1 a.1)

-- The accept request is for the proposer's ballot and value.
pub msg_accept_lem :
    (v : View) (p : Proposer) (r : MsgAccept)
    → msg_accept v p ≡ ok r
    → (r.header.node_id ≡ v.node_id)
      × (r.ballot_id ≡ p.curr_ballot)
      × (p.curr_value ≡ some r.prop_value)
unfolding msg_accept
msg_accept_lem v p r e = ground arith

none-not_some {ℓ} : {A : Type ℓ} {a : A} → Option.none ≡ some a → ⊥
none-not_some e = cc

module _ (k : Cluster) (c : IsCluster k) (w : Nodes) (inv : Inv k w) (i : ℕ) where
  -- A read quorum of yes answers rules out the ballots above all that they report.
  quorum-Blocked :
      (q : Proposer) (b : ℕ)
      → ProposerOk k w.net i q
      → q.qr ≤ count_promised q.msg_ack_prepare
      → AtMost q.max_ballot q.msg_ack_prepare
      → q.max_ballot < b
      → b < q.curr_ballot
      → Blocked k w b
  quorum-Blocked q b own enough bounds above below = (
    passes (λ m. m.reply) q.msg_ack_prepare,
    omega (
      arith,
      own.quorums.0,
      enough,
      count_promised-count_entries q.msg_ack_prepare,
      count_entries-count (λ m. m.reply) k.n q.msg_ack_prepare own.sorted.0
          (All-map (PromiseIn k w.net i q.curr_ballot) (λ e. e.0 < k.n) q.msg_ack_prepare
            (λ e h. h.0) own.promises),
    ),
    λ a within.
        let (m, agreed, ((small, node, ballot, at), bound)) =
          passes-All (λ m. m.reply)
            (λ e. PromiseIn k w.net i q.curr_ballot e × BoundedBy q.max_ballot e) q.msg_ack_prepare
            a within
            (All-with_AtMost (PromiseIn k w.net i q.curr_ballot) q.max_ballot q.msg_ack_prepare
              own.promises bounds) in
        let (owned, there, reports) = inv.packets (promised i m) at in
        let (kept, source, past) = reports agreed in
        (
          subst (λ n. b < (w.acceptors n).max_proposed_ballot) node (omega arith),
          λ taken. elim (past b (subst (λ n. Accepted w.net n b) (sym node) taken)) [
            | inl low ↦ omega (arith, bound agreed)
            | inr high ↦ omega arith
          ],
        ),
  )

  -- The ballots up to the highest reported one are ruled out by the request of that ballot.
  Source-Ruled :
      (top b : ℕ) (own : PropValue) (seen : Option PropValue)
      → Source w.net top seen
      → 0 < b
      → b ≤ top
      → ((y : PropValue) × Proposed w.net b y × (y.id ≡ (value_to_propose own seen).id))
        ⊎ Blocked k w b
  Source-Ruled top b own none s pos le = absurd (omega arith)
  Source-Ruled top b own (some x) (z, (m, at, em, ez), id) pos le = elim (dec_lt b top) [
    | no last ↦ let same : m.ballot_id ≡ b = omega arith in inl (z, (m, at, same, ez), id)
    | yes lower ↦
        let (owned, coupled, ruled) = inv.packets (ask_accept m) at in
        elim (ruled b pos (omega arith)) [
          | inl (y, p, e) ↦ inl (y, p, e ∙ ap (λ v. v.id) ez ∙ id)
          | inr blocked ↦ inr blocked
        ]
  ]

  request-Ruled :
      (q : Proposer) (own : PropValue)
      → ProposerOk k w.net i q
      → q.qr ≤ count_promised q.msg_ack_prepare
      → AtMost q.max_ballot q.msg_ack_prepare
      → Ruled k w q.curr_ballot (value_to_propose own q.max_value).id
  request-Ruled q own good enough bounds b pos below = elim (dec_lt q.max_ballot b) [
    | yes above ↦ inr (quorum-Blocked q b good enough bounds above below)
    | no within ↦ Source-Ruled q.max_ballot b own q.max_value good.source pos (omega arith)
  ]

  unset-Answers :
      (m : MsgAckPrepare) (p q : Proposer)
      → Answers p m AckType.continue q
      → Answers p m AckType.continue (record q { curr_value = none })
  unset-Answers m p q a = record {
    same = a.same;
    acks = a.acks;
    source = a.source;
    value = λ other. absurd (other refl);
  }

  -- What the proposer took over from the acks was proposed.
  pub continue-Source :
      (m : MsgAckPrepare) (q : Proposer)
      → In (promised i m) w.net
      → Answers (w.proposers i) m AckType.continue q
      → Source w.net q.max_ballot q.max_value
  continue-Source m q at a =
      (Answers-ProposerOk k c w inv i w.net m AckType.continue (record q { curr_value = none }) at
        (unset-Answers m (w.proposers i) q a) (λ x h. h) (λ x e. cc)).source

  module _ (m : MsgAckPrepare) (q : Proposer) (r : MsgAccept) (at : In (promised i m) w.net)
      (a : Answers (w.proposers i) m AckType.continue q) (s : Continues (w.proposers i) m q)
      (node : r.header.node_id ≡ i) (ballot : r.ballot_id ≡ q.curr_ballot)
      (value : q.curr_value ≡ some r.prop_value) where
    abbrev net : List Packet
    net = ask_accept r ∷ w.net

    abbrev t : Nodes
    t = with_proposer i q net w

    abbrev p : Proposer
    p = w.proposers i

    sent-Ruled : Ruled k w q.curr_ballot r.prop_value.id
    sent-Ruled =
        subst (λ x. Ruled k w q.curr_ballot x.id) (some-injective (sym s.value ∙ value))
          (request-Ruled (record q { curr_value = none }) p.init_value
            (Answers-ProposerOk k c w inv i w.net m AckType.continue
              (record q { curr_value = none }) at (unset-Answers m p q a) (λ x h. h) (λ x e. cc))
            s.quorum s.bounds)

    ballot_form : Owned k w i q.curr_ballot
    ballot_form =
        let (small, pos, made, low) = (inv.packets (promised i m) at).0 in
        let exact : m.ballot_id ≡ q.curr_ballot = omega (arith, s.current, made, a.same.1) in
        subst (Owned k w i) exact (small, pos, made, low)

    sent-Grows : Grows w t
    sent-Grows =
        proposer-Grows w i q net (λ x h. inr h) (omega (arith, a.same.1))
          (λ x e. absurd (none-not_some (sym s.unset ∙ e)))
          (λ n b (j, x, h, en, eb, agreed). elim h [
            | inl e ↦ cc
            | inr old ↦ (j, x, old, en, eb, agreed)
          ])

    -- The ballot was not proposed before.
    sent-new : (x : PropValue) → Proposed w.net q.curr_ballot x → ⊥
    sent-new x (f, h, eb, ex) =
        let (owned, coupled, ruled) = inv.packets (ask_accept f) h in
        let here : f.header.node_id ≡ i = omega (arith, owned.3, ballot_form.3, eb) in
        elim coupled [
          | inl past ↦ omega (
            arith,
            subst (λ n. f.ballot_id < (w.proposers n).curr_ballot) here past,
            eb,
            a.same.1,
          )
          | inr now ↦
              none-not_some
                (sym s.unset ∙ subst (λ n. (w.proposers n).curr_value ≡ some f.prop_value) here now)
        ]

    sent_unique : (b : ℕ) (x y : PropValue) → Proposed net b x → Proposed net b y → x ≡ y
    sent_unique b x y (f, hf, bf, ef) (g, hg, bg, eg) = elim hf [
      | inl e ↦ elim hg [
        | inl d ↦ cc
        | inr old ↦ absurd (sent-new y (g, old, bg ∙ sym bf ∙ ap ballot_of e ∙ ballot, eg))
      ]
      | inr old ↦ elim hg [
        | inl d ↦ absurd (sent-new x (f, old, bf ∙ sym bg ∙ ap ballot_of d ∙ ballot, ef))
        | inr old2 ↦ inv.unique b x y (f, old, bf, ef) (g, old2, bg, eg)
      ]
    ]
      where
        ballot_of : Packet → ℕ
        ballot_of (ask_accept z) = z.ballot_id
        ballot_of _ = 0

    sent-ok : PacketOk k t (ask_accept r)
    sent-ok = (
      subst (Owned k t r.header.node_id) (sym ballot) (
          subst (λ n. Owned k t n q.curr_ballot) (sym node)
            (Owned-Grows k w t sent-Grows i q.curr_ballot ballot_form)),
      inr (
          subst (λ x. x.curr_value ≡ some r.prop_value)
            (put-at w.proposers i r.header.node_id q node) value),
      Ruled-Grows k w t sent-Grows r.ballot_id r.prop_value.id
          (subst (λ b. Ruled k w b r.prop_value.id) (sym ballot) sent-Ruled),
    )

    sent-Inv : Inv k t
    sent-Inv =
        proposer-Inv k w i q net inv sent-Grows
          (Answers-ProposerOk k c w inv i net m AckType.continue q at a (λ x h. inr h)
            (λ x e. (r, inl refl, ballot, some-injective (sym value ∙ e))))
          (λ x h. elim h [ inl e ↦ inr (subst (PacketOk k t) (sym e) sent-ok) | inr old ↦ inl old ])
          sent_unique

  -- The step that sends the accept request.
  pub continue-Inv :
      (m : MsgAckPrepare) (q : Proposer) (r : MsgAccept)
      → In (promised i m) w.net
      → Answers (w.proposers i) m AckType.continue q
      → Continues (w.proposers i) m q
      → msg_accept (k.view i) q ≡ ok r
      → Inv k (with_proposer i q (ask_accept r ∷ w.net) w)
  continue-Inv m q r at a s e =
      let (node, ballot, value) = msg_accept_lem (k.view i) q r e in
      sent-Inv m q r at a s (node ∙ c.numbered i (inv.packets (promised i m) at).0.0) ballot value
