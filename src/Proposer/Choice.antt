-- ===== src/Proposer/Choice.antt =====
-- What the proposer of proposer.cpp decides from the acks: the value it adopts, and when it moves on.
use ndnpaxos.Prelude.{
  ℕ, ◌+◌, ◌≤◌, ◌<◌, ◌≡◌, ◌≢◌, refl, sym, ◌∙◌, ◌⊎◌, inl, inr, true, false, List, [], ◌∷◌, Option,
  none, some, length, arith, ltb, leb, if◌then◌else◌, Bool-cases, ok, ok-injective, subst, ap, ◌||◌,
}
use ndnpaxos.Prelude.SortedMap
use ndnpaxos.Types.{Mode, mode_type, AckType, PropValue, MsgAckPrepare, MsgAckAccept, u16}
use ndnpaxos.View.{View}
use ndnpaxos.Rs.{Fec}
use ndnpaxos.Proposer.{
  Proposer, Scan, scan_ack, scan_acks, prop_value_of, adopt, handle_msg_promise,
  handle_msg_accepted, count_yes, is_set, scanned, take_scan,
}

-- Yes answers among the acks.
unfoldable pub count_promised : List (ℕ × MsgAckPrepare) → ℕ
count_promised [] = 0
count_promised ((node, m) ∷ acks) = (if m.reply then 1 else 0) + count_promised acks

-- Every yes answer reports a ballot of at most `b`.
abbrev pub AtMost : ℕ → List (ℕ × MsgAckPrepare) → Type 0
AtMost b [] = Unit
AtMost b ((node, m) ∷ acks) = (m.reply ≡ true → m.max_ballot_id ≤ b) × AtMost b acks

-- Some yes answer reports the ballot `b` and the value `x`.
abbrev pub Among : ℕ → Option PropValue → List (ℕ × MsgAckPrepare) → Type 0
Among b x [] = ⊥
Among b x ((node, m) ∷ acks) =
    ((m.reply ≡ true) × (m.max_ballot_id ≡ b) × (x ≡ some (prop_value_of m))) ⊎ Among b x acks

-- The scan of the acks from `s` to `t`.
pub record Scanned (acks : List (ℕ × MsgAckPrepare)) (s t : Scan) : Type 0 where
  pub rises : s.ballot ≤ t.ballot
  pub bounds : AtMost t.ballot acks
  pub source :
      ((t.ballot ≡ s.ballot) × (t.value ≡ s.value))
      ⊎ ((s.ballot < t.ballot) × Among t.ballot t.value acks)
  pub counted : t.count ≡ s.count + count_promised acks

scan_ack_source :
    (m : MsgAckPrepare) (s : Scan)
    → (((scan_ack m s).ballot ≡ s.ballot) × ((scan_ack m s).value ≡ s.value))
      ⊎ ((s.ballot < (scan_ack m s).ballot)
          × (m.reply ≡ true)
          × (m.max_ballot_id ≡ (scan_ack m s).ballot)
          × ((scan_ack m s).value ≡ some (prop_value_of m)))
scan_ack_source m s = ground arith

pub scan_acks_lem : (acks : List (ℕ × MsgAckPrepare)) (s : Scan) → Scanned acks s (scan_acks acks s)
unfolding scan_acks count_promised
scan_acks_lem [] s = record {
  rises = omega arith;
  bounds = tt;
  source = inl (refl, refl);
  counted = omega arith;
}
scan_acks_lem ((node, m) ∷ acks) s =
    let t = scan_acks_lem acks (scan_ack m s) in
    record {
      rises = ground (arith, t.rises);
      bounds = (ground (arith, t.rises), t.bounds);
      source = elim t.source [
        | inr (higher, among) ↦ inr (ground arith, inr among)
        | inl (eb, ev) ↦ elim (scan_ack_source m s) [
          | inl (fb, fv) ↦ inl (eb ∙ fb, ev ∙ fv)
          | inr (higher, agreed, fb, fv) ↦ inr (omega arith, inl (agreed, fb ∙ sym eb, ev ∙ fv))
        ]
      ];
      counted = ground (arith, t.counted);
    }

-- The value of an accept request: the value with the highest ballot seen, or the proposer's own.
abbrev pub value_to_propose : PropValue → Option PropValue → PropValue
value_to_propose own none = own
value_to_propose own (some seen) = seen

-- The step of a proposer from `p` to `q` by the ack `m` that begins the accept phase.
pub record Continues (p : Proposer) (m : MsgAckPrepare) (q : Proposer) : Type 0 where
  pub unset : p.curr_value ≡ none
  pub current : p.curr_ballot ≤ m.ballot_id
  pub acks : q.msg_ack_prepare ≡ SortedMap.insert (u16 m.header.node_id) m p.msg_ack_prepare
  pub quorum : q.qr ≤ count_promised q.msg_ack_prepare
  pub rises : p.max_ballot ≤ q.max_ballot
  pub bounds : AtMost q.max_ballot q.msg_ack_prepare
  pub source :
      ((q.max_ballot ≡ p.max_ballot) × (q.max_value ≡ p.max_value))
      ⊎ ((p.max_ballot < q.max_ballot) × Among q.max_ballot q.max_value q.msg_ack_prepare)
  pub value : q.curr_value ≡ some (value_to_propose p.init_value q.max_value)
  pub same :
      (q.init_value ≡ p.init_value)
      × (q.curr_ballot ≡ p.curr_ballot)
      × (q.qr ≡ p.qr)
      × (q.qw ≡ p.qw)
      × (q.msg_ack_accept ≡ p.msg_ack_accept)

pub adopt_lem :
    (mode : Mode) (fec : Fec) (v : View) (p : Proposer)
    → mode_type mode ≢ 1
    → adopt mode fec v p
      ≡ ok (
        AckType.continue,
        record p { curr_value = some (value_to_propose p.init_value p.max_value) },
      )
unfolding adopt
adopt_lem mode fec v p build = ground arith

-- The proposer with the ack in its map.
abbrev pub with_ack : MsgAckPrepare → Proposer → Proposer
with_ack m p = record p {
  msg_ack_prepare = SortedMap.insert (u16 m.header.node_id) m p.msg_ack_prepare;
}

abbrev pub decided : Proposer → Proposer
decided p =
    let r = take_scan p (scanned p) in
    record r { curr_value = some (value_to_propose r.init_value r.max_value) }

decided-Continues :
    (m : MsgAckPrepare) (p : Proposer)
    → (ltb m.ballot_id p.curr_ballot || is_set p.curr_value) ≡ false
    → leb p.qr (scanned (with_ack m p)).count ≡ true
    → Continues p m (decided (with_ack m p))
decided-Continues m p fresh enough =
    let s =
      scan_acks_lem (with_ack m p).msg_ack_prepare
        (record { ballot = p.max_ballot; value = p.max_value; count = 0 }) in
    record {
      unset = ground arith;
      current = ground arith;
      acks = refl;
      quorum = ground (arith, s.counted);
      rises = s.rises;
      bounds = s.bounds;
      source = s.source;
      value = refl;
      same = (refl, refl, refl, refl, refl);
    }

-- Outside the RS build: a proposer that goes on to the accept phase had no current value and an ack for
-- its ballot (or a later one); its acks hold a read quorum of yes answers; it has taken over the
-- highest ballot among these and what it had seen before, with the value reported for it; and it
-- proposes that value, or its own if there is none.
pub handle_msg_promise-Continues :
    (mode : Mode) (fec : Fec) (v : View) (m : MsgAckPrepare) (p q : Proposer)
    → mode_type mode ≢ 1
    → handle_msg_promise mode fec v m p ≡ ok (AckType.continue, q)
    → Continues p m q
unfolding handle_msg_promise
handle_msg_promise-Continues mode fec v m p q build e =
    elim (Bool-cases (ltb m.ballot_id p.curr_ballot || is_set p.curr_value)) [
      | inl late ↦ cc (rw late at e)
      | inr fresh ↦ elim (Bool-cases (ltb (length (with_ack m p).msg_ack_prepare) p.qr)) [
        | inl few ↦ cc (rw (fresh, few) at e)
        | inr full ↦ elim (Bool-cases (leb p.qr (scanned (with_ack m p)).count)) [
          | inr lacking ↦ cc (rw (fresh, full, lacking) at e)
          | inl enough ↦
              subst (Continues p m)
                (ap (λ r. r.1)
                  (ok-injective (
                    sym (
                      adopt_lem mode fec v (take_scan (with_ack m p) (scanned (with_ack m p)))
                        build)
                    ∙ (rw (fresh, full, enough) at e))))
                (decided-Continues m p fresh enough)
        ]
      ]
    ]

-- The step of a proposer by an ack that completes the accept phase.
pub record Chooses (p : Proposer) (m : MsgAckAccept) (q : Proposer) : Type 0 where
  pub set : p.curr_value ≢ none
  pub current : p.curr_ballot ≤ m.ballot_id
  pub quorum : q.qw ≤ count_yes q.msg_ack_accept
  pub after :
      q ≡ record p { msg_ack_accept = SortedMap.insert (u16 m.header.node_id) m p.msg_ack_accept }

pub handle_msg_accepted-Chooses :
    (m : MsgAckAccept) (p q : Proposer)
    → handle_msg_accepted m p ≡ (AckType.choose, q)
    → Chooses p m q
unfolding handle_msg_accepted
handle_msg_accepted-Chooses m p q e = record {
  set = ground arith;
  current = ground arith;
  quorum = ground arith;
  after = ground arith;
}

count_promised-le : (acks : List (ℕ × MsgAckPrepare)) → count_promised acks ≤ length acks
unfolding count_promised
count_promised-le [] = omega arith
count_promised-le ((node, m) ∷ acks) = ground (arith, count_promised-le acks)

-- Some ack refuses.
abbrev pub Refused : List (ℕ × MsgAckPrepare) → Type 0
Refused [] = ⊥
Refused ((node, m) ∷ acks) = (m.reply ≡ false) ⊎ Refused acks

count_promised-Refused :
    (acks : List (ℕ × MsgAckPrepare)) → Refused acks → count_promised acks < length acks
unfolding count_promised
count_promised-Refused [] refused = absurd refused
count_promised-Refused ((node, m) ∷ acks) (inl deny) = ground (arith, count_promised-le acks)
count_promised-Refused ((node, m) ∷ acks) (inr later) =
    ground (arith, count_promised-Refused acks later)

-- One refusal among the first `qr` acks is enough for a restart, whichever of them it is and whatever the
-- other acceptors would say: a proposer without a current value that hears the ack of its ballot (or a
-- later one) that makes `qr` of them, one of which refuses, restarts.
pub refusal_restarts :
    (mode : Mode) (fec : Fec) (v : View) (m : MsgAckPrepare) (p : Proposer)
    → p.curr_value ≡ none
    → p.curr_ballot ≤ m.ballot_id
    → length (SortedMap.insert (u16 m.header.node_id) m p.msg_ack_prepare) ≡ p.qr
    → Refused (SortedMap.insert (u16 m.header.node_id) m p.msg_ack_prepare)
    → (q : Proposer) × (handle_msg_promise mode fec v m p ≡ ok (AckType.restart, q))
unfolding handle_msg_promise
refusal_restarts mode fec v m p unset current size refused = (
  take_scan (with_ack m p) (scanned (with_ack m p)),
  ground (
    arith,
    count_promised-Refused (SortedMap.insert (u16 m.header.node_id) m p.msg_ack_prepare) refused,
    (scan_acks_lem (with_ack m p).msg_ack_prepare
        (record { ballot = p.max_ballot; value = p.max_value; count = 0 })).counted,
  ),
)
