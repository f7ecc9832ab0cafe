-- ===== src/Proposer/Answers.antt =====
-- What any ack can change in a proposer (proposer.cpp), outside the RS build.
use ndnpaxos.Prelude.{
  ◌≤◌, ◌<◌, ◌≡◌, ◌≢◌, refl, sym, ◌∙◌, subst, ◌⊎◌, inl, inr, ◌||◌, arith, length, ltb, leb,
  Bool-cases, ok, ok-injective,
}
use ndnpaxos.Prelude.SortedMap
use ndnpaxos.Types.{Mode, mode_type, AckType, MsgAckPrepare, MsgAckAccept, u16}
use ndnpaxos.View.{View}
use ndnpaxos.Rs.{Fec}
use ndnpaxos.Proposer.{
  Proposer, handle_msg_promise, handle_msg_accepted, is_set, scanned, take_scan,
}
use ndnpaxos.Proposer.Choice.{Among, scan_acks_lem, adopt_lem, with_ack, decided}

-- The step of a proposer from `p` to `q` by the ack `m`, which is answered with `ack`.
pub record Answers (p : Proposer) (m : MsgAckPrepare) (ack : AckType) (q : Proposer) : Type 0 where
  pub same :
      (q.init_value ≡ p.init_value)
      × (q.curr_ballot ≡ p.curr_ballot)
      × (q.qr ≡ p.qr)
      × (q.qw ≡ p.qw)
      × (q.msg_ack_accept ≡ p.msg_ack_accept)
  pub acks :
      (q.msg_ack_prepare ≡ p.msg_ack_prepare)
      ⊎ ((p.curr_ballot ≤ m.ballot_id)
          × (q.msg_ack_prepare ≡ SortedMap.insert (u16 m.header.node_id) m p.msg_ack_prepare))
  pub source :
      ((q.max_ballot ≡ p.max_ballot) × (q.max_value ≡ p.max_value))
      ⊎ ((p.max_ballot < q.max_ballot) × Among q.max_ballot q.max_value q.msg_ack_prepare)
  pub value : ack ≢ AckType.continue → q.curr_value ≡ p.curr_value

unchanged-Answers : (p : Proposer) (m : MsgAckPrepare) → Answers p m AckType.drop p
unchanged-Answers p m = record {
  same = (refl, refl, refl, refl, refl);
  acks = inl refl;
  source = inl (refl, refl);
  value = λ other. refl;
}

with_ack-Answers :
    (p : Proposer) (m : MsgAckPrepare)
    → p.curr_ballot ≤ m.ballot_id
    → Answers p m AckType.not_enough (with_ack m p)
with_ack-Answers p m current = record {
  same = (refl, refl, refl, refl, refl);
  acks = inr (current, refl);
  source = inl (refl, refl);
  value = λ other. refl;
}

scanned_source :
    (p : Proposer)
    → (((scanned p).ballot ≡ p.max_ballot) × ((scanned p).value ≡ p.max_value))
      ⊎ ((p.max_ballot < (scanned p).ballot)
          × Among (scanned p).ballot (scanned p).value p.msg_ack_prepare)
scanned_source p =
    (scan_acks_lem p.msg_ack_prepare
      (record { ballot = p.max_ballot; value = p.max_value; count = 0 })).source

restart-Answers :
    (p : Proposer) (m : MsgAckPrepare)
    → p.curr_ballot ≤ m.ballot_id
    → Answers p m AckType.restart (take_scan (with_ack m p) (scanned (with_ack m p)))
restart-Answers p m current = record {
  same = (refl, refl, refl, refl, refl);
  acks = inr (current, refl);
  source = scanned_source (with_ack m p);
  value = λ other. refl;
}

continue-Answers :
    (p : Proposer) (m : MsgAckPrepare)
    → p.curr_ballot ≤ m.ballot_id
    → Answers p m AckType.continue (decided (with_ack m p))
continue-Answers p m current = record {
  same = (refl, refl, refl, refl, refl);
  acks = inr (current, refl);
  source = scanned_source (with_ack m p);
  value = λ other. absurd (other refl);
}

pub handle_msg_promise-Answers :
    (mode : Mode) (fec : Fec) (v : View) (m : MsgAckPrepare) (p q : Proposer) (ack : AckType)
    → mode_type mode ≢ 1
    → handle_msg_promise mode fec v m p ≡ ok (ack, q)
    → Answers p m ack q
unfolding handle_msg_promise
handle_msg_promise-Answers mode fec v m p q ack build e =
    elim (Bool-cases (ltb m.ballot_id p.curr_ballot || is_set p.curr_value)) [
      | inl late ↦ carry (AckType.drop, p) (rw late at e) (unchanged-Answers p m)
      | inr fresh ↦
          let current : p.curr_ballot ≤ m.ballot_id = ground arith in
          elim (Bool-cases (ltb (length (with_ack m p).msg_ack_prepare) p.qr)) [
            | inl few ↦
                carry (AckType.not_enough, with_ack m p) (rw (fresh, few) at e)
                  (with_ack-Answers p m current)
            | inr full ↦
                let r = take_scan (with_ack m p) (scanned (with_ack m p)) in
                elim (Bool-cases (leb p.qr (scanned (with_ack m p)).count)) [
                  | inr lacking ↦
                      carry (AckType.restart, r) (rw (fresh, full, lacking) at e)
                        (restart-Answers p m current)
                  | inl enough ↦
                      carry (AckType.continue, decided (with_ack m p))
                        (sym (adopt_lem mode fec v r build) ∙ (rw (fresh, full, enough) at e))
                        (continue-Answers p m current)
                ]
          ]
    ]
  where
    carry : (r : AckType × Proposer) → ok r ≡ ok (ack, q) → Answers p m r.0 r.1 → Answers p m ack q
    carry r same a = subst (λ x. Answers p m x.0 x.1) (ok-injective same) a

-- An ack of the accept phase is dropped, or enters the map of acks; nothing else changes.
pub handle_msg_accepted_step :
    (m : MsgAckAccept) (p q : Proposer) (ack : AckType)
    → handle_msg_accepted m p ≡ (ack, q)
    → (q ≡ p)
      ⊎ ((p.curr_ballot ≤ m.ballot_id)
          × (q ≡ record p {
            msg_ack_accept = SortedMap.insert (u16 m.header.node_id) m p.msg_ack_accept;
          }))
unfolding handle_msg_accepted
handle_msg_accepted_step m p q ack e = ground arith
