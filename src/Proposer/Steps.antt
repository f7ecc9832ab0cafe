-- ===== src/Proposer/Steps.antt =====
-- The three answers of a proposer (proposer.cpp) to an ack that it does not drop, outside the RS build.
use ndnpaxos.Prelude.{
  ℕ, ◌≤◌, ◌<◌, ◌≡◌, ◌≢◌, refl, ◌⊎◌, inl, inr, true, List, [], ◌∷◌, none, length, arith, ltb, leb,
  ok, All, Bool-cases, ◌||◌, false,
}
use ndnpaxos.Prelude.SortedMap
use ndnpaxos.Types.{Mode, mode_type, AckType, MsgAckPrepare, MsgAckAccept, u16}
use ndnpaxos.View.{View}
use ndnpaxos.Rs.{Fec}
use ndnpaxos.Proposer.{
  Proposer, handle_msg_promise, handle_msg_accepted, count_yes, is_set, scanned, take_scan,
}
use ndnpaxos.Proposer.Choice.{count_promised, scan_acks_lem, adopt_lem, with_ack, decided}

-- The proposer with the ack of the accept phase in its map.
abbrev pub with_accepted : MsgAckAccept → Proposer → Proposer
with_accepted m p = record p {
  msg_ack_accept = SortedMap.insert (u16 m.header.node_id) m p.msg_ack_accept;
}

abbrev pub rescanned : MsgAckPrepare → Proposer → Proposer
rescanned m p = take_scan (with_ack m p) (scanned (with_ack m p))

pub handle_msg_promise_cases :
    (mode : Mode) (fec : Fec) (v : View) (m : MsgAckPrepare) (p : Proposer)
    → mode_type mode ≢ 1
    → p.curr_value ≡ none
    → p.curr_ballot ≤ m.ballot_id
    → ((handle_msg_promise mode fec v m p ≡ ok (AckType.not_enough, with_ack m p))
        × (length (with_ack m p).msg_ack_prepare < p.qr))
      ⊎ ((handle_msg_promise mode fec v m p ≡ ok (AckType.continue, decided (with_ack m p)))
          ⊎ ((handle_msg_promise mode fec v m p ≡ ok (AckType.restart, rescanned m p))
              × (p.qr ≤ length (with_ack m p).msg_ack_prepare)
              × (count_promised (with_ack m p).msg_ack_prepare < p.qr)))
unfolding handle_msg_promise
handle_msg_promise_cases mode fec v m p build unset current =
    let fresh : (ltb m.ballot_id p.curr_ballot || is_set p.curr_value) ≡ false = ground arith in
    elim (Bool-cases (ltb (length (with_ack m p).msg_ack_prepare) p.qr)) [
      | inl few ↦ inl (rw (fresh, few) refl, ground arith)
      | inr full ↦ elim (Bool-cases (leb p.qr (scanned (with_ack m p)).count)) [
        | inl enough ↦
            inr (inl (rw (fresh, full, enough) (adopt_lem mode fec v (rescanned m p) build)))
        | inr lacking ↦
            let s =
              scan_acks_lem (with_ack m p).msg_ack_prepare
                (record { ballot = p.max_ballot; value = p.max_value; count = 0 }) in
            inr (inr (rw (fresh, full, lacking) refl, ground arith, ground (arith, s.counted)))
      ]
    ]

pub handle_msg_accepted_cases :
    (m : MsgAckAccept) (p : Proposer)
    → p.curr_value ≢ none
    → p.curr_ballot ≤ m.ballot_id
    → ((handle_msg_accepted m p ≡ (AckType.not_enough, with_accepted m p))
        × (length (with_accepted m p).msg_ack_accept < p.qw))
      ⊎ ((handle_msg_accepted m p ≡ (AckType.choose, with_accepted m p))
          ⊎ ((handle_msg_accepted m p ≡ (AckType.restart, with_accepted m p))
              × (p.qw ≤ length (with_accepted m p).msg_ack_accept)
              × (count_yes (with_accepted m p).msg_ack_accept < p.qw)))
unfolding handle_msg_accepted
handle_msg_accepted_cases m p set current = ground arith

-- Where all acks say yes, their number is the number of yes answers.
abbrev pub Granted : List (ℕ × MsgAckPrepare) → Type 0
Granted = All (λ e. e.1.reply ≡ true)

abbrev pub Taken : List (ℕ × MsgAckAccept) → Type 0
Taken = All (λ e. e.1.reply ≡ true)

pub count_promised-Granted :
    (acks : List (ℕ × MsgAckPrepare)) → Granted acks → count_promised acks ≡ length acks
unfolding count_promised
count_promised-Granted [] h = refl
count_promised-Granted ((node, m) ∷ acks) h = ground (arith, count_promised-Granted acks h.1)

pub count_yes-Taken : (acks : List (ℕ × MsgAckAccept)) → Taken acks → count_yes acks ≡ length acks
unfolding count_yes
count_yes-Taken [] h = refl
count_yes-Taken ((node, m) ∷ acks) h = ground (arith, count_yes-Taken acks h.1)
