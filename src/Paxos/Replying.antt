-- ===== src/Paxos/Replying.antt =====
-- What the replies of acceptor.cpp show of the acceptor.
use ndnpaxos.Prelude.{
  ◌≤◌, ◌≡◌, leb, false, Bool-cases, ℕ_discrete, refl, sym, ◌⊎◌, inl, inr, true, Option, none, some,
  arith,
}
use ndnpaxos.Types.{PropValue, MsgPrepare, MsgAckPrepare, MsgAccept, MsgAckAccept}
use ndnpaxos.View.{View}
use ndnpaxos.Acceptor.{Acceptor, stored, handle_msg_prepare, handle_msg_accept}

-- What the answer to a prepare request shows.
pub record Prepared (v : View) (m : MsgPrepare) (a b : Acceptor) (reply : MsgAckPrepare)
    : Type 0 where
  pub node : reply.header.node_id ≡ v.node_id
  pub ballot : reply.ballot_id ≡ m.ballot_id
  pub rises : a.max_proposed_ballot ≤ b.max_proposed_ballot
  pub same : (b.max_accepted_ballot ≡ a.max_accepted_ballot) × (b.max_value ≡ a.max_value)
  pub agreed :
      reply.reply ≡ true
      → (m.ballot_id ≤ b.max_proposed_ballot)
        × (reply.max_ballot_id ≡ a.max_accepted_ballot)
        × (reply.max_prop_value ≡ a.max_value)

pub handle_msg_prepare-Prepared :
    (v : View) (m : MsgPrepare) (a : Acceptor)
    → Prepared v m a (handle_msg_prepare v m a).1 (handle_msg_prepare v m a).0
unfolding handle_msg_prepare
handle_msg_prepare-Prepared v m a = record {
  node = ground arith;
  ballot = ground arith;
  rises = ground arith;
  same = ground arith;
  agreed = ground arith;
}

-- What the answer to an accept request shows.
pub record Taken (v : View) (m : MsgAccept) (a b : Acceptor) (reply : MsgAckAccept) : Type 0 where
  pub node : reply.header.node_id ≡ v.node_id
  pub ballot : reply.ballot_id ≡ m.ballot_id
  pub rises : a.max_proposed_ballot ≤ b.max_proposed_ballot
  pub ordered :
      a.max_accepted_ballot ≤ a.max_proposed_ballot
      → (a.max_accepted_ballot ≤ b.max_accepted_ballot)
        × (b.max_accepted_ballot ≤ b.max_proposed_ballot)
  pub agreed :
      reply.reply ≡ true
      → (m.ballot_id ≡ b.max_accepted_ballot) × (a.max_proposed_ballot ≤ m.ballot_id)
  pub value :
      ((b.max_accepted_ballot ≡ a.max_accepted_ballot) × (b.max_value ≡ a.max_value))
      ⊎ ((b.max_accepted_ballot ≡ m.ballot_id)
          × (x : PropValue) × (b.max_value ≡ some x)
          × (m.prop_value.id ≡ x.id))

stored_id :
    (old : Option PropValue) (x : PropValue)
    → (y : PropValue) × (stored old x ≡ some y) × (x.id ≡ y.id)
stored_id none x = (x, refl, refl)
stored_id (some old) x = elim (ℕ_discrete old.id x.id) [
  | yes e ↦ (old, ground arith, sym e)
  | no ne ↦ (x, ground arith, refl)
]

pub handle_msg_accept-Taken :
    (v : View) (m : MsgAccept) (a : Acceptor)
    → Taken v m a (handle_msg_accept v m a).1 (handle_msg_accept v m a).0
unfolding handle_msg_accept
handle_msg_accept-Taken v m a = record {
  node = ground arith;
  ballot = ground arith;
  rises = ground arith;
  ordered = ground arith;
  agreed = ground arith;
  value = value_of (Bool-cases (leb a.max_proposed_ballot m.ballot_id));
}
  where
    value_of :
        (leb a.max_proposed_ballot m.ballot_id ≡ true)
          ⊎ (leb a.max_proposed_ballot m.ballot_id ≡ false)
        → (((handle_msg_accept v m a).1.max_accepted_ballot ≡ a.max_accepted_ballot)
            × ((handle_msg_accept v m a).1.max_value ≡ a.max_value))
          ⊎ (((handle_msg_accept v m a).1.max_accepted_ballot ≡ m.ballot_id)
              × (x : PropValue) × ((handle_msg_accept v m a).1.max_value ≡ some x)
              × (m.prop_value.id ≡ x.id))
    value_of (inl e) =
        let (x, held, same) = stored_id a.max_value m.prop_value in rw e (inr (refl, x, held, same))
    value_of (inr e) = rw e (inl (refl, refl))
