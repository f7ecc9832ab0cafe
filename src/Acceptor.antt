-- ===== src/Acceptor.antt =====
-- libndnpaxos/acceptor.hpp and acceptor.cpp: the acceptor of one slot. A handler returns the reply
-- and the new state. No field of a PropValue is ever assigned after it is shared, so the pointer
-- `max_value_`, which replies hand on, is the value that it points to.
pub mod Promise
pub mod History
pub mod Reference
use ndnpaxos.Prelude.{
  ℕ, List, [], ◌∷◌, Bool, true, false, Option, none, some, not, ltb, leb, ◌==◌, if◌then◌else◌,
}
use ndnpaxos.Types.{
  MsgType, PropValue, MsgHeader, MsgPrepare, MsgAckPrepare, MsgAccept, MsgAckAccept,
}
use ndnpaxos.View.{View, whoami}

pub record Acceptor : Type 0 where
  pub max_proposed_ballot : ℕ
  pub max_accepted_ballot : ℕ
  pub max_value : Option PropValue

abbrev pub new_acceptor : Acceptor
new_acceptor = record { max_proposed_ballot = 0; max_accepted_ballot = 0; max_value = none }

unfoldable pub handle_msg_prepare : View → MsgPrepare → Acceptor → MsgAckPrepare × Acceptor
handle_msg_prepare v m a =
    let header : MsgHeader = record {
      msg_type = MsgType.promise;
      node_id = whoami v;
      slot_id = m.header.slot_id;
    } in
    if ltb a.max_proposed_ballot m.ballot_id
    then (
      record {
        header = header;
        ballot_id = m.ballot_id;
        reply = true;
        max_ballot_id = a.max_accepted_ballot;
        max_prop_value = a.max_value;
      },
      record a { max_proposed_ballot = m.ballot_id },
    )
    else (
      record {
        header = header;
        ballot_id = m.ballot_id;
        reply = false;
        max_ballot_id = a.max_accepted_ballot;
        max_prop_value = none;
      },
      a,
    )

-- `!max_value_ || max_value_->id() != value.id()`
abbrev pub replaces : Option PropValue → PropValue → Bool
replaces none value = true
replaces (some old) value = not (old.id == value.id)

-- The value stored on acceptance: an equal id leaves the stored copy as it is.
abbrev pub stored : Option PropValue → PropValue → Option PropValue
stored old value = if replaces old value then some value else old

unfoldable pub handle_msg_accept : View → MsgAccept → Acceptor → MsgAckAccept × Acceptor
handle_msg_accept v m a =
    let header : MsgHeader = record {
      msg_type = MsgType.accepted;
      node_id = whoami v;
      slot_id = m.header.slot_id;
    } in
    if leb a.max_proposed_ballot m.ballot_id
    then (
      record { header = header; ballot_id = m.ballot_id; reply = true },
      record {
        max_proposed_ballot = m.ballot_id;
        max_accepted_ballot = m.ballot_id;
        max_value = stored a.max_value m.prop_value;
      },
    )
    else (record { header = header; ballot_id = m.ballot_id; reply = false }, a)

abbrev pub get_max_value : Acceptor → Option PropValue
get_max_value a = a.max_value

abbrev pub update_max_proposed : ℕ → Acceptor → Acceptor
update_max_proposed ballot a = record a { max_proposed_ballot = ballot }

-- A request to the acceptor, and a run of requests in the order of arrival.
pub data Request : Type 0 where
  prepares : MsgPrepare → Request
  accepts : MsgAccept → Request

unfoldable pub serve : View → Request → Acceptor → Acceptor
serve v (prepares m) a = (handle_msg_prepare v m a).1
serve v (accepts m) a = (handle_msg_accept v m a).1

unfoldable pub serve_all : View → List Request → Acceptor → Acceptor
serve_all v [] a = a
serve_all v (r ∷ rs) a = serve_all v rs (serve v r a)
