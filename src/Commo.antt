-- ===== src/Commo.antt =====
-- libndnpaxos/commo.hpp and commo.cpp: how a replica's messages leave it. A message to the replica
-- itself is handled in the middle of the call, so each function takes the handler, `self`. What goes
-- to the network is an event of the captain's state; an interest that times out or is refused has no
-- effect (the bodies of onTimeout and onNack are empty).
pub mod Wire
pub mod Names
pub mod Making
pub mod Routing
use ndnpaxos.Prelude.{
  ℕ, zero, suc, ◌-◌, List, Outcome, ok, fault, ◌>>=◌, ltb, leb, ◌==◌, if◌then◌else◌,
}
use ndnpaxos.Types.{Mode, mode_type, MsgType, Message, msg_type, msg_type_code}
use ndnpaxos.View.{View, whoami, nodes_size, quorum_size}
use ndnpaxos.Captain.State.{
  Captain, Event, sent, replied, informed, scheduled, DataName, dum, resolve, emit,
}

abbrev pub Handler : Type 0 → Type 0
Handler Name = Message → DataName Name → Captain Name → Outcome (Captain Name)

-- The nodes from `first` on, `number` of them, to which a message is broadcast.
pub record Range : Type 0 where
  pub first : ℕ
  pub number : ℕ

-- From MODE_TYPE 2 on only a quorum is asked, and the other nodes get the TEACH messages.
unfoldable pub broadcast_range : Mode → View → MsgType → Range
broadcast_range mode v type =
    if leb 2 (mode_type mode)
    then (if msg_type_code type == msg_type_code MsgType.teach
        then record { first = quorum_size v; number = nodes_size v - quorum_size v }
        else record { first = 0; number = quorum_size v })
    else record { first = 0; number = nodes_size v }

module _ {Name : Type 0} where
  unfoldable pub send_each : Handler Name → Message → ℕ → ℕ → Captain Name → Outcome (Captain Name)
  send_each self m i zero c = ok c
  send_each self m i (suc rounds) c =
      (if i == whoami c.view then self m dum c else ok (emit (sent i m) c))
      >>= send_each self m (suc i) rounds

  -- In a cluster of one node the pool handles the message later.
  unfoldable pub broadcast_msg :
      Mode → Handler Name → Message → Captain Name → Outcome (Captain Name)
  unfolding broadcast_range send_each
  broadcast_msg mode self m c =
      if nodes_size c.view == 1
      then ok (emit (scheduled m) c)
      else let range = broadcast_range mode c.view (msg_type m) in
        send_each self m range.first range.number c

  -- The three overloads of `send_one_msg`: to this node, to a node, and in reply to an interest.
  abbrev pub send_self : Handler Name → Message → Captain Name → Outcome (Captain Name)
  send_self self m c = self m dum c

  abbrev pub send_to : Message → ℕ → Captain Name → Outcome (Captain Name)
  send_to m node c = if ltb node (nodes_size c.view) then ok (emit (sent node m) c) else fault

  abbrev pub send_reply : Message → DataName Name → Captain Name → Captain Name
  send_reply m name c = emit (replied m (resolve c name)) c

  abbrev pub inform_client : ℕ → ℕ → Name → Captain Name → Captain Name
  inform_client slot try_time client c = emit (informed slot try_time client) c
