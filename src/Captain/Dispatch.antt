-- ===== src/Captain/Dispatch.antt =====
-- The rest of `Captain::handle_msg` (captain.cpp): learning chosen values, and the dispatch on the
-- message type.
use ndnpaxos.Prelude.{
  ℕ, zero, suc, true, Option, none, some, length, get_elem?, ltb, ◌==◌, if◌then◌else◌, Outcome, ok,
  spent, deref, ◌>>=◌,
}
use ndnpaxos.Types.{
  u16, Mode, mode_type, MsgType, PropValue, MsgDecide, MsgLearn, MsgTeach, MsgCommit, Message,
}
use ndnpaxos.View.{if_master}
use ndnpaxos.Acceptor.{get_max_value}
use ndnpaxos.Rs.{Fec, new_encoder, rs_encode}
use ndnpaxos.Captain.State.{Captain, DataName, dum}
use ndnpaxos.Captain.Log.{add_learn_value, is_chosen}
use ndnpaxos.Captain.Start.{set_msg_header, commit_value}
use ndnpaxos.Captain.Handlers.{
  acceptor_at, on_prepare, on_promise, on_accept, on_accepted, msg_teach,
}
use ndnpaxos.Commo.{Handler, send_to, send_reply}

module _ {Name : Type 0} where
  -- The accepted value of a slot if the replica has an acceptor for it and its id is `id`.
  unfoldable pub known_value : ℕ → ℕ → Captain Name → Outcome (Option PropValue)
  unfolding acceptor_at
  known_value slot id c =
      if ltb slot (length c.acceptors)
      then (acceptor_at slot c >>= λ a. elim (get_max_value a) [
        | none ↦ ok none
        | some value ↦ if value.id == id then ok (some value) else ok none
      ])
      else ok none

  abbrev pub msg_learn : ℕ → Captain Name → MsgLearn
  msg_learn slot c = record { header = set_msg_header c.view MsgType.learn slot }

  -- A value that is not at hand is asked for.
  unfoldable pub on_decide : MsgDecide → DataName Name → Captain Name → Outcome (Captain Name)
  unfolding known_value is_chosen
  on_decide m name c = do
    let slot = m.header.slot_id
    old ← is_chosen c slot
    if old then ok c else do
      found ← known_value slot m.value_id c
      elim found [
        | some value ↦ add_learn_value slot value c
        | none ↦ ok (send_reply (Message.learn (msg_learn slot c)) name c)
      ]

  -- Only for RS: the block of the asking node.
  unfoldable pub rs_msg_teach : Fec → ℕ → ℕ → Captain Name → Outcome MsgTeach
  rs_msg_teach fec slot node c = do
    value ← deref (get_elem? c.chosen_values slot) >>= deref
    coded ← rs_encode fec value.content (new_encoder c.view.rs_x c.view.rs_n)
    block ← deref (get_elem? coded.0 node)
    ok (record {
      header = set_msg_header c.view MsgType.teach slot;
      prop_value = record { id = value.id; content = block; cmd_type = none };
    })

  unfoldable pub on_learn : Mode → Fec → MsgLearn → Captain Name → Outcome (Captain Name)
  unfolding is_chosen msg_teach rs_msg_teach
  on_learn mode fec m c =
      let slot = m.header.slot_id in
      let node = u16 m.header.node_id in
      is_chosen c slot >>= λ there.
      if there
      then ((if mode_type mode == 1 then rs_msg_teach fec slot node c else msg_teach slot c)
          >>= λ answer. send_to (Message.teach answer) node c)
      else ok c

  unfoldable pub on_teach : MsgTeach → Captain Name → Outcome (Captain Name)
  unfolding is_chosen
  on_teach m c = do
    old ← is_chosen c m.header.slot_id
    if old then ok c else add_learn_value m.header.slot_id m.prop_value c

  -- The master acknowledges the request and commits the value; at another node the message is the
  -- master's acknowledgement, and ends the wait.
  unfoldable pub on_commit :
      Mode → Handler Name → MsgCommit → DataName Name → Captain Name → Outcome (Captain Name)
  on_commit mode self m name c =
      if if_master c.view
      then commit_value mode self m.prop_value dum (send_reply (Message.commit m) name c)
      else ok (record c { commit_ok = true })

  -- One call of `handle_msg`. A crashed replica does nothing.
  unfoldable pub handle_with : Mode → Fec → Handler Name → Handler Name
  unfolding on_decide on_learn on_teach on_commit
  handle_with mode fec self m name c =
      if c.work
      then elim m [
        | Message.prepare p ↦ on_prepare self p name c
        | Message.promise p ↦ on_promise mode fec self p c
        | Message.accept p ↦ on_accept self p name c
        | Message.accepted p ↦ on_accepted mode self p name c
        | Message.decide p ↦ on_decide p name c
        | Message.learn p ↦ on_learn mode fec p c
        | Message.teach p ↦ on_teach p c
        | Message.commit p ↦ on_commit mode self p name c
        | Message.command p ↦ ok c
      ]
      else ok c

  -- `depth` bounds how deep the calls for the replica's own messages nest.
  unfoldable pub handle_msg : Mode → Fec → ℕ → Handler Name
  handle_msg mode fec zero = λ m name c. spent
  handle_msg mode fec (suc depth) = handle_with mode fec (handle_msg mode fec depth)
