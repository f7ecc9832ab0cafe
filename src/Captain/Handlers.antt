-- ===== src/Captain/Handlers.antt =====
-- The cases of `Captain::handle_msg` (captain.cpp), one function to a message type. `self` handles the
-- messages that the replica sends to itself, in the middle of the case.
use ndnpaxos.Prelude.{
  ℕ, suc, ◌+◌, ◌-◌, Bool, true, false, List, [], ◌∷◌, ◌++◌, none, some, length, get_elem?, set,
  replicate, leb, ◌==◌, if◌then◌else◌, Outcome, ok, deref, ◌>>=◌,
}
use ndnpaxos.Prelude.SortedMap
use ndnpaxos.Types.{
  Mode, mode_type, AckType, ProposerStatus, MsgType, PropValue, MsgPrepare, MsgAckPrepare,
  MsgAccept, MsgAckAccept, MsgDecide, MsgTeach, Message,
}
use ndnpaxos.View.{View, whoami}
use ndnpaxos.Acceptor.{Acceptor, new_acceptor, handle_msg_prepare, handle_msg_accept}
use ndnpaxos.Rs.{Fec}
use ndnpaxos.Proposer.{
  Proposer, msg_accept, rs_msg_accept, restart_msg_prepare, handle_msg_promise, handle_msg_accepted,
  get_chosen_value, get_init_value,
}
use ndnpaxos.Captain.State.{Captain, ProposerInfo, DataName, dum, resolve, emit, called_latency}
use ndnpaxos.Captain.Log.{add_chosen_value}
use ndnpaxos.Captain.Start.{
  set_msg_header, prepare_for, accept_for, put_proposer, start_prepare, start_slot, dequeue,
}
use ndnpaxos.Commo.{Handler, broadcast_msg, send_self, send_to, send_reply, inform_client}

-- In phase I, which the first ack begins.
abbrev pub takes_promise : ProposerStatus → Bool
takes_promise ProposerStatus.init = true
takes_promise ProposerStatus.phase_i = true
takes_promise _ = false

abbrev pub takes_accepted : ProposerStatus → Bool
takes_accepted ProposerStatus.phase_ii = true
takes_accepted _ = false

abbrev pub msg_decide : ℕ → ℕ → View → MsgDecide
msg_decide slot value_id v = record {
  header = set_msg_header v MsgType.decide slot;
  value_id = value_id;
}

module _ {Name : Type 0} where
  -- `for (i = acceptors_.size(); i <= slot; i++)`: acceptors up to `slot`.
  unfoldable pub grow : ℕ → Captain Name → Captain Name
  grow slot c = record c {
    acceptors = c.acceptors ++ replicate (suc slot - length c.acceptors) (some new_acceptor);
  }

  abbrev pub put_acceptor : ℕ → Acceptor → Captain Name → Captain Name
  put_acceptor slot a c = record c { acceptors = set c.acceptors slot (some a) }

  -- The acceptor of a slot, made on demand. Slot 0 has none: a null pointer.
  unfoldable pub acceptor_at : ℕ → Captain Name → Outcome Acceptor
  acceptor_at slot c = deref (get_elem? c.acceptors slot) >>= deref

  -- An acknowledgement goes to this replica itself, or in reply to the interest.
  unfoldable pub send_ack :
      Handler Name → ℕ → Message → DataName Name → Captain Name → Outcome (Captain Name)
  send_ack self sender m name c =
      if sender == whoami c.view then send_self self m c else ok (send_reply m name c)

  unfoldable pub on_prepare :
      Handler Name → MsgPrepare → DataName Name → Captain Name → Outcome (Captain Name)
  unfolding grow acceptor_at send_ack
  on_prepare self m name c = do
    let slot = m.header.slot_id
    let d = grow slot c
    a ← acceptor_at slot d
    let served = handle_msg_prepare d.view m a
    send_ack self m.header.node_id (Message.promise served.0) name (put_acceptor slot served.1 d)

  unfoldable pub on_accept :
      Handler Name → MsgAccept → DataName Name → Captain Name → Outcome (Captain Name)
  unfolding grow acceptor_at send_ack
  on_accept self m name c = do
    let slot = m.header.slot_id
    let d = grow slot c
    a ← acceptor_at slot d
    let served = handle_msg_accept d.view m a
    send_ack self m.header.node_id (Message.accepted served.0) name (put_acceptor slot served.1 d)

  abbrev pub with_status : ProposerStatus → Proposer → ProposerInfo Name → ProposerInfo Name
  with_status status p info = record info { curr_proposer = p; proposer_status = status }

  -- RESTART: a higher ballot, and the prepare phase again.
  unfoldable pub on_restart :
      Mode → Handler Name → ℕ → ProposerInfo Name → Proposer → Captain Name → Outcome (Captain Name)
  on_restart mode self slot info p c =
      let begun = restart_msg_prepare c.view p in
      broadcast_msg mode self (Message.prepare (prepare_for slot begun.0))
        (put_proposer slot (with_status ProposerStatus.init begun.1 info) c)

  -- The RS build sends each node its own accept request, this replica included.
  unfoldable pub send_accepts :
      Handler Name → ℕ → ℕ → List MsgAccept → Captain Name → Outcome (Captain Name)
  send_accepts self slot i [] c = ok c
  send_accepts self slot i (m ∷ ms) c =
      let request = Message.accept (accept_for slot m) in
      (if i == whoami c.view then self request dum c else send_to request i c)
      >>= send_accepts self slot (suc i) ms

  -- CONTINUE: the accept phase.
  unfoldable pub on_continue :
      Mode
      → Fec
      → Handler Name
      → ℕ
      → ProposerInfo Name
      → Proposer
      → Captain Name
      → Outcome (Captain Name)
  unfolding send_accepts
  on_continue mode fec self slot info p c =
      if mode_type mode == 1
      then (rs_msg_accept fec c.view p >>= λ sent.
          send_accepts self slot 0 sent.0
            (put_proposer slot (with_status ProposerStatus.phase_ii sent.1 info) c))
      else (msg_accept c.view p >>= λ m.
          broadcast_msg mode self (Message.accept (accept_for slot m))
            (put_proposer slot (with_status ProposerStatus.phase_ii p info) c))

  unfoldable pub after_promise :
      Mode
      → Fec
      → Handler Name
      → ℕ
      → ProposerInfo Name
      → AckType
      → Proposer
      → Captain Name
      → Outcome (Captain Name)
  unfolding on_continue on_restart
  after_promise mode fec self slot info ack p c =
      let kept = put_proposer slot (with_status ProposerStatus.phase_i p info) c in
      elim ack [
        | AckType.continue ↦ on_continue mode fec self slot info p c
        | AckType.restart ↦ on_restart mode self slot info p c
        | _ ↦ ok kept
      ]

  unfoldable pub on_promise :
      Mode → Fec → Handler Name → MsgAckPrepare → Captain Name → Outcome (Captain Name)
  unfolding after_promise
  on_promise mode fec self m c =
      let slot = m.header.slot_id in
      elim (SortedMap.find slot c.proposers) [
        | none ↦ ok c
        | some info ↦
            if takes_promise info.proposer_status
            then (handle_msg_promise mode fec c.view m info.curr_proposer >>= λ r.
                after_promise mode fec self slot info r.0 r.1 c)
            else ok c
      ]

  -- The client of a value that was chosen for its own proposer hears of it.
  unfoldable pub announce : ℕ → PropValue → ProposerInfo Name → Captain Name → Captain Name
  announce slot value info c =
      let d = inform_client slot info.try_time info.client_name c in
      if c.has_callback_latency then emit (called_latency slot value info.try_time) d else d

  -- A TEACH message with no value lacks a required field.
  unfoldable pub msg_teach : ℕ → Captain Name → Outcome MsgTeach
  msg_teach slot c = do
    value ← deref (get_elem? c.chosen_values slot) >>= deref
    ok (record { header = set_msg_header c.view MsgType.teach slot; prop_value = value })

  -- After the choice: the next value of the queue, or the proposer's own value once more, with the
  -- name that the last ack came under.
  unfoldable pub after_chosen :
      Mode
      → Handler Name
      → ProposerInfo Name
      → Bool
      → DataName Name
      → Captain Name
      → Outcome (Captain Name)
  unfolding dequeue
  after_chosen mode self info own name c =
      if own
      then elim c.tocommit_values [
        | [] ↦ ok c
        | value ∷ values ↦ dequeue c >>= λ front. start_slot mode self front.1 front.0 front.2
      ]
      else start_prepare mode self (info.try_time + 1) (resolve c name)
          (get_init_value info.curr_proposer) c

  -- DECIDE and, from MODE_TYPE 2 on, TEACH.
  unfoldable pub spread :
      Mode → Handler Name → ℕ → PropValue → Captain Name → Outcome (Captain Name)
  unfolding msg_teach
  spread mode self slot value c =
      broadcast_msg mode self (Message.decide (msg_decide slot value.id c.view)) c >>= λ d.
      if leb 2 (mode_type mode)
      then (msg_teach slot d >>= λ m. broadcast_msg mode self (Message.teach m) d)
      else ok d

  -- CHOOSE: the value is logged and spread, and the proposer is done.
  unfoldable pub on_choose :
      Mode
      → Handler Name
      → ℕ
      → ProposerInfo Name
      → Proposer
      → DataName Name
      → Captain Name
      → Outcome (Captain Name)
  unfolding announce spread after_chosen
  on_choose mode self slot info p name c = do
    value ← deref (get_chosen_value p)
    let own = value.id == (get_init_value p).id
    let done = with_status ProposerStatus.chosen p info
    let d = put_proposer slot done c
    logged ← add_chosen_value slot value (if own then announce slot value done d else d)
    told ← spread mode self slot value logged
    after_chosen mode self done own name
        (record told { proposers = SortedMap.erase slot told.proposers })

  unfoldable pub after_accepted :
      Mode
      → Handler Name
      → ℕ
      → ProposerInfo Name
      → AckType
      → Proposer
      → DataName Name
      → Captain Name
      → Outcome (Captain Name)
  unfolding on_choose on_restart
  after_accepted mode self slot info ack p name c = elim ack [
    | AckType.drop ↦ ok (put_proposer slot (with_status ProposerStatus.phase_ii p info) c)
    | AckType.not_enough ↦ ok (put_proposer slot (with_status ProposerStatus.phase_ii p info) c)
    | AckType.choose ↦ on_choose mode self slot info p name c
    | _ ↦ on_restart mode self slot info p c
  ]

  unfoldable pub on_accepted :
      Mode → Handler Name → MsgAckAccept → DataName Name → Captain Name → Outcome (Captain Name)
  unfolding after_accepted
  on_accepted mode self m name c =
      let slot = m.header.slot_id in
      elim (SortedMap.find slot c.proposers) [
        | none ↦ ok c
        | some info ↦
            if takes_accepted info.proposer_status
            then (let r = handle_msg_accepted m info.curr_proposer in
                after_accepted mode self slot info r.0 r.1 name c)
            else ok c
      ]
