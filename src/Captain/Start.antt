-- ===== src/Captain/Start.antt =====
-- Starting a proposer for a value: `commit`, `master_change` and the common end of the branches of
-- captain.cpp that begin a new slot.
use ndnpaxos.Prelude.{
  ℕ, ◌+◌, false, [], ◌∷◌, ◌++◌, none, some, length, ltb, ◌==◌, if◌then◌else◌, Outcome, ok, fault,
  ◌>>=◌,
}
use ndnpaxos.Prelude.SortedMap
use ndnpaxos.Types.{
  Mode, mode_type, ProposerStatus, MsgType, CmdType, Bytes, PropValue, MsgHeader, MsgPrepare,
  MsgAccept, MsgCommit, Message, u64,
}
use ndnpaxos.View.{View, whoami, if_master}
use ndnpaxos.Proposer.{new_proposer, gen_next_ballot, init_curr_value, msg_accept, msg_prepare}
use ndnpaxos.Captain.State.{
  Captain, ProposerInfo, DataName, dum, resolve, assign, emit, waits, next_value_id,
}
use ndnpaxos.Commo.{Handler, broadcast_msg, send_to}

abbrev pub set_msg_header : View → MsgType → ℕ → MsgHeader
set_msg_header v type slot = record { msg_type = type; node_id = whoami v; slot_id = slot }

-- `mutable_msg_header()->set_slot_id(slot)`
abbrev pub prepare_for : ℕ → MsgPrepare → MsgPrepare
prepare_for slot m = record m { header = record m.header { slot_id = slot } }

abbrev pub accept_for : ℕ → MsgAccept → MsgAccept
accept_for slot m = record m { header = record m.header { slot_id = slot } }

module _ {Name : Type 0} where
  abbrev pub put_proposer : ℕ → ProposerInfo Name → Captain Name → Captain Name
  put_proposer slot info c = record c { proposers = SortedMap.insert slot info c.proposers }

  -- A new proposer in the next slot, which begins with the prepare phase.
  unfoldable pub start_prepare :
      Mode → Handler Name → ℕ → Name → PropValue → Captain Name → Outcome (Captain Name)
  start_prepare mode self try_time client value c =
      let slot = u64 (c.max_slot + 1) in
      let begun = msg_prepare c.view (new_proposer mode c.view value) in
      let info : ProposerInfo Name = record {
        try_time = try_time;
        client_name = client;
        curr_proposer = begun.1;
        proposer_status = ProposerStatus.init;
      } in
      broadcast_msg mode self (Message.prepare (prepare_for slot begun.0))
        (put_proposer slot info (record c { max_slot = slot }))

  -- A new proposer in the next slot, which begins with the accept phase.
  unfoldable pub start_accept :
      Mode → Handler Name → ℕ → Name → PropValue → Captain Name → Outcome (Captain Name)
  start_accept mode self try_time client value c =
      let slot = u64 (c.max_slot + 1) in
      let p = init_curr_value (gen_next_ballot c.view (new_proposer mode c.view value)) in
      let info : ProposerInfo Name = record {
        try_time = try_time;
        client_name = client;
        curr_proposer = p;
        proposer_status = ProposerStatus.phase_ii;
      } in
      msg_accept c.view p >>= λ m.
      broadcast_msg mode self (Message.accept (accept_for slot m))
        (put_proposer slot info (record c { max_slot = slot }))

  -- With MODE_TYPE 2 the master skips the prepare phase.
  unfoldable pub start_slot :
      Mode → Handler Name → Name → PropValue → Captain Name → Outcome (Captain Name)
  unfolding start_prepare start_accept
  start_slot mode self client value c =
      if mode_type mode == 2
      then start_accept mode self 1 client value c
      else start_prepare mode self 1 client value c

  abbrev pub enqueue : PropValue → Name → Captain Name → Captain Name
  enqueue value client c = record c {
    tocommit_values = c.tocommit_values ++ value ∷ [];
    tocommit_clients = c.tocommit_clients ++ client ∷ [];
  }

  -- `front` and `pop` of both queues: a `front` of an empty queue is a fault.
  unfoldable pub dequeue : Captain Name → Outcome (PropValue × Name × Captain Name)
  dequeue c = elim c.tocommit_values [
    | [] ↦ fault
    | value ∷ values ↦ elim c.tocommit_clients [
      | [] ↦ fault
      | client ∷ clients ↦
          ok (value, client, record c { tocommit_values = values; tocommit_clients = clients })
    ]
  ]

  -- `commit` of a PropValue. The assignment of the client's name goes through the reference.
  unfoldable pub commit_value :
      Mode → Handler Name → PropValue → DataName Name → Captain Name → Outcome (Captain Name)
  unfolding start_slot dequeue
  commit_value mode self value name c =
      if ltb c.window_size (length c.proposers)
      then ok c
      else if length c.proposers == c.window_size
      then ok (enqueue value (resolve c name) c)
      else if ltb 0 (length c.tocommit_values)
      then (dequeue (enqueue value (resolve c name) c) >>= λ front.
          start_slot mode self front.1 front.0 (assign front.2 name front.1))
      else start_slot mode self (resolve c name) value c

  abbrev pub msg_commit : PropValue → Captain Name → MsgCommit
  msg_commit value c = record {
    header = set_msg_header c.view MsgType.commit 0;
    prop_value = value;
  }

  -- The end of `commit` of a string: the master commits the value, another node asks the master and then
  -- waits.
  abbrev pub submit :
      Mode → Handler Name → PropValue → DataName Name → Captain Name → Outcome (Captain Name)
  submit mode self value name c =
      if if_master c.view
      then commit_value mode self value name c
      else (send_to (Message.commit (msg_commit value c)) c.view.master_id c >>= λ e.
          ok (emit waits (record e { commit_ok = false })))

  -- `commit` of a string: it becomes a value with a new id.
  unfoldable pub commit_data :
      Mode → Handler Name → Bytes → DataName Name → Captain Name → Outcome (Captain Name)
  unfolding commit_value next_value_id
  commit_data mode self content name c =
      let d = next_value_id c in
      submit mode self (record { id = d.value_id; content = content; cmd_type = none }) name d

  -- `command` is the text of the SET_MASTER command. No client is pushed with its value.
  unfoldable pub master_change :
      Mode → Handler Name → (ℕ → Bytes) → PropValue → Captain Name → Outcome (Captain Name)
  unfolding commit_value next_value_id
  master_change mode self command value c =
      if if_master c.view
      then commit_value mode self value dum c
      else let d = next_value_id c in
        let order : PropValue = record {
          id = d.value_id;
          content = command d.value_id;
          cmd_type = some CmdType.set_master;
        } in
        commit_value mode self value dum
          (record d { tocommit_values = d.tocommit_values ++ order ∷ [] })
