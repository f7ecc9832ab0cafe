-- ===== src/Captain/Depth/Nesting.antt =====
-- The handlers of a replica (captain.cpp, handle_msg), one on top of the other: how deep they nest.
use ndnpaxos.Prelude.{ℕ, suc, ◌≢◌, ok, arith, ◌==◌, true}
use ndnpaxos.Prelude.Settling.{Settles, Settles-after, Settles-if, Settles-weaken}
use ndnpaxos.Types.{
  u16, Mode, mode_type, Message, MsgPrepare, MsgAckPrepare, MsgAccept, MsgAckAccept, MsgLearn,
  MsgCommit,
}
use ndnpaxos.View.{if_master}
use ndnpaxos.Acceptor.{handle_msg_prepare, handle_msg_accept}
use ndnpaxos.Rs.{Fec}
use ndnpaxos.Captain.State.{Captain, DataName, dum}
use ndnpaxos.Captain.Log.{is_chosen}
use ndnpaxos.Captain.Handlers.{
  grow, put_acceptor, acceptor_at, on_prepare, on_accept, on_promise, on_accepted, msg_teach,
}
use ndnpaxos.Captain.Dispatch.{on_decide, on_learn, on_teach, on_commit, handle_with, handle_msg}
use ndnpaxos.Commo.{Handler, send_reply, send_to}
use ndnpaxos.Captain.Depth.{IsShallow, HandlesRequests, HandlesChoices}
use ndnpaxos.Captain.Depth.Logging.{
  Same, Same-IsShallow, is_chosen-IsSettled, acceptor_at-IsSettled, send_to-Same,
}
use ndnpaxos.Captain.Depth.Acks.{handle_with-HandlesAcks}
use ndnpaxos.Captain.Depth.Requests.{
  send_ack-Settles, on_decide-Settles, on_teach-Settles, handle_with-HandlesRequests,
  handle_with-HandlesChoices,
}
use ndnpaxos.Captain.Depth.Starting.{commit_value-Settles}
use ndnpaxos.Captain.Depth.Answers.{on_promise-Settles}
use ndnpaxos.Captain.Depth.Choices.{on_accepted-Settles, msg_teach-IsSettled}

module _ {Name : Type 0} where
  -- The handler takes any ack, whoever else has answered.
  record HandlesAnswers (self : Handler Name) : Type 0 where
    promise :
        (m : MsgAckPrepare) (c : Captain Name)
        → IsShallow c
        → Settles IsShallow (self (Message.promise m) dum c)
    accepted :
        (m : MsgAckAccept) (c : Captain Name)
        → IsShallow c
        → Settles IsShallow (self (Message.accepted m) dum c)

  module _ (mode : Mode) (build : mode_type mode ≢ 1) (fec : Fec) where
    handle_with-HandlesAnswers :
        (self : Handler Name)
        → HandlesRequests self
        → HandlesChoices self
        → HandlesAnswers (handle_with mode fec self)
    unfolding handle_with
    handle_with-HandlesAnswers self reqs told = record {
      promise = λ m c h.
          Settles-if IsShallow c.work _ (ok c)
            (λ e. on_promise-Settles mode build fec self reqs m c h) (λ e. h);
      accepted = λ m c h.
          Settles-if IsShallow c.work _ (ok c)
            (λ e. on_accepted-Settles mode build fec self reqs told m dum c h) (λ e. h);
    }

    module _ (self : Handler Name) (answers : HandlesAnswers self) (reqs : HandlesRequests self)
        (told : HandlesChoices self) where
      on_prepare-Settles :
          (m : MsgPrepare) (name : DataName Name) (c : Captain Name)
          → IsShallow c
          → Settles IsShallow (on_prepare self m name c)
      unfolding on_prepare grow
      on_prepare-Settles m name c h =
          let d = grow m.header.slot_id c in
          Settles-after IsShallow (acceptor_at m.header.slot_id d) _
            (acceptor_at-IsSettled m.header.slot_id d)
            (λ a.
              let served = handle_msg_prepare c.view m a in
              let e = put_acceptor m.header.slot_id served.1 d in
              send_ack-Settles IsShallow self m.header.node_id (Message.promise served.0) name e h h
                (answers.promise served.0 e h))

      on_accept-Settles :
          (m : MsgAccept) (name : DataName Name) (c : Captain Name)
          → IsShallow c
          → Settles IsShallow (on_accept self m name c)
      unfolding on_accept grow
      on_accept-Settles m name c h =
          let d = grow m.header.slot_id c in
          Settles-after IsShallow (acceptor_at m.header.slot_id d) _
            (acceptor_at-IsSettled m.header.slot_id d)
            (λ a.
              let served = handle_msg_accept c.view m a in
              let e = put_acceptor m.header.slot_id served.1 d in
              send_ack-Settles IsShallow self m.header.node_id (Message.accepted served.0) name e h
                h (answers.accepted served.0 e h))

      on_learn-Settles :
          (m : MsgLearn) (c : Captain Name)
          → IsShallow c
          → Settles IsShallow (on_learn mode fec m c)
      unfolding on_learn
      on_learn-Settles m c h =
          let slot = m.header.slot_id in
          Settles-after IsShallow (is_chosen c slot) _ (is_chosen-IsSettled c slot) (λ there.
            Settles-if IsShallow there _ (ok c)
              (λ e.
                Settles-after IsShallow _ _
                  (Settles-if (λ m. Unit) (mode_type mode == 1) _ (msg_teach slot c)
                    (λ e. absurd (build (ground arith))) (λ e. msg_teach-IsSettled slot c))
                  (λ answer.
                    Settles-weaken (Same c) IsShallow
                      (send_to (Message.teach answer) (u16 m.header.node_id) c)
                      (λ d s. Same-IsShallow c d s h)
                      (send_to-Same (Message.teach answer) (u16 m.header.node_id) c)))
              (λ e. h))

      on_commit-Settles :
          (m : MsgCommit) (name : DataName Name) (c : Captain Name)
          → IsShallow c
          → Settles IsShallow (on_commit mode self m name c)
      unfolding on_commit
      on_commit-Settles m name c h =
          Settles-if IsShallow (if_master c.view) _ (ok (record c { commit_ok = true }))
            (λ e.
              commit_value-Settles mode build self reqs m.prop_value dum
                (send_reply (Message.commit m) name c) h)
            (λ e. h)

      handle_with-Settles :
          (m : Message) (name : DataName Name) (c : Captain Name)
          → IsShallow c
          → Settles IsShallow (handle_with mode fec self m name c)
      unfolding handle_with
      handle_with-Settles m name c h = Settles-if IsShallow c.work _ (ok c) (λ e. cases m) (λ e. h)
        where
          cases :
              (m : Message)
              → Settles {A = Captain Name} IsShallow (elim m [
                | Message.prepare p ↦ on_prepare self p name c
                | Message.promise p ↦ on_promise mode fec self p c
                | Message.accept p ↦ on_accept self p name c
                | Message.accepted p ↦ on_accepted mode self p name c
                | Message.decide p ↦ on_decide p name c
                | Message.learn p ↦ on_learn mode fec p c
                | Message.teach p ↦ on_teach p c
                | Message.commit p ↦ on_commit mode self p name c
                | Message.command p ↦ ok c
              ])
          cases (Message.prepare p) = on_prepare-Settles p name c h
          cases (Message.promise p) = on_promise-Settles mode build fec self reqs p c h
          cases (Message.accept p) = on_accept-Settles p name c h
          cases (Message.accepted p) = on_accepted-Settles mode build fec self reqs told p name c h
          cases (Message.decide p) = on_decide-Settles mode fec self p name c h
          cases (Message.learn p) = on_learn-Settles p c h
          cases (Message.teach p) = on_teach-Settles mode fec self p c h
          cases (Message.commit p) = on_commit-Settles p name c h
          cases (Message.command p) = h

    pub requests_at :
        (depth : ℕ) → HandlesRequests {Name = Name} (handle_msg mode fec (suc (suc depth)))
    unfolding handle_msg
    requests_at depth =
        handle_with-HandlesRequests mode fec (handle_msg mode fec (suc depth))
          (handle_with-HandlesAcks mode fec (handle_msg mode fec depth))

    choices_at : (depth : ℕ) → HandlesChoices {Name = Name} (handle_msg mode fec (suc depth))
    unfolding handle_msg
    choices_at depth = handle_with-HandlesChoices mode fec (handle_msg mode fec depth)

    pub handle_msg-Settles :
        (depth : ℕ) (m : Message) (name : DataName Name) (c : Captain Name)
        → IsShallow c
        → Settles IsShallow (handle_msg mode fec (suc (suc (suc (suc depth)))) m name c)
    unfolding handle_msg
    handle_msg-Settles depth m name c h =
        handle_with-Settles (handle_msg mode fec (suc (suc (suc depth))))
          (handle_with-HandlesAnswers (handle_msg mode fec (suc (suc depth))) (requests_at depth)
            (choices_at (suc depth)))
          (requests_at (suc depth)) (choices_at (suc (suc depth))) m name c h

-- A call from outside.
