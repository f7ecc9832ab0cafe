-- ===== src/Captain/Replica/Handling.antt =====
-- The cases of `handle_msg` (captain.cpp) for acceptors and proposers, for any relation that the steps
-- of a replica keep.
use ndnpaxos.Prelude.{
  ℕ, suc, ◌+◌, refl, true, false, Bool, List, [], ◌∷◌, leb, ◌==◌, if◌then◌else◌, ok, ◌>>=◌, deref,
  Ends, Ends-bind, Ends-if, Ends-Option, Ends-after,
}
use ndnpaxos.Prelude.SortedMap
use ndnpaxos.Types.{
  Mode, mode_type, AckType, ProposerStatus, PropValue, MsgPrepare, MsgAckPrepare, MsgAccept,
  MsgAckAccept, Message,
}
use ndnpaxos.View.{whoami}
use ndnpaxos.Acceptor.{handle_msg_prepare, handle_msg_accept}
use ndnpaxos.Rs.{Fec}
use ndnpaxos.Proposer.{
  Proposer, get_init_value, get_chosen_value, handle_msg_promise, handle_msg_accepted,
}
use ndnpaxos.Captain.State.{Captain, DataName, dum, resolve, emit, ProposerInfo, Event}
use ndnpaxos.Captain.Log.{add_chosen_value}
use ndnpaxos.Captain.Log.Delivery.{calls_of, full_calls_of}
use ndnpaxos.Captain.Start.{start_slot, dequeue, put_proposer}
use ndnpaxos.Captain.Handlers.{
  grow, put_acceptor, acceptor_at, send_ack, on_prepare, on_accept, on_restart, send_accepts,
  on_continue, after_promise, on_promise, announce, after_chosen, spread, on_choose, after_accepted,
  on_accepted, takes_promise, takes_accepted, with_status,
}
use ndnpaxos.Commo.{Handler, send_reply, send_self}
use ndnpaxos.Captain.Replica.{IsStable, HandlerKeeps, if_either, Ends-trans}
use ndnpaxos.Captain.Replica.Sending.{
  send_to-Keeps, broadcast_msg-Keeps, broadcast_msg_after, start_slot-Keeps, start_prepare-Keeps,
  dequeue-Keeps,
}

module _ {Name : Type 0} (R : Captain Name → Captain Name → Type 0) (s : IsStable R)
    (self : Handler Name) (h : HandlerKeeps R self) where
  send_ack_after :
      (sender : ℕ) (m : Message) (name : DataName Name) (c d : Captain Name)
      → R c d
      → Ends (R c) (send_ack self sender m name d)
  unfolding send_ack calls_of full_calls_of
  send_ack_after sender m name c d f =
      Ends-if (R c) (sender == whoami d.view) (send_self self m d) (ok (send_reply m name d))
        (Ends-trans R c d (send_self self m d) s f (h m dum d))
        (s.transitive c d (send_reply m name d) f
          (s.frame d (send_reply m name d) refl refl refl refl refl refl refl refl))

  pub on_prepare-Keeps :
      (m : MsgPrepare) (name : DataName Name) (c : Captain Name)
      → Ends (R c) (on_prepare self m name c)
  unfolding on_prepare grow
  on_prepare-Keeps m name c =
      let slot = m.header.slot_id in
      let d = grow slot c in
      Ends-after (R c) (acceptor_at slot d) _ (λ a.
        let served = handle_msg_prepare d.view m a in
        let e = put_acceptor slot served.1 d in
        send_ack_after m.header.node_id (Message.promise served.0) name c e
          (s.frame c e refl refl refl refl refl refl refl refl))

  pub on_accept-Keeps :
      (m : MsgAccept) (name : DataName Name) (c : Captain Name)
      → Ends (R c) (on_accept self m name c)
  unfolding on_accept grow
  on_accept-Keeps m name c =
      let slot = m.header.slot_id in
      let d = grow slot c in
      Ends-after (R c) (acceptor_at slot d) _ (λ a.
        let served = handle_msg_accept d.view m a in
        let e = put_acceptor slot served.1 d in
        send_ack_after m.header.node_id (Message.accepted served.0) name c e
          (s.frame c e refl refl refl refl refl refl refl refl))

  put_proposer-Keeps :
      (slot : ℕ) (info : ProposerInfo Name) (c : Captain Name) → R c (put_proposer slot info c)
  put_proposer-Keeps slot info c =
      s.frame c (put_proposer slot info c) refl refl refl refl refl refl refl refl

  on_restart-Keeps :
      (mode : Mode) (slot : ℕ) (info : ProposerInfo Name) (p : Proposer) (c : Captain Name)
      → Ends (R c) (on_restart mode self slot info p c)
  unfolding on_restart
  on_restart-Keeps mode slot info p c =
      broadcast_msg_after R s self h mode _ c (put_proposer slot _ c) (put_proposer-Keeps slot _ c)

  send_accepts-Keeps :
      (slot i : ℕ) (ms : List MsgAccept) (c : Captain Name)
      → Ends (R c) (send_accepts self slot i ms c)
  unfolding send_accepts
  send_accepts-Keeps slot i [] c = s.reflexive c
  send_accepts-Keeps slot i (m ∷ ms) c =
      Ends-bind (R c) (R c) _ (send_accepts self slot (suc i) ms)
        (Ends-if (R c) (i == whoami c.view) _ _ (h _ dum c) (send_to-Keeps R s _ i c))
        (λ d f.
          Ends-trans R c d (send_accepts self slot (suc i) ms d) s f
            (send_accepts-Keeps slot (suc i) ms d))

  on_continue-Keeps :
      (mode : Mode) (fec : Fec) (slot : ℕ) (info : ProposerInfo Name) (p : Proposer)
      (c : Captain Name)
      → Ends (R c) (on_continue mode fec self slot info p c)
  unfolding on_continue
  on_continue-Keeps mode fec slot info p c =
      Ends-if (R c) (mode_type mode == 1) _ _
        (Ends-after (R c) _ _ (λ (sent : List MsgAccept × Proposer).
          let e = put_proposer slot (with_status ProposerStatus.phase_ii sent.1 info) c in
          Ends-trans R c e (send_accepts self slot 0 sent.0 e) s
            (put_proposer-Keeps slot (with_status ProposerStatus.phase_ii sent.1 info) c)
            (send_accepts-Keeps slot 0 sent.0 e)))
        (Ends-after (R c) _ _ (λ m.
          broadcast_msg_after R s self h mode _ c (put_proposer slot _ c)
            (put_proposer-Keeps slot _ c)))

  after_promise-Keeps :
      (mode : Mode) (fec : Fec) (slot : ℕ) (info : ProposerInfo Name) (ack : AckType) (p : Proposer)
      (c : Captain Name)
      → Ends (R c) (after_promise mode fec self slot info ack p c)
  unfolding after_promise
  after_promise-Keeps mode fec slot info AckType.continue p c =
      on_continue-Keeps mode fec slot info p c
  after_promise-Keeps mode fec slot info AckType.restart p c = on_restart-Keeps mode slot info p c
  after_promise-Keeps mode fec slot info AckType.drop p c = put_proposer-Keeps slot _ c
  after_promise-Keeps mode fec slot info AckType.not_enough p c = put_proposer-Keeps slot _ c
  after_promise-Keeps mode fec slot info AckType.choose p c = put_proposer-Keeps slot _ c

  pub on_promise-Keeps :
      (mode : Mode) (fec : Fec) (m : MsgAckPrepare) (c : Captain Name)
      → Ends (R c) (on_promise mode fec self m c)
  unfolding on_promise
  on_promise-Keeps mode fec m c =
      let slot = m.header.slot_id in
      Ends-Option (R c) (SortedMap.find slot c.proposers) (ok c) _ (s.reflexive c) (λ info.
        Ends-if (R c) (takes_promise info.proposer_status) _ (ok c)
          (Ends-after (R c) (handle_msg_promise mode fec c.view m info.curr_proposer) _
            (λ r. after_promise-Keeps mode fec slot info r.0 r.1 c))
          (s.reflexive c))

  announce-Keeps :
      (slot : ℕ) (value : PropValue) (info : ProposerInfo Name) (c : Captain Name)
      → R c (announce slot value info c)
  unfolding announce calls_of full_calls_of
  announce-Keeps slot value info c =
      let d = emit (Event.informed slot info.try_time info.client_name) c in
      let e = emit (Event.called_latency slot value info.try_time) d in
      if_either R c.has_callback_latency c e d (s.frame c e refl refl refl refl refl refl refl refl)
        (s.frame c d refl refl refl refl refl refl refl refl)

  after_chosen-Keeps :
      (mode : Mode) (info : ProposerInfo Name) (own : Bool) (name : DataName Name)
      (c : Captain Name)
      → Ends (R c) (after_chosen mode self info own name c)
  unfolding after_chosen
  after_chosen-Keeps mode info true name c = go c.tocommit_values
    where
      go :
          (values : List PropValue)
          → Ends {A = Captain Name} (R c) (elim values [
            | [] ↦ ok c
            | v ∷ vs ↦ dequeue c >>= λ front. start_slot mode self front.1 front.0 front.2
          ])
      go [] = s.reflexive c
      go (v ∷ vs) =
          Ends-bind (λ r. R c r.2) (R c) (dequeue c) _
            (dequeue-Keeps R s self h c c (s.reflexive c))
            (λ front f.
              Ends-trans R c front.2 (start_slot mode self front.1 front.0 front.2) s f
                (start_slot-Keeps R s self h mode front.1 front.0 front.2))
  after_chosen-Keeps mode info false name c =
      start_prepare-Keeps R s self h mode (info.try_time + 1) (resolve c name)
        (get_init_value info.curr_proposer) c

  spread-Keeps :
      (mode : Mode) (slot : ℕ) (value : PropValue) (c : Captain Name)
      → Ends (R c) (spread mode self slot value c)
  unfolding spread
  spread-Keeps mode slot value c =
      Ends-bind (R c) (R c) _ _ (broadcast_msg-Keeps R s self h mode _ c) (λ d f.
        Ends-if (R c) (leb 2 (mode_type mode)) _ (ok d)
          (Ends-after (R c) _ _ (λ m. broadcast_msg_after R s self h mode (Message.teach m) c d f))
          f)

  on_choose-Keeps :
      (mode : Mode) (slot : ℕ) (info : ProposerInfo Name) (p : Proposer) (name : DataName Name)
      (c : Captain Name)
      → Ends (R c) (on_choose mode self slot info p name c)
  unfolding on_choose
  on_choose-Keeps mode slot info p name c =
      Ends-after (R c) (deref (get_chosen_value p)) _ (λ value.
        let own = value.id == (get_init_value p).id in
        let done = with_status ProposerStatus.chosen p info in
        let d = put_proposer slot done c in
        let e = if own then announce slot value done d else d in
        let begun : R c e = s.transitive c d e (put_proposer-Keeps slot done c) (
          if_either R own d (announce slot value done d) d (announce-Keeps slot value done d)
            (s.reflexive d)) in
        Ends-bind (R c) (R c) (add_chosen_value slot value e) _
          (Ends-trans R c e (add_chosen_value slot value e) s begun (s.adds slot value e))
          (λ logged f.
            Ends-bind (R c) (R c) (spread mode self slot value logged) _
              (Ends-trans R c logged (spread mode self slot value logged) s f
                (spread-Keeps mode slot value logged))
              (λ told g.
                let u = record told { proposers = SortedMap.erase slot told.proposers } in
                Ends-trans R c u (after_chosen mode self done own name u) s
                  (s.transitive c told u g (s.frame told u refl refl refl refl refl refl refl refl))
                  (after_chosen-Keeps mode done own name u))))

  after_accepted-Keeps :
      (mode : Mode) (slot : ℕ) (info : ProposerInfo Name) (ack : AckType) (p : Proposer)
      (name : DataName Name) (c : Captain Name)
      → Ends (R c) (after_accepted mode self slot info ack p name c)
  unfolding after_accepted
  after_accepted-Keeps mode slot info AckType.drop p name c = put_proposer-Keeps slot _ c
  after_accepted-Keeps mode slot info AckType.not_enough p name c = put_proposer-Keeps slot _ c
  after_accepted-Keeps mode slot info AckType.choose p name c =
      on_choose-Keeps mode slot info p name c
  after_accepted-Keeps mode slot info AckType.continue p name c =
      on_restart-Keeps mode slot info p c
  after_accepted-Keeps mode slot info AckType.restart p name c = on_restart-Keeps mode slot info p c

  pub on_accepted-Keeps :
      (mode : Mode) (m : MsgAckAccept) (name : DataName Name) (c : Captain Name)
      → Ends (R c) (on_accepted mode self m name c)
  unfolding on_accepted
  on_accepted-Keeps mode m name c =
      Ends-Option (R c) (SortedMap.find m.header.slot_id c.proposers) (ok c) _ (s.reflexive c)
        (λ info.
          Ends-if (R c) (takes_accepted info.proposer_status) _ (ok c)
            (after_accepted-Keeps mode m.header.slot_id info
              (handle_msg_accepted m info.curr_proposer).0
              (handle_msg_accepted m info.curr_proposer).1 name c)
            (s.reflexive c))
