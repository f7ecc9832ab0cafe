-- ===== src/Captain/Depth/Requests.antt =====
-- A replica's requests to itself, and what it spreads (captain.cpp): they lead to its own acks at most.
use ndnpaxos.Prelude.{ℕ, zero, suc, ◌≡◌, ◌∙◌, ok, ◌==◌, if◌then◌else◌, Option, some, none, arith}
use ndnpaxos.Prelude.Settling.{Settles, Settles-bind, Settles-after, Settles-if, Settles-weaken}
use ndnpaxos.Types.{Mode, Message, msg_type, PropValue, MsgPrepare, MsgAccept, MsgDecide, MsgTeach}
use ndnpaxos.View.{View, whoami, nodes_size}
use ndnpaxos.Acceptor.{Acceptor, handle_msg_prepare, handle_msg_accept}
use ndnpaxos.Rs.{Fec}
use ndnpaxos.Captain.State.{Captain, Event, DataName, dum, emit, sent, scheduled}
use ndnpaxos.Captain.Handlers.{grow, put_acceptor, acceptor_at, send_ack, on_prepare, on_accept}
use ndnpaxos.Captain.Log.{add_learn_value, is_chosen}
use ndnpaxos.Captain.Dispatch.{handle_with, on_decide, on_teach, known_value, msg_learn}
use ndnpaxos.Commo.{Handler, send_each, broadcast_msg, broadcast_range, send_self, send_reply}
use ndnpaxos.Captain.Depth.{IsShallow, IsQuietAt, HandlesAcks, HandlesRequests, HandlesChoices}
use ndnpaxos.Captain.Depth.Logging.{
  Same, Same-IsShallow, add_chosen_value-Same, is_chosen-IsSettled, acceptor_at-IsSettled,
  known_value-IsSettled,
}

handle_msg_prepare_header :
    (v : View) (m : MsgPrepare) (a : Acceptor)
    → ((handle_msg_prepare v m a).0.header.slot_id ≡ m.header.slot_id)
      × ((handle_msg_prepare v m a).0.header.node_id ≡ v.node_id)
unfolding handle_msg_prepare
handle_msg_prepare_header v m a = (ground arith, ground arith)

handle_msg_accept_header :
    (v : View) (m : MsgAccept) (a : Acceptor)
    → ((handle_msg_accept v m a).0.header.slot_id ≡ m.header.slot_id)
      × ((handle_msg_accept v m a).0.header.node_id ≡ v.node_id)
unfolding handle_msg_accept
handle_msg_accept_header v m a = (ground arith, ground arith)

module _ {Name : Type 0} where
  -- A broadcast keeps what the handling of the own message keeps.
  send_each-Settles :
      (K : Captain Name → Type 0) (self : Handler Name) (m : Message)
      → ((e : Event Name) (c : Captain Name) → K c → K (emit e c))
      → ((c : Captain Name) → K c → Settles K (self m dum c))
      → (i rounds : ℕ) (c : Captain Name) → K c
      → Settles K (send_each self m i rounds c)
  unfolding send_each
  send_each-Settles K self m emits handles i zero c h = h
  send_each-Settles K self m emits handles i (suc rounds) c h =
      Settles-bind K K (if i == whoami c.view then self m dum c else ok (emit (sent i m) c))
        (send_each self m (suc i) rounds)
        (Settles-if K (i == whoami c.view) (self m dum c) (ok (emit (sent i m) c))
          (λ e. handles c h) (λ e. emits (sent i m) c h))
        (λ d g. send_each-Settles K self m emits handles (suc i) rounds d g)

  pub broadcast_msg-Settles :
      (K : Captain Name → Type 0) (mode : Mode) (self : Handler Name) (m : Message)
      → ((e : Event Name) (c : Captain Name) → K c → K (emit e c))
      → ((c : Captain Name) → K c → Settles K (self m dum c))
      → (c : Captain Name) → K c
      → Settles K (broadcast_msg mode self m c)
  unfolding broadcast_msg
  broadcast_msg-Settles K mode self m emits handles c h =
      Settles-if K (nodes_size c.view == 1) (ok (emit (scheduled m) c)) _
        (λ e. emits (scheduled m) c h)
        (λ e.
          send_each-Settles K self m emits handles (broadcast_range mode c.view (msg_type m)).first
            (broadcast_range mode c.view (msg_type m)).number c h)

  -- An ack goes to this replica, or away.
  pub send_ack-Settles :
      (K : Captain Name → Type 0) (self : Handler Name) (sender : ℕ) (m : Message)
      (name : DataName Name) (c : Captain Name)
      → K c
      → K (send_reply m name c)
      → Settles K (self m dum c)
      → Settles K (send_ack self sender m name c)
  unfolding send_ack
  send_ack-Settles K self sender m name c h replied handles =
      Settles-if K (sender == whoami c.view) (send_self self m c) (ok (send_reply m name c))
        (λ e. handles) (λ e. replied)

  module _ (mode : Mode) (fec : Fec) (self : Handler Name) where
    own_prepare :
        (slot : ℕ) (m : MsgPrepare) (name : DataName Name) (c : Captain Name)
        → HandlesAcks self
        → m.header.slot_id ≡ slot
        → IsQuietAt slot c
        → Settles (IsQuietAt slot) (on_prepare self m name c)
    unfolding on_prepare grow
    own_prepare slot m name c acks at h =
        Settles-after (IsQuietAt slot) (acceptor_at m.header.slot_id (grow m.header.slot_id c)) _
          (acceptor_at-IsSettled m.header.slot_id (grow m.header.slot_id c))
          (λ a.
            let served = handle_msg_prepare c.view m a in
            let (slot_same, node_same) = handle_msg_prepare_header c.view m a in
            let d = put_acceptor m.header.slot_id served.1 (grow m.header.slot_id c) in
            send_ack-Settles (IsQuietAt slot) self m.header.node_id (Message.promise served.0) name
              d h h (acks.promise slot served.0 d (slot_same ∙ at) node_same h))

    own_accept :
        (slot : ℕ) (m : MsgAccept) (name : DataName Name) (c : Captain Name)
        → HandlesAcks self
        → m.header.slot_id ≡ slot
        → IsQuietAt slot c
        → Settles (IsQuietAt slot) (on_accept self m name c)
    unfolding on_accept grow
    own_accept slot m name c acks at h =
        Settles-after (IsQuietAt slot) (acceptor_at m.header.slot_id (grow m.header.slot_id c)) _
          (acceptor_at-IsSettled m.header.slot_id (grow m.header.slot_id c))
          (λ a.
            let served = handle_msg_accept c.view m a in
            let (slot_same, node_same) = handle_msg_accept_header c.view m a in
            let d = put_acceptor m.header.slot_id served.1 (grow m.header.slot_id c) in
            send_ack-Settles (IsQuietAt slot) self m.header.node_id (Message.accepted served.0) name
              d h h (acks.accepted slot served.0 d (slot_same ∙ at) node_same h))

    pub handle_with-HandlesRequests : HandlesAcks self → HandlesRequests (handle_with mode fec self)
    unfolding handle_with
    handle_with-HandlesRequests acks = record {
      prepare = λ slot m c at h.
          Settles-if (IsQuietAt slot) c.work _ (ok c) (λ e. own_prepare slot m dum c acks at h)
            (λ e. h);
      accept = λ slot m c at h.
          Settles-if (IsQuietAt slot) c.work _ (ok c) (λ e. own_accept slot m dum c acks at h)
            (λ e. h);
    }

    adds :
        (slot : ℕ) (value : PropValue) (c : Captain Name)
        → IsShallow c
        → Settles IsShallow (add_learn_value slot value c)
    adds slot value c h =
        Settles-weaken (Same c) IsShallow (add_learn_value slot value c)
          (λ d s. Same-IsShallow c d s h) (add_chosen_value-Same slot value c)

    pub on_decide-Settles :
        (m : MsgDecide) (name : DataName Name) (c : Captain Name)
        → IsShallow c
        → Settles IsShallow (on_decide m name c)
    unfolding on_decide
    on_decide-Settles m name c h =
        Settles-after IsShallow (is_chosen c m.header.slot_id) _
          (is_chosen-IsSettled c m.header.slot_id)
          (λ old.
            Settles-if IsShallow old (ok c) _ (λ e. h)
              (λ e.
                Settles-after IsShallow (known_value m.header.slot_id m.value_id c) _
                  (known_value-IsSettled m.header.slot_id m.value_id c)
                  (λ found. found_after found)))
      where
        found_after :
            (found : Option PropValue)
            → Settles {A = Captain Name} IsShallow (elim found [
              | some value ↦ add_learn_value m.header.slot_id value c
              | none ↦ ok (send_reply (Message.learn (msg_learn m.header.slot_id c)) name c)
            ])
        found_after (some value) = adds m.header.slot_id value c h
        found_after none = h

    pub on_teach-Settles :
        (m : MsgTeach) (c : Captain Name) → IsShallow c → Settles IsShallow (on_teach m c)
    unfolding on_teach
    on_teach-Settles m c h =
        Settles-after IsShallow (is_chosen c m.header.slot_id) _
          (is_chosen-IsSettled c m.header.slot_id)
          (λ old.
            Settles-if IsShallow old (ok c) _ (λ e. h)
              (λ e. adds m.header.slot_id m.prop_value c h))

    pub handle_with-HandlesChoices : HandlesChoices (handle_with mode fec self)
    unfolding handle_with
    handle_with-HandlesChoices = record {
      decide =
          λ m c h. Settles-if IsShallow c.work _ (ok c) (λ e. on_decide-Settles m dum c h) (λ e. h);
      teach = λ m c h. Settles-if IsShallow c.work _ (ok c) (λ e. on_teach-Settles m c h) (λ e. h);
    }
