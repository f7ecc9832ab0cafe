-- ===== src/Captain/Depth/Starting.antt =====
-- Beginning a slot (captain.cpp, `commit` and `master_change`): the requests to the replica itself settle.
use ndnpaxos.Prelude.{
  ℕ, ◌+◌, ◌≤◌, ◌≡◌, ◌≢◌, refl, inl, arith, ltb, ◌==◌, length, List, [], ◌∷◌, ok, fault,
}
use ndnpaxos.Prelude.Settling.{
  Settles, IsSettled, Settles-bind, Settles-after, Settles-if, Settles-weaken,
}
use ndnpaxos.Types.{Mode, mode_type, Message, MsgPrepare, MsgAccept, PropValue, Bytes, u64}
use ndnpaxos.View.{View, if_master}
use ndnpaxos.Proposer.{
  Proposer, new_proposer, gen_next_ballot, init_curr_value, msg_accept, msg_prepare,
}
use ndnpaxos.Captain.State.{
  Captain, ProposerInfo, DataName, dum, named, resolve, assign, next_value_id,
}
use ndnpaxos.Captain.Start.{
  prepare_for, accept_for, start_prepare, start_accept, start_slot, enqueue, dequeue, commit_value,
  commit_data, master_change,
}
use ndnpaxos.Commo.{Handler, broadcast_msg}
use ndnpaxos.Captain.Depth.{
  IsMany, IsQuiet, IsShallow, IsQuietAt, own_key, put_proposer-IsQuietAt, HandlesRequests,
}
use ndnpaxos.Captain.Depth.Logging.{Same, Same-IsShallow, send_to-Same}
use ndnpaxos.Captain.Depth.Requests.{broadcast_msg-Settles}

-- A new proposer, with its quorums and no answers.
record IsNew (q : ℕ) (p : Proposer) : Type 0 where
  reads : p.qr ≡ q
  writes : p.qw ≡ q
  promises : p.msg_ack_prepare ≡ []
  accepts : p.msg_ack_accept ≡ []

msg_prepare-IsNew :
    (mode : Mode) (v : View) (value : PropValue)
    → mode_type mode ≢ 1
    → IsNew v.q_size (msg_prepare v (new_proposer mode v value)).1
unfolding msg_prepare gen_next_ballot new_proposer
msg_prepare-IsNew mode v value build = record {
  reads = ground arith;
  writes = ground arith;
  promises = refl;
  accepts = refl;
}

init_curr_value-IsNew :
    (mode : Mode) (v : View) (value : PropValue)
    → mode_type mode ≢ 1
    → IsNew v.q_size (init_curr_value (gen_next_ballot v (new_proposer mode v value)))
unfolding gen_next_ballot new_proposer
init_curr_value-IsNew mode v value build = record {
  reads = ground arith;
  writes = ground arith;
  promises = refl;
  accepts = refl;
}

pub msg_accept-IsSettled : (v : View) (p : Proposer) → IsSettled (msg_accept v p)
unfolding msg_accept
msg_accept-IsSettled v p = ground arith

module _ {Name : Type 0} where
  new-IsMany :
      (own q : ℕ) (info : ProposerInfo Name) → 2 ≤ q → IsNew q info.curr_proposer → IsMany own info
  new-IsMany own q info many new = record {
    reads = omega (arith, new.reads);
    writes = omega (arith, new.writes);
    early = λ e. inl new.accepts;
  }

  new-IsQuiet :
      (own q : ℕ) (info : ProposerInfo Name) → IsNew q info.curr_proposer → IsQuiet own info
  new-IsQuiet own q info new = record {
    promises = λ e. inl new.promises;
    accepts = λ e. inl new.accepts;
  }

  -- A request for a slot whose proposer nobody has answered yet.
  pub prepare-Settles :
      (mode : Mode) (self : Handler Name) (slot : ℕ) (m : MsgPrepare) (c : Captain Name)
      → HandlesRequests self
      → IsQuietAt slot c
      → Settles IsShallow (broadcast_msg mode self (Message.prepare (prepare_for slot m)) c)
  prepare-Settles mode self slot m c reqs h =
      Settles-weaken (IsQuietAt slot) IsShallow _ (λ d g. g.0)
        (broadcast_msg-Settles (IsQuietAt slot) mode self (Message.prepare (prepare_for slot m))
          (λ e d g. g) (λ d g. reqs.prepare slot (prepare_for slot m) d refl g) c h)

  pub accept-Settles :
      (mode : Mode) (self : Handler Name) (slot : ℕ) (m : MsgAccept) (c : Captain Name)
      → HandlesRequests self
      → IsQuietAt slot c
      → Settles IsShallow (broadcast_msg mode self (Message.accept (accept_for slot m)) c)
  accept-Settles mode self slot m c reqs h =
      Settles-weaken (IsQuietAt slot) IsShallow _ (λ d g. g.0)
        (broadcast_msg-Settles (IsQuietAt slot) mode self (Message.accept (accept_for slot m))
          (λ e d g. g) (λ d g. reqs.accept slot (accept_for slot m) d refl g) c h)

  module _ (mode : Mode) (build : mode_type mode ≢ 1) (self : Handler Name)
      (reqs : HandlesRequests self) where
    pub start_prepare-Settles :
        (try_time : ℕ) (client : Name) (value : PropValue) (c : Captain Name)
        → IsShallow c
        → Settles IsShallow (start_prepare mode self try_time client value c)
    unfolding start_prepare
    start_prepare-Settles try_time client value c h =
        let new = msg_prepare-IsNew mode c.view value build in
        prepare-Settles mode self (u64 (c.max_slot + 1))
          (msg_prepare c.view (new_proposer mode c.view value)).0 _ reqs
          (put_proposer-IsQuietAt (u64 (c.max_slot + 1)) _
            (record c { max_slot = u64 (c.max_slot + 1) }) h
            (new-IsMany (own_key c) c.view.q_size _ h.quorate new)
            (new-IsQuiet (own_key c) c.view.q_size _ new))

    start_accept-Settles :
        (try_time : ℕ) (client : Name) (value : PropValue) (c : Captain Name)
        → IsShallow c
        → Settles IsShallow (start_accept mode self try_time client value c)
    unfolding start_accept
    start_accept-Settles try_time client value c h =
        let p = init_curr_value (gen_next_ballot c.view (new_proposer mode c.view value)) in
        let new = init_curr_value-IsNew mode c.view value build in
        Settles-after IsShallow (msg_accept c.view p) _ (msg_accept-IsSettled c.view p) (λ m.
          accept-Settles mode self (u64 (c.max_slot + 1)) m _ reqs (
            put_proposer-IsQuietAt (u64 (c.max_slot + 1)) _
              (record c { max_slot = u64 (c.max_slot + 1) }) h
              (new-IsMany (own_key c) c.view.q_size _ h.quorate new)
              (new-IsQuiet (own_key c) c.view.q_size _ new)))

    pub start_slot-Settles :
        (client : Name) (value : PropValue) (c : Captain Name)
        → IsShallow c
        → Settles IsShallow (start_slot mode self client value c)
    unfolding start_slot
    start_slot-Settles client value c h =
        Settles-if IsShallow (mode_type mode == 2) (start_accept mode self 1 client value c)
          (start_prepare mode self 1 client value c) (λ e. start_accept-Settles 1 client value c h)
          (λ e. start_prepare-Settles 1 client value c h)

    pub dequeue-Settles :
        (c : Captain Name) → IsShallow c → Settles (λ r. IsShallow r.2) (dequeue c)
    unfolding dequeue
    dequeue-Settles c h = go c.tocommit_values c.tocommit_clients
      where
        go :
            (values : List PropValue) (clients : List Name)
            → Settles {A = PropValue × Name × Captain Name}
                (λ r. IsShallow r.2)
                (elim values [
                  | [] ↦ fault
                  | v ∷ vs ↦ elim clients [
                    | [] ↦ fault
                    | n ∷ ns ↦ ok (v, n, record c { tocommit_values = vs; tocommit_clients = ns })
                  ]
                ])
        go [] clients = tt
        go (v ∷ vs) [] = tt
        go (v ∷ vs) (n ∷ ns) = h

    assign-IsShallow :
        (c : Captain Name) (name : DataName Name) (new : Name)
        → IsShallow c
        → IsShallow (assign c name new)
    assign-IsShallow c dum new h = h
    assign-IsShallow c (named old) new h = h

    pub commit_value-Settles :
        (value : PropValue) (name : DataName Name) (c : Captain Name)
        → IsShallow c
        → Settles IsShallow (commit_value mode self value name c)
    unfolding commit_value
    commit_value-Settles value name c h =
        Settles-if IsShallow (ltb c.window_size (length c.proposers)) (ok c) _ (λ e. h)
          (λ e.
            Settles-if IsShallow (length c.proposers == c.window_size)
              (ok (enqueue value (resolve c name) c)) _ (λ e. h)
              (λ e.
                Settles-if IsShallow (ltb 0 (length c.tocommit_values)) _
                  (start_slot mode self (resolve c name) value c)
                  (λ e.
                    Settles-bind (λ r. IsShallow r.2) IsShallow
                      (dequeue (enqueue value (resolve c name) c)) _
                      (dequeue-Settles (enqueue value (resolve c name) c) h)
                      (λ front g.
                        start_slot-Settles front.1 front.0 (assign front.2 name front.1)
                          (assign-IsShallow front.2 name front.1 g)))
                  (λ e. start_slot-Settles (resolve c name) value c h)))

    pub commit_data-Settles :
        (content : Bytes) (name : DataName Name) (c : Captain Name)
        → IsShallow c
        → Settles IsShallow (commit_data mode self content name c)
    unfolding commit_data next_value_id
    commit_data-Settles content name c h =
        Settles-if IsShallow (if_master c.view) _ _
          (λ e. commit_value-Settles _ name (next_value_id c) h)
          (λ e.
            Settles-bind (Same (next_value_id c)) IsShallow _ _
              (send_to-Same (Message.commit _) c.view.master_id (next_value_id c))
              (λ d s. Same-IsShallow (next_value_id c) d s h))

    pub master_change-Settles :
        (command : ℕ → Bytes) (value : PropValue) (c : Captain Name)
        → IsShallow c
        → Settles IsShallow (master_change mode self command value c)
    unfolding master_change next_value_id
    master_change-Settles command value c h =
        Settles-if IsShallow (if_master c.view) _ _ (λ e. commit_value-Settles value dum c h)
          (λ e. commit_value-Settles value dum _ h)
