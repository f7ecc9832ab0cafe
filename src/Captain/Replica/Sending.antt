-- ===== src/Captain/Replica/Sending.antt =====
-- Sending messages (commo.cpp) and starting proposers (captain.cpp, `commit` and `master_change`), for
-- any relation that the steps of a replica keep.
use ndnpaxos.Prelude.{
  ℕ, zero, suc, refl, ◌≡◌, false, List, [], ◌∷◌, ◌++◌, some, length, ltb, ◌==◌, if◌then◌else◌, ok,
  fault, Ends, Ends-bind, Ends-if, Ends-after,
}
use ndnpaxos.Types.{Mode, mode_type, PropValue, Bytes, Message, msg_type, CmdType}
use ndnpaxos.View.{nodes_size, whoami, if_master}
use ndnpaxos.Proposer.{msg_accept, new_proposer, gen_next_ballot, init_curr_value}
use ndnpaxos.Captain.State.{
  Captain, DataName, dum, named, resolve, assign, emit, Event, next_value_id, waits,
}
use ndnpaxos.Captain.Start.{
  start_prepare, start_accept, start_slot, enqueue, dequeue, commit_value, commit_data,
  master_change,
}
use ndnpaxos.Captain.Log.Delivery.{calls_of, full_calls_of}
use ndnpaxos.Commo.{Handler, send_each, broadcast_msg, send_to, broadcast_range}
use ndnpaxos.Captain.Replica.{IsStable, HandlerKeeps, Ends-trans}

pub send_to-Keeps :
    {Name : Type 0} (R : Captain Name → Captain Name → Type 0) (s : IsStable R) (m : Message)
    (node : ℕ) (c : Captain Name)
    → Ends (R c) (send_to m node c)
unfolding calls_of full_calls_of
send_to-Keeps R s m node c =
    Ends-if (R c) (ltb node (nodes_size c.view)) (ok (emit (Event.sent node m) c)) fault
      (s.frame c (emit (Event.sent node m) c) refl refl refl refl refl refl refl refl) tt

module _ {Name : Type 0} (R : Captain Name → Captain Name → Type 0) (s : IsStable R)
    (self : Handler Name) (h : HandlerKeeps R self) where
  send_each-Keeps :
      (m : Message) (i rounds : ℕ) (c : Captain Name) → Ends (R c) (send_each self m i rounds c)
  unfolding send_each calls_of full_calls_of
  send_each-Keeps m i zero c = s.reflexive c
  send_each-Keeps m i (suc rounds) c =
      Ends-bind (R c) (R c)
        (if i == whoami c.view then self m dum c else ok (emit (Event.sent i m) c))
        (send_each self m (suc i) rounds)
        (Ends-if (R c) (i == whoami c.view) (self m dum c) (ok (emit (Event.sent i m) c))
          (h m dum c) (s.frame c (emit (Event.sent i m) c) refl refl refl refl refl refl refl refl))
        (λ d f.
          Ends-trans R c d (send_each self m (suc i) rounds d) s f
            (send_each-Keeps m (suc i) rounds d))

  pub broadcast_msg-Keeps :
      (mode : Mode) (m : Message) (c : Captain Name) → Ends (R c) (broadcast_msg mode self m c)
  unfolding broadcast_msg calls_of full_calls_of
  broadcast_msg-Keeps mode m c =
      Ends-if (R c) (nodes_size c.view == 1) (ok (emit (Event.scheduled m) c)) _
        (s.frame c (emit (Event.scheduled m) c) refl refl refl refl refl refl refl refl)
        (send_each-Keeps m (broadcast_range mode c.view (msg_type m)).first
          (broadcast_range mode c.view (msg_type m)).number c)

  -- A broadcast after a step that leaves the log and the calls.
  pub broadcast_msg_after :
      (mode : Mode) (m : Message) (c d : Captain Name)
      → R c d
      → Ends (R c) (broadcast_msg mode self m d)
  broadcast_msg_after mode m c d f =
      Ends-trans R c d (broadcast_msg mode self m d) s f (broadcast_msg-Keeps mode m d)

  pub start_prepare-Keeps :
      (mode : Mode) (try_time : ℕ) (client : Name) (value : PropValue) (c : Captain Name)
      → Ends (R c) (start_prepare mode self try_time client value c)
  unfolding start_prepare
  start_prepare-Keeps mode try_time client value c =
      broadcast_msg_after mode _ c _ (s.frame c _ refl refl refl refl refl refl refl refl)

  start_accept-Keeps :
      (mode : Mode) (try_time : ℕ) (client : Name) (value : PropValue) (c : Captain Name)
      → Ends (R c) (start_accept mode self try_time client value c)
  unfolding start_accept
  start_accept-Keeps mode try_time client value c =
      Ends-after (R c)
        (msg_accept c.view
          (init_curr_value (gen_next_ballot c.view (new_proposer mode c.view value))))
        _
        (λ m. broadcast_msg_after mode _ c _ (s.frame c _ refl refl refl refl refl refl refl refl))

  pub start_slot-Keeps :
      (mode : Mode) (client : Name) (value : PropValue) (c : Captain Name)
      → Ends (R c) (start_slot mode self client value c)
  unfolding start_slot
  start_slot-Keeps mode client value c =
      Ends-if (R c) (mode_type mode == 2) (start_accept mode self 1 client value c)
        (start_prepare mode self 1 client value c) (start_accept-Keeps mode 1 client value c)
        (start_prepare-Keeps mode 1 client value c)

  pub dequeue-Keeps : (c d : Captain Name) → R c d → Ends (λ r. R c r.2) (dequeue d)
  unfolding dequeue
  dequeue-Keeps c d f = go d.tocommit_values d.tocommit_clients refl refl
    where
      go :
          (values : List PropValue) (clients : List Name)
          → d.tocommit_values ≡ values
          → d.tocommit_clients ≡ clients
          → Ends {A = PropValue × Name × Captain Name}
              (λ r. R c r.2)
              (elim values [
                | [] ↦ fault
                | v ∷ vs ↦ elim clients [
                  | [] ↦ fault
                  | n ∷ ns ↦ ok (v, n, record d { tocommit_values = vs; tocommit_clients = ns })
                ]
              ])
      go [] clients e g = tt
      go (v ∷ vs) [] e g = tt
      go (v ∷ vs) (n ∷ ns) e g =
          s.transitive c d (record d { tocommit_values = vs; tocommit_clients = ns }) f
            (s.dequeues v vs n ns d e g)

  assign-Keeps : (c : Captain Name) (name : DataName Name) (new : Name) → R c (assign c name new)
  assign-Keeps c dum new = s.frame c _ refl refl refl refl refl refl refl refl
  assign-Keeps c (named old) new = s.reflexive c

  pub commit_value-Keeps :
      (mode : Mode) (value : PropValue) (name : DataName Name) (c : Captain Name)
      → Ends (R c) (commit_value mode self value name c)
  unfolding commit_value
  commit_value-Keeps mode value name c =
      Ends-if (R c) (ltb c.window_size (length c.proposers)) (ok c) _ (s.reflexive c) (
        Ends-if (R c) (length c.proposers == c.window_size) (ok (enqueue value (resolve c name) c))
          _ (queued)
          (Ends-if (R c) (ltb 0 (length c.tocommit_values)) _
            (start_slot mode self (resolve c name) value c)
            (Ends-bind (λ r. R c r.2) (R c) (dequeue (enqueue value (resolve c name) c)) _
              (dequeue-Keeps c (enqueue value (resolve c name) c) queued)
              (λ front f.
                Ends-trans R c (assign front.2 name front.1)
                  (start_slot mode self front.1 front.0 (assign front.2 name front.1)) s
                  (s.transitive c front.2 (assign front.2 name front.1) f
                    (assign-Keeps front.2 name front.1))
                  (start_slot-Keeps mode front.1 front.0 (assign front.2 name front.1))))
            (start_slot-Keeps mode (resolve c name) value c)))
    where
      queued : R c (enqueue value (resolve c name) c)
      queued = s.enqueues value (resolve c name) c

  -- A commit after a step that leaves the log and the calls.
  pub commit_value_after :
      (mode : Mode) (value : PropValue) (name : DataName Name) (c d : Captain Name)
      → R c d
      → Ends (R c) (commit_value mode self value name d)
  commit_value_after mode value name c d f =
      Ends-trans R c d (commit_value mode self value name d) s f
        (commit_value-Keeps mode value name d)

  -- A commit of a string, given that the relation allows a new number.
  pub commit_data-Keeps :
      (mode : Mode) (content : Bytes) (name : DataName Name) (c : Captain Name)
      → R c (next_value_id c)
      → Ends (R c) (commit_data mode self content name c)
  unfolding commit_data next_value_id calls_of full_calls_of
  commit_data-Keeps mode content name c numbered =
      Ends-if (R c) (if_master c.view) _ _
        (commit_value_after mode _ name c (next_value_id c) numbered)
        (Ends-bind (R c) (R c) _ (λ e. ok (emit waits (record e { commit_ok = false })))
          (Ends-trans R c (next_value_id c) _ s numbered
            (send_to-Keeps R s (Message.commit _) c.view.master_id (next_value_id c)))
          (λ e f. s.transitive c e (emit waits (record e { commit_ok = false })) f (
            s.frame e (emit waits (record e { commit_ok = false })) refl refl refl refl refl refl
              refl refl)))

  -- A change of the master, given that the relation allows a new number, and a value without a client.
  pub master_change-Keeps :
      (mode : Mode) (command : ℕ → Bytes) (value : PropValue) (c : Captain Name)
      → R c (next_value_id c)
      → ((order : PropValue) (d : Captain Name)
          → R d (record d { tocommit_values = d.tocommit_values ++ order ∷ [] }))
      → Ends (R c) (master_change mode self command value c)
  unfolding master_change next_value_id
  master_change-Keeps mode command value c numbered pushes =
      Ends-if (R c) (if_master c.view) _ _ (commit_value-Keeps mode value dum c) (
        let d = next_value_id c in
        let order : PropValue = record {
          id = d.value_id;
          content = command d.value_id;
          cmd_type = some CmdType.set_master;
        } in
        let e = record d { tocommit_values = d.tocommit_values ++ order ∷ [] } in
        commit_value_after mode value dum c e (s.transitive c d e numbered (pushes order d)))
