-- ===== src/Captain/Replica/Dispatching.antt =====
-- The rest of `handle_msg` (captain.cpp), for any relation that the steps of a replica keep and any depth
-- of the calls for its own messages.
use ndnpaxos.Prelude.{ℕ, zero, suc, refl, true, Option, none, some, ok, Ends, Ends-if, Ends-after}
use ndnpaxos.Types.{u16, Mode, PropValue, MsgDecide, MsgLearn, MsgTeach, MsgCommit, Message}
use ndnpaxos.View.{if_master}
use ndnpaxos.Rs.{Fec}
use ndnpaxos.Captain.State.{Captain, DataName, dum}
use ndnpaxos.Captain.Log.{add_learn_value, is_chosen}
use ndnpaxos.Captain.Log.Delivery.{calls_of, full_calls_of}
use ndnpaxos.Captain.Handlers.{on_prepare, on_promise, on_accept, on_accepted}
use ndnpaxos.Captain.Dispatch.{
  known_value, msg_learn, on_decide, on_learn, on_teach, on_commit, handle_with, handle_msg,
}
use ndnpaxos.Commo.{Handler, send_reply}
use ndnpaxos.Captain.Replica.{IsStable, HandlerKeeps}
use ndnpaxos.Captain.Replica.Sending.{send_to-Keeps, commit_value_after}
use ndnpaxos.Captain.Replica.Handling.{
  on_prepare-Keeps, on_promise-Keeps, on_accept-Keeps, on_accepted-Keeps,
}

module _ {Name : Type 0} (R : Captain Name → Captain Name → Type 0) (s : IsStable R) where
  send_reply-Keeps :
      (m : Message) (name : DataName Name) (c : Captain Name) → R c (send_reply m name c)
  unfolding calls_of full_calls_of
  send_reply-Keeps m name c =
      s.frame c (send_reply m name c) refl refl refl refl refl refl refl refl

  on_decide-Keeps :
      (m : MsgDecide) (name : DataName Name) (c : Captain Name) → Ends (R c) (on_decide m name c)
  unfolding on_decide
  on_decide-Keeps m name c = Ends-after (R c) (is_chosen c m.header.slot_id) _ (λ old.
      Ends-if (R c) old (ok c) _ (s.reflexive c) (
        Ends-after (R c) (known_value m.header.slot_id m.value_id c) _
          (λ found. found_after found)))
    where
      found_after :
          (found : Option PropValue)
          → Ends {A = Captain Name} (R c) (elim found [
            | some value ↦ add_learn_value m.header.slot_id value c
            | none ↦ ok (send_reply (Message.learn (msg_learn m.header.slot_id c)) name c)
          ])
      found_after (some value) = s.adds m.header.slot_id value c
      found_after none = send_reply-Keeps _ name c

  on_learn-Keeps :
      (mode : Mode) (fec : Fec) (m : MsgLearn) (c : Captain Name)
      → Ends (R c) (on_learn mode fec m c)
  unfolding on_learn
  on_learn-Keeps mode fec m c = Ends-after (R c) (is_chosen c m.header.slot_id) _ (λ there.
      Ends-if (R c) there _ (ok c)
        (Ends-after (R c) _ _
          (λ answer. send_to-Keeps R s (Message.teach answer) (u16 m.header.node_id) c))
        (s.reflexive c))

  on_teach-Keeps : (m : MsgTeach) (c : Captain Name) → Ends (R c) (on_teach m c)
  unfolding on_teach
  on_teach-Keeps m c =
      Ends-after (R c) (is_chosen c m.header.slot_id) _
        (λ old. Ends-if (R c) old (ok c) _ (s.reflexive c) (s.adds m.header.slot_id m.prop_value c))

  on_commit-Keeps :
      (mode : Mode) (self : Handler Name) (m : MsgCommit) (name : DataName Name) (c : Captain Name)
      → HandlerKeeps R self
      → Ends (R c) (on_commit mode self m name c)
  unfolding on_commit
  on_commit-Keeps mode self m name c h =
      Ends-if (R c) (if_master c.view) _ (ok (record c { commit_ok = true }))
        (commit_value_after R s self h mode m.prop_value dum c
          (send_reply (Message.commit m) name c) (send_reply-Keeps (Message.commit m) name c))
        (s.frame c (record c { commit_ok = true }) refl refl refl refl refl refl refl refl)

  handle_with-Keeps :
      (mode : Mode) (fec : Fec) (self : Handler Name)
      → HandlerKeeps R self
      → HandlerKeeps R (handle_with mode fec self)
  unfolding handle_with
  handle_with-Keeps mode fec self h m name c =
      Ends-if (R c) c.work _ (ok c) (cases m) (s.reflexive c)
    where
      cases :
          (m : Message)
          → Ends {A = Captain Name} (R c) (elim m [
            | Message.prepare p ↦ on_prepare self p name c
            | Message.promise p ↦ on_promise mode fec self p c
            | Message.accept p ↦ on_accept self p name c
            | Message.accepted p ↦ on_accepted mode self p name c
            | Message.decide p ↦ on_decide p name c
            | Message.learn p ↦ on_learn mode fec p c
            | Message.teach p ↦ on_teach p c
            | Message.commit p ↦ on_commit mode self p name c
            | Message.command p ↦ ok c
          ])
      cases (Message.prepare p) = on_prepare-Keeps R s self h p name c
      cases (Message.promise p) = on_promise-Keeps R s self h mode fec p c
      cases (Message.accept p) = on_accept-Keeps R s self h p name c
      cases (Message.accepted p) = on_accepted-Keeps R s self h mode p name c
      cases (Message.decide p) = on_decide-Keeps p name c
      cases (Message.learn p) = on_learn-Keeps mode fec p c
      cases (Message.teach p) = on_teach-Keeps p c
      cases (Message.commit p) = on_commit-Keeps mode self p name c h
      cases (Message.command p) = s.reflexive c

  pub handle_msg-Keeps :
      (mode : Mode) (fec : Fec) (depth : ℕ) → HandlerKeeps R (handle_msg mode fec depth)
  unfolding handle_msg
  handle_msg-Keeps mode fec zero m name c = tt
  handle_msg-Keeps mode fec (suc depth) m name c =
      handle_with-Keeps mode fec (handle_msg mode fec depth) (handle_msg-Keeps mode fec depth) m
        name c
