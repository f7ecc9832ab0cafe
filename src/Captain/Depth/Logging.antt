-- ===== src/Captain/Depth/Logging.antt =====
-- What a replica (captain.cpp) does with its log and its queues runs out of no fuel, and leaves the
-- proposers as they are.
use ndnpaxos.Prelude.{
  ℕ, zero, suc, ◌≡◌, refl, ◌∙◌, sym, subst, Bool, true, false, Option, none, some, get_elem?, leb,
  ltb, if◌then◌else◌, ok, deref, length, ◌-◌, set, arith, ◌==◌,
}
use ndnpaxos.Prelude.Settling.{
  Settles, IsSettled, Settles-bind, Settles-after, Settles-if, Settles-weaken, deref-IsSettled,
}
use ndnpaxos.Types.{PropValue, CmdType, Message, u16}
use ndnpaxos.View.{nodes_size, whoami, set_master}
use ndnpaxos.Captain.State.{Captain, Event, emit}
use ndnpaxos.Captain.Log.{
  call_full, apply_command, deliver, callback_loop, add_callback, store_value, add_chosen_value,
  is_chosen,
}
use ndnpaxos.Captain.Handlers.{acceptor_at}
use ndnpaxos.Captain.Dispatch.{known_value}
use ndnpaxos.Commo.{send_to}
use ndnpaxos.Captain.Depth.{IsShallow, AreMany}

-- The number of the node, the quorum and the proposers are the same.
pub record Same {Name : Type 0} (c d : Captain Name) : Type 0 where
  pub node : d.view.node_id ≡ c.view.node_id
  pub quorum : d.view.q_size ≡ c.view.q_size
  pub proposers : d.proposers ≡ c.proposers

module _ {Name : Type 0} where
  Same-trans : (c d e : Captain Name) → Same c d → Same d e → Same c e
  Same-trans c d e f g = record {
    node = g.node ∙ f.node;
    quorum = g.quorum ∙ f.quorum;
    proposers = g.proposers ∙ f.proposers;
  }

  pub Same-IsShallow : (c d : Captain Name) → Same c d → IsShallow c → IsShallow d
  Same-IsShallow c d s h =
      subst (λ ps. AreMany (u16 d.view.node_id) d.view.q_size ps) (sym s.proposers)
        (subst (λ q. AreMany (u16 d.view.node_id) q c.proposers) (sym s.quorum)
          (subst (λ n. AreMany (u16 n) c.view.q_size c.proposers) (sym s.node) h))

  unchanged-Same : (c : Captain Name) → Same c c
  unchanged-Same c = record { node = refl; quorum = refl; proposers = refl }

  apply_command-Same : (value : PropValue) (c : Captain Name) → Same c (apply_command value c)
  unfolding apply_command
  apply_command-Same value c = go value.cmd_type
    where
      go :
          (o : Option CmdType)
          → Same {Name = Name} c (elim o [
            | none ↦ c
            | some cmd ↦ elim cmd [
              | CmdType.set_master ↦ record c {
                view = set_master c.view (u16 value.id);
                commit_ok = if u16 value.id == whoami c.view then true else c.commit_ok;
              }
              | _ ↦ c
            ]
          ])
      go none = unchanged-Same c
      go (some CmdType.set_master) = record { node = refl; quorum = refl; proposers = refl }
      go (some CmdType.reply_decide) = unchanged-Same c
      go (some CmdType.reply_teach) = unchanged-Same c

  -- A callback that may be set.
  emit-Same :
      (b : Bool) (e : Event Name) (c d : Captain Name)
      → Same c d
      → Same c (if b then emit e d else d)
  emit-Same true e c d s = record { node = s.node; quorum = s.quorum; proposers = s.proposers }
  emit-Same false e c d s = s

  deliver-Same : (value : PropValue) (c : Captain Name) → Same c (deliver value c)
  unfolding deliver
  deliver-Same value c =
      let slot = suc c.max_chosen_without_hole in
      let d = apply_command value (record c { max_chosen_without_hole = slot }) in
      let s = apply_command-Same value (record c { max_chosen_without_hole = slot }) in
      let begun : Same c d = record { node = s.node; quorum = s.quorum; proposers = s.proposers } in
      emit-Same (call_full slot value d).has_callback _ c (call_full slot value d)
        (emit-Same d.has_callback_full _ c d begun)

  callback_loop-Same : (fuel : ℕ) (c : Captain Name) → Settles (Same c) (callback_loop fuel c)
  unfolding callback_loop
  callback_loop-Same zero c = record { node = refl; quorum = refl; proposers = refl }
  callback_loop-Same (suc fuel) c =
      Settles-if (Same c) (ltb c.max_chosen_without_hole c.max_chosen) _ (ok c)
        (λ more.
          Settles-after (Same c) _ _ (deref-IsSettled (get_elem? c.chosen_values _))
            (λ x. next (callback_loop-Same fuel) x))
        (λ e. record { node = refl; quorum = refl; proposers = refl })
    where
      next :
          ((d : Captain Name) → Settles (Same d) (callback_loop fuel d))
          → (x : Option PropValue)
          → Settles {A = Captain Name}
              (Same c)
              (elim x [ none ↦ ok c | some value ↦ callback_loop fuel (deliver value c) ])
      next loop none = record { node = refl; quorum = refl; proposers = refl }
      next loop (some value) =
          Settles-weaken (Same (deliver value c)) (Same c) (callback_loop fuel (deliver value c))
            (λ e s. Same-trans c (deliver value c) e (deliver-Same value c) s)
            (loop (deliver value c))

  store_value-Same :
      (slot : ℕ) (value : PropValue) (c : Captain Name)
      → Settles (Same c) (store_value slot value c)
  unfolding store_value
  store_value-Same slot value c =
      Settles-if (Same c) (leb slot c.max_chosen) _ _
        (λ e.
          Settles-after (Same c) _ _ (deref-IsSettled (get_elem? c.chosen_values slot))
            (λ x. put x))
        (λ e. record { node = refl; quorum = refl; proposers = refl })
    where
      put :
          (x : Option PropValue)
          → Settles {A = Captain Name} (Same c) (elim x [
            | none ↦ ok (record c { chosen_values = set c.chosen_values slot (some value) })
            | some old ↦ ok c
          ])
      put none = record { node = refl; quorum = refl; proposers = refl }
      put (some old) = record { node = refl; quorum = refl; proposers = refl }

  pub add_chosen_value-Same :
      (slot : ℕ) (value : PropValue) (c : Captain Name)
      → Settles (Same c) (add_chosen_value slot value c)
  unfolding add_chosen_value add_callback
  add_chosen_value-Same slot value c =
      Settles-bind (Same c) (Same c) (store_value slot value c) _ (store_value-Same slot value c)
        (λ d s.
          Settles-weaken (Same d) (Same c) (add_callback d) (λ e t. Same-trans c d e s t)
            (callback_loop-Same (d.max_chosen - d.max_chosen_without_hole) d))

  pub is_chosen-IsSettled : (c : Captain Name) (slot : ℕ) → IsSettled (is_chosen c slot)
  unfolding is_chosen
  is_chosen-IsSettled c slot =
      Settles-if (λ b. Unit) (leb slot c.max_chosen) _ _
        (λ e.
          Settles-after (λ b. Unit) _ _ (deref-IsSettled (get_elem? c.chosen_values slot))
            (λ x. tt))
        (λ e. tt)

  pub acceptor_at-IsSettled : (slot : ℕ) (c : Captain Name) → IsSettled (acceptor_at slot c)
  unfolding acceptor_at
  acceptor_at-IsSettled slot c =
      Settles-after (λ a. Unit) (deref (get_elem? c.acceptors slot)) deref
        (deref-IsSettled (get_elem? c.acceptors slot)) (λ a. deref-IsSettled a)

  pub known_value-IsSettled : (slot id : ℕ) (c : Captain Name) → IsSettled (known_value slot id c)
  unfolding known_value
  known_value-IsSettled slot id c =
      Settles-if (λ x. Unit) (ltb slot (length c.acceptors)) _ _
        (λ e. Settles-after (λ x. Unit) _ _ (acceptor_at-IsSettled slot c) (λ a. ground arith))
        (λ e. tt)

  pub send_to-Same :
      (m : Message) (node : ℕ) (c : Captain Name) → Settles (Same c) (send_to m node c)
  send_to-Same m node c =
      Settles-if (Same c) (ltb node (nodes_size c.view)) _ _
        (λ e. record { node = refl; quorum = refl; proposers = refl }) (λ e. tt)
