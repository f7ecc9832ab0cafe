-- ===== src/Captain/Replica.antt =====
-- What an operation of a replica (captain.cpp) is to keep.
pub mod Sending
pub mod Handling
pub mod Dispatching
pub mod Runs
pub mod Queues
pub mod Numbers
use ndnpaxos.Prelude.{
  ℕ, ◌∷◌, ◌≡◌, refl, sym, ◌∙◌, ap, ap₂, subst, Bool, true, false, if◌then◌else◌, List, Option,
  Outcome, ok, ok-injective, Ends,
}
use ndnpaxos.Types.{PropValue, Message}
use ndnpaxos.Captain.State.{Captain, DataName}
use ndnpaxos.Captain.Start.{enqueue}
use ndnpaxos.Commo.{Handler}
use ndnpaxos.Captain.Log.{add_chosen_value}
use ndnpaxos.Captain.Log.Invariant.{Holds, IsLog, IsDelivered}
use ndnpaxos.Captain.Log.Growth.{add_chosen_value_lem}
use ndnpaxos.Captain.Log.Delivery.{
  flags, deliveries, Watch, IsWatch, callback_watch, passed, IsPassed, add_chosen_value_order,
}

-- A callback is set and has been called in order for all that is at hand, on a well-formed log.
pub record IsWatched {Name A : Type 0} (watch : Watch Name A) (c : Captain Name) : Type 0 where
  pub log : IsLog c
  pub on : watch.flag c ≡ true
  pub order : IsPassed watch c
  pub delivered : IsDelivered c

-- The callback of slots and contents.
abbrev pub IsReplica : {Name : Type 0} → Captain Name → Type 0
IsReplica c = IsWatched callback_watch c

-- A relation between the states before and after that every step of a replica is to have: what the
-- handlers do to the log and to the queues, one thing at a time. A frame step leaves both, and the
-- calls of the callbacks and the counter of ids, as they are.
pub record IsStable {Name : Type 0} (R : Captain Name → Captain Name → Type 0) : Type 0 where
  pub reflexive : (c : Captain Name) → R c c
  pub transitive : (c d e : Captain Name) → R c d → R d e → R c e
  pub frame :
      (c d : Captain Name)
      → d.chosen_values ≡ c.chosen_values
      → d.max_chosen ≡ c.max_chosen
      → d.max_chosen_without_hole ≡ c.max_chosen_without_hole
      → flags d ≡ flags c
      → deliveries d.events ≡ deliveries c.events
      → d.tocommit_values ≡ c.tocommit_values
      → d.tocommit_clients ≡ c.tocommit_clients
      → d.value_id ≡ c.value_id
      → R c d
  pub enqueues :
      (value : PropValue) (client : Name) (c : Captain Name) → R c (enqueue value client c)
  pub dequeues :
      (value : PropValue) (values : List PropValue) (client : Name) (clients : List Name)
      (c : Captain Name)
      → c.tocommit_values ≡ value ∷ values
      → c.tocommit_clients ≡ client ∷ clients
      → R c (record c { tocommit_values = values; tocommit_clients = clients })
  pub adds :
      (slot : ℕ) (value : PropValue) (c : Captain Name) → Ends (R c) (add_chosen_value slot value c)

-- The handler of a replica's own messages has the relation.
abbrev pub HandlerKeeps :
    {Name : Type 0} → (Captain Name → Captain Name → Type 0) → Handler Name → Type 0
HandlerKeeps {Name} R self =
    (m : Message) (name : DataName Name) (c : Captain Name) → Ends (R c) (self m name c)

module _ {Name : Type 0} (R : Captain Name → Captain Name → Type 0) where
  pub if_either : (b : Bool) (c d e : Captain Name) → R c d → R c e → R c (if b then d else e)
  if_either true c d e f g = f
  if_either false c d e f g = g

  -- Steps one after the other.
  pub Ends-trans :
      (c d : Captain Name) (o : Outcome (Captain Name))
      → IsStable R
      → R c d
      → Ends (R d) o
      → Ends (R c) o
  Ends-trans c d (ok e) s f g = s.transitive c d e f g
  Ends-trans c d Outcome.fault s f g = tt
  Ends-trans c d Outcome.spent s f g = tt

-- From `c` to `d` the invariant is kept and no chosen value is lost or changed.
pub record Preserves {Name A : Type 0} (watch : Watch Name A) (c d : Captain Name) : Type 0 where
  pub valid : IsWatched watch c → IsWatched watch d
  pub kept : IsWatched watch c → (slot : ℕ) (w : PropValue) → Holds c slot w → Holds d slot w

module _ {Name A : Type 0} (watch : Watch Name A) (laws : IsWatch watch) where
  -- A step that leaves the log and the calls as they are.
  pub frame-Preserves :
      (c d : Captain Name)
      → d.chosen_values ≡ c.chosen_values
      → d.max_chosen ≡ c.max_chosen
      → d.max_chosen_without_hole ≡ c.max_chosen_without_hole
      → flags d ≡ flags c
      → deliveries d.events ≡ deliveries c.events
      → Preserves watch c d
  frame-Preserves c d chosen top hole on calls = record {
    valid = λ h. record {
      log = record {
        size = rw (chosen, top) h.log.size;
        within = rw (top, hole) h.log.within;
        filled = rw (hole, chosen) h.log.filled;
      };
      on = (laws.frame c d on calls).0 ∙ h.on;
      order =
          (laws.frame c d on calls).1
          ∙ (h.order ∙ sym (ap₂ (passed watch.pick watch.default) chosen hole));
      delivered = rw (hole, top, chosen) h.delivered;
    };
    kept = λ h slot w x. rw chosen x;
  }

  add_chosen_value-Preserves :
      (slot : ℕ) (value : PropValue) (c : Captain Name)
      → Ends (Preserves watch c) (add_chosen_value slot value c)
  add_chosen_value-Preserves slot value c = go (add_chosen_value slot value c) refl
    where
      go :
          (o : Outcome (Captain Name))
          → add_chosen_value slot value c ≡ o
          → Ends (Preserves watch c) o
      go Outcome.fault e = tt
      go Outcome.spent e = tt
      go (ok d) e = record {
        valid = λ h.
            let (f, adds, added, whole) = add_chosen_value_lem slot value c h.log in
            let (on, order) =
              add_chosen_value_order watch laws slot value c d h.log (h.on, h.order) e in
            record {
              log = subst IsLog (ok-injective (sym adds ∙ e)) added.log;
              on = on;
              order = order;
              delivered = subst IsDelivered (ok-injective (sym adds ∙ e)) whole;
            };
        kept = λ h i w held.
            let (f, adds, added, _) = add_chosen_value_lem slot value c h.log in
            subst (λ x. Holds x i w) (ok-injective (sym adds ∙ e)) (added.kept i w held);
      }

  pub Preserves-IsStable : IsStable {Name = Name} (Preserves watch)
  Preserves-IsStable = record {
    reflexive = λ c. record { valid = λ h. h; kept = λ h slot w x. x };
    transitive = λ c d e f g. record {
      valid = λ h. g.valid (f.valid h);
      kept = λ h slot w x. g.kept (f.valid h) slot w (f.kept h slot w x);
    };
    frame = λ c d chosen top hole on calls values clients number.
        frame-Preserves c d chosen top hole on calls;
    enqueues =
        λ value client c. frame-Preserves c (enqueue value client c) refl refl refl refl refl;
    dequeues = λ value values client clients c e f.
        frame-Preserves c (record c { tocommit_values = values; tocommit_clients = clients }) refl
          refl refl refl refl;
    adds = add_chosen_value-Preserves;
  }
