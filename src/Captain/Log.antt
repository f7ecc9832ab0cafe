-- ===== src/Captain/Log.antt =====
-- The log of chosen values of captain.cpp: `add_chosen_value`, `add_callback` and the readers.

pub mod Invariant
pub mod Growth
pub mod Delivery
use ndnpaxos.Prelude.{
  ℕ, zero, suc, ◌+◌, ◌-◌, Bool, true, false, List, [], ◌∷◌, ◌++◌, Option, none, some, get_elem?,
  set, replicate, ltb, leb, ◌==◌, if◌then◌else◌, Outcome, ok, fault, deref, ◌>>=◌,
}
use ndnpaxos.Types.{CmdType, PropValue, u16}
use ndnpaxos.View.{set_master, whoami}
use ndnpaxos.Proposer.{is_set}
use ndnpaxos.Captain.State.{Captain, Event, called, called_full, emit}

module _ {Name : Type 0} where
  -- A SET_MASTER command takes effect as it is passed; it also ends a wait of the new master.
  unfoldable pub apply_command : PropValue → Captain Name → Captain Name
  apply_command value c = elim value.cmd_type [
    | none ↦ c
    | some cmd ↦ elim cmd [
      | CmdType.set_master ↦ record c {
        view = set_master c.view (u16 value.id);
        commit_ok = if u16 value.id == whoami c.view then true else c.commit_ok;
      }
      | _ ↦ c
    ]
  ]

  abbrev pub call_full : ℕ → PropValue → Captain Name → Captain Name
  call_full slot value c =
      if c.has_callback_full then emit (called_full slot value (u16 value.id)) c else c

  abbrev pub call : ℕ → PropValue → Captain Name → Captain Name
  call slot value c = if c.has_callback then emit (called slot value.content) c else c

  -- The body of the loop of `add_callback`, once the next slot is known to hold `value`.
  unfoldable pub deliver : PropValue → Captain Name → Captain Name
  unfolding apply_command
  deliver value c =
      let slot = suc c.max_chosen_without_hole in
      call slot value
        (call_full slot value (apply_command value (record c { max_chosen_without_hole = slot })))

  -- The loop of `add_callback`, on fuel: the slots above the prefix without holes.
  unfoldable pub callback_loop : ℕ → Captain Name → Outcome (Captain Name)
  callback_loop zero c = ok c
  callback_loop (suc fuel) c =
      if ltb c.max_chosen_without_hole c.max_chosen
      then (deref (get_elem? c.chosen_values (suc c.max_chosen_without_hole))
          >>= elim [ none ↦ ok c | some value ↦ callback_loop fuel (deliver value c) ])
      else ok c

  unfoldable pub add_callback : Captain Name → Outcome (Captain Name)
  unfolding callback_loop
  add_callback c = callback_loop (c.max_chosen - c.max_chosen_without_hole) c

  -- A slot up to `max_chosen_` is filled once; a slot above it extends the log, with holes.
  unfoldable pub store_value : ℕ → PropValue → Captain Name → Outcome (Captain Name)
  store_value slot value c =
      if leb slot c.max_chosen
      then (deref (get_elem? c.chosen_values slot) >>= elim [
        | none ↦ ok (record c { chosen_values = set c.chosen_values slot (some value) })
        | some old ↦ ok c
      ])
      else ok (record c {
        chosen_values =
            c.chosen_values ++ (replicate (slot - suc c.max_chosen) none ++ some value ∷ []);
        max_chosen = slot;
      })

  unfoldable pub add_chosen_value : ℕ → PropValue → Captain Name → Outcome (Captain Name)
  unfolding store_value add_callback
  add_chosen_value slot value c = store_value slot value c >>= add_callback

  -- The node that the value was learned from is only logged.
  abbrev pub add_learn_value : ℕ → PropValue → Captain Name → Outcome (Captain Name)
  add_learn_value slot value c = add_chosen_value slot value c

  unfoldable pub get_chosen_value : Captain Name → ℕ → Outcome (Option PropValue)
  get_chosen_value c slot =
      if leb slot c.max_chosen then deref (get_elem? c.chosen_values slot) else ok none

  -- `max_chosen_ >= slot && chosen_values_[slot]`
  unfoldable pub is_chosen : Captain Name → ℕ → Outcome Bool
  is_chosen c slot =
      if leb slot c.max_chosen
      then (deref (get_elem? c.chosen_values slot) >>= λ x. ok (is_set x))
      else ok false
