-- ===== src/Captain/Replica/Numbers.antt =====
-- The ids that the replicas give to values (captain.cpp, `value_id_`): a counter over the node's number.
use ndnpaxos.Prelude.{
  none, ℕ, zero, suc, ◌+◌, ◌-◌, ◌*◌, ◌%◌, ◌^◌, ◌≤◌, ◌<◌, ◌≡◌, ◌≢◌, refl, ◌⊎◌, inl, inr, ◌∙◌, leb,
  some, get_elem?, deref, ltb, arith, ok, Ends, Ends-bind, Ends-after, Ends-if, Ends-Option,
  Ends-weaken, Ends-ok, ◌++◌, [], ◌∷◌,
}
use ndnpaxos.Types.{Mode, PropValue, Bytes, CmdType, Message}
use ndnpaxos.View.{View, if_master}
use ndnpaxos.Commo.{Handler}
use ndnpaxos.Rs.{Fec}
use ndnpaxos.Captain.State.{Captain, DataName, dum, new_captain, next_value_id}
use ndnpaxos.Captain.Log.{
  deliver, apply_command, callback_loop, add_callback, store_value, add_chosen_value,
}
use ndnpaxos.Captain.Start.{submit, commit_data, master_change}
use ndnpaxos.Captain.Dispatch.{handle_msg}
use ndnpaxos.Captain.Replica.{IsStable, HandlerKeeps}
use ndnpaxos.Captain.Replica.Sending.{send_to-Keeps, commit_value-Keeps}
use ndnpaxos.Captain.Replica.Dispatching.{handle_msg-Keeps}
use ndnpaxos.Captain.Replica.Runs.{
  Call, handles, commits, changes, crashes, Runs, here, then, new_replica,
}

module _ {Name : Type 0} where
  -- No id was given.
  abbrev SameNumber : Captain Name → Captain Name → Type 0
  SameNumber c d = d.value_id ≡ c.value_id

  deliver-SameNumber : (value : PropValue) (c : Captain Name) → SameNumber c (deliver value c)
  unfolding deliver apply_command
  deliver-SameNumber value c = ground arith

  callback_loop-SameNumber :
      (fuel : ℕ) (b c : Captain Name) → SameNumber b c → Ends (SameNumber b) (callback_loop fuel c)
  unfolding callback_loop
  callback_loop-SameNumber zero b c f = f
  callback_loop-SameNumber (suc fuel) b c f =
      Ends-if (SameNumber b) (ltb c.max_chosen_without_hole c.max_chosen) _ (ok c)
        (Ends-after (SameNumber b)
          (deref (get_elem? c.chosen_values (suc c.max_chosen_without_hole))) _
          (λ entry. Ends-Option (SameNumber b) entry (ok c) _ f (λ value.
            callback_loop-SameNumber fuel b (deliver value c) (deliver-SameNumber value c ∙ f))))
        f

  store_value-SameNumber :
      (slot : ℕ) (value : PropValue) (c : Captain Name)
      → Ends (SameNumber c) (store_value slot value c)
  unfolding store_value
  store_value-SameNumber slot value c =
      Ends-if (SameNumber c) (leb slot c.max_chosen) _ _
        (Ends-after (SameNumber c) (deref (get_elem? c.chosen_values slot)) _
          (λ entry. Ends-Option (SameNumber c) entry _ (λ old. ok c) refl (λ old. refl)))
        refl

  add_chosen_value-SameNumber :
      (slot : ℕ) (value : PropValue) (c : Captain Name)
      → Ends (SameNumber c) (add_chosen_value slot value c)
  unfolding add_chosen_value add_callback
  add_chosen_value-SameNumber slot value c =
      Ends-bind (SameNumber c) (SameNumber c) (store_value slot value c) add_callback
        (store_value-SameNumber slot value c)
        (λ d f. callback_loop-SameNumber (d.max_chosen - d.max_chosen_without_hole) c d f)

  SameNumber-IsStable : IsStable {Name = Name} SameNumber
  SameNumber-IsStable = record {
    reflexive = λ c. refl;
    transitive = λ c d e f g. g ∙ f;
    frame = λ c d chosen top hole on calls values clients number. number;
    enqueues = λ value client c. refl;
    dequeues = λ value values client clients c e f. refl;
    adds = add_chosen_value-SameNumber;
  }

  -- A commit of a string gives one id.
  commit_data-number :
      (mode : Mode) (self : Handler Name) (content : Bytes) (name : DataName Name)
      (c : Captain Name)
      → HandlerKeeps SameNumber self
      → Ends (λ e. e.value_id ≡ (next_value_id c).value_id) (commit_data mode self content name c)
  unfolding commit_data
  commit_data-number mode self content name c h =
      let d = next_value_id c in
      Ends-if (SameNumber d) (if_master d.view) _ _
        (commit_value-Keeps SameNumber SameNumber-IsStable self h mode _ name d)
        (Ends-bind (SameNumber d) (SameNumber d) _ _
          (send_to-Keeps SameNumber SameNumber-IsStable (Message.commit _) d.view.master_id d)
          (λ e f. f))

  -- A change of the master gives at most one.
  master_change-number :
      (mode : Mode) (self : Handler Name) (command : ℕ → Bytes) (value : PropValue)
      (c : Captain Name)
      → HandlerKeeps SameNumber self
      → Ends
          (λ e. (e.value_id ≡ c.value_id) ⊎ (e.value_id ≡ (next_value_id c).value_id))
          (master_change mode self command value c)
  unfolding master_change
  master_change-number mode self command value c h =
      let d = next_value_id c in
      let order : PropValue = record {
        id = d.value_id;
        content = command d.value_id;
        cmd_type = some CmdType.set_master;
      } in
      Ends-if (λ e. (e.value_id ≡ c.value_id) ⊎ (e.value_id ≡ d.value_id)) (if_master c.view) _ _
        (Ends-weaken (SameNumber c) _ _ (λ e f. inl f)
          (commit_value-Keeps SameNumber SameNumber-IsStable self h mode value dum c))
        (Ends-weaken (SameNumber d) _ _ (λ e f. inr f)
          (commit_value-Keeps SameNumber SameNumber-IsStable self h mode value dum
            (record d { tocommit_values = d.tocommit_values ++ order ∷ [] })))

module _ {Name : Type 0} (mode : Mode) (fec : Fec) where
  -- How many ids a call gives at most, and a run.
  abbrev gives : {c d : Captain Name} → Call mode fec c d → ℕ
  gives (handles depth m name d eq) = 0
  gives (commits depth content name d eq) = 1
  gives (changes depth command value d eq) = 1
  gives crashes = 0

  unfoldable pub count_ids : {c d : Captain Name} → Runs mode fec c d → ℕ
  unfolding gives
  count_ids here = 0
  count_ids (then before call) = gives call + count_ids before

  Call-number :
      (c d : Captain Name) (call : Call mode fec c d)
      → (d.value_id ≡ c.value_id) ⊎ ((gives call ≡ 1) × (d.value_id ≡ (next_value_id c).value_id))
  Call-number c d (handles depth m name e eq) = inl (
      Ends-ok (SameNumber c)
        (handle_msg-Keeps SameNumber SameNumber-IsStable mode fec depth m name c) eq)
  Call-number c d (commits depth content name e eq) = inr (
    refl,
    Ends-ok (λ e. e.value_id ≡ (next_value_id c).value_id)
        (commit_data-number mode (handle_msg mode fec depth) content name c
          (handle_msg-Keeps SameNumber SameNumber-IsStable mode fec depth))
        eq,
  )
  Call-number c d (changes depth command value e eq) =
      elim (Ends-ok (λ e. (e.value_id ≡ c.value_id) ⊎ (e.value_id ≡ (next_value_id c).value_id))
        (master_change-number mode (handle_msg mode fec depth) command value c
          (handle_msg-Keeps SameNumber SameNumber-IsStable mode fec depth))
        eq) [ inl same ↦ inl same | inr next ↦ inr (refl, next) ]
  Call-number c d crashes = inl refl

  next_number :
      (c : Captain Name)
      → c.value_id + 2 ^ 16 < 2 ^ 64
      → (next_value_id c).value_id ≡ c.value_id + 2 ^ 16
  unfolding next_value_id
  next_number c small = ground arith

  Runs-number :
      (c d : Captain Name) (r : Runs mode fec c d)
      → c.value_id + count_ids r * 2 ^ 16 < 2 ^ 64
      → (k : ℕ) × (k ≤ count_ids r) × (d.value_id ≡ c.value_id + k * 2 ^ 16)
  unfolding count_ids
  Runs-number c d here small = (0, omega arith, omega arith)
  Runs-number c d (then {d = e} before call) small =
      let (k, few, at_e) = Runs-number c e before (omega arith) in
      elim (Call-number e d call) [
        | inl same ↦ (k, omega arith, same ∙ at_e)
        | inr (one, next) ↦
            let after = next_number e (omega arith) in
            (suc k, omega arith, omega (arith, next, after, at_e))
      ]

  new_replica-number :
      (v : View) (window : ℕ) (empty_name : Name)
      → (new_replica mode fec v window empty_name).value_id ≡ v.node_id
  unfolding new_replica new_captain
  new_replica-number v window empty_name = refl

  -- The value that a commit of `content` submits, with its id.
  pub record IsSubmitted (depth : ℕ) (content : Bytes) (name : DataName Name) (c : Captain Name)
      (x : PropValue) : Type 0 where
    pub holds : x.content ≡ content
    pub submits :
        commit_data mode (handle_msg mode fec depth) content name c
        ≡ submit mode (handle_msg mode fec depth) x name (next_value_id c)

  abbrev value_of : Bytes → Captain Name → PropValue
  value_of content c = record {
    id = (next_value_id c).value_id;
    content = content;
    cmd_type = none;
  }

  value_of-IsSubmitted :
      (depth : ℕ) (content : Bytes) (name : DataName Name) (c : Captain Name)
      → IsSubmitted depth content name c (value_of content c)
  unfolding commit_data
  value_of-IsSubmitted depth content name c = record { holds = refl; submits = refl }

  -- Two new replicas with different node numbers of 16 bits, each in a run with fewer than 2^48 - 1
  -- commits and changes of the master: the values that they submit for the next strings that they
  -- commit, whatever these are, have different ids.
  pub ids_differ :
      (v w : View) (window other_window : ℕ) (empty_name : Name) (c d : Captain Name)
      (depth other_depth : ℕ) (content other : Bytes) (name other_name : DataName Name)
      (r : Runs mode fec (new_replica mode fec v window empty_name) c)
      (s : Runs mode fec (new_replica mode fec w other_window empty_name) d)
      → v.node_id < 2 ^ 16
      → w.node_id < 2 ^ 16
      → suc (count_ids r) < 2 ^ 48
      → suc (count_ids s) < 2 ^ 48
      → v.node_id ≢ w.node_id
      → (x : PropValue) × (y : PropValue) × IsSubmitted depth content name c x
        × IsSubmitted other_depth other other_name d y
        × (x.id ≢ y.id)
  ids_differ v w window other_window empty_name c d depth other_depth content other name other_name
        r s small also few less differ =
      let ev = new_replica-number v window empty_name in
      let ew = new_replica-number w other_window empty_name in
      let (k, kr, ec) = Runs-number _ c r (omega (arith, ev)) in
      let (j, js, ed) = Runs-number _ d s (omega (arith, ew)) in
      let nc = next_number c (omega (arith, ec, ev)) in
      let nd = next_number d (omega (arith, ed, ew)) in
      (
        value_of content c,
        value_of other d,
        value_of-IsSubmitted depth content name c,
        value_of-IsSubmitted other_depth other other_name d,
        λ same. differ (omega (arith, nc, nd, ec, ed, ev, ew, same)),
      )

  -- A new replica with a node number of 16 bits, in a run with fewer than 2^48 - 2 commits and changes of
  -- the master beside two commits of strings: the value that the first submits has a lower id than the
  -- value that the second submits, and both ids have the node's number in the low 16 bits.
  pub ids_increase :
      (v : View) (window : ℕ) (empty_name : Name) (depth later : ℕ) (content other : Bytes)
      (name other_name : DataName Name) (c e d : Captain Name)
      (r : Runs mode fec (new_replica mode fec v window empty_name) c) (s : Runs mode fec e d)
      → v.node_id < 2 ^ 16
      → suc (suc (count_ids r + count_ids s)) < 2 ^ 48
      → commit_data mode (handle_msg mode fec depth) content name c ≡ ok e
      → (x : PropValue) × (y : PropValue) × IsSubmitted depth content name c x
        × IsSubmitted later other other_name d y
        × (x.id < y.id)
        × (x.id % 2 ^ 16 ≡ v.node_id)
        × (y.id % 2 ^ 16 ≡ v.node_id)
  ids_increase v window empty_name depth later content other name other_name c e d r s small few
        committed =
      let ev = new_replica-number v window empty_name in
      let (k, kr, ec) = Runs-number _ c r (omega (arith, ev)) in
      let nc = next_number c (omega (arith, ec, ev)) in
      let ee =
        Ends-ok (λ x. x.value_id ≡ (next_value_id c).value_id)
          (commit_data-number mode (handle_msg mode fec depth) content name c
            (handle_msg-Keeps SameNumber SameNumber-IsStable mode fec depth))
          committed in
      let (j, js, ed) = Runs-number e d s (omega (arith, ee, nc, ec, ev)) in
      let nd = next_number d (omega (arith, ed, ee, nc, ec, ev)) in
      (
        value_of content c,
        value_of other d,
        value_of-IsSubmitted depth content name c,
        value_of-IsSubmitted later other other_name d,
        omega (arith, nd, ed, ee, nc),
        omega (arith, nc, ec, ev),
        omega (arith, nd, ed, ee, nc, ec, ev),
      )
