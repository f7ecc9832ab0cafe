-- ===== src/Captain/Replica/Queues.antt =====
-- The two queues of values and clients that wait for a proposer (captain.cpp, `commit`).
use ndnpaxos.Prelude.{
  ℕ_discrete, ◌≢◌, ℕ, zero, suc, ◌-◌, ◌≡◌, refl, ap, ◌⊎◌, inl, inr, true, false, sym, ◌∙◌, leb,
  ◌==◌, List, [], ◌∷◌, ◌++◌, some, length, length-append, get_elem?, deref, ltb, arith, ok, Ends,
  Ends-bind, Ends-after, Ends-if, Ends-Option, Ends-weaken,
}
use ndnpaxos.Types.{Mode, PropValue, Bytes, CmdType}
use ndnpaxos.View.{View, if_master}
use ndnpaxos.Commo.{Handler}
use ndnpaxos.Rs.{Fec}
use ndnpaxos.Captain.State.{Captain, resolve, DataName, new_captain, next_value_id, dum}
use ndnpaxos.Captain.Log.{
  deliver, apply_command, callback_loop, add_callback, store_value, add_chosen_value,
}
use ndnpaxos.Captain.Start.{dequeue, enqueue, master_change, commit_value}
use ndnpaxos.Captain.Replica.{IsStable}
use ndnpaxos.Captain.Replica.Runs.{Runs, count_changes, Runs-Keeps, new_replica}

-- As many clients as values wait.
abbrev pub IsBalanced : {Name : Type 0} → Captain Name → Type 0
IsBalanced c = length c.tocommit_values ≡ length c.tocommit_clients

-- The values of one queue with the names of the other.
unfoldable pub pairs : {Name : Type 0} → List PropValue → List Name → List (PropValue × Name)
pairs [] clients = []
pairs (value ∷ values) [] = []
pairs (value ∷ values) (client ∷ clients) = (value, client) ∷ pairs values clients

pairs-append :
    {Name : Type 0} (values : List PropValue) (clients : List Name) (value : PropValue)
    (client : Name)
    → length values ≡ length clients
    → pairs (values ++ value ∷ []) (clients ++ client ∷ [])
      ≡ pairs values clients ++ (value, client) ∷ []
unfolding pairs
pairs-append [] [] value client h = refl
pairs-append [] (n ∷ ns) value client h = absurd (omega arith)
pairs-append (v ∷ vs) [] value client h = absurd (omega arith)
pairs-append (v ∷ vs) (n ∷ ns) value client h =
    ap (λ rest. (v, n) ∷ rest) (pairs-append vs ns value client (omega arith))

-- The values that wait, each with the name at its place in the queue of clients.
abbrev pub waiting : {Name : Type 0} → Captain Name → List (PropValue × Name)
waiting c = pairs c.tocommit_values c.tocommit_clients

-- No value waits, or the fronts of the queues can be taken, and are the first value with its name.
abbrev pub HasFront : {Name : Type 0} → Captain Name → Type 0
HasFront {Name = Name} c =
    (c.tocommit_values ≡ [])
    ⊎ ((value : PropValue) × (client : Name) × (d : Captain Name) × (dequeue c
          ≡ ok (value, client, d))
        × (waiting c ≡ (value, client) ∷ waiting d))

-- The window is not just full, or the commit lets the value wait behind the others with its client's name.
abbrev pub Waits :
    {Name : Type 0} → Mode → Handler Name → PropValue → DataName Name → Captain Name → Type 0
Waits {Name = Name} mode self value name c =
    (length c.proposers ≢ c.window_size)
    ⊎ ((d : Captain Name) × (commit_value mode self value name c ≡ ok d)
        × (waiting d ≡ waiting c ++ (value, resolve c name) ∷ []))

-- The step keeps the queues in step.
abbrev Balances : {Name : Type 0} → Captain Name → Captain Name → Type 0
Balances c d = IsBalanced c → IsBalanced d

module _ {Name : Type 0} where
  -- Both queues are as they were.
  abbrev SameQueues : Captain Name → Captain Name → Type 0
  SameQueues c d =
      (d.tocommit_values ≡ c.tocommit_values) × (d.tocommit_clients ≡ c.tocommit_clients)

  deliver-SameQueues : (value : PropValue) (c : Captain Name) → SameQueues c (deliver value c)
  unfolding deliver apply_command
  deliver-SameQueues value c = ground arith

  callback_loop-SameQueues :
      (fuel : ℕ) (b c : Captain Name) → SameQueues b c → Ends (SameQueues b) (callback_loop fuel c)
  unfolding callback_loop
  callback_loop-SameQueues zero b c f = f
  callback_loop-SameQueues (suc fuel) b c f =
      Ends-if (SameQueues b) (ltb c.max_chosen_without_hole c.max_chosen) _ (ok c)
        (Ends-after (SameQueues b)
          (deref (get_elem? c.chosen_values (suc c.max_chosen_without_hole))) _
          (λ entry. Ends-Option (SameQueues b) entry (ok c) _ f (λ value.
            callback_loop-SameQueues fuel b (deliver value c)
              ((deliver-SameQueues value c).0 ∙ f.0, (deliver-SameQueues value c).1 ∙ f.1))))
        f

  store_value-SameQueues :
      (slot : ℕ) (value : PropValue) (c : Captain Name)
      → Ends (SameQueues c) (store_value slot value c)
  unfolding store_value
  store_value-SameQueues slot value c =
      Ends-if (SameQueues c) (leb slot c.max_chosen) _ _
        (Ends-after (SameQueues c) (deref (get_elem? c.chosen_values slot)) _ (λ entry.
          Ends-Option (SameQueues c) entry _ (λ old. ok c) (refl, refl) (λ old. (refl, refl))))
        (refl, refl)

  add_chosen_value-Balances :
      (slot : ℕ) (value : PropValue) (c : Captain Name)
      → Ends (Balances c) (add_chosen_value slot value c)
  unfolding add_chosen_value add_callback
  add_chosen_value-Balances slot value c =
      Ends-weaken (SameQueues c) (Balances c) (add_chosen_value slot value c)
        (λ d (same, also) h. ap length same ∙ (h ∙ sym (ap length also)))
        (Ends-bind (SameQueues c) (SameQueues c) (store_value slot value c) add_callback
          (store_value-SameQueues slot value c)
          (λ d f. callback_loop-SameQueues (d.max_chosen - d.max_chosen_without_hole) c d f))

  Balances-IsStable : IsStable {Name = Name} Balances
  Balances-IsStable = record {
    reflexive = λ c h. h;
    transitive = λ c d e f g h. g (f h);
    frame = λ c d chosen top hole on calls values clients number h.
        ap length values ∙ (h ∙ sym (ap length clients));
    enqueues = λ value client c h. omega (
      arith,
      h,
      length-append c.tocommit_values (value ∷ []),
      length-append c.tocommit_clients (client ∷ []),
    );
    dequeues = λ value values client clients c e f h. omega (arith, h, ap length e, ap length f);
    adds = add_chosen_value-Balances;
  }

  numbers-Balances : (c : Captain Name) → Balances c (next_value_id c)
  unfolding next_value_id
  numbers-Balances c h = h

  new_replica-IsBalanced :
      (mode : Mode) (fec : Fec) (v : View) (window : ℕ) (empty_name : Name)
      → IsBalanced (new_replica mode fec v window empty_name)
  unfolding new_replica new_captain
  new_replica-IsBalanced mode fec v window empty_name = refl

  dequeue-HasFront : (c : Captain Name) → IsBalanced c → HasFront c
  unfolding dequeue pairs
  dequeue-HasFront c h = go c.tocommit_values c.tocommit_clients refl refl
    where
      go :
          (values : List PropValue) (clients : List Name)
          → c.tocommit_values ≡ values
          → c.tocommit_clients ≡ clients
          → HasFront c
      go [] clients e f = inl e
      go (v ∷ vs) [] e f = absurd (omega (arith, h, ap length e, ap length f))
      go (v ∷ vs) (n ∷ ns) e f = inr (
        v,
        n,
        record c { tocommit_values = vs; tocommit_clients = ns },
        rw (e, f) refl,
        rw (e, f) refl,
      )

  commit_value_full :
      (mode : Mode) (self : Handler Name) (value : PropValue) (name : DataName Name)
      (c : Captain Name)
      → length c.proposers ≡ c.window_size
      → commit_value mode self value name c ≡ ok (enqueue value (resolve c name) c)
  unfolding commit_value
  commit_value_full mode self value name c full =
      let below : ltb c.window_size (length c.proposers) ≡ false = ground arith in
      let at : (length c.proposers == c.window_size) ≡ true = ground arith in rw (below, at) refl

  commit_value-Waits :
      (mode : Mode) (self : Handler Name) (value : PropValue) (name : DataName Name)
      (c : Captain Name)
      → IsBalanced c
      → Waits mode self value name c
  commit_value-Waits mode self value name c h =
      elim (ℕ_discrete (length c.proposers) c.window_size) [
        | yes full ↦ inr (
          enqueue value (resolve c name) c,
          commit_value_full mode self value name c full,
          pairs-append c.tocommit_values c.tocommit_clients value (resolve c name) h,
        )
        | no other ↦ inl other
      ]

  -- In a run of a new replica that holds no change of the master, in any build, as many clients as values
  -- wait. If a value waits, the fronts of both queues can be taken, and are the first value that waits and
  -- the name paired with it. A value that is committed when the window is just full waits behind all
  -- others, which stay paired as they are, paired with the client that the commit was called for.
  pub Runs-IsBalanced :
      (mode : Mode) (fec : Fec) (v : View) (window : ℕ) (empty_name : Name) (c : Captain Name)
      (self : Handler Name) (value : PropValue) (name : DataName Name)
      (r : Runs mode fec (new_replica mode fec v window empty_name) c)
      → count_changes mode fec r ≡ 0
      → IsBalanced c × HasFront c × Waits mode self value name c
  Runs-IsBalanced mode fec v window empty_name c self value name r quiet =
      let h =
        Runs-Keeps mode fec Balances Balances-IsStable (new_replica mode fec v window empty_name) c
          r numbers-Balances quiet (new_replica-IsBalanced mode fec v window empty_name) in
      (h, dequeue-HasFront c h, commit_value-Waits mode self value name c h)

  -- A change of the master that a replica without room in its window begins leaves one value more than
  -- clients waiting, if there were as many before.
  pub master_change_unbalances :
      (mode : Mode) (self : Handler Name) (command : ℕ → Bytes) (value : PropValue)
      (c : Captain Name)
      → if_master c.view ≡ false
      → length c.proposers ≡ c.window_size
      → IsBalanced c
      → (d : Captain Name) × (master_change mode self command value c ≡ ok d)
        × (length d.tocommit_values ≡ suc (length d.tocommit_clients))
  unfolding master_change next_value_id
  master_change_unbalances mode self command value c other full h =
      let d = next_value_id c in
      let order : PropValue = record {
        id = d.value_id;
        content = command d.value_id;
        cmd_type = some CmdType.set_master;
      } in
      let e = record d { tocommit_values = d.tocommit_values ++ order ∷ [] } in
      (
        enqueue value c.dum_name e,
        rw other (commit_value_full mode self value dum e full),
        omega (
          arith,
          h,
          length-append (c.tocommit_values ++ order ∷ []) (value ∷ []),
          length-append c.tocommit_values (order ∷ []),
          length-append c.tocommit_clients (c.dum_name ∷ []),
        ),
      )
