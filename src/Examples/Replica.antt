-- ===== src/Examples/Replica.antt =====
-- The theorems on the log of a replica, applied.
use ndnpaxos.Prelude.{ℕ, ◌≡◌, refl, true, [], ◌∷◌, none, some, arith, ok}
use ndnpaxos.Captain.State.{Captain}
use ndnpaxos.Captain.Log.{add_chosen_value}
use ndnpaxos.Captain.Log.Invariant.{IsLog, IsDelivered}
use ndnpaxos.Captain.Log.Growth.{Added, add_chosen_value_lem}
use ndnpaxos.Captain.Log.Delivery.{IsInOrder, calls_of, passed, add_chosen_value-IsInOrder}
use ndnpaxos.Examples.Data.{node, value}

-- A replica of node 1 whose log has a value at slot 2 and a hole at slot 1.
abbrev replica : Captain ℕ
replica = record {
  view = node 1;
  acceptors = none ∷ [];
  proposers = [];
  chosen_values = none ∷ none ∷ some (value 2) ∷ [];
  tocommit_values = [];
  tocommit_clients = [];
  max_chosen = 2;
  max_chosen_without_hole = 0;
  max_slot = 0;
  last_slot = 0;
  value_id = 1;
  window_size = 1;
  has_callback = true;
  has_callback_full = true;
  has_callback_latency = true;
  work = true;
  commit_ok = true;
  dum_name = 0;
  events = [];
}

replica-IsLog : IsLog replica
replica-IsLog = record {
  size = refl;
  within = omega arith;
  filled = λ slot pos le. absurd (omega arith);
}

add_chosen_value_lem_example :
    (d : Captain ℕ) × (add_chosen_value 1 (value 0) replica ≡ ok d)
    × Added 1 (value 0) replica d
    × IsDelivered d
add_chosen_value_lem_example = add_chosen_value_lem 1 (value 0) replica replica-IsLog

add_chosen_value-IsInOrder_example :
    (d : Captain ℕ) × (add_chosen_value 1 (value 0) replica ≡ ok d) × IsInOrder d × IsDelivered d
unfolding calls_of passed
add_chosen_value-IsInOrder_example =
    add_chosen_value-IsInOrder 1 (value 0) replica replica-IsLog refl refl
