-- ===== src/Examples/Numbers.antt =====
-- The theorems on the ids of values, applied to the run of the master and to a new replica of node 1.
use ndnpaxos.Prelude.{ℕ, ◌%◌, ◌^◌, ◌<◌, ◌≡◌, ◌≢◌, refl, [], ◌∷◌, ok, arith}
use ndnpaxos.Prelude.SortedMap
use ndnpaxos.Types.{Mode, PropValue}
use ndnpaxos.Acceptor.{handle_msg_prepare, handle_msg_accept}
use ndnpaxos.Proposer.{
  new_proposer, gen_next_ballot, msg_prepare, msg_accept, handle_msg_promise, handle_msg_accepted,
  scan_acks, adopt, count_yes,
}
use ndnpaxos.Captain.State.{Captain, new_captain, next_value_id, named, dum}
use ndnpaxos.Captain.Log.{
  add_chosen_value, store_value, add_callback, callback_loop, deliver, apply_command, is_chosen,
}
use ndnpaxos.Captain.Start.{commit_data, commit_value, start_slot, start_prepare}
use ndnpaxos.Captain.Handlers.{
  grow, acceptor_at, send_ack, on_prepare, on_promise, on_accept, on_accepted, after_promise,
  on_continue, after_accepted, on_choose, announce, spread, msg_teach, after_chosen,
}
use ndnpaxos.Captain.Dispatch.{handle_msg, handle_with, on_decide, on_teach}
use ndnpaxos.Commo.{broadcast_msg, broadcast_range, send_each}
use ndnpaxos.Captain.Replica.Runs.{Runs, here, then, handles, new_replica}
use ndnpaxos.Captain.Replica.Numbers.{count_ids, IsSubmitted, ids_differ, ids_increase}
use ndnpaxos.Examples.Data.{node, no_fec}
use ndnpaxos.Examples.Master.{
  promise_of_1, accepted_by_1, fresh, committed, continued, decided, decided_run,
}

abbrev other : Captain ℕ
other = new_replica Mode.quorum no_fec (node 1) 2 0

other_run : Runs Mode.quorum no_fec other other
other_run = here

ids_differ_example :
    (x : PropValue) × (y : PropValue) × IsSubmitted Mode.quorum no_fec 4 (b'a' ∷ []) dum decided x
    × IsSubmitted Mode.quorum no_fec 4 (b'b' ∷ []) dum other y
    × (x.id ≢ y.id)
unfolding decided_run other_run count_ids
ids_differ_example =
    ids_differ Mode.quorum no_fec (node 0) (node 1) 2 2 0 decided other 4 4 (b'a' ∷ []) (b'b' ∷ [])
      dum dum decided_run other_run (omega arith) (omega arith) (omega arith) (omega arith)
      (omega arith)

commit_returns :
    commit_data Mode.quorum (handle_msg Mode.quorum no_fec 4) (b'v' ∷ []) (named 7) fresh
    ≡ ok committed
unfolding new_replica new_captain commit_data next_value_id commit_value start_slot start_prepare
    new_proposer msg_prepare gen_next_ballot broadcast_msg broadcast_range send_each handle_msg
    handle_with on_prepare grow acceptor_at send_ack handle_msg_prepare on_promise
    handle_msg_promise after_promise scan_acks adopt on_continue msg_accept on_accept
    handle_msg_accept on_accepted handle_msg_accepted count_yes after_accepted on_choose announce
    add_chosen_value store_value add_callback callback_loop deliver apply_command spread msg_teach
    after_chosen is_chosen on_decide on_teach SortedMap.find SortedMap.insert SortedMap.erase
commit_returns = refl

first_run : Runs Mode.quorum no_fec fresh fresh
first_run = here

later_run : Runs Mode.quorum no_fec committed decided
unfolding new_replica new_captain commit_data next_value_id commit_value start_slot start_prepare
    new_proposer msg_prepare gen_next_ballot broadcast_msg broadcast_range send_each handle_msg
    handle_with on_prepare grow acceptor_at send_ack handle_msg_prepare on_promise
    handle_msg_promise after_promise scan_acks adopt on_continue msg_accept on_accept
    handle_msg_accept on_accepted handle_msg_accepted count_yes after_accepted on_choose announce
    add_chosen_value store_value add_callback callback_loop deliver apply_command spread msg_teach
    after_chosen is_chosen on_decide on_teach SortedMap.find SortedMap.insert SortedMap.erase
later_run =
    then (then here (handles 4 promise_of_1 (named 8) continued refl))
      (handles 4 accepted_by_1 (named 8) decided refl)

ids_increase_example :
    (x : PropValue) × (y : PropValue) × IsSubmitted Mode.quorum no_fec 4
      (b'v' ∷ [])
      (named 7)
      fresh
      x
    × IsSubmitted Mode.quorum no_fec 4 (b'w' ∷ []) dum decided y
    × (x.id < y.id)
    × (x.id % 2 ^ 16 ≡ 0)
    × (y.id % 2 ^ 16 ≡ 0)
unfolding first_run later_run count_ids
ids_increase_example =
    ids_increase Mode.quorum no_fec (node 0) 2 0 4 4 (b'v' ∷ []) (b'w' ∷ []) (named 7) dum fresh
      committed decided first_run later_run (omega arith) (omega arith) commit_returns
