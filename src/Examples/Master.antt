-- ===== src/Examples/Master.antt =====
-- A run of the master of three nodes in the quorum build: it commits a value, the acks of node 1 arrive,
-- and the value is chosen; then a value of slot 3 is taught.
use ndnpaxos.Prelude.{
  length, suc, ℕ, ◌^◌, ◌≡◌, refl, true, [], ◌∷◌, none, some, Outcome, ok, fault, spent,
}
use ndnpaxos.Prelude.SortedMap
use ndnpaxos.Types.{Mode, MsgType, PropValue, Message}
use ndnpaxos.Acceptor.{handle_msg_prepare, handle_msg_accept}
use ndnpaxos.Proposer.{
  new_proposer, gen_next_ballot, msg_prepare, msg_accept, handle_msg_promise, handle_msg_accepted,
  scan_acks, adopt, count_yes,
}
use ndnpaxos.Captain.State.{Captain, new_captain, next_value_id, named, dum}
use ndnpaxos.Captain.Log.{
  add_chosen_value, store_value, add_callback, callback_loop, deliver, apply_command, is_chosen,
}
use ndnpaxos.Captain.Log.Invariant.{Holds}
use ndnpaxos.Captain.Start.{master_change, commit_data, commit_value, start_slot, start_prepare}
use ndnpaxos.Captain.Handlers.{
  grow, acceptor_at, send_ack, on_prepare, on_promise, on_accept, on_accepted, after_promise,
  on_continue, after_accepted, on_choose, announce, spread, msg_teach, after_chosen,
}
use ndnpaxos.Captain.Dispatch.{handle_msg, handle_with, on_decide, on_teach}
use ndnpaxos.Commo.{broadcast_msg, broadcast_range, send_each}
use ndnpaxos.Captain.Replica.{IsReplica}
use ndnpaxos.Captain.Replica.Runs.{
  Call, Runs-Holds, count_changes, Runs, here, then, handles, commits, new_replica, Runs-IsReplica,
}
use ndnpaxos.Captain.Replica.Queues.{
  HasFront, Waits, IsBalanced, Runs-IsBalanced, master_change_unbalances,
}
use ndnpaxos.Examples.Data.{node, ballot, no_fec, value}

abbrev state_of : Outcome (Captain ℕ) → Captain ℕ
state_of (ok c) = c
state_of fault = new_captain Mode.quorum (node 0) 2 0
state_of spent = new_captain Mode.quorum (node 0) 2 0

abbrev pub promise_of_1 : Message
promise_of_1 = Message.promise (record {
  header = record { msg_type = MsgType.promise; node_id = 1; slot_id = 1 };
  ballot_id = ballot 1 0;
  reply = true;
  max_ballot_id = 0;
  max_prop_value = none;
})

abbrev pub accepted_by_1 : Message
accepted_by_1 = Message.accepted (record {
  header = record { msg_type = MsgType.accepted; node_id = 1; slot_id = 1 };
  ballot_id = ballot 1 0;
  reply = true;
})

abbrev pub taught : Message
taught = Message.teach (record {
  header = record { msg_type = MsgType.teach; node_id = 2; slot_id = 3 };
  prop_value = value 2;
})

abbrev own_value : PropValue
own_value = record { id = 2 ^ 16; content = b'v' ∷ []; cmd_type = none }

abbrev pub fresh : Captain ℕ
fresh = new_replica Mode.quorum no_fec (node 0) 2 0

abbrev pub committed : Captain ℕ
committed =
    state_of (commit_data Mode.quorum (handle_msg Mode.quorum no_fec 4) (b'v' ∷ []) (named 7) fresh)

abbrev pub continued : Captain ℕ
continued = state_of (handle_msg Mode.quorum no_fec 4 promise_of_1 (named 8) committed)

abbrev pub decided : Captain ℕ
decided = state_of (handle_msg Mode.quorum no_fec 4 accepted_by_1 (named 8) continued)

abbrev learned : Captain ℕ
learned = state_of (handle_msg Mode.quorum no_fec 4 taught (named 9) decided)

unfoldable pub decided_run : Runs Mode.quorum no_fec fresh decided
unfolding new_replica new_captain commit_data next_value_id commit_value start_slot start_prepare
    new_proposer msg_prepare gen_next_ballot broadcast_msg broadcast_range send_each handle_msg
    handle_with on_prepare grow acceptor_at send_ack handle_msg_prepare on_promise
    handle_msg_promise after_promise scan_acks adopt on_continue msg_accept on_accept
    handle_msg_accept on_accepted handle_msg_accepted count_yes after_accepted on_choose announce
    add_chosen_value store_value add_callback callback_loop deliver apply_command spread msg_teach
    after_chosen is_chosen on_decide on_teach SortedMap.find SortedMap.insert SortedMap.erase
decided_run =
    then
      (then (then here (commits 4 (b'v' ∷ []) (named 7) committed refl))
        (handles 4 promise_of_1 (named 8) continued refl))
      (handles 4 accepted_by_1 (named 8) decided refl)

learned-Call : Call Mode.quorum no_fec decided learned
unfolding new_replica new_captain commit_data next_value_id commit_value start_slot start_prepare
    new_proposer msg_prepare gen_next_ballot broadcast_msg broadcast_range send_each handle_msg
    handle_with on_prepare grow acceptor_at send_ack handle_msg_prepare on_promise
    handle_msg_promise after_promise scan_acks adopt on_continue msg_accept on_accept
    handle_msg_accept on_accepted handle_msg_accepted count_yes after_accepted on_choose announce
    add_chosen_value store_value add_callback callback_loop deliver apply_command spread msg_teach
    after_chosen is_chosen on_decide on_teach SortedMap.find SortedMap.insert SortedMap.erase
learned-Call = handles 4 taught (named 9) learned refl

learned_run : Runs Mode.quorum no_fec decided learned
learned_run = then here learned-Call

-- The chosen value is at slot 1, a hole at slot 2, the taught value at slot 3.
learned_log :
    (learned.chosen_values ≡ none ∷ some own_value ∷ none ∷ some (value 2) ∷ [])
    × (learned.max_chosen_without_hole ≡ 1)
unfolding new_replica new_captain commit_data next_value_id commit_value start_slot start_prepare
    new_proposer msg_prepare gen_next_ballot broadcast_msg broadcast_range send_each handle_msg
    handle_with on_prepare grow acceptor_at send_ack handle_msg_prepare on_promise
    handle_msg_promise after_promise scan_acks adopt on_continue msg_accept on_accept
    handle_msg_accept on_accepted handle_msg_accepted count_yes after_accepted on_choose announce
    add_chosen_value store_value add_callback callback_loop deliver apply_command spread msg_teach
    after_chosen is_chosen on_decide on_teach SortedMap.find SortedMap.insert SortedMap.erase
learned_log = (refl, refl)

Runs-IsReplica_example : IsReplica learned
Runs-IsReplica_example =
    Runs-IsReplica Mode.quorum no_fec (node 0) 2 0 learned (then decided_run learned-Call)

Runs-Holds_example : Holds learned 1 own_value
unfolding new_replica new_captain commit_data next_value_id commit_value start_slot start_prepare
    new_proposer msg_prepare gen_next_ballot broadcast_msg broadcast_range send_each handle_msg
    handle_with on_prepare grow acceptor_at send_ack handle_msg_prepare on_promise
    handle_msg_promise after_promise scan_acks adopt on_continue msg_accept on_accept
    handle_msg_accept on_accepted handle_msg_accepted count_yes after_accepted on_choose announce
    add_chosen_value store_value add_callback callback_loop deliver apply_command spread msg_teach
    after_chosen is_chosen on_decide on_teach SortedMap.find SortedMap.insert SortedMap.erase
Runs-Holds_example =
    Runs-Holds Mode.quorum no_fec (node 0) 2 0 decided learned 1 own_value decided_run learned_run
      refl

Runs-IsBalanced_example :
    IsBalanced decided
    × HasFront decided
    × Waits Mode.quorum (handle_msg Mode.quorum no_fec 4) own_value dum decided
unfolding decided_run count_changes
Runs-IsBalanced_example =
    Runs-IsBalanced Mode.quorum no_fec (node 0) 2 0 decided (handle_msg Mode.quorum no_fec 4)
      own_value dum decided_run refl

-- A replica of node 1 with no room in its window.
abbrev full : Captain ℕ
full = record (new_captain Mode.quorum (node 1) 0 0) { commit_ok = true }

master_change_unbalances_example :
    (d : Captain ℕ) × (master_change Mode.quorum
        (handle_msg Mode.quorum no_fec 4)
        (λ id. b's' ∷ [])
        own_value
        full
      ≡ ok d)
    × (length d.tocommit_values ≡ suc (length d.tocommit_clients))
unfolding new_captain
master_change_unbalances_example =
    master_change_unbalances Mode.quorum (handle_msg Mode.quorum no_fec 4) (λ id. b's' ∷ [])
      own_value full refl refl refl
