-- ===== src/Examples/Databases.antt =====
-- The theorems on the databases of replicas, applied: a master that commits a statement, and two
-- replicas that are taught statements.
use ndnpaxos.Prelude.{
  ℕ, zero, suc, ◌≡◌, ◌<◌, inl, ◌≤◌, refl, false, List, [], ◌∷◌, none, Outcome, ok, fault, spent,
  arith,
}
use ndnpaxos.Prelude.SortedMap
use ndnpaxos.Types.{Mode, MsgType, Bytes, PropValue, Message}
use ndnpaxos.Acceptor.{handle_msg_prepare, handle_msg_accept}
use ndnpaxos.Proposer.{
  new_proposer, gen_next_ballot, msg_prepare, msg_accept, handle_msg_promise, handle_msg_accepted,
  scan_acks, adopt, count_yes,
}
use ndnpaxos.Captain.State.{Captain, new_captain, next_value_id, named}
use ndnpaxos.Captain.Log.{
  add_chosen_value, store_value, add_callback, callback_loop, deliver, apply_command, is_chosen,
}
use ndnpaxos.Captain.Log.Delivery.{full_calls_of}
use ndnpaxos.Captain.Log.Invariant.{Holds, IsLog}
use ndnpaxos.Captain.Start.{commit_data, commit_value, start_slot, start_prepare}
use ndnpaxos.Captain.Handlers.{
  grow, acceptor_at, send_ack, on_prepare, on_promise, on_accept, on_accepted, after_promise,
  on_continue, after_accepted, on_choose, announce, spread, msg_teach, after_chosen,
}
use ndnpaxos.Captain.Dispatch.{handle_msg, handle_with, on_decide, on_teach}
use ndnpaxos.Commo.{broadcast_msg, broadcast_range, send_each}
use ndnpaxos.Captain.Replica.Runs.{handles}
use ndnpaxos.DbManager.{
  Sqlite, DbManager, callback_db, new_manager, set_callback, run_calls, count_exe_latency, catch_up,
  commit, c_str,
}
use ndnpaxos.DbManager.Replay.{replay, IsPrefix}
use ndnpaxos.DbManager.Runs.{ManagerRuns, begins, calls, submits, database_replays, databases_agree}
use ndnpaxos.Examples.Data.{node, no_fec}
use ndnpaxos.Examples.Master.{promise_of_1, accepted_by_1}

-- A database that is the list of the statements executed, latest first.
abbrev sqlite : Sqlite (List Bytes)
sqlite = record { open_db = λ name. (false, []); exec = λ i db sql cb. (false, sql ∷ db) }

abbrev statement : ℕ → PropValue
statement i = record { id = i; content = b'i' ∷ i ∷ 0 ∷ b'x' ∷ []; cmd_type = none }

abbrev taught_at : ℕ → Message
taught_at slot = Message.teach (record {
  header = record { msg_type = MsgType.teach; node_id = 0; slot_id = slot };
  prop_value = statement slot;
})

abbrev replica_of : ℕ → DbManager ℕ (List Bytes)
replica_of i = set_callback callback_db (new_manager sqlite Mode.quorum (node i) (b'd' ∷ []) 2 0)

abbrev captain_of : Outcome (Captain ℕ) → Captain ℕ
captain_of (ok c) = c
captain_of fault = new_captain Mode.quorum (node 0) 2 0
captain_of spent = new_captain Mode.quorum (node 0) 2 0

abbrev teach : ℕ → DbManager ℕ (List Bytes) → DbManager ℕ (List Bytes)
teach slot m =
    catch_up sqlite
      (captain_of (handle_msg Mode.quorum no_fec 4 (taught_at slot) (named 9) m.captain)) m

-- Node 1 has learned slot 1; node 2 slots 1 and 2, slot 2 first.
abbrev behind : DbManager ℕ (List Bytes)
behind = teach 1 (replica_of 1)

abbrev ahead : DbManager ℕ (List Bytes)
ahead = teach 1 (teach 2 (replica_of 2))

behind_run : ManagerRuns sqlite Mode.quorum no_fec (replica_of 1) behind
unfolding new_manager new_captain catch_up run_calls count_exe_latency full_calls_of c_str
    handle_msg handle_with on_teach add_chosen_value store_value add_callback callback_loop deliver
    apply_command is_chosen
behind_run = calls begins (handles 4 (taught_at 1) (named 9) _ refl)

ahead_run : ManagerRuns sqlite Mode.quorum no_fec (replica_of 2) ahead
unfolding new_manager new_captain catch_up run_calls count_exe_latency full_calls_of c_str
    handle_msg handle_with on_teach add_chosen_value store_value add_callback callback_loop deliver
    apply_command is_chosen
ahead_run =
    calls (calls begins (handles 4 (taught_at 2) (named 9) _ refl))
      (handles 4 (taught_at 1) (named 9) _ refl)

-- The two statements, each up to its zero byte.
ahead_db : ahead.db ≡ (b'i' ∷ 2 ∷ []) ∷ (b'i' ∷ 1 ∷ []) ∷ []
unfolding new_manager new_captain catch_up run_calls count_exe_latency full_calls_of c_str
    handle_msg handle_with on_teach add_chosen_value store_value add_callback callback_loop deliver
    apply_command is_chosen
ahead_db = refl

-- The master commits a statement, and the acks of node 1 arrive.
abbrev manager_of : Outcome (DbManager ℕ (List Bytes)) → DbManager ℕ (List Bytes)
manager_of (ok m) = m
manager_of fault = replica_of 0
manager_of spent = replica_of 0

abbrev master : DbManager ℕ (List Bytes)
master =
    manager_of
      (commit sqlite Mode.quorum (handle_msg Mode.quorum no_fec 4) (b'q' ∷ []) (replica_of 0))

abbrev receive : Message → DbManager ℕ (List Bytes) → DbManager ℕ (List Bytes)
receive msg m =
    catch_up sqlite (captain_of (handle_msg Mode.quorum no_fec 4 msg (named 8) m.captain)) m

abbrev decided : DbManager ℕ (List Bytes)
decided = receive accepted_by_1 (receive promise_of_1 master)

decided_run : ManagerRuns sqlite Mode.quorum no_fec (replica_of 0) decided
unfolding new_manager new_captain catch_up run_calls count_exe_latency full_calls_of c_str commit
    commit_data next_value_id commit_value start_slot start_prepare new_proposer msg_prepare
    gen_next_ballot broadcast_msg broadcast_range send_each handle_msg handle_with on_prepare grow
    acceptor_at send_ack handle_msg_prepare on_promise handle_msg_promise after_promise scan_acks
    adopt on_continue msg_accept on_accept handle_msg_accept on_accepted handle_msg_accepted
    count_yes after_accepted on_choose announce add_chosen_value store_value add_callback
    callback_loop deliver apply_command spread msg_teach after_chosen is_chosen on_decide on_teach
    SortedMap.find SortedMap.insert SortedMap.erase
decided_run =
    calls (calls (submits 4 (b'q' ∷ []) begins refl) (handles 4 promise_of_1 (named 8) _ refl))
      (handles 4 accepted_by_1 (named 8) _ refl)

decided_db : decided.db ≡ (b'q' ∷ []) ∷ []
unfolding new_manager new_captain catch_up run_calls count_exe_latency full_calls_of c_str commit
    commit_data next_value_id commit_value start_slot start_prepare new_proposer msg_prepare
    gen_next_ballot broadcast_msg broadcast_range send_each handle_msg handle_with on_prepare grow
    acceptor_at send_ack handle_msg_prepare on_promise handle_msg_promise after_promise scan_acks
    adopt on_continue msg_accept on_accept handle_msg_accept on_accepted handle_msg_accepted
    count_yes after_accepted on_choose announce add_chosen_value store_value add_callback
    callback_loop deliver apply_command spread msg_teach after_chosen is_chosen on_decide on_teach
    SortedMap.find SortedMap.insert SortedMap.erase
decided_db = refl

database_replays_example :
    IsLog decided.captain
    × (n : ℕ) × IsPrefix decided.captain n
    × (decided.db ≡ replay sqlite callback_db decided.captain.chosen_values 0 n [])
database_replays_example =
    database_replays sqlite Mode.quorum no_fec callback_db (node 0) (b'd' ∷ []) 2 0 decided
      decided_run

same_texts :
    (slot : ℕ) (x y : PropValue)
    → Holds behind.captain slot x
    → Holds ahead.captain slot y
    → x.content ≡ y.content
unfolding new_manager new_captain catch_up run_calls count_exe_latency full_calls_of c_str
    handle_msg handle_with on_teach add_chosen_value store_value add_callback callback_loop deliver
    apply_command is_chosen
same_texts zero x y at_x at_y = cc
same_texts (suc zero) x y at_x at_y = cc
same_texts (suc (suc slot)) x y at_x at_y = cc

behind-IsPrefix : IsPrefix behind.captain 1
unfolding new_manager new_captain catch_up run_calls count_exe_latency full_calls_of c_str
    handle_msg handle_with on_teach add_chosen_value store_value add_callback callback_loop deliver
    apply_command is_chosen
behind-IsPrefix = record { filled = filled; ends = inl refl }
  where
    filled : (slot : ℕ) → 0 < slot → slot ≤ 1 → (w : PropValue) × Holds behind.captain slot w
    filled zero pos le = absurd (omega arith)
    filled (suc zero) pos le = (statement 1, refl)
    filled (suc (suc slot)) pos le = absurd (omega arith)

ahead-IsPrefix : IsPrefix ahead.captain 2
unfolding new_manager new_captain catch_up run_calls count_exe_latency full_calls_of c_str
    handle_msg handle_with on_teach add_chosen_value store_value add_callback callback_loop deliver
    apply_command is_chosen
ahead-IsPrefix = record { filled = filled; ends = inl refl }
  where
    filled : (slot : ℕ) → 0 < slot → slot ≤ 2 → (w : PropValue) × Holds ahead.captain slot w
    filled zero pos le = absurd (omega arith)
    filled (suc zero) pos le = (statement 1, refl)
    filled (suc (suc zero)) pos le = (statement 2, refl)
    filled (suc (suc (suc slot))) pos le = absurd (omega arith)

databases_agree_example :
    ahead.db ≡ replay sqlite callback_db ahead.captain.chosen_values 1 1 behind.db
databases_agree_example =
    databases_agree sqlite sqlite Mode.quorum no_fec callback_db (node 1) (node 2) (b'd' ∷ [])
      (b'd' ∷ []) 2 2 0 behind ahead 1 2 refl behind_run ahead_run same_texts behind-IsPrefix
      ahead-IsPrefix (omega arith) (λ slot pos le i j db. refl)
