-- ===== src/DbManager.antt =====
-- libndnpaxos/dbmanager.hpp and dbmanager.cpp: the replicated database, which executes the values of the
-- log as SQL statements. The library sqlite is the parameter `Sqlite`; `start` and the configuration
-- file are the caller's, and what the callbacks print is not modelled.
pub mod Replay
pub mod Runs
use ndnpaxos.Prelude.{
  ℕ, zero, suc, ◌-◌, Bool, true, List, [], ◌∷◌, Option, length, take, ◌==◌, if◌then◌else◌, Outcome,
  ok, ◌>>=◌,
}
use ndnpaxos.Types.{Mode, Bytes, PropValue, u16}
use ndnpaxos.View.{View}
use ndnpaxos.Commo.{Handler}
use ndnpaxos.Captain.State.{Captain, new_captain, dum}
use ndnpaxos.Captain.Start.{commit_data}
use ndnpaxos.Captain.Log.Delivery.{full_calls_of}

-- `callback_db_t`: it is given a row, as names and values of the columns, and a result other than 0
-- ends the statement.
abbrev pub RowCallback : Type 0
RowCallback = List (Bytes × Option Bytes) → ℕ

-- `sqlite3_open` and `sqlite3_exec`: whether the code is not SQLITE_OK, and the state of the connection
-- with its database. `exec` is given how many calls the connection has had before: since a statement
-- may read the clock or a random number, calls with the same text on the same state may differ.
pub record Sqlite (Db : Type 0) : Type 0 where
  pub open_db : Bytes → Bool × Db
  pub exec : ℕ → Db → Bytes → RowCallback → Bool × Db

pub record DbManager (Name Db : Type 0) : Type 0 where
  pub captain : Captain Name
  pub db : Db
  pub executions : ℕ
  pub callback : RowCallback

-- `DBManager::callback_db`
unfoldable pub callback_db : RowCallback
callback_db row = 0

-- The text that `data().c_str()` is to a C function: up to the first zero byte.
unfoldable pub c_str : Bytes → Bytes
c_str [] = []
c_str (x ∷ xs) = if x == 0 then [] else x ∷ c_str xs

-- The calls of the full callback between two states of the captain. (`count_latency` does nothing.)
abbrev pub fresh_calls : {Name : Type 0} → Captain Name → Captain Name → List (ℕ × PropValue)
fresh_calls before after =
    take (length (full_calls_of after.events) - length (full_calls_of before.events))
      (full_calls_of after.events)

-- It is called before the captain is, if at all.
abbrev pub set_callback : {Name Db : Type 0} → RowCallback → DbManager Name Db → DbManager Name Db
set_callback cb m = record m { callback = cb }

module _ {Name Db : Type 0} (sqlite : Sqlite Db) where
  -- The constructor, with the captain's callbacks set.
  unfoldable pub new_manager : Mode → View → Bytes → ℕ → Name → DbManager Name Db
  unfolding new_captain
  new_manager mode v db_name win_size empty_name = record {
    captain = record (new_captain mode v win_size empty_name) {
      has_callback_latency = true;
      has_callback_full = true;
    };
    db = (sqlite.open_db db_name).1;
    executions = 0;
    callback = callback_db;
  }

  unfoldable pub count_exe_latency : ℕ → PropValue → ℕ → DbManager Name Db → DbManager Name Db
  count_exe_latency slot value node m = record m {
    db = (sqlite.exec m.executions m.db (c_str value.content) m.callback).1;
    executions = suc m.executions;
  }

  -- The captain's calls of its full callback, latest first.
  unfoldable pub run_calls : List (ℕ × PropValue) → DbManager Name Db → DbManager Name Db
  unfolding count_exe_latency
  run_calls [] m = m
  run_calls ((slot, value) ∷ calls) m =
      count_exe_latency slot value (u16 value.id) (run_calls calls m)

  -- The captain has come to the state `c`, with its callbacks.
  unfoldable pub catch_up : Captain Name → DbManager Name Db → DbManager Name Db
  unfolding run_calls
  catch_up c m = run_calls (fresh_calls m.captain c) (record m { captain = c })

  unfoldable pub commit :
      Mode → Handler Name → Bytes → DbManager Name Db → Outcome (DbManager Name Db)
  unfolding commit_data catch_up
  commit mode self sql m = commit_data mode self sql dum m.captain >>= λ c. ok (catch_up c m)
