-- ===== src/Captain/Depth/Calls.antt =====
-- Calls of a replica (captain.cpp) from outside, one after the other, and the depth that they need.
use ndnpaxos.Prelude.{ℕ, suc, ◌≤◌, ◌≢◌, List, [], ◌∷◌, ok, Outcome, ◌>>=◌}
use ndnpaxos.Prelude.Settling.{Settles, Settles-bind}
use ndnpaxos.Types.{Mode, mode_type, Bytes, PropValue, Message}
use ndnpaxos.View.{View}
use ndnpaxos.Rs.{Fec}
use ndnpaxos.Captain.State.{Captain, DataName, new_captain, crash}
use ndnpaxos.Captain.Start.{commit_data, master_change}
use ndnpaxos.Captain.Dispatch.{handle_msg}
use ndnpaxos.Captain.Depth.{IsShallow}
use ndnpaxos.Captain.Depth.Starting.{commit_data-Settles, master_change-Settles}
use ndnpaxos.Captain.Depth.Nesting.{handle_msg-Settles, requests_at}

pub data Input (Name : Type 0) : Type 0 where
  handles : Message → DataName Name → Input Name
  commits : Bytes → DataName Name → Input Name
  changes : (ℕ → Bytes) → PropValue → Input Name
  crashes : Input Name

module _ {Name : Type 0} where
  unfoldable pub call : Mode → Fec → ℕ → Input Name → Captain Name → Outcome (Captain Name)
  call mode fec depth (handles m name) c = handle_msg mode fec depth m name c
  call mode fec depth (commits content name) c =
      commit_data mode (handle_msg mode fec depth) content name c
  call mode fec depth (changes command value) c =
      master_change mode (handle_msg mode fec depth) command value c
  call mode fec depth crashes c = ok (crash c)

  unfoldable pub call_all :
      Mode → Fec → ℕ → List (Input Name) → Captain Name → Outcome (Captain Name)
  call_all mode fec depth [] c = ok c
  call_all mode fec depth (i ∷ is) c = call mode fec depth i c >>= call_all mode fec depth is

  module _ (mode : Mode) (build : mode_type mode ≢ 1) (fec : Fec) (depth : ℕ) where
    call-Settles :
        (i : Input Name) (c : Captain Name)
        → IsShallow c
        → Settles IsShallow (call mode fec (suc (suc (suc (suc depth)))) i c)
    unfolding call
    call-Settles (handles m name) c h = handle_msg-Settles mode build fec depth m name c h
    call-Settles (commits content name) c h =
        commit_data-Settles mode build _ (requests_at mode build fec (suc (suc depth))) content name
          c h
    call-Settles (changes command value) c h =
        master_change-Settles mode build _ (requests_at mode build fec (suc (suc depth))) command
          value c h
    call-Settles crashes c h = h

    call_all-Settles :
        (is : List (Input Name)) (c : Captain Name)
        → IsShallow c
        → Settles IsShallow (call_all mode fec (suc (suc (suc (suc depth)))) is c)
    unfolding call_all
    call_all-Settles [] c h = h
    call_all-Settles (i ∷ is) c h =
        Settles-bind IsShallow IsShallow (call mode fec (suc (suc (suc (suc depth)))) i c) _
          (call-Settles i c h) (λ d g. call_all-Settles is d g)

  new_captain-IsShallow :
      (mode : Mode) (v : View) (window : ℕ) (empty_name : Name)
      → 2 ≤ v.q_size
      → IsShallow (new_captain mode v window empty_name)
  unfolding new_captain
  new_captain-IsShallow mode v window empty_name many = record { quorate = many; entries = tt }

  -- The calls that a replica makes for its own messages nest no deeper than four: outside the RS build,
  -- where a quorum has two nodes or more, every sequence of messages, commits, changes of the master and
  -- crashes from a new replica comes to an end with a result or a fault, with a depth of four or more,
  -- and then the proposers satisfy what keeps the nesting so.
  pub calls_settle :
      (mode : Mode) (fec : Fec) (depth : ℕ) (v : View) (window : ℕ) (empty_name : Name)
      (is : List (Input Name))
      → mode_type mode ≢ 1
      → 2 ≤ v.q_size
      → Settles IsShallow (
          call_all mode fec (suc (suc (suc (suc depth)))) is (new_captain mode v window empty_name))
  calls_settle mode fec depth v window empty_name is build many =
      call_all-Settles mode build fec depth is (new_captain mode v window empty_name)
        (new_captain-IsShallow mode v window empty_name many)
