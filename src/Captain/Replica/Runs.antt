-- ===== src/Captain/Replica/Runs.antt =====
-- Runs of a replica (captain.cpp): the messages that arrive, the values that are committed, changes of
-- the master and a crash, in any order.
use ndnpaxos.Prelude.{ℕ, suc, ◌≡◌, refl, ok, true, Ends-ok, arith, inl, [], ◌∷◌, ◌++◌}
use ndnpaxos.Types.{Mode, Bytes, PropValue, Message}
use ndnpaxos.View.{View}
use ndnpaxos.Rs.{Fec}
use ndnpaxos.Captain.State.{Captain, DataName, new_captain, next_value_id, crash}
use ndnpaxos.Captain.Start.{commit_data, master_change}
use ndnpaxos.Captain.Log.Invariant.{Holds}
use ndnpaxos.Captain.Log.Delivery.{
  calls_of, passed, Watch, IsWatch, callback_watch, callback_watch-IsWatch,
}
use ndnpaxos.Captain.Dispatch.{handle_msg}
use ndnpaxos.Captain.Replica.{IsStable, IsReplica, Preserves, Preserves-IsStable, frame-Preserves}
use ndnpaxos.Captain.Replica.Sending.{commit_data-Keeps, master_change-Keeps}
use ndnpaxos.Captain.Replica.Dispatching.{handle_msg-Keeps}

module _ {Name : Type 0} (mode : Mode) (fec : Fec) where
  -- A call from outside that returns.
  pub data Call (c : Captain Name) : Captain Name → Type 0 where
    handles :
        (depth : ℕ) (m : Message) (name : DataName Name) (d : Captain Name)
        → handle_msg mode fec depth m name c ≡ ok d
        → Call c d
    commits :
        (depth : ℕ) (content : Bytes) (name : DataName Name) (d : Captain Name)
        → commit_data mode (handle_msg mode fec depth) content name c ≡ ok d
        → Call c d
    changes :
        (depth : ℕ) (command : ℕ → Bytes) (value : PropValue) (d : Captain Name)
        → master_change mode (handle_msg mode fec depth) command value c ≡ ok d
        → Call c d
    crashes : Call c (crash c)

  pub data Runs (c : Captain Name) : Captain Name → Type 0 where
    here : Runs c c
    then : {d e : Captain Name} → Runs c d → Call d e → Runs c e

  -- How many of the calls of a run are changes of the master.
  unfoldable pub count_changes : {c d : Captain Name} → Runs c d → ℕ
  count_changes here = 0
  count_changes (then before (handles depth m name d eq)) = count_changes before
  count_changes (then before (commits depth content name d eq)) = count_changes before
  count_changes (then before (changes depth command value d eq)) = suc (count_changes before)
  count_changes (then before crashes) = count_changes before

  module _ (R : Captain Name → Captain Name → Type 0) (s : IsStable R) where
    handles-Keeps :
        (depth : ℕ) (m : Message) (name : DataName Name) (c d : Captain Name)
        → handle_msg mode fec depth m name c ≡ ok d
        → R c d
    handles-Keeps depth m name c d eq =
        Ends-ok (R c) (handle_msg-Keeps R s mode fec depth m name c) eq

    commits-Keeps :
        (depth : ℕ) (content : Bytes) (name : DataName Name) (c d : Captain Name)
        → commit_data mode (handle_msg mode fec depth) content name c ≡ ok d
        → R c (next_value_id c)
        → R c d
    commits-Keeps depth content name c d eq numbered =
        Ends-ok (R c)
          (commit_data-Keeps R s (handle_msg mode fec depth) (handle_msg-Keeps R s mode fec depth)
            mode content name c numbered)
          eq

    crashes-Keeps : (c : Captain Name) → R c (crash c)
    crashes-Keeps c = s.frame c (crash c) refl refl refl refl refl refl refl refl

    -- A run without changes of the master has every stable relation.
    pub Runs-Keeps :
        (c d : Captain Name) (r : Runs c d)
        → ((x : Captain Name) → R x (next_value_id x))
        → count_changes r ≡ 0
        → R c d
    unfolding count_changes
    Runs-Keeps c d here numbers quiet = s.reflexive c
    Runs-Keeps c d (then {d = e} before (handles depth m name f eq)) numbers quiet =
        s.transitive c e d (Runs-Keeps c e before numbers quiet) (handles-Keeps depth m name e d eq)
    Runs-Keeps c d (then {d = e} before (commits depth content name f eq)) numbers quiet =
        s.transitive c e d (Runs-Keeps c e before numbers quiet)
          (commits-Keeps depth content name e d eq (numbers e))
    Runs-Keeps c d (then {d = e} before (changes depth command value f eq)) numbers quiet =
        absurd (omega arith)
    Runs-Keeps c d (then {d = e} before crashes) numbers quiet =
        s.transitive c e d (Runs-Keeps c e before numbers quiet) (crashes-Keeps e)

  module _ {A : Type 0} (watch : Watch Name A) (laws : IsWatch watch) where
    pushes-Preserves :
        (order : PropValue) (d : Captain Name)
        → Preserves watch d (record d { tocommit_values = d.tocommit_values ++ order ∷ [] })
    pushes-Preserves order d =
        frame-Preserves watch laws d
          (record d { tocommit_values = d.tocommit_values ++ order ∷ [] }) refl refl refl refl refl

    numbers-Preserves : (c : Captain Name) → Preserves watch c (next_value_id c)
    unfolding next_value_id
    numbers-Preserves c = frame-Preserves watch laws c (next_value_id c) refl refl refl refl refl

    Call-Preserves : (c d : Captain Name) → Call c d → Preserves watch c d
    Call-Preserves c d (handles depth m name e eq) =
        handles-Keeps (Preserves watch) (Preserves-IsStable watch laws) depth m name c d eq
    Call-Preserves c d (commits depth content name e eq) =
        commits-Keeps (Preserves watch) (Preserves-IsStable watch laws) depth content name c d eq
          (numbers-Preserves c)
    Call-Preserves c d (changes depth command value e eq) =
        Ends-ok (Preserves watch c)
          (master_change-Keeps (Preserves watch) (Preserves-IsStable watch laws)
            (handle_msg mode fec depth)
            (handle_msg-Keeps (Preserves watch) (Preserves-IsStable watch laws) mode fec depth) mode
            command value c (numbers-Preserves c) pushes-Preserves)
          eq
    Call-Preserves c d crashes = crashes-Keeps (Preserves watch) (Preserves-IsStable watch laws) c

    -- A run keeps what is watched, and the log.
    pub Runs-Preserves : (c d : Captain Name) → Runs c d → Preserves watch c d
    Runs-Preserves c d here = (Preserves-IsStable watch laws).reflexive c
    Runs-Preserves c d (then {d = e} before call) =
        (Preserves-IsStable watch laws).transitive c e d (Runs-Preserves c e before)
          (Call-Preserves e d call)

  -- A new replica with its callback set.
  unfoldable pub new_replica : View → ℕ → Name → Captain Name
  unfolding new_captain
  new_replica v window empty_name = record (new_captain mode v window empty_name) {
    has_callback = true;
  }

  new_replica-IsReplica :
      (v : View) (window : ℕ) (empty_name : Name) → IsReplica (new_replica v window empty_name)
  unfolding new_replica calls_of passed
  new_replica-IsReplica v window empty_name = record {
    log = record {
      size = refl;
      within = omega arith;
      filled = λ slot pos le. absurd (omega arith);
    };
    on = refl;
    order = refl;
    delivered = inl refl;
  }

  -- In every state that a new replica with its callback set comes to, by whatever messages, commits,
  -- changes of the master and crash whose calls return, in any build: the log is well formed, and the callback has been
  -- called for exactly the slots before the first hole, once each, in increasing order, with the
  -- contents of the log.
  pub Runs-IsReplica :
      (v : View) (window : ℕ) (empty_name : Name) (c : Captain Name)
      → Runs (new_replica v window empty_name) c
      → IsReplica c
  Runs-IsReplica v window empty_name c before =
      (Runs-Preserves callback_watch callback_watch-IsWatch (new_replica v window empty_name) c
          before).valid
        (new_replica-IsReplica v window empty_name)

  -- A value in the log of a replica stays there, in its slot, whatever messages, commits, changes of the
  -- master and crash come later.
  pub Runs-Holds :
      (v : View) (window : ℕ) (empty_name : Name) (c d : Captain Name) (slot : ℕ) (w : PropValue)
      → Runs (new_replica v window empty_name) c
      → Runs c d
      → Holds c slot w
      → Holds d slot w
  Runs-Holds v window empty_name c d slot w before after =
      (Runs-Preserves callback_watch callback_watch-IsWatch c d after).kept
        (Runs-IsReplica v window empty_name c before) slot w
