-- ===== src/DbManager/Runs.antt =====
-- Runs of a replicated database (dbmanager.cpp).
use ndnpaxos.Prelude.{
  ℕ, ◌-◌, ◌≤◌, ◌≡◌, ◌<◌, refl, sym, ◌∙◌, ap, ap₂, subst, inl, arith, Outcome, ok, ok-injective,
  ◌>>=◌,
}
use ndnpaxos.Types.{Mode, Bytes, PropValue}
use ndnpaxos.View.{View}
use ndnpaxos.Rs.{Fec}
use ndnpaxos.Captain.State.{Captain, new_captain, dum}
use ndnpaxos.Captain.Start.{commit_data}
use ndnpaxos.Captain.Dispatch.{handle_msg}
use ndnpaxos.Captain.Log.Invariant.{Holds, IsLog}
use ndnpaxos.Captain.Log.Delivery.{full_calls_of, full_watch, full_watch-IsWatch, passed}
use ndnpaxos.Captain.Replica.{IsWatched, Preserves}
use ndnpaxos.Captain.Replica.Runs.{Call, here, then, commits, Runs-Preserves}
use ndnpaxos.DbManager.{
  RowCallback, c_str, Sqlite, DbManager, new_manager, set_callback, catch_up, commit,
}
use ndnpaxos.DbManager.Replay.{
  statement_at, replay, replay-split, replay-cong, hole_grows, catch_up-Executed, IsPrefix,
  IsPrefix-unique, IsDeterministic, replay-IsDeterministic,
}

-- The database is what the statements of the log make of `start`, as far as they are passed on.
record IsReplayed {Name Db : Type 0} (sqlite : Sqlite Db) (cb : RowCallback) (start : Db)
    (m : DbManager Name Db) : Type 0 where
  watched : IsWatched full_watch m.captain
  callback : m.callback ≡ cb
  executions : m.executions ≡ m.captain.max_chosen_without_hole
  db : m.db ≡ replay sqlite cb m.captain.chosen_values 0 m.captain.max_chosen_without_hole start

statement-agree :
    {Name : Type 0} (c d : Captain Name) (slot : ℕ) (x y : PropValue)
    → Holds c slot x
    → Holds d slot y
    → x.content ≡ y.content
    → statement_at d.chosen_values slot ≡ statement_at c.chosen_values slot
unfolding statement_at
statement-agree c d slot x y old new e = rw (old, new) (ap c_str (sym e))

module _ {Name Db : Type 0} (sqlite : Sqlite Db) where
  catch_up-IsReplayed :
      (cb : RowCallback) (start : Db) (c : Captain Name) (m : DbManager Name Db)
      → Preserves full_watch m.captain c
      → IsReplayed sqlite cb start m
      → IsReplayed sqlite cb start (catch_up sqlite c m)
  catch_up-IsReplayed cb start c m p r =
      let after = p.valid r.watched in
      let kept = p.kept r.watched in
      let grows = hole_grows m.captain c r.watched after kept in
      let e = catch_up-Executed sqlite c m r.watched.order after.order grows r.executions in
      let old : m.db ≡ replay sqlite cb c.chosen_values 0 m.captain.max_chosen_without_hole start =
        r.db
        ∙ sym (
            replay-cong sqlite cb m.captain.chosen_values c.chosen_values
              m.captain.max_chosen_without_hole start
              (λ slot pos le.
                let (w, held) = r.watched.log.filled slot pos le in
                statement-agree m.captain c slot w w held (kept slot w held) refl)) in
      record {
        watched = subst (IsWatched full_watch) (sym e.captain) after;
        callback = e.callback ∙ r.callback;
        executions =
            omega (arith, e.executions, grows, ap (λ x. x.max_chosen_without_hole) e.captain);
        db =
            e.db
            ∙ ap₂
                (λ cb' db'.
                  replay sqlite cb' c.chosen_values m.captain.max_chosen_without_hole
                    (c.max_chosen_without_hole - m.captain.max_chosen_without_hole) db')
                r.callback old
            ∙ sym (
                replay-split sqlite cb c.chosen_values c.max_chosen_without_hole
                  m.captain.max_chosen_without_hole
                  (c.max_chosen_without_hole - m.captain.max_chosen_without_hole) start
                  (omega arith))
            ∙ ap (λ x. replay sqlite cb x.chosen_values 0 x.max_chosen_without_hole start)
                (sym e.captain);
      }

  module _ (mode : Mode) (fec : Fec) where
    -- Calls of the captain from outside, and statements that are committed.
    pub data ManagerRuns (m : DbManager Name Db) : DbManager Name Db → Type 0 where
      begins : ManagerRuns m m
      calls :
          {n : DbManager Name Db} {c : Captain Name}
          → ManagerRuns m n
          → Call mode fec n.captain c
          → ManagerRuns m (catch_up sqlite c n)
      submits :
          {n p : DbManager Name Db} (depth : ℕ) (sql : Bytes)
          → ManagerRuns m n
          → commit sqlite mode (handle_msg mode fec depth) sql n ≡ ok p
          → ManagerRuns m p

    commit-Call :
        (depth : ℕ) (sql : Bytes) (m n : DbManager Name Db)
        → commit sqlite mode (handle_msg mode fec depth) sql m ≡ ok n
        → (c : Captain Name) × Call mode fec m.captain c × (catch_up sqlite c m ≡ n)
    unfolding commit
    commit-Call depth sql m n e =
        go (commit_data mode (handle_msg mode fec depth) sql dum m.captain) refl e
      where
        go :
            (o : Outcome (Captain Name))
            → commit_data mode (handle_msg mode fec depth) sql dum m.captain ≡ o
            → (o >>= λ c. ok (catch_up sqlite c m)) ≡ ok n
            → (c : Captain Name) × Call mode fec m.captain c × (catch_up sqlite c m ≡ n)
        go (ok c) returns same = (c, commits depth sql dum c returns, ok-injective same)
        go Outcome.fault returns same = cc
        go Outcome.spent returns same = cc

    catch_up-Call :
        (cb : RowCallback) (start : Db) (c : Captain Name) (m : DbManager Name Db)
        → Call mode fec m.captain c
        → IsReplayed sqlite cb start m
        → IsReplayed sqlite cb start (catch_up sqlite c m)
    catch_up-Call cb start c m call =
        catch_up-IsReplayed cb start c m
          (Runs-Preserves mode fec full_watch full_watch-IsWatch m.captain c (then here call))

    ManagerRuns-IsReplayed :
        (cb : RowCallback) (start : Db) (m n : DbManager Name Db)
        → ManagerRuns m n
        → IsReplayed sqlite cb start m
        → IsReplayed sqlite cb start n
    ManagerRuns-IsReplayed cb start m n begins r = r
    ManagerRuns-IsReplayed cb start m n (calls {n = before} {c = c} runs call) r =
        catch_up-Call cb start c before call (ManagerRuns-IsReplayed cb start m before runs r)
    ManagerRuns-IsReplayed cb start m n (submits {n = before} depth sql runs e) r =
        let (c, call, same) = commit-Call depth sql before n e in
        subst (IsReplayed sqlite cb start) same
          (catch_up-Call cb start c before call (ManagerRuns-IsReplayed cb start m before runs r))

    new_manager-IsReplayed :
        (cb : RowCallback) (v : View) (db_name : Bytes) (window : ℕ) (empty_name : Name)
        → IsReplayed sqlite cb
            (sqlite.open_db db_name).1
            (set_callback cb (new_manager sqlite mode v db_name window empty_name))
    unfolding new_manager new_captain full_calls_of passed replay
    new_manager-IsReplayed cb v db_name window empty_name = record {
      watched = record {
        log = record {
          size = refl;
          within = omega arith;
          filled = λ slot pos le. absurd (omega arith);
        };
        on = refl;
        order = refl;
        delivered = inl refl;
      };
      callback = refl;
      executions = refl;
      db = refl;
    }

    new_manager-Runs :
        (cb : RowCallback) (v : View) (db_name : Bytes) (window : ℕ) (empty_name : Name)
        (m : DbManager Name Db)
        → ManagerRuns (set_callback cb (new_manager sqlite mode v db_name window empty_name)) m
        → IsReplayed sqlite cb (sqlite.open_db db_name).1 m
    new_manager-Runs cb v db_name window empty_name m runs =
        ManagerRuns-IsReplayed cb (sqlite.open_db db_name).1
          (set_callback cb (new_manager sqlite mode v db_name window empty_name)) m runs
          (new_manager-IsReplayed cb v db_name window empty_name)

    -- In every state that a new manager with any callback for rows comes to, by whatever calls of its
    -- captain and commits of statements that return: the log is well formed, and the database is what
    -- sqlite makes of the opened one by executing all the values of the log before its first hole, each
    -- once and in the order of the slots.
    pub database_replays :
        (cb : RowCallback) (v : View) (db_name : Bytes) (window : ℕ) (empty_name : Name)
        (m : DbManager Name Db)
        → ManagerRuns (set_callback cb (new_manager sqlite mode v db_name window empty_name)) m
        → IsLog m.captain
          × (n : ℕ) × IsPrefix m.captain n
          × (m.db ≡ replay sqlite cb m.captain.chosen_values 0 n (sqlite.open_db db_name).1)
    database_replays cb v db_name window empty_name m runs =
        let r = new_manager-Runs cb v db_name window empty_name m runs in
        (
          r.watched.log,
          m.captain.max_chosen_without_hole,
          record { filled = r.watched.log.filled; ends = r.watched.delivered },
          r.db,
        )

module _ {Name Db : Type 0} (s t : Sqlite Db) (mode : Mode) (fec : Fec) where
  -- Two managers of one build, in processes of their own, with the same callback for rows and opened on
  -- equal databases, whose logs hold the same text wherever both hold a value. If the log of the first
  -- has `a` values before its first hole and that of the second `b`, not fewer, and the statements in
  -- these `a` slots do the same whenever and by whichever process they are executed (they read no clock
  -- and no random number), then the second database is the first one after the statements of slots
  -- a + 1, …, b of the second log.
  pub databases_agree :
      (cb : RowCallback) (v w : View) (db_name other_name : Bytes) (window other_window : ℕ)
      (empty_name : Name) (m n : DbManager Name Db) (a b : ℕ)
      → (s.open_db db_name).1 ≡ (t.open_db other_name).1
      → ManagerRuns s mode fec (set_callback cb (new_manager s mode v db_name window empty_name)) m
      → ManagerRuns t mode fec
          (set_callback cb (new_manager t mode w other_name other_window empty_name))
          n
      → ((slot : ℕ) (x y : PropValue)
          → Holds m.captain slot x
          → Holds n.captain slot y
          → x.content ≡ y.content)
      → IsPrefix m.captain a
      → IsPrefix n.captain b
      → a ≤ b
      → ((slot : ℕ)
          → 0 < slot
          → slot ≤ a
          → IsDeterministic s t cb (statement_at m.captain.chosen_values slot))
      → n.db ≡ replay t cb n.captain.chosen_values a (b - a) m.db
  databases_agree cb v w db_name other_name window other_window empty_name m n a b opened runs_m
        runs_n agree prefix_m prefix_n le det =
      let (log_m, i, at_i, db_m) =
        database_replays s mode fec cb v db_name window empty_name m runs_m in
      let (log_n, j, at_j, db_n) =
        database_replays t mode fec cb w other_name other_window empty_name n runs_n in
      let start = (t.open_db other_name).1 in
      let common =
        replay-IsDeterministic s t cb m.captain.chosen_values n.captain.chosen_values a start
          (λ slot pos below.
            let (x, at_m) = prefix_m.filled slot pos below in
            let (y, at_n) = prefix_n.filled slot pos (omega arith) in
            statement-agree m.captain n.captain slot x y at_m at_n (agree slot x y at_m at_n))
          det in
      let same : replay t cb n.captain.chosen_values 0 a start ≡ m.db =
        common
        ∙ ap (replay s cb m.captain.chosen_values 0 a) (sym opened)
        ∙ sym (
            db_m
            ∙ ap (λ x. replay s cb m.captain.chosen_values 0 x (s.open_db db_name).1)
                (IsPrefix-unique m.captain i a log_m at_i prefix_m)) in
      db_n
      ∙ ap (λ x. replay t cb n.captain.chosen_values 0 x start)
          (IsPrefix-unique n.captain j b log_n at_j prefix_n)
      ∙ replay-split t cb n.captain.chosen_values b a (b - a) start (omega arith)
      ∙ ap (replay t cb n.captain.chosen_values a (b - a)) same
