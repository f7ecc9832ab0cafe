-- ===== src/DbManager/Replay.antt =====
-- dbmanager.cpp: what the database of a replica is.
use ndnpaxos.Prelude.{
  ℕ, zero, suc, ◌+◌, ◌-◌, ◌≤◌, ◌<◌, ◌≡◌, ◌⊎◌, refl, sym, ◌∙◌, ap, ap₂, subst, inl, inr, List, [],
  Option, none, some, length, take, get_elem?, lt_of_get_elem?, dec_le, arith,
}
use ndnpaxos.Types.{Bytes, PropValue, default_value}
use ndnpaxos.Captain.State.{Captain}
use ndnpaxos.Captain.Log.Invariant.{Holds, IsLog}
use ndnpaxos.Captain.Log.Delivery.{full_calls_of, full_watch, passed, IsPassed, picked_at}
use ndnpaxos.Captain.Replica.{IsWatched}
use ndnpaxos.DbManager.{RowCallback, Sqlite, DbManager, c_str, run_calls, fresh_calls, catch_up}

-- The statement that an entry of the log is.
unfoldable pub statement_at : List (Option PropValue) → ℕ → Bytes
statement_at chosen slot = c_str (picked_at (λ value. value.content) [] (get_elem? chosen slot))

-- The database after the statements of the slots start + 1, …, start + count, in this order.
unfoldable pub replay :
    {Db : Type 0} → Sqlite Db → RowCallback → List (Option PropValue) → ℕ → ℕ → Db → Db
unfolding statement_at
replay sqlite cb chosen start zero db = db
replay sqlite cb chosen start (suc count) db =
    (sqlite.exec (start + count) (replay sqlite cb chosen start count db)
      (statement_at chosen (suc (start + count))) cb).1

length-passed :
    (chosen : List (Option PropValue)) (n : ℕ)
    → length (passed (λ value. value) default_value chosen n) ≡ n
unfolding passed
length-passed chosen zero = refl
length-passed chosen (suc n) = ap suc (length-passed chosen n)

module _ {Name : Type 0} where
  full_calls-length :
      (c : Captain Name)
      → IsPassed full_watch c
      → length (full_calls_of c.events) ≡ c.max_chosen_without_hole
  full_calls-length c order =
      ap length order ∙ length-passed c.chosen_values c.max_chosen_without_hole

  -- What has been passed on is never more than a later state has passed on.
  pub hole_grows :
      (c d : Captain Name)
      → IsWatched full_watch c
      → IsWatched full_watch d
      → ((slot : ℕ) (w : PropValue) → Holds c slot w → Holds d slot w)
      → c.max_chosen_without_hole ≤ d.max_chosen_without_hole
  hole_grows c d h k kept = elim (dec_le c.max_chosen_without_hole d.max_chosen_without_hole) [
    | yes le ↦ le
    | no more ↦
        let (w, held) = h.log.filled (suc d.max_chosen_without_hole) (omega arith) (omega arith) in
        let there : Holds d (suc d.max_chosen_without_hole) w =
          kept (suc d.max_chosen_without_hole) w held in
        absurd (elim k.delivered [
          | inl e ↦
              let lt =
                lt_of_get_elem? d.chosen_values (suc d.max_chosen_without_hole) (some w) there in
              omega (arith, k.log.size)
          | inr hole ↦ cc (hole, there)
        ])
  ]

statement-picked :
    (chosen : List (Option PropValue)) (slot : ℕ)
    → c_str ((picked_at (λ value. value) default_value (get_elem? chosen slot)).content)
      ≡ statement_at chosen slot
unfolding statement_at
statement-picked chosen slot = go (get_elem? chosen slot)
  where
    go :
        (o : Option (Option PropValue))
        → c_str ((picked_at (λ value. value) default_value o).content)
          ≡ c_str (picked_at (λ value. value.content) [] o)
    go none = refl
    go (some none) = refl
    go (some (some value)) = refl

module _ {Db : Type 0} (sqlite : Sqlite Db) (cb : RowCallback) where
  -- Statements 1 to n are the first a of them and then b more.
  pub replay-split :
      (chosen : List (Option PropValue)) (n a b : ℕ) (db : Db)
      → n ≡ a + b
      → replay sqlite cb chosen 0 n db
        ≡ replay sqlite cb chosen a b (replay sqlite cb chosen 0 a db)
  unfolding replay
  replay-split chosen n a zero db e =
      let same : n ≡ a = omega arith in ap (λ i. replay sqlite cb chosen 0 i db) same
  replay-split chosen zero a (suc b) db e = absurd (omega arith)
  replay-split chosen (suc n) a (suc b) db e =
      let index : 0 + n ≡ a + b = omega arith in
      ap₂ (λ before i. (sqlite.exec i before (statement_at chosen (suc i)) cb).1)
        (replay-split chosen n a b db (omega arith)) index

  -- Only the statements matter.
  pub replay-cong :
      (chosen others : List (Option PropValue)) (n : ℕ) (db : Db)
      → ((slot : ℕ) → 0 < slot → slot ≤ n → statement_at others slot ≡ statement_at chosen slot)
      → replay sqlite cb others 0 n db ≡ replay sqlite cb chosen 0 n db
  unfolding replay
  replay-cong chosen others zero db same = refl
  replay-cong chosen others (suc n) db same =
      let here_same : statement_at others (suc (0 + n)) ≡ statement_at chosen (suc (0 + n)) =
        same (suc (0 + n)) (omega arith) (omega arith) in
      ap₂ (λ before text. (sqlite.exec (0 + n) before text cb).1)
        (replay-cong chosen others n db (λ slot pos le. same slot pos (omega arith))) here_same

-- A statement that does the same whenever and by whichever of two processes it is executed.
abbrev pub IsDeterministic : {Db : Type 0} → Sqlite Db → Sqlite Db → RowCallback → Bytes → Type 0
IsDeterministic {Db} s t cb text =
    (i j : ℕ) (db : Db) → (t.exec j db text cb).1 ≡ (s.exec i db text cb).1

-- Deterministic statements make the same of a database in both processes.
pub replay-IsDeterministic :
    {Db : Type 0} (s t : Sqlite Db) (cb : RowCallback) (chosen others : List (Option PropValue))
    (n : ℕ) (db : Db)
    → ((slot : ℕ) → 0 < slot → slot ≤ n → statement_at others slot ≡ statement_at chosen slot)
    → ((slot : ℕ) → 0 < slot → slot ≤ n → IsDeterministic s t cb (statement_at chosen slot))
    → replay t cb others 0 n db ≡ replay s cb chosen 0 n db
unfolding replay
replay-IsDeterministic s t cb chosen others zero db same det = refl
replay-IsDeterministic s t cb chosen others (suc n) db same det =
    let text : statement_at others (suc (0 + n)) ≡ statement_at chosen (suc (0 + n)) =
      same (suc (0 + n)) (omega arith) (omega arith) in
    ap₂ (λ before text. (t.exec (0 + n) before text cb).1)
      (replay-IsDeterministic s t cb chosen others n db (λ slot pos le. same slot pos (omega arith))
        (λ slot pos le. det slot pos (omega arith)))
      text
    ∙ det (suc (0 + n)) (omega arith) (omega arith) (0 + n) (0 + n) (replay s cb chosen 0 n db)

-- The slots 1, …, `n` hold values, and `n` is the last slot or the next slot is a hole.
pub record IsPrefix {Name : Type 0} (c : Captain Name) (n : ℕ) : Type 0 where
  pub filled : (slot : ℕ) → 0 < slot → slot ≤ n → (w : PropValue) × Holds c slot w
  pub ends : (n ≡ c.max_chosen) ⊎ (get_elem? c.chosen_values (suc n) ≡ some none)

-- There is one such number.
IsPrefix-le :
    {Name : Type 0} (c : Captain Name) (a b : ℕ) → IsLog c → IsPrefix c a → IsPrefix c b → b ≤ a
IsPrefix-le c a b l p q = elim (dec_le b a) [
  | yes le ↦ le
  | no more ↦
      let (w, held) = q.filled (suc a) (omega arith) (omega arith) in
      absurd (elim p.ends [
        | inl e ↦
            let low = lt_of_get_elem? c.chosen_values (suc a) (some w) held in omega (arith, l.size)
        | inr hole ↦ cc (hole, held)
      ])
]

pub IsPrefix-unique :
    {Name : Type 0} (c : Captain Name) (a b : ℕ) → IsLog c → IsPrefix c a → IsPrefix c b → a ≡ b
IsPrefix-unique c a b l p q = omega (arith, IsPrefix-le c a b l p q, IsPrefix-le c b a l q p)

-- The manager has executed `count` statements behind the first `start`, and nothing else is new.
pub record Executed {Name Db : Type 0} (sqlite : Sqlite Db) (chosen : List (Option PropValue))
    (start count : ℕ) (m n : DbManager Name Db) : Type 0 where
  pub db : n.db ≡ replay sqlite m.callback chosen start count m.db
  pub callback : n.callback ≡ m.callback
  pub executions : n.executions ≡ start + count
  pub captain : n.captain ≡ m.captain

module _ {Name Db : Type 0} (sqlite : Sqlite Db) where
  -- Calls for the last `count` slots that are passed on execute their statements.
  run_calls-Executed :
      (chosen : List (Option PropValue)) (n start count : ℕ) (m : DbManager Name Db)
      → n ≡ start + count
      → m.executions ≡ start
      → Executed sqlite chosen start count m
          (run_calls sqlite (take count (passed (λ value. value) default_value chosen n)) m)
  unfolding replay run_calls passed
  run_calls-Executed chosen n start zero m e f = record {
    db = refl;
    callback = refl;
    executions = omega arith;
    captain = refl;
  }
  run_calls-Executed chosen zero start (suc count) m e f = absurd (omega arith)
  run_calls-Executed chosen (suc n) start (suc count) m e f =
      let before = run_calls-Executed chosen n start count m (omega arith) f in
      let index : suc n ≡ suc (start + count) = omega arith in
      record {
        db =
            ap (λ i. (sqlite.exec i (run n).db (c_str (picked (suc n)).content) (run n).callback).1)
              before.executions
            ∙ ap₂
                (λ db' cb. (sqlite.exec (start + count) db' (c_str (picked (suc n)).content) cb).1)
                before.db before.callback
            ∙ ap
                (λ text.
                  (sqlite.exec (start + count) (replay sqlite m.callback chosen start count m.db)
                    text m.callback).1)
                (statement-picked chosen (suc n) ∙ ap (statement_at chosen) index);
        callback = before.callback;
        executions = omega (arith, before.executions);
        captain = before.captain;
      }
    where
      picked : ℕ → PropValue
      picked slot = picked_at (λ value. value) default_value (get_elem? chosen slot)

      run : ℕ → DbManager Name Db
      run n = run_calls sqlite (take count (passed (λ value. value) default_value chosen n)) m

module _ {Name Db : Type 0} (sqlite : Sqlite Db) where
  pub catch_up-Executed :
      (c : Captain Name) (m : DbManager Name Db)
      → IsPassed full_watch m.captain
      → IsPassed full_watch c
      → m.captain.max_chosen_without_hole ≤ c.max_chosen_without_hole
      → m.executions ≡ m.captain.max_chosen_without_hole
      → Executed sqlite c.chosen_values m.captain.max_chosen_without_hole
          (c.max_chosen_without_hole - m.captain.max_chosen_without_hole)
          (record m { captain = c })
          (catch_up sqlite c m)
  unfolding catch_up
  catch_up-Executed c m before after le made =
      subst
        (λ calls.
          Executed sqlite c.chosen_values m.captain.max_chosen_without_hole
            (c.max_chosen_without_hole - m.captain.max_chosen_without_hole)
            (record m { captain = c }) (run_calls sqlite calls (record m { captain = c })))
        (sym same)
        (run_calls-Executed sqlite c.chosen_values c.max_chosen_without_hole
          m.captain.max_chosen_without_hole
          (c.max_chosen_without_hole - m.captain.max_chosen_without_hole) (record m { captain = c })
          (omega arith) made)
    where
      same :
          fresh_calls m.captain c
          ≡ take
              (c.max_chosen_without_hole - m.captain.max_chosen_without_hole)
              (passed (λ value. value) default_value c.chosen_values c.max_chosen_without_hole)
      same =
          ap₂ take (ap₂ ◌-◌ (full_calls-length c after) (full_calls-length m.captain before)) after
