-- ===== src/Client.antt =====
-- libndnpaxos/client.hpp and client.cpp: the load generator. A client keeps a window of outstanding
-- requests, mixes reads and writes, and measures. Clocks, `rand` and the value's text are arguments;
-- the interests go out as the list of requests; the sleeps and the result files are not modelled.
pub mod Mix
use ndnpaxos.Prelude.{
  ℕ, zero, suc, ◌+◌, ◌-◌, ◌%◌, Bool, true, false, List, [], ◌∷◌, ◌++◌, Option, none, some,
  get_elem?, length, replicate, set, ltb, ◌==◌, if◌then◌else◌, Outcome, ok, fault, deref, ◌>>=◌,
  not,
}

-- The components of a request's name behind the prefix: 0 is a write and 1 a read, then the client's
-- number and the commit counter, from which the value's text is made.
pub record Request : Type 0 where
  pub type : ℕ
  pub client_id : ℕ
  pub counter : ℕ

-- `starts_` as the start times by commit counter; the vector has 20,000,000 entries.
pub record Client : Type 0 where
  pub com_win : ℕ
  pub ratio : ℕ
  pub write_or_read : ℕ
  pub commit_counter : ℕ
  pub rand_counter : ℕ
  pub thr_counter : ℕ
  pub starts : ℕ → ℕ
  pub recording : Bool
  pub finished : Bool  -- `done_`
  pub periods : List ℕ
  pub throughputs : List ℕ

abbrev pub max_starts : ℕ
max_starts = 20000000

unfoldable pub new_client : ℕ → ℕ → Client
new_client commit_win ratio = record {
  com_win = commit_win;
  ratio = ratio;
  write_or_read = if ratio == 10 then 1 else 0;
  commit_counter = 0;
  rand_counter = 0;
  thr_counter = 0;
  starts = λ i. 0;
  recording = false;
  finished = false;
  periods = [];
  throughputs = [];
}

-- Every tenth request draws the place, among the next ten, of the request of the other type.
abbrev pub draw : ℕ → Client → Client
draw random c =
    if c.commit_counter % 10 == 0
    then record c { rand_counter = c.commit_counter + random % 10 }
    else c

-- The type of the next request, and the state with its place drawn.
unfoldable pub choose_type : ℕ → Client → ℕ × Client
choose_type random c =
    if ltb c.ratio 100
    then (if c.ratio == 0
        then (1, c)
        else let d = draw random c in
          if d.commit_counter == d.rand_counter
          then (1 - d.write_or_read, d)
          else (d.write_or_read, d))
    else (c.write_or_read, c)

abbrev pub update : (ℕ → ℕ) → ℕ → ℕ → ℕ → ℕ
update f i v j = if i == j then v else f j

-- One request: its start time is stored, which is out of range from the last entry on.
unfoldable pub issue : ℕ → ℕ → ℕ → Client → Outcome (Request × Client)
unfolding choose_type
issue client_id now random c =
    if ltb c.commit_counter max_starts
    then (let choice = choose_type random c in
        let d = choice.1 in
        ok (
          record { type = choice.0; client_id = client_id; counter = d.commit_counter },
          record d {
            starts = update d.starts d.commit_counter now;
            commit_counter = suc d.commit_counter;
          },
        ))
    else fault

-- The first loop of `start_commit`: `rounds` requests from client `i` on. `clock` and `random` give the
-- time and the number drawn for each commit counter.
unfoldable pub fill_window : (ℕ → ℕ) → (ℕ → ℕ) → ℕ → ℕ → Client → Outcome (List Request × Client)
unfolding issue
fill_window clock random i zero c = ok ([], c)
fill_window clock random i (suc rounds) c = do
  one ← issue i (clock c.commit_counter) (random c.commit_counter) c
  rest ← fill_window clock random (suc i) rounds one.1
  ok (one.0 ∷ rest.0, rest.1)

abbrev pub start_commit : (ℕ → ℕ) → (ℕ → ℕ) → Client → Outcome (List Request × Client)
start_commit clock random c = fill_window clock random 0 c.com_win c

abbrev pub start_recording : Client → Client
start_recording c = record c { recording = true }

-- The end of a second in which the count stood at `before` at the start.
abbrev pub punch : ℕ → Client → Client
punch before c = record c { throughputs = c.throughputs ++ (c.thr_counter - before) ∷ [] }

abbrev pub stop_recording : Client → Client
stop_recording c = record c { recording = false; finished = true }

-- The latency of the answer, while recording.
unfoldable pub measure : ℕ → ℕ → Client → Outcome Client
measure counter now c =
    if c.recording
    then (if ltb counter max_starts
        then ok (record c {
          periods = c.periods ++ (now - c.starts counter) ∷ [];
          thr_counter = suc c.thr_counter;
        })
        else fault)
    else ok c

-- An answer to the request: it is measured, and the client goes on with the next one until the end.
unfoldable pub on_data : ℕ → ℕ → Request → Client → Outcome (Option Request × Client)
unfolding measure issue
on_data now random answered c = do
  d ← measure answered.counter now c
  if d.finished
      then ok (none, d)
      else (issue answered.client_id now random d >>= λ next. ok (some next.0, next.1))
