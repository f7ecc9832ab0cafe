-- ===== src/Client/Mix.antt =====
-- The mix of reads and writes of client.cpp, and its window.
use ndnpaxos.Prelude.{
  ℕ, suc, ◌+◌, ◌-◌, ◌%◌, ◌≤◌, ◌<◌, ◌≡◌, refl, ap, List, [], ◌∷◌, length, arith, ltb, ◌==◌,
  if◌then◌else◌, Outcome, ok, ◌>>=◌,
}
use ndnpaxos.Client.{Request, Client, choose_type, issue, update, max_starts}

-- The arguments of one `issue`: the client's number, the clock, the random number.
pub record Input : Type 0 where
  pub client_id : ℕ
  pub now : ℕ
  pub random : ℕ

-- Consecutive requests, whether the window or an answer is their cause.
pub issue_all : List Input → Client → Outcome (List Request × Client)
issue_all [] c = ok ([], c)
issue_all (i ∷ is) c = do
  one ← issue i.client_id i.now i.random c
  rest ← issue_all is one.1
  ok (one.0 ∷ rest.0, rest.1)

-- How many requests of the list are of a type.
abbrev pub count_type : ℕ → List Request → ℕ
count_type t [] = 0
count_type t (r ∷ rs) = (if r.type == t then 1 else 0) + count_type t rs

-- The client after a request, its place drawn.
abbrev issued : ℕ → ℕ → Client → Client
issued now place c = record c {
  starts = update c.starts c.commit_counter now;
  commit_counter = suc c.commit_counter;
  rand_counter = place;
}

abbrev request_at : ℕ → ℕ → Client → Request
request_at client_id place c = record {
  type = if c.commit_counter == place then 1 - c.write_or_read else c.write_or_read;
  client_id = client_id;
  counter = c.commit_counter;
}

issue_mixed :
    (i : Input) (c : Client)
    → 0 < c.ratio
    → c.ratio < 100
    → c.commit_counter < max_starts
    → let place =
        if c.commit_counter % 10 == 0 then c.commit_counter + i.random % 10 else c.rand_counter in
      issue i.client_id i.now i.random c ≡ ok (request_at i.client_id place c, issued i.now place c)
unfolding issue choose_type
issue_mixed i c pos low room = ground arith

-- What a run of requests with the odd one at `place` comes to.
record Mixed (is : List Input) (c : Client) (place : ℕ) : Type 0 where
  pub requests : List Request
  pub last : Client
  pub runs : issue_all is c ≡ ok (requests, last)
  pub size : length requests ≡ length is
  pub odd : count_type (1 - c.write_or_read) requests ≡ (
      if ltb place c.commit_counter
      then 0
      else if ltb place (c.commit_counter + length is)
      then 1
      else 0)

cons_Mixed :
    (i : Input) (is : List Input) (c : Client) (place : ℕ)
    → c.write_or_read ≤ 1
    → issue i.client_id i.now i.random c ≡ ok (request_at i.client_id place c, issued i.now place c)
    → Mixed is (issued i.now place c) place
    → Mixed (i ∷ is) c place
unfolding issue_all
cons_Mixed i is c place w e m = record {
  requests = request_at i.client_id place c ∷ m.requests;
  last = m.last;
  runs = rw e (rw m.runs refl);
  size = ap suc m.size;
  odd = ground (arith, m.odd);
}

mid_block :
    (is : List Input) (c : Client) (base : ℕ)
    → 0 < c.ratio
    → c.ratio < 100
    → c.write_or_read ≤ 1
    → base % 10 ≡ 0
    → base < c.commit_counter
    → c.commit_counter + length is ≤ base + 10
    → c.commit_counter + length is ≤ max_starts
    → Mixed is c c.rand_counter
unfolding issue_all
mid_block [] c base pos low w m b e s = record {
  requests = [];
  last = c;
  runs = refl;
  size = refl;
  odd = ground arith;
}
mid_block (i ∷ is) c base pos low w m b e s =
    cons_Mixed i is c c.rand_counter w (rw (issue_mixed i c pos low (omega arith)) (ground arith)) (
      mid_block is (issued i.now c.rand_counter c) base pos low w m (omega arith) (omega arith)
        (omega arith))

-- A client that mixes (0 < ratio < 100) and stands at a multiple of ten, with room for ten more start
-- times: of its next ten requests, whatever numbers are drawn, exactly one is of the other type than
-- `write_or_read` says, and the run does not fail.
pub one_in_ten :
    (is : List Input) (c : Client)
    → 0 < c.ratio
    → c.ratio < 100
    → c.write_or_read ≤ 1
    → c.commit_counter % 10 ≡ 0
    → length is ≡ 10
    → c.commit_counter + 10 ≤ max_starts
    → (rs : List Request) × (d : Client) × (issue_all is c ≡ ok (rs, d))
      × (length rs ≡ 10)
      × (count_type (1 - c.write_or_read) rs ≡ 1)
one_in_ten [] c pos low w m ten room = absurd (omega arith)
one_in_ten (i ∷ is) c pos low w m ten room =
    let place : ℕ = c.commit_counter + i.random % 10 in
    let block : Mixed (i ∷ is) c place =
      cons_Mixed i is c place w (rw (issue_mixed i c pos low (omega arith)) (ground arith)) (
        mid_block is (issued i.now place c) c.commit_counter pos low w m (omega arith) (omega arith)
          (omega arith)) in
    (block.requests, block.last, block.runs, omega (arith, block.size), ground (arith, block.odd))
