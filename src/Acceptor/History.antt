-- ===== src/Acceptor/History.antt =====
-- The acceptor of acceptor.cpp against the history of its requests.
use ndnpaxos.Prelude.{
  ℕ, ◌≤◌, ◌≡◌, refl, ◌∙◌, true, List, [], ◌∷◌, Option, none, some, arith, if◌then◌else◌, All,
}
use ndnpaxos.Types.{PropValue, MsgPrepare, MsgAckPrepare}
use ndnpaxos.View.{View}
use ndnpaxos.Acceptor.{
  Acceptor, new_acceptor, Request, prepares, accepts, handle_msg_prepare, handle_msg_accept, serve,
  serve_all,
}

-- Ballot and value id of each acceptance in the run `rs` from `a`, in order.
pub acceptances : View → Acceptor → List Request → List (ℕ × ℕ)
acceptances v a [] = []
acceptances v a (prepares m ∷ rs) = acceptances v (serve v (prepares m) a) rs
acceptances v a (accepts m ∷ rs) =
    let rest = acceptances v (serve v (accepts m) a) rs in
    if (handle_msg_accept v m a).0.reply then (m.ballot_id, m.prop_value.id) ∷ rest else rest

-- The last entry of a list, or `d`.
abbrev pub last_or : Option (ℕ × ℕ) → List (ℕ × ℕ) → Option (ℕ × ℕ)
last_or d [] = d
last_or d (x ∷ xs) = last_or (some x) xs

abbrev pub pair_with : ℕ → Option PropValue → Option (ℕ × ℕ)
pair_with ballot none = none
pair_with ballot (some x) = some (ballot, x.id)

-- The ballot and value id that a reply to a prepare request carries.
abbrev pub reported : MsgAckPrepare → Option (ℕ × ℕ)
reported m = pair_with m.max_ballot_id m.max_prop_value

abbrev pub held : Acceptor → Option (ℕ × ℕ)
held a = pair_with a.max_accepted_ballot a.max_value

held-serve_all :
    (v : View) (rs : List Request) (a : Acceptor)
    → held (serve_all v rs a) ≡ last_or (held a) (acceptances v a rs)
unfolding serve_all acceptances serve handle_msg_prepare handle_msg_accept
held-serve_all v [] a = refl
held-serve_all v (prepares m ∷ rs) a =
    ground (arith, held-serve_all v rs (handle_msg_prepare v m a).1)
held-serve_all v (accepts m ∷ rs) a =
    ground (arith, held-serve_all v rs (handle_msg_accept v m a).1)

abbrev Bounded : ℕ → List (ℕ × ℕ) → Type 0
Bounded n = All (λ p. p.0 ≤ n)

acceptances-le :
    (v : View) (rs : List Request) (a : Acceptor)
    → a.max_accepted_ballot ≤ a.max_proposed_ballot
    → (a.max_accepted_ballot ≤ (serve_all v rs a).max_accepted_ballot)
      × Bounded (serve_all v rs a).max_accepted_ballot (acceptances v a rs)
unfolding serve_all acceptances serve handle_msg_prepare handle_msg_accept
acceptances-le v [] a h = (omega arith, tt)
acceptances-le v (prepares m ∷ rs) a h =
    ground (arith, acceptances-le v rs (handle_msg_prepare v m a).1)
acceptances-le v (accepts m ∷ rs) a h =
    ground (arith, acceptances-le v rs (handle_msg_accept v m a).1)

reported-handle_msg_prepare :
    (v : View) (m : MsgPrepare) (a : Acceptor)
    → (handle_msg_prepare v m a).0.reply ≡ true
    → reported (handle_msg_prepare v m a).0 ≡ held a
unfolding handle_msg_prepare
reported-handle_msg_prepare v m a agreed = ground arith

max_ballot_id-handle_msg_prepare :
    (v : View) (m : MsgPrepare) (a : Acceptor)
    → (handle_msg_prepare v m a).0.max_ballot_id ≡ a.max_accepted_ballot
unfolding handle_msg_prepare
max_ballot_id-handle_msg_prepare v m a = ground arith

-- A reply of yes to a prepare request, after any run of requests from the initial acceptor, carries
-- the ballot and the value id of the last acceptance of the run (none if there was none), and no
-- acceptance of the run has a higher ballot.
pub promise_reports :
    (v : View) (rs : List Request) (m : MsgPrepare)
    → let reply = (handle_msg_prepare v m (serve_all v rs new_acceptor)).0 in
      reply.reply ≡ true
      → (reported reply ≡ last_or none (acceptances v new_acceptor rs))
        × All (λ p. p.0 ≤ reply.max_ballot_id) (acceptances v new_acceptor rs)
promise_reports v rs m agreed =
    let late = serve_all v rs new_acceptor in
    (
      reported-handle_msg_prepare v m late agreed ∙ held-serve_all v rs new_acceptor,
      rw (max_ballot_id-handle_msg_prepare v m late)
          ((acceptances-le v rs new_acceptor (omega arith)).1),
    )
