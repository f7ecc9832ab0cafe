-- ===== src/Acceptor/Reference.antt =====
-- The acceptor of acceptor.cpp against a reference that keeps all requests and no ballot of its own.
use ndnpaxos.Prelude.{
  ℕ, ◌≡◌, refl, true, List, [], ◌∷◌, Option, none, some, ltb, leb, arith, if◌then◌else◌,
}
use ndnpaxos.Types.{MsgPrepare, MsgAccept}
use ndnpaxos.View.{View}
use ndnpaxos.Acceptor.{
  Acceptor, new_acceptor, Request, prepares, accepts, handle_msg_prepare, handle_msg_accept, serve,
  serve_all,
}
use ndnpaxos.Acceptor.History.{reported, held}

abbrev larger : ℕ → ℕ → ℕ
larger a b = if leb a b then b else a

abbrev ballot_of : Request → ℕ
ballot_of (prepares m) = m.ballot_id
ballot_of (accepts m) = m.ballot_id

-- The highest ballot that was asked for, whether it was granted or not.
pub highest : List Request → ℕ
highest [] = 0
highest (r ∷ rs) = larger (ballot_of r) (highest rs)

-- The last accept request whose ballot was not below that of any request before it, as ballot and value
-- id; `top` is the highest ballot so far.
pub last_taken : ℕ → Option (ℕ × ℕ) → List Request → Option (ℕ × ℕ)
last_taken top found [] = found
last_taken top found (prepares m ∷ rs) = last_taken (larger top m.ballot_id) found rs
last_taken top found (accepts m ∷ rs) =
    last_taken (larger top m.ballot_id)
      (if leb top m.ballot_id then some (m.ballot_id, m.prop_value.id) else found) rs

serve_proposed :
    (v : View) (r : Request) (a : Acceptor)
    → (serve v r a).max_proposed_ballot ≡ larger a.max_proposed_ballot (ballot_of r)
unfolding serve handle_msg_prepare handle_msg_accept
serve_proposed v (prepares m) a = ground arith
serve_proposed v (accepts m) a = ground arith

serve_all_proposed :
    (v : View) (rs : List Request) (a : Acceptor)
    → (serve_all v rs a).max_proposed_ballot ≡ larger a.max_proposed_ballot (highest rs)
unfolding serve_all highest
serve_all_proposed v [] a = ground arith
serve_all_proposed v (r ∷ rs) a =
    ground (arith, serve_all_proposed v rs (serve v r a), serve_proposed v r a)

held-serve_all :
    (v : View) (rs : List Request) (a : Acceptor)
    → held (serve_all v rs a) ≡ last_taken a.max_proposed_ballot (held a) rs
unfolding serve_all last_taken serve handle_msg_prepare handle_msg_accept
held-serve_all v [] a = refl
held-serve_all v (prepares m ∷ rs) a =
    ground (arith, held-serve_all v rs (handle_msg_prepare v m a).1)
held-serve_all v (accepts m ∷ rs) a =
    ground (arith, held-serve_all v rs (handle_msg_accept v m a).1)

-- After any run of requests from the initial acceptor: a prepare request is granted just if its ballot
-- is above every ballot that was asked for before, and then the reply carries the last accept request
-- that was not below any request before it; an accept request is granted just if its ballot is not
-- below any ballot that was asked for before.
pub serve_all_reference :
    (v : View) (rs : List Request)
    → ((m : MsgPrepare)
        → let ack = (handle_msg_prepare v m (serve_all v rs new_acceptor)).0 in
          (ack.reply ≡ ltb (highest rs) m.ballot_id)
          × (ack.reply ≡ true → reported ack ≡ last_taken 0 none rs))
      × ((m : MsgAccept)
          → (handle_msg_accept v m (serve_all v rs new_acceptor)).0.reply
            ≡ leb (highest rs) m.ballot_id)
unfolding handle_msg_prepare handle_msg_accept
serve_all_reference v rs = (
  λ m. (
    ground (arith, serve_all_proposed v rs new_acceptor),
    λ agreed. ground (arith, held-serve_all v rs new_acceptor),
  ),
  λ m. ground (arith, serve_all_proposed v rs new_acceptor),
)
