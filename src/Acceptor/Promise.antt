-- ===== src/Acceptor/Promise.antt =====
-- What an acceptor (acceptor.cpp) holds to over its requests.
use ndnpaxos.Prelude.{◌≤◌, ◌<◌, ◌≡◌, true, false, List, [], ◌∷◌, none, arith}
use ndnpaxos.Types.{MsgPrepare, MsgAccept}
use ndnpaxos.View.{View}
use ndnpaxos.Acceptor.{
  Acceptor, Request, prepares, accepts, handle_msg_prepare, handle_msg_accept, serve, serve_all,
}

-- A ballot is only accepted once it has been proposed, and a value is stored with its ballot.
pub record IsValid (a : Acceptor) : Type 0 where
  pub ordered : a.max_accepted_ballot ≤ a.max_proposed_ballot
  pub unset : a.max_value ≡ none → a.max_accepted_ballot ≡ 0

serve-IsValid : (v : View) (r : Request) (a : Acceptor) → IsValid a → IsValid (serve v r a)
unfolding serve handle_msg_prepare handle_msg_accept
serve-IsValid v (prepares m) a h = ground arith
serve-IsValid v (accepts m) a h = ground arith

serve_mono :
    (v : View) (r : Request) (a : Acceptor)
    → a.max_proposed_ballot ≤ (serve v r a).max_proposed_ballot
unfolding serve handle_msg_prepare handle_msg_accept
serve_mono v (prepares m) a = ground arith
serve_mono v (accepts m) a = ground arith

serve_all_mono :
    (v : View) (rs : List Request) (a : Acceptor)
    → a.max_proposed_ballot ≤ (serve_all v rs a).max_proposed_ballot
unfolding serve_all
serve_all_mono v [] a = omega arith
serve_all_mono v (r ∷ rs) a = omega (arith, serve_mono v r a, serve_all_mono v rs (serve v r a))

-- After any run of requests, the accepted ballot is at most the proposed one, an acceptor with no
-- value has accepted ballot 0 only, and the proposed ballot has not fallen.
pub serve_all-IsValid :
    (v : View) (rs : List Request) (a : Acceptor)
    → IsValid a
    → IsValid (serve_all v rs a) × (a.max_proposed_ballot ≤ (serve_all v rs a).max_proposed_ballot)
unfolding serve_all
serve_all-IsValid v [] a h = (h, omega arith)
serve_all-IsValid v (r ∷ rs) a h =
    let tail = serve_all-IsValid v rs (serve v r a) (serve-IsValid v r a h) in
    (tail.0, omega (arith, serve_mono v r a, serve_all_mono v rs (serve v r a)))

-- A promise is kept: once a prepare request was answered with yes, then after any further requests
-- an accept request of a lower ballot is answered with no and changes nothing.
pub promise_kept :
    (v : View) (p : MsgPrepare) (a : Acceptor) (rs : List Request) (m : MsgAccept)
    → (handle_msg_prepare v p a).0.reply ≡ true
    → m.ballot_id < p.ballot_id
    → let late = serve_all v rs (handle_msg_prepare v p a).1 in
      ((handle_msg_accept v m late).0.reply ≡ false) × ((handle_msg_accept v m late).1 ≡ late)
unfolding handle_msg_prepare handle_msg_accept
promise_kept v p a rs m yes_reply lower =
    ground (arith, serve_all_mono v rs (handle_msg_prepare v p a).1)
