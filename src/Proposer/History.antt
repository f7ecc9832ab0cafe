-- ===== src/Proposer/History.antt =====
-- A choice of the proposer (proposer.cpp, `handle_msg_accepted`) against the acks that it has heard.
use ndnpaxos.Prelude.{
  ℕ, ◌≤◌, ◌<◌, ◌≡◌, ◌≢◌, refl, sym, ◌∙◌, ap, ap₂, subst, true, Bool, List, [], ◌∷◌, ◌++◌, Option,
  none, some, length, arith, if◌then◌else◌, leb, ◌&&◌, ◌==◌, All, Bool-cases, inl, inr,
}
use ndnpaxos.Prelude.SortedMap
use ndnpaxos.Types.{AckType, MsgAckAccept, PropValue, u16}
use ndnpaxos.Proposer.{Proposer, handle_msg_accepted, count_yes, is_set}
use ndnpaxos.Proposer.Choice.{handle_msg_accepted-Chooses}

-- The proposer after the acks `ms`, in their order.
unfoldable pub hear_all : List MsgAckAccept → Proposer → Proposer
hear_all [] p = p
hear_all (m ∷ ms) p = hear_all ms (handle_msg_accepted m p).1

-- Whether an ack comes from `node` and is of the ballot `b` or a later one.
abbrev pub counts_for : ℕ → ℕ → MsgAckAccept → Bool
counts_for b node m = leb b m.ballot_id && (u16 m.header.node_id == node)

-- The last of the acks of `node` that are of the ballot `b` or a later one, or `before`.
unfoldable pub last_ack : ℕ → ℕ → Option MsgAckAccept → List MsgAckAccept → Option MsgAckAccept
last_ack b node before [] = before
last_ack b node before (m ∷ ms) =
    last_ack b node (if counts_for b node m then some m else before) ms

-- The numbers are different: each is below the next one.
abbrev pub Rises : ℕ → List ℕ → Type 0
Rises k [] = Unit
Rises k (n ∷ ns) = (k < n) × Rises n ns

abbrev pub IsRising : List ℕ → Type 0
IsRising [] = Unit
IsRising (n ∷ ns) = Rises n ns

-- The nodes whose ack in the map says yes.
unfoldable yes_nodes : List (ℕ × MsgAckAccept) → List ℕ
yes_nodes [] = []
yes_nodes ((node, m) ∷ acks) = let rest = yes_nodes acks in if m.reply then node ∷ rest else rest

length-yes_nodes : (acks : List (ℕ × MsgAckAccept)) → length (yes_nodes acks) ≡ count_yes acks
unfolding yes_nodes count_yes
length-yes_nodes [] = refl
length-yes_nodes ((node, m) ∷ acks) = ground (arith, length-yes_nodes acks)

Rises-lt : (k j : ℕ) (ns : List ℕ) → k < j → Rises j ns → Rises k ns
Rises-lt k j [] low h = tt
Rises-lt k j (n ∷ ns) low h = (omega (arith, h.0), h.1)

yes_nodes-Rises :
    (k : ℕ) (acks : List (ℕ × MsgAckAccept)) → SortedMap.Above k acks → Rises k (yes_nodes acks)
unfolding yes_nodes
yes_nodes-Rises k [] a = tt
yes_nodes-Rises k ((node, m) ∷ acks) a = elim (Bool-cases m.reply) [
  | inl agrees ↦ rw agrees (a.0, yes_nodes-Rises node acks a.1)
  | inr refuses ↦ rw refuses (Rises-lt k node (yes_nodes acks) a.0 (yes_nodes-Rises node acks a.1))
]

yes_nodes-IsRising :
    (acks : List (ℕ × MsgAckAccept)) → SortedMap.IsSorted acks → IsRising (yes_nodes acks)
unfolding yes_nodes
yes_nodes-IsRising [] s = tt
yes_nodes-IsRising ((node, m) ∷ acks) s = elim (Bool-cases m.reply) [
  | inl agrees ↦ rw agrees (yes_nodes-Rises node acks s)
  | inr refuses ↦ rw refuses (rises_on (yes_nodes acks) (yes_nodes-Rises node acks s))
]
  where
    rises_on : (ns : List ℕ) → Rises node ns → IsRising ns
    rises_on [] h = tt
    rises_on (n ∷ ns) h = h.1

-- Each of these nodes has an ack that says yes, wherever the acks of the map are found.
yes_nodes-find :
    (f : ℕ → Option MsgAckAccept) (acks : List (ℕ × MsgAckAccept))
    → SortedMap.IsSorted acks
    → ((node : ℕ) (m : MsgAckAccept) → SortedMap.find node acks ≡ some m → f node ≡ some m)
    → All (λ node. (m : MsgAckAccept) × (f node ≡ some m) × (m.reply ≡ true)) (yes_nodes acks)
unfolding yes_nodes SortedMap.find
yes_nodes-find f [] s sub = tt
yes_nodes-find f ((node, m) ∷ acks) s sub =
    let rest =
      yes_nodes-find f acks (SortedMap.Above-IsSorted node acks s)
        (λ i w at. sub i w (SortedMap.find-later i node w m acks s at)) in
    elim (Bool-cases m.reply) [
      | inl agrees ↦
          let here : SortedMap.find node ((node, m) ∷ acks) ≡ some m = ground arith in
          rw agrees ((m, sub node m here, agrees), rest)
      | inr refuses ↦ rw refuses rest
    ]

-- What an ack leaves as it is.
record Keeps (p q : Proposer) : Type 0 where
  ballot : q.curr_ballot ≡ p.curr_ballot
  value : q.curr_value ≡ p.curr_value
  quorum : q.qw ≡ p.qw
  sorted : SortedMap.IsSorted p.msg_ack_accept → SortedMap.IsSorted q.msg_ack_accept

handle_msg_accepted-Keeps : (m : MsgAckAccept) (p : Proposer) → Keeps p (handle_msg_accepted m p).1
unfolding handle_msg_accepted
handle_msg_accepted-Keeps m p =
    let entry = SortedMap.insert-IsSorted (u16 m.header.node_id) m p.msg_ack_accept in
    record {
      ballot = ground arith;
      value = ground arith;
      quorum = ground arith;
      sorted = λ s. ground (arith, entry s);
    }

hear_all-Keeps : (ms : List MsgAckAccept) (p : Proposer) → Keeps p (hear_all ms p)
unfolding hear_all
hear_all-Keeps [] p = record { ballot = refl; value = refl; quorum = refl; sorted = λ s. s }
hear_all-Keeps (m ∷ ms) p =
    let first = handle_msg_accepted-Keeps m p in
    let rest = hear_all-Keeps ms (handle_msg_accepted m p).1 in
    record {
      ballot = rest.ballot ∙ first.ballot;
      value = rest.value ∙ first.value;
      quorum = rest.quorum ∙ first.quorum;
      sorted = λ s. rest.sorted (first.sorted s);
    }

handle_msg_accepted-find :
    (m : MsgAckAccept) (p : Proposer) (node : ℕ)
    → is_set p.curr_value ≡ true
    → SortedMap.find node (handle_msg_accepted m p).1.msg_ack_accept
      ≡ (if counts_for p.curr_ballot node m then some m else SortedMap.find node p.msg_ack_accept)
unfolding handle_msg_accepted
handle_msg_accepted-find m p node set =
    let entry = SortedMap.find-insert (u16 m.header.node_id) node m p.msg_ack_accept in
    ground (arith, entry)

-- The map of acks holds the last one of each node.
hear_all-find :
    (ms : List MsgAckAccept) (p : Proposer) (node : ℕ)
    → is_set p.curr_value ≡ true
    → SortedMap.find node (hear_all ms p).msg_ack_accept
      ≡ last_ack p.curr_ballot node (SortedMap.find node p.msg_ack_accept) ms
unfolding hear_all last_ack
hear_all-find [] p node set = refl
hear_all-find (m ∷ ms) p node set =
    let q = (handle_msg_accepted m p).1 in
    let k = handle_msg_accepted-Keeps m p in
    hear_all-find ms q node (ap is_set k.value ∙ set)
    ∙ ap₂ (λ b before. last_ack b node before ms) k.ballot (handle_msg_accepted-find m p node set)

hear_all-append :
    (ms : List MsgAckAccept) (m : MsgAckAccept) (p : Proposer)
    → hear_all (ms ++ m ∷ []) p ≡ (handle_msg_accepted m (hear_all ms p)).1
unfolding hear_all
hear_all-append [] m p = refl
hear_all-append (w ∷ ms) m p = hear_all-append ms m (handle_msg_accepted w p).1

set_value : (x : Option PropValue) → x ≢ none → is_set x ≡ true
set_value none h = absurd (h refl)
set_value (some x) h = refl

-- A proposer that has heard no ack since it has its ballot, hears the acks `ms` and then `m`, each of any
-- node and ballot, repeated and reordered as they may be. If it then reports its value as chosen, there
-- are different nodes, at least `qw` of them, and of each the last of these acks that has the
-- proposer's ballot (or a later one) says yes.
pub choice_has_quorum :
    (ms : List MsgAckAccept) (m : MsgAckAccept) (p q : Proposer)
    → p.msg_ack_accept ≡ []
    → handle_msg_accepted m (hear_all ms p) ≡ (AckType.choose, q)
    → (nodes : List ℕ) × IsRising nodes
      × (p.qw ≤ length nodes)
      × All
          (λ node.
            (w : MsgAckAccept) × (last_ack p.curr_ballot node none (ms ++ m ∷ []) ≡ some w)
            × (w.reply ≡ true))
          nodes
unfolding SortedMap.find
choice_has_quorum ms m p q empty chosen =
    let r = hear_all ms p in
    let choice = handle_msg_accepted-Chooses m r q chosen in
    let k = hear_all-Keeps ms p in
    let last = handle_msg_accepted-Keeps m r in
    let same : (handle_msg_accepted m r).1 ≡ q = ap (λ x. x.1) chosen in
    let acks = q.msg_ack_accept in
    let sorted =
      subst (λ x. SortedMap.IsSorted x.msg_ack_accept) same
        (last.sorted (k.sorted (subst SortedMap.IsSorted (sym empty) tt))) in
    let set : is_set p.curr_value ≡ true = set_value p.curr_value (λ e. choice.set (k.value ∙ e)) in
    let found = λ (node : ℕ).
      sym (
        hear_all-find (ms ++ m ∷ []) p node set
        ∙ ap (λ x. last_ack p.curr_ballot node (SortedMap.find node x) (ms ++ m ∷ [])) empty)
      ∙ ap (λ x. SortedMap.find node x.msg_ack_accept) (hear_all-append ms m p ∙ same) in
    (
      yes_nodes acks,
      yes_nodes-IsRising acks sorted,
      omega
          (arith, length-yes_nodes acks, choice.quorum, k.quorum, ap (λ x. x.qw) same, last.quorum),
      yes_nodes-find (λ node. last_ack p.curr_ballot node none (ms ++ m ∷ [])) acks sorted
          (λ node w at. found node ∙ at),
    )
