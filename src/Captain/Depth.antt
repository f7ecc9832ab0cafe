-- ===== src/Captain/Depth.antt =====
-- How deep the calls nest that a replica (captain.cpp) makes for its own messages, outside the RS build
-- and in a cluster whose quorums have two nodes or more: what the proposers satisfy.

pub mod Acks
pub mod Logging
pub mod Requests
pub mod Starting
pub mod Answers
pub mod Choices
pub mod Nesting
pub mod Calls
use ndnpaxos.Prelude.{
  ℕ, ◌≤◌, ◌≡◌, ◌⊎◌, refl, sym, ◌∙◌, subst, true, List, [], ◌∷◌, some, All, if◌then◌else◌, ◌==◌,
  some-injective, arith, Bool-cases, inl, inr,
}
use ndnpaxos.Prelude.SortedMap
use ndnpaxos.Prelude.Below.{All-insert}
use ndnpaxos.Types.{
  u16, Message, MsgPrepare, MsgAckPrepare, MsgAccept, MsgAckAccept, MsgDecide, MsgTeach,
}
use ndnpaxos.Captain.State.{Captain, ProposerInfo, dum}
use ndnpaxos.Captain.Handlers.{takes_promise, takes_accepted}
use ndnpaxos.Captain.Start.{put_proposer}
use ndnpaxos.Commo.{Handler}
use ndnpaxos.Prelude.Settling.{Settles}

-- No answer but the node's own.
abbrev pub OnlyOwn {ℓ} : {V : Type ℓ} → ℕ → List (ℕ × V) → Type ℓ
OnlyOwn {V = V} own acks = (acks ≡ []) ⊎ ((v : V) × (acks ≡ (own, v) ∷ []))

pub All-find {κ} :
    {V : Type 0} (P : V → Type κ) (slot : ℕ) (m : List (ℕ × V)) (v : V)
    → All (λ e. P e.1) m
    → SortedMap.find slot m ≡ some v
    → P v
unfolding SortedMap.find
All-find P slot [] v h e = cc
All-find P slot ((j, w) ∷ m) v h e = elim (Bool-cases (j == slot)) [
  | inl here ↦ subst P (some-injective (rw here at e)) h.0
  | inr past ↦ All-find P slot m v h.1 (rw past at e)
]

module _ {Name : Type 0} where
  -- What holds of each proposer: its quorums have two nodes or more, and while it asks for promises no
  -- other node has answered an accept request.
  pub record IsMany (own : ℕ) (info : ProposerInfo Name) : Type 0 where
    pub reads : 2 ≤ info.curr_proposer.qr
    pub writes : 2 ≤ info.curr_proposer.qw
    pub early :
        takes_promise info.proposer_status ≡ true → OnlyOwn own info.curr_proposer.msg_ack_accept

  -- No other node has answered what the proposer asks.
  pub record IsQuiet (own : ℕ) (info : ProposerInfo Name) : Type 0 where
    pub promises :
        takes_promise info.proposer_status ≡ true → OnlyOwn own info.curr_proposer.msg_ack_prepare
    pub accepts :
        takes_accepted info.proposer_status ≡ true → OnlyOwn own info.curr_proposer.msg_ack_accept

  pub record AreMany (own q : ℕ) (proposers : List (ℕ × ProposerInfo Name)) : Type 0 where
    pub quorate : 2 ≤ q
    pub entries : All (λ e. IsMany own e.1) proposers

  abbrev pub own_key : Captain Name → ℕ
  own_key c = u16 c.view.node_id

  abbrev pub IsShallow : Captain Name → Type 0
  IsShallow c = AreMany (own_key c) c.view.q_size c.proposers

  -- Shallow, with a quiet proposer for the slot if there is one.
  abbrev pub IsQuietAt : ℕ → Captain Name → Type 0
  IsQuietAt slot c =
      IsShallow c
      × ((info : ProposerInfo Name)
          → SortedMap.find slot c.proposers ≡ some info
          → IsQuiet (own_key c) info)

  pub put_proposer-IsShallow :
      (slot : ℕ) (info : ProposerInfo Name) (c : Captain Name)
      → IsShallow c
      → IsMany (own_key c) info
      → IsShallow (put_proposer slot info c)
  put_proposer-IsShallow slot info c h new = record {
    quorate = h.quorate;
    entries = All-insert (λ e. IsMany (own_key c) e.1) slot info c.proposers new h.entries;
  }

  pub put_proposer-IsQuietAt :
      (slot : ℕ) (info : ProposerInfo Name) (c : Captain Name)
      → IsShallow c
      → IsMany (own_key c) info
      → IsQuiet (own_key c) info
      → IsQuietAt slot (put_proposer slot info c)
  put_proposer-IsQuietAt slot info c h new quiet = (
    put_proposer-IsShallow slot info c h new,
    λ found e.
        subst (IsQuiet (own_key c))
          (some-injective (
            found_there c.proposers ∙ (sym (SortedMap.find-insert slot slot info c.proposers) ∙ e)))
          quiet,
  )
    where
      found_there :
          (m : List (ℕ × ProposerInfo Name))
          → some info ≡ (if slot == slot then some info else SortedMap.find slot m)
      found_there m = ground arith

  -- Handlers of the replica's own messages: acks and requests of a quiet slot, and what spreads a choice.
  pub record HandlesAcks (self : Handler Name) : Type 0 where
    pub promise :
        (slot : ℕ) (m : MsgAckPrepare) (c : Captain Name)
        → m.header.slot_id ≡ slot
        → m.header.node_id ≡ c.view.node_id
        → IsQuietAt slot c
        → Settles (IsQuietAt slot) (self (Message.promise m) dum c)
    pub accepted :
        (slot : ℕ) (m : MsgAckAccept) (c : Captain Name)
        → m.header.slot_id ≡ slot
        → m.header.node_id ≡ c.view.node_id
        → IsQuietAt slot c
        → Settles (IsQuietAt slot) (self (Message.accepted m) dum c)

  pub record HandlesRequests (self : Handler Name) : Type 0 where
    pub prepare :
        (slot : ℕ) (m : MsgPrepare) (c : Captain Name)
        → m.header.slot_id ≡ slot
        → IsQuietAt slot c
        → Settles (IsQuietAt slot) (self (Message.prepare m) dum c)
    pub accept :
        (slot : ℕ) (m : MsgAccept) (c : Captain Name)
        → m.header.slot_id ≡ slot
        → IsQuietAt slot c
        → Settles (IsQuietAt slot) (self (Message.accept m) dum c)

  pub record HandlesChoices (self : Handler Name) : Type 0 where
    pub decide :
        (m : MsgDecide) (c : Captain Name)
        → IsShallow c
        → Settles IsShallow (self (Message.decide m) dum c)
    pub teach :
        (m : MsgTeach) (c : Captain Name)
        → IsShallow c
        → Settles IsShallow (self (Message.teach m) dum c)
