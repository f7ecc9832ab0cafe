-- ===== src/Captain/Depth/Acks.antt =====
-- A replica's acks to itself (captain.cpp, the cases PROMISE and ACCEPTED of `handle_msg`): while no other
-- node has answered, its own ack is not enough, and no further call follows.
use ndnpaxos.Prelude.{
  ℕ, ◌≤◌, ◌≡◌, ◌⊎◌, inl, inr, refl, subst, sym, true, List, [], ◌∷◌, arith, ok, length, ltb, ◌||◌,
  Bool-cases, ap, ◌>>=◌, not,
}
use ndnpaxos.Prelude.SortedMap
use ndnpaxos.Prelude.Settling.{Settles, Settles-if, Settles-Option}
use ndnpaxos.Types.{Mode, AckType, ProposerStatus, MsgAckPrepare, MsgAckAccept, u16}
use ndnpaxos.View.{View}
use ndnpaxos.Rs.{Fec}
use ndnpaxos.Proposer.{Proposer, handle_msg_promise, handle_msg_accepted, is_set}
use ndnpaxos.Proposer.Choice.{with_ack}
use ndnpaxos.Proposer.Steps.{with_accepted}
use ndnpaxos.Captain.State.{Captain, ProposerInfo, DataName, dum}
use ndnpaxos.Captain.Handlers.{
  on_promise, after_promise, on_accepted, after_accepted, takes_promise, takes_accepted,
  with_status,
}
use ndnpaxos.Captain.Start.{put_proposer}
use ndnpaxos.Captain.Dispatch.{handle_with}
use ndnpaxos.Commo.{Handler}
use ndnpaxos.Captain.Depth.{
  OnlyOwn, IsMany, IsQuiet, IsShallow, IsQuietAt, own_key, All-find, put_proposer-IsQuietAt,
  HandlesAcks,
}

insert-OnlyOwn {ℓ} :
    {V : Type ℓ} (own : ℕ) (v : V) (acks : List (ℕ × V))
    → OnlyOwn own acks
    → SortedMap.insert own v acks ≡ (own, v) ∷ []
unfolding SortedMap.insert
insert-OnlyOwn own v acks (inl e) = rw e refl
insert-OnlyOwn own v acks (inr (w, e)) = rw e (ground arith)

-- The proposer's answers to an ack of its own node.
own_promise :
    (mode : Mode) (fec : Fec) (v : View) (own : ℕ) (m : MsgAckPrepare) (p : Proposer)
    → u16 m.header.node_id ≡ own
    → 2 ≤ p.qr
    → OnlyOwn own p.msg_ack_prepare
    → (handle_msg_promise mode fec v m p ≡ ok (AckType.drop, p))
      ⊎ ((handle_msg_promise mode fec v m p ≡ ok (AckType.not_enough, with_ack m p))
          × (OnlyOwn own (with_ack m p).msg_ack_prepare))
unfolding handle_msg_promise
own_promise mode fec v own m p key many quiet =
    let acks : (with_ack m p).msg_ack_prepare ≡ (own, m) ∷ [] =
      subst (λ k. SortedMap.insert k m p.msg_ack_prepare ≡ (own, m) ∷ []) (sym key)
        (insert-OnlyOwn own m p.msg_ack_prepare quiet) in
    let one : length (with_ack m p).msg_ack_prepare ≡ 1 = ap length acks in
    elim (Bool-cases (ltb m.ballot_id p.curr_ballot || is_set p.curr_value)) [
      | inl late ↦ inl (rw late refl)
      | inr fresh ↦
          let few : ltb (length (with_ack m p).msg_ack_prepare) p.qr ≡ true = ground arith in
          inr (rw (fresh, few) refl, inr (m, acks))
    ]

own_accepted :
    (own : ℕ) (m : MsgAckAccept) (p : Proposer)
    → u16 m.header.node_id ≡ own
    → 2 ≤ p.qw
    → OnlyOwn own p.msg_ack_accept
    → (handle_msg_accepted m p ≡ (AckType.drop, p))
      ⊎ ((handle_msg_accepted m p ≡ (AckType.not_enough, with_accepted m p))
          × (OnlyOwn own (with_accepted m p).msg_ack_accept))
unfolding handle_msg_accepted
own_accepted own m p key many quiet =
    let acks : (with_accepted m p).msg_ack_accept ≡ (own, m) ∷ [] =
      subst (λ k. SortedMap.insert k m p.msg_ack_accept ≡ (own, m) ∷ []) (sym key)
        (insert-OnlyOwn own m p.msg_ack_accept quiet) in
    let one : length (with_accepted m p).msg_ack_accept ≡ 1 = ap length acks in
    elim (Bool-cases (ltb m.ballot_id p.curr_ballot || not (is_set p.curr_value))) [
      | inl late ↦ inl (rw late refl)
      | inr fresh ↦
          let few : ltb (length (with_accepted m p).msg_ack_accept) p.qw ≡ true = ground arith in
          inr (rw (fresh, few) refl, inr (m, acks))
    ]

module _ {Name : Type 0} (mode : Mode) (fec : Fec) (self : Handler Name) where
  -- The proposer after its own ack.
  kept_promise :
      (slot : ℕ) (info : ProposerInfo Name) (p : Proposer) (c : Captain Name)
      → IsShallow c
      → IsMany (own_key c) info
      → takes_promise info.proposer_status ≡ true
      → p.qr ≡ info.curr_proposer.qr
      → p.qw ≡ info.curr_proposer.qw
      → p.msg_ack_accept ≡ info.curr_proposer.msg_ack_accept
      → OnlyOwn (own_key c) p.msg_ack_prepare
      → IsQuietAt slot (put_proposer slot (with_status ProposerStatus.phase_i p info) c)
  kept_promise slot info p c h many takes reads writes same quiet =
      put_proposer-IsQuietAt slot (with_status ProposerStatus.phase_i p info) c h
        (record {
          reads = omega (arith, many.reads);
          writes = omega (arith, many.writes);
          early = λ e. subst (OnlyOwn (own_key c)) (sym same) (many.early takes);
        })
        (record { promises = λ e. quiet; accepts = λ e. cc })

  on_own_promise :
      (slot : ℕ) (m : MsgAckPrepare) (c : Captain Name)
      → m.header.slot_id ≡ slot
      → m.header.node_id ≡ c.view.node_id
      → IsQuietAt slot c
      → Settles (IsQuietAt slot) (on_promise mode fec self m c)
  unfolding on_promise after_promise
  on_own_promise slot m c at node h =
      subst (λ s. Settles (IsQuietAt s) (on_promise mode fec self m c)) at
        (Settles-Option (IsQuietAt m.header.slot_id) (SortedMap.find m.header.slot_id c.proposers)
          (ok c) _ (λ e. here)
          (λ info e.
            Settles-if (IsQuietAt m.header.slot_id) (takes_promise info.proposer_status) _ (ok c)
              (λ takes.
                answered info (here.1 info e)
                  (All-find (IsMany (own_key c)) m.header.slot_id c.proposers info h.0.entries e)
                  takes)
              (λ other. here)))
    where
      here : IsQuietAt m.header.slot_id c
      here = subst (λ s. IsQuietAt s c) (sym at) h

      answered :
          (info : ProposerInfo Name)
          → IsQuiet (own_key c) info
          → IsMany (own_key c) info
          → takes_promise info.proposer_status ≡ true
          → Settles (IsQuietAt m.header.slot_id) (
              handle_msg_promise mode fec c.view m info.curr_proposer >>= λ r.
              after_promise mode fec self m.header.slot_id info r.0 r.1 c)
      answered info quiet many takes =
          elim (own_promise mode fec c.view (own_key c) m info.curr_proposer (ap u16 node)
            many.reads (quiet.promises takes)) [
              | inl e ↦ rw e (
                  kept_promise m.header.slot_id info info.curr_proposer c h.0 many takes refl refl
                    refl (quiet.promises takes))
              | inr (e, own) ↦ rw e (
                  kept_promise m.header.slot_id info (with_ack m info.curr_proposer) c h.0 many
                    takes refl refl refl own)
            ]

  kept_accepted :
      (slot : ℕ) (info : ProposerInfo Name) (p : Proposer) (c : Captain Name)
      → IsShallow c
      → IsMany (own_key c) info
      → p.qr ≡ info.curr_proposer.qr
      → p.qw ≡ info.curr_proposer.qw
      → OnlyOwn (own_key c) p.msg_ack_accept
      → IsQuietAt slot (put_proposer slot (with_status ProposerStatus.phase_ii p info) c)
  kept_accepted slot info p c h many reads writes quiet =
      put_proposer-IsQuietAt slot (with_status ProposerStatus.phase_ii p info) c h
        (record {
          reads = omega (arith, many.reads);
          writes = omega (arith, many.writes);
          early = λ e. cc;
        })
        (record { promises = λ e. cc; accepts = λ e. quiet })

  on_own_accepted :
      (slot : ℕ) (m : MsgAckAccept) (name : DataName Name) (c : Captain Name)
      → m.header.slot_id ≡ slot
      → m.header.node_id ≡ c.view.node_id
      → IsQuietAt slot c
      → Settles (IsQuietAt slot) (on_accepted mode self m name c)
  unfolding on_accepted after_accepted
  on_own_accepted slot m name c at node h =
      subst (λ s. Settles (IsQuietAt s) (on_accepted mode self m name c)) at
        (Settles-Option (IsQuietAt m.header.slot_id) (SortedMap.find m.header.slot_id c.proposers)
          (ok c) _ (λ e. here)
          (λ info e.
            Settles-if (IsQuietAt m.header.slot_id) (takes_accepted info.proposer_status) _ (ok c)
              (λ takes.
                answered info
                  (All-find (IsMany (own_key c)) m.header.slot_id c.proposers info h.0.entries e)
                  ((here.1 info e).accepts takes))
              (λ other. here)))
    where
      here : IsQuietAt m.header.slot_id c
      here = subst (λ s. IsQuietAt s c) (sym at) h

      answered :
          (info : ProposerInfo Name)
          → IsMany (own_key c) info
          → OnlyOwn (own_key c) info.curr_proposer.msg_ack_accept
          → Settles (IsQuietAt m.header.slot_id) (
              after_accepted mode self m.header.slot_id info
                (handle_msg_accepted m info.curr_proposer).0
                (handle_msg_accepted m info.curr_proposer).1
                name
                c)
      answered info many quiet =
          elim (own_accepted (own_key c) m info.curr_proposer (ap u16 node) many.writes quiet) [
            | inl e ↦
                rw e (
                  kept_accepted m.header.slot_id info info.curr_proposer c h.0 many refl refl quiet)
            | inr (e, own) ↦ rw e (
                kept_accepted m.header.slot_id info (with_accepted m info.curr_proposer) c h.0 many
                  refl refl own)
          ]

  pub handle_with-HandlesAcks : HandlesAcks (handle_with mode fec self)
  unfolding handle_with
  handle_with-HandlesAcks = record {
    promise = λ slot m c at node h.
        Settles-if (IsQuietAt slot) c.work _ (ok c) (λ e. on_own_promise slot m c at node h)
          (λ e. h);
    accepted = λ slot m c at node h.
        Settles-if (IsQuietAt slot) c.work _ (ok c) (λ e. on_own_accepted slot m dum c at node h)
          (λ e. h);
  }
