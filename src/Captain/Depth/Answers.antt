-- ===== src/Captain/Depth/Answers.antt =====
-- The answers of other nodes (captain.cpp, the cases PROMISE and ACCEPTED of `handle_msg`): the requests
-- and the choices that follow settle.
use ndnpaxos.Prelude.{
  ℕ, ◌≤◌, ◌≡◌, ◌≢◌, inl, inr, refl, sym, subst, true, [], arith, Outcome, ok, fault, spent, ltb,
  leb, ◌==◌, ◌||◌, length, Bool-cases,
}
use ndnpaxos.Prelude.SortedMap
use ndnpaxos.Prelude.Settling.{
  Settles, IsSettled, Settles-bind, Settles-after, Settles-if, Settles-Option,
}
use ndnpaxos.Types.{Mode, mode_type, AckType, ProposerStatus, MsgAckPrepare}
use ndnpaxos.View.{View}
use ndnpaxos.Rs.{Fec}
use ndnpaxos.Proposer.{
  Proposer, handle_msg_promise, msg_prepare, restart_msg_prepare, gen_next_ballot, msg_accept,
  is_set, scanned, take_scan,
}
use ndnpaxos.Proposer.Choice.{with_ack, adopt_lem}
use ndnpaxos.Proposer.Answers.{Answers, handle_msg_promise-Answers}
use ndnpaxos.Captain.State.{Captain, ProposerInfo}
use ndnpaxos.Captain.Start.{put_proposer}
use ndnpaxos.Captain.Handlers.{
  on_promise, after_promise, on_continue, on_restart, takes_promise, with_status,
}
use ndnpaxos.Commo.{Handler}
use ndnpaxos.Captain.Depth.{
  OnlyOwn, IsMany, IsShallow, own_key, All-find, put_proposer-IsShallow, put_proposer-IsQuietAt,
  HandlesRequests,
}
use ndnpaxos.Captain.Depth.Starting.{msg_accept-IsSettled, prepare-Settles, accept-Settles}

handle_msg_promise-IsSettled :
    (mode : Mode) (fec : Fec) (v : View) (m : MsgAckPrepare) (p : Proposer)
    → mode_type mode ≢ 1
    → IsSettled (handle_msg_promise mode fec v m p)
unfolding handle_msg_promise
handle_msg_promise-IsSettled mode fec v m p build =
    let q = with_ack m p in
    elim (Bool-cases (ltb m.ballot_id p.curr_ballot || is_set p.curr_value)) [
      | inl late ↦ rw late tt
      | inr fresh ↦ elim (Bool-cases (ltb (length q.msg_ack_prepare) p.qr)) [
        | inl few ↦ rw (fresh, few) tt
        | inr full ↦ elim (Bool-cases (leb p.qr (scanned q).count)) [
          | inr lacking ↦ rw (fresh, full, lacking) tt
          | inl enough ↦
              rw (fresh, full, enough)
                (subst IsSettled (sym (adopt_lem mode fec v (take_scan q (scanned q)) build)) tt)
        ]
      ]
    ]

handle_msg_promise-Settles :
    (mode : Mode) (fec : Fec) (v : View) (m : MsgAckPrepare) (p : Proposer)
    → mode_type mode ≢ 1
    → Settles (λ r. Answers p m r.0 r.1) (handle_msg_promise mode fec v m p)
handle_msg_promise-Settles mode fec v m p build =
    go (handle_msg_promise mode fec v m p) refl (handle_msg_promise-IsSettled mode fec v m p build)
  where
    go :
        (o : Outcome (AckType × Proposer))
        → handle_msg_promise mode fec v m p ≡ o
        → IsSettled o
        → Settles (λ r. Answers p m r.0 r.1) o
    go (ok r) e s = handle_msg_promise-Answers mode fec v m p r.1 r.0 build e
    go fault e s = tt
    go spent e s = s

restart_lem :
    (v : View) (p : Proposer)
    → ((restart_msg_prepare v p).1.qr ≡ p.qr)
      × ((restart_msg_prepare v p).1.qw ≡ p.qw)
      × ((restart_msg_prepare v p).1.msg_ack_prepare ≡ [])
      × ((restart_msg_prepare v p).1.msg_ack_accept ≡ [])
unfolding restart_msg_prepare msg_prepare gen_next_ballot
restart_lem v p = (refl, refl, refl, refl)

module _ {Name : Type 0} (mode : Mode) (build : mode_type mode ≢ 1) (fec : Fec)
    (self : Handler Name) (reqs : HandlesRequests self) where
  pub on_restart-Settles :
      (slot : ℕ) (info : ProposerInfo Name) (p : Proposer) (c : Captain Name)
      → IsShallow c
      → 2 ≤ p.qr
      → 2 ≤ p.qw
      → Settles IsShallow (on_restart mode self slot info p c)
  unfolding on_restart
  on_restart-Settles slot info p c h reads writes =
      let begun = restart_msg_prepare c.view p in
      let (er, ew, ep, ea) = restart_lem c.view p in
      let next = with_status ProposerStatus.init begun.1 info in
      prepare-Settles mode self slot begun.0 (put_proposer slot next c) reqs (
        put_proposer-IsQuietAt slot next c h
          (record { reads = omega (arith, er); writes = omega (arith, ew); early = λ e. inl ea })
          (record { promises = λ e. inl ep; accepts = λ e. inl ea }))

  on_continue-Settles :
      (slot : ℕ) (info : ProposerInfo Name) (p : Proposer) (c : Captain Name)
      → IsShallow c
      → 2 ≤ p.qr
      → 2 ≤ p.qw
      → OnlyOwn (own_key c) p.msg_ack_accept
      → Settles IsShallow (on_continue mode fec self slot info p c)
  unfolding on_continue
  on_continue-Settles slot info p c h reads writes quiet =
      let next = with_status ProposerStatus.phase_ii p info in
      Settles-if IsShallow (mode_type mode == 1) _ _ (λ e. absurd (build (ground arith)))
        (λ e. Settles-after IsShallow (msg_accept c.view p) _ (msg_accept-IsSettled c.view p) (λ m.
          accept-Settles mode self slot m (put_proposer slot next c) reqs (
            put_proposer-IsQuietAt slot next c h
              (record { reads = reads; writes = writes; early = λ e. cc })
              (record { promises = λ e. cc; accepts = λ e. quiet }))))

  after_promise-Settles :
      (slot : ℕ) (info : ProposerInfo Name) (m : MsgAckPrepare) (ack : AckType) (p : Proposer)
      (c : Captain Name)
      → IsShallow c
      → IsMany (own_key c) info
      → takes_promise info.proposer_status ≡ true
      → Answers info.curr_proposer m ack p
      → Settles IsShallow (after_promise mode fec self slot info ack p c)
  unfolding after_promise
  after_promise-Settles slot info m ack p c h many takes a = cases ack
    where
      quiet : OnlyOwn (own_key c) p.msg_ack_accept
      quiet = subst (OnlyOwn (own_key c)) (sym a.same.4) (many.early takes)

      reads : 2 ≤ p.qr
      reads = omega (arith, many.reads, a.same.2)

      writes : 2 ≤ p.qw
      writes = omega (arith, many.writes, a.same.3)

      kept : IsShallow (put_proposer slot (with_status ProposerStatus.phase_i p info) c)
      kept =
          put_proposer-IsShallow slot (with_status ProposerStatus.phase_i p info) c h
            (record { reads = reads; writes = writes; early = λ e. quiet })

      cases :
          (ack : AckType)
          → Settles {A = Captain Name} IsShallow (elim ack [
            | AckType.continue ↦ on_continue mode fec self slot info p c
            | AckType.restart ↦ on_restart mode self slot info p c
            | _ ↦ ok (put_proposer slot (with_status ProposerStatus.phase_i p info) c)
          ])
      cases AckType.continue = on_continue-Settles slot info p c h reads writes quiet
      cases AckType.restart = on_restart-Settles slot info p c h reads writes
      cases AckType.drop = kept
      cases AckType.not_enough = kept
      cases AckType.choose = kept

  pub on_promise-Settles :
      (m : MsgAckPrepare) (c : Captain Name)
      → IsShallow c
      → Settles IsShallow (on_promise mode fec self m c)
  unfolding on_promise
  on_promise-Settles m c h =
      let slot = m.header.slot_id in
      Settles-Option IsShallow (SortedMap.find slot c.proposers) (ok c) _ (λ e. h)
        (λ info e.
          Settles-if IsShallow (takes_promise info.proposer_status) _ (ok c)
            (λ takes.
              Settles-bind (λ r. Answers info.curr_proposer m r.0 r.1) IsShallow
                (handle_msg_promise mode fec c.view m info.curr_proposer) _
                (handle_msg_promise-Settles mode fec c.view m info.curr_proposer build)
                (λ r a.
                  after_promise-Settles slot info m r.0 r.1 c h
                    (All-find (IsMany (own_key c)) slot c.proposers info h.entries e) takes a))
            (λ other. h))
