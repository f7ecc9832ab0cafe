-- ===== src/Captain/Depth/Choices.antt =====
-- The end of the accept phase (captain.cpp, the case ACCEPTED of `handle_msg`): a choice is logged and
-- spread, and the next slot begins.
use ndnpaxos.Prelude.{
  ℕ, ◌+◌, ◌≤◌, ◌≡◌, ◌≢◌, inl, inr, refl, ap, Bool, true, false, List, [], ◌∷◌, arith, ok, ◌>>=◌,
  deref, leb, ◌==◌, get_elem?, if◌then◌else◌, Bool-cases, All,
}
use ndnpaxos.Prelude.SortedMap
use ndnpaxos.Prelude.Settling.{
  Settles, IsSettled, Settles-bind, Settles-after, Settles-if, Settles-Option, deref-IsSettled,
}
use ndnpaxos.Types.{Mode, mode_type, AckType, ProposerStatus, PropValue, Message, MsgAckAccept}
use ndnpaxos.Rs.{Fec}
use ndnpaxos.Proposer.{Proposer, handle_msg_accepted, get_chosen_value, get_init_value}
use ndnpaxos.Proposer.Answers.{handle_msg_accepted_step}
use ndnpaxos.Captain.State.{Captain, ProposerInfo, DataName, resolve, emit, called_latency}
use ndnpaxos.Captain.Log.{add_chosen_value}
use ndnpaxos.Captain.Start.{put_proposer, start_slot, dequeue}
use ndnpaxos.Captain.Handlers.{
  on_restart, on_accepted, after_accepted, on_choose, announce, spread, after_chosen, msg_teach,
  msg_decide, takes_accepted, with_status,
}
use ndnpaxos.Commo.{Handler, inform_client}
use ndnpaxos.Captain.Depth.{
  IsMany, IsShallow, own_key, All-find, put_proposer-IsShallow, HandlesRequests, HandlesChoices,
}
use ndnpaxos.Captain.Depth.Logging.{Same, Same-IsShallow, add_chosen_value-Same}
use ndnpaxos.Captain.Depth.Requests.{broadcast_msg-Settles}
use ndnpaxos.Captain.Depth.Starting.{start_prepare-Settles, start_slot-Settles, dequeue-Settles}
use ndnpaxos.Captain.Depth.Answers.{on_restart-Settles}

accepted_quorums :
    (m : MsgAckAccept) (p : Proposer)
    → ((handle_msg_accepted m p).1.qr ≡ p.qr) × ((handle_msg_accepted m p).1.qw ≡ p.qw)
accepted_quorums m p =
    elim (handle_msg_accepted_step m p (handle_msg_accepted m p).1 (handle_msg_accepted m p).0
      refl) [
        | inl same ↦ (ap (λ q. q.qr) same, ap (λ q. q.qw) same)
        | inr (current, same) ↦ (ap (λ q. q.qr) same, ap (λ q. q.qw) same)
      ]

All-erase {κ} :
    {V : Type 0} (P : V → Type κ) (slot : ℕ) (m : List (ℕ × V))
    → All (λ e. P e.1) m
    → All (λ e. P e.1) (SortedMap.erase slot m)
unfolding SortedMap.erase
All-erase P slot [] h = tt
All-erase P slot ((j, w) ∷ m) h = elim (Bool-cases (j == slot)) [
  | inl here ↦ rw here h.1
  | inr past ↦ rw past (h.0, All-erase P slot m h.1)
]

pub msg_teach-IsSettled :
    {Name : Type 0} (slot : ℕ) (c : Captain Name) → IsSettled (msg_teach slot c)
unfolding msg_teach
msg_teach-IsSettled slot c =
    Settles-after (λ m. Unit) (deref (get_elem? c.chosen_values slot) >>= deref) _
      (Settles-after (λ x. Unit) (deref (get_elem? c.chosen_values slot)) deref
        (deref-IsSettled (get_elem? c.chosen_values slot)) (λ x. deref-IsSettled x))
      (λ value. tt)

module _ {Name : Type 0} (mode : Mode) (build : mode_type mode ≢ 1) (fec : Fec)
    (self : Handler Name) (reqs : HandlesRequests self) (told : HandlesChoices self) where
  either :
      (b : Bool) (d e : Captain Name) → IsShallow d → IsShallow e → IsShallow (if b then d else e)
  either true d e f g = f
  either false d e f g = g

  announce-IsShallow :
      (slot : ℕ) (value : PropValue) (info : ProposerInfo Name) (c : Captain Name)
      → IsShallow c
      → IsShallow (announce slot value info c)
  unfolding announce
  announce-IsShallow slot value info c h =
      let d = inform_client slot info.try_time info.client_name c in
      either c.has_callback_latency (emit (called_latency slot value info.try_time) d) d h h

  spread-Settles :
      (slot : ℕ) (value : PropValue) (c : Captain Name)
      → IsShallow c
      → Settles IsShallow (spread mode self slot value c)
  unfolding spread
  spread-Settles slot value c h =
      Settles-bind IsShallow IsShallow _ _
        (broadcast_msg-Settles IsShallow mode self
          (Message.decide (msg_decide slot value.id c.view)) (λ e d g. g)
          (λ d g. told.decide (msg_decide slot value.id c.view) d g) c h)
        (λ d g.
          Settles-if IsShallow (leb 2 (mode_type mode)) _ (ok d)
            (λ e. Settles-after IsShallow (msg_teach slot d) _ (msg_teach-IsSettled slot d) (λ m.
              broadcast_msg-Settles IsShallow mode self (Message.teach m) (λ e d g. g)
                (λ d g. told.teach m d g) d g))
            (λ e. g))

  after_chosen-Settles :
      (info : ProposerInfo Name) (own : Bool) (name : DataName Name) (c : Captain Name)
      → IsShallow c
      → Settles IsShallow (after_chosen mode self info own name c)
  unfolding after_chosen
  after_chosen-Settles info true name c h = go c.tocommit_values
    where
      go :
          (values : List PropValue)
          → Settles {A = Captain Name} IsShallow (elim values [
            | [] ↦ ok c
            | v ∷ vs ↦ dequeue c >>= λ front. start_slot mode self front.1 front.0 front.2
          ])
      go [] = h
      go (v ∷ vs) =
          Settles-bind (λ r. IsShallow r.2) IsShallow (dequeue c) _
            (dequeue-Settles mode build self reqs c h)
            (λ front g. start_slot-Settles mode build self reqs front.1 front.0 front.2 g)
  after_chosen-Settles info false name c h =
      start_prepare-Settles mode build self reqs (info.try_time + 1) (resolve c name)
        (get_init_value info.curr_proposer) c h

  on_choose-Settles :
      (slot : ℕ) (info : ProposerInfo Name) (p : Proposer) (name : DataName Name) (c : Captain Name)
      → IsShallow c
      → 2 ≤ p.qr
      → 2 ≤ p.qw
      → Settles IsShallow (on_choose mode self slot info p name c)
  unfolding on_choose
  on_choose-Settles slot info p name c h reads writes =
      Settles-after IsShallow (deref (get_chosen_value p)) _ (deref-IsSettled (get_chosen_value p))
        (λ value.
          let own = value.id == (get_init_value p).id in
          let done = with_status ProposerStatus.chosen p info in
          let d = put_proposer slot done c in
          let e = if own then announce slot value done d else d in
          let begun : IsShallow d =
            put_proposer-IsShallow slot done c h
              (record { reads = reads; writes = writes; early = λ e. cc }) in
          let known : IsShallow e =
            either own (announce slot value done d) d (announce-IsShallow slot value done d begun)
              begun in
          Settles-bind (Same e) IsShallow (add_chosen_value slot value e) _
            (add_chosen_value-Same slot value e)
            (λ logged s.
              Settles-bind IsShallow IsShallow (spread mode self slot value logged) _
                (spread-Settles slot value logged (Same-IsShallow e logged s known))
                (λ told g.
                  after_chosen-Settles done own name
                    (record told { proposers = SortedMap.erase slot told.proposers })
                    (record {
                      quorate = g.quorate;
                      entries = All-erase (IsMany (own_key told)) slot told.proposers g.entries;
                    }))))

  pub on_accepted-Settles :
      (m : MsgAckAccept) (name : DataName Name) (c : Captain Name)
      → IsShallow c
      → Settles IsShallow (on_accepted mode self m name c)
  unfolding on_accepted after_accepted
  on_accepted-Settles m name c h =
      let slot = m.header.slot_id in
      Settles-Option IsShallow (SortedMap.find slot c.proposers) (ok c) _ (λ e. h)
        (λ info e.
          Settles-if IsShallow (takes_accepted info.proposer_status) _ (ok c)
            (λ takes.
              answered info (All-find (IsMany (own_key c)) slot c.proposers info h.entries e)
                (handle_msg_accepted m info.curr_proposer).0)
            (λ other. h))
    where
      kept :
          (info : ProposerInfo Name)
          → IsMany (own_key c) info
          → IsShallow (
              put_proposer m.header.slot_id
                (with_status ProposerStatus.phase_ii
                  (handle_msg_accepted m info.curr_proposer).1
                  info)
                c)
      kept info many =
          let (er, ew) = accepted_quorums m info.curr_proposer in
          put_proposer-IsShallow m.header.slot_id
            (with_status ProposerStatus.phase_ii (handle_msg_accepted m info.curr_proposer).1 info)
            c h
            (record {
              reads = omega (arith, er, many.reads);
              writes = omega (arith, ew, many.writes);
              early = λ e. cc;
            })

      again :
          (info : ProposerInfo Name)
          → IsMany (own_key c) info
          → Settles IsShallow (
              on_restart mode self m.header.slot_id info
                (handle_msg_accepted m info.curr_proposer).1
                c)
      again info many =
          let (er, ew) = accepted_quorums m info.curr_proposer in
          on_restart-Settles mode build fec self reqs m.header.slot_id info
            (handle_msg_accepted m info.curr_proposer).1 c h (omega (arith, er, many.reads))
            (omega (arith, ew, many.writes))

      answered :
          (info : ProposerInfo Name)
          → IsMany (own_key c) info
          → (ack : AckType)
          → Settles IsShallow (
              after_accepted mode self m.header.slot_id info ack
                (handle_msg_accepted m info.curr_proposer).1
                name
                c)
      answered info many AckType.drop = kept info many
      answered info many AckType.not_enough = kept info many
      answered info many AckType.choose =
          let (er, ew) = accepted_quorums m info.curr_proposer in
          on_choose-Settles m.header.slot_id info (handle_msg_accepted m info.curr_proposer).1 name
            c h (omega (arith, er, many.reads)) (omega (arith, ew, many.writes))
      answered info many AckType.continue = again info many
      answered info many AckType.restart = again info many
