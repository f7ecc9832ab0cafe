-- ===== src/Proposer.antt =====
-- libndnpaxos/proposer.hpp and proposer.cpp: the proposer of one value in one slot. A method returns
-- its result and the new state; `view_` is an argument of the methods that read it. The maps of acks
-- are in the order of the node numbers, which are 16 bits, so the counters of 32 bits do not wrap.
pub mod Ballots
pub mod Choice
pub mod History
pub mod Answers
pub mod Steps
use ndnpaxos.Prelude.{
  ℕ, zero, suc, ◌+◌, ◌-◌, ◌<◌, ◌^◌, ◌%◌, Bool, true, false, ◌&&◌, ◌||◌, not, List, [], ◌∷◌, Option,
  none, some, length, get_elem?, set, replicate, count_from, ltb, leb, ◌==◌, if◌then◌else◌, Outcome,
  ok, fault, deref, ◌>>=◌,
}
use ndnpaxos.Prelude.SortedMap
use ndnpaxos.Types.{
  Mode, AckType, MsgType, Bytes, PropValue, default_value, MsgHeader, MsgPrepare, MsgAckPrepare,
  MsgAccept, MsgAckAccept, u16, u32, u64,
}
use ndnpaxos.View.{View, whoami, quorum_size, nodes_size}
use ndnpaxos.Rs.{Fec, RsEncoder, RsDecoder, new_encoder, new_decoder, rs_encode, rs_decode}

pub record Proposer : Type 0 where
  pub init_value : PropValue
  pub curr_ballot : ℕ
  pub curr_value : Option PropValue
  pub max_ballot : ℕ
  pub max_value : Option PropValue
  pub msg_ack_prepare : List (ℕ × MsgAckPrepare)
  pub msg_ack_accept : List (ℕ × MsgAckAccept)
  pub qr : ℕ
  pub qw : ℕ
  pub rs_encoder : RsEncoder
  pub rs_decoder : RsDecoder
  pub rs_values : List Bytes

-- Outside the RS build the encoder and the decoder are never made.
unfoldable pub new_proposer : Mode → View → PropValue → Proposer
new_proposer mode v value = record {
  init_value = value;
  curr_ballot = 0;
  curr_value = none;
  max_ballot = 0;
  max_value = none;
  msg_ack_prepare = [];
  msg_ack_accept = [];
  qr = elim mode [ Mode.rs ↦ v.rs_qr | _ ↦ quorum_size v ];
  qw = elim mode [ Mode.rs ↦ v.rs_qw | _ ↦ quorum_size v ];
  rs_encoder = new_encoder v.rs_x v.rs_n;
  rs_decoder = new_decoder v.rs_x v.rs_n;
  rs_values = [];
}

-- The high 48 bits count, the low 16 bits are the node's number.
unfoldable pub gen_next_ballot : View → Proposer → Proposer
gen_next_ballot v p = record p {
  curr_ballot =
      if p.curr_ballot == 0
      then u64 (u64 (p.curr_ballot + 2 ^ 16) + whoami v)
      else u64 (p.curr_ballot + 2 ^ 16);
}

-- The slot is 0 until the captain sets it.
unfoldable pub msg_prepare : View → Proposer → MsgPrepare × Proposer
unfolding gen_next_ballot
msg_prepare v p =
    let q = gen_next_ballot v p in
    (
      record {
        header = record { msg_type = MsgType.prepare; node_id = whoami v; slot_id = 0 };
        ballot_id = q.curr_ballot;
      },
      q,
    )

unfoldable pub restart_msg_prepare : View → Proposer → MsgPrepare × Proposer
unfolding msg_prepare
restart_msg_prepare v p =
    msg_prepare v (record p { curr_value = none; msg_ack_prepare = []; msg_ack_accept = [] })

abbrev pub accept_of : View → Proposer → PropValue → MsgAccept
accept_of v p value = record {
  header = record { msg_type = MsgType.accept; node_id = whoami v; slot_id = 0 };
  ballot_id = p.curr_ballot;
  prop_value = value;
}

-- With no current value the message lacks a required field, and cannot be sent.
unfoldable pub msg_accept : View → Proposer → Outcome MsgAccept
msg_accept v p = do value ← deref p.curr_value; ok (accept_of v p value)

-- The loop of `rs_msg_accept`, `rounds` nodes from node `i` on: each node gets its block.
unfoldable pub block_accepts : View → Proposer → ℕ → ℕ → Outcome (List MsgAccept)
block_accepts v p i zero = ok []
block_accepts v p i (suc rounds) = do
  value ← deref p.curr_value
  block ← deref (get_elem? p.rs_values i)
  rest ← block_accepts v p (suc i) rounds
  ok (accept_of v p (record { id = value.id; content = block; cmd_type = none }) ∷ rest)

unfoldable pub rs_msg_accept : Fec → View → Proposer → Outcome (List MsgAccept × Proposer)
unfolding block_accepts
rs_msg_accept fec v p = do
  q ← elim p.rs_values [
    | [] ↦ do
      value ← deref p.curr_value
      coded ← rs_encode fec value.content p.rs_encoder
      ok (record p { rs_values = coded.0; rs_encoder = coded.1 })
    | _ ↦ ok p
  ]
  accepts ← block_accepts v q 0 (nodes_size v)
  ok (accepts, q)

abbrev pub get_chosen_value : Proposer → Option PropValue
get_chosen_value p = p.curr_value

abbrev pub get_init_value : Proposer → PropValue
get_init_value p = p.init_value

abbrev pub init_curr_value : Proposer → Proposer
init_curr_value p = record p { curr_value = some p.init_value }

unfoldable pub die_clean : Proposer → Proposer
die_clean p = record p {
  curr_value = none;
  curr_ballot = 0;
  msg_ack_prepare = [];
  msg_ack_accept = [];
}

-- `mutable_max_prop_value()`
abbrev pub prop_value_of : MsgAckPrepare → PropValue
prop_value_of m = elim m.max_prop_value [ none ↦ default_value | some x ↦ x ]

-- What the loop over the acks keeps: the highest accepted ballot with its value, and the yes count.
pub record Scan : Type 0 where
  pub ballot : ℕ
  pub value : Option PropValue
  pub count : ℕ

abbrev pub scan_ack : MsgAckPrepare → Scan → Scan
scan_ack m s =
    if m.reply
    then (if ltb s.ballot m.max_ballot_id
        then record {
          ballot = m.max_ballot_id;
          value = some (prop_value_of m);
          count = s.count + 1;
        }
        else record s { count = s.count + 1 })
    else s

unfoldable pub scan_acks : List (ℕ × MsgAckPrepare) → Scan → Scan
scan_acks [] s = s
scan_acks ((node, m) ∷ acks) s = scan_acks acks (scan_ack m s)

-- The blocks of the value `id` among the acks: the vectors `encoded_data` and `index`, and `lost_num`.
pub record Blocks : Type 0 where
  pub encoded : List Bytes
  pub index : List Bool
  pub lost_num : ℕ

unfoldable pub gather : ℕ → List (ℕ × MsgAckPrepare) → Blocks → Outcome Blocks
gather id [] b = ok b
gather id ((node, m) ∷ acks) b =
    if m.reply && (id == (prop_value_of m).id)
    then (if ltb node (length b.index)
        then gather id acks (record {
          encoded = set b.encoded node (prop_value_of m).content;
          index = set b.index node true;
          lost_num = u32 (b.lost_num + 2 ^ 32 - 1);
        })
        else fault)
    else gather id acks b

-- `!curr_value_ || curr_value_->id() != max_value_id`
abbrev pub differs : Option PropValue → ℕ → Bool
differs none id = true
differs (some x) id = not (x.id == id)

abbrev pub no_blocks : View → Blocks
no_blocks v = record {
  encoded = replicate v.rs_n [];
  index = replicate v.rs_n false;
  lost_num = v.rs_n;
}

-- The state after a value was decoded and coded again.
abbrev pub take_decoded : ℕ → Bytes × RsDecoder → List Bytes × RsEncoder → Proposer → Proposer
take_decoded id decoded coded p =
    let value : PropValue = record { id = id; content = decoded.0; cmd_type = none } in
    record p {
      curr_value = some value;
      max_value = some value;
      rs_decoder = decoded.1;
      rs_encoder = coded.1;
      rs_values = coded.0;
    }

-- Join the blocks, and code the value again for the accept requests.
unfoldable pub decode_found : Fec → ℕ → Blocks → Proposer → Outcome (AckType × Proposer)
decode_found fec id b p = do
  decoded ← rs_decode fec b.encoded b.index p.rs_decoder
  coded ← rs_encode fec decoded.0 p.rs_encoder
  ok (AckType.continue, take_decoded id decoded coded p)

-- The RS build adopts the value that it decodes from the acks, or gives up if blocks are missing.
unfoldable pub rs_adopt : Fec → View → PropValue → Proposer → Outcome (AckType × Proposer)
unfolding gather decode_found
rs_adopt fec v found p =
    if differs p.curr_value found.id
    then (gather found.id p.msg_ack_prepare (no_blocks v) >>= λ b.
        if ltb v.rs_f b.lost_num then ok (AckType.restart, p) else decode_found fec found.id b p)
    else ok (AckType.continue, p)

-- Enough acceptors said yes: choose the value for the accept requests.
unfoldable pub adopt : Mode → Fec → View → Proposer → Outcome (AckType × Proposer)
adopt mode fec v p = elim p.max_value [
  | none ↦ ok (AckType.continue, record p { curr_value = some p.init_value })
  | some found ↦ elim mode [
    | Mode.rs ↦ rs_adopt fec v found p
    | _ ↦ ok (AckType.continue, record p { curr_value = some found })
  ]
]

abbrev pub is_set {ℓ} : {A : Type ℓ} → Option A → Bool
is_set none = false
is_set (some a) = true

-- The state after the loop over the acks.
abbrev pub scanned : Proposer → Scan
scanned p =
    scan_acks p.msg_ack_prepare (record { ballot = p.max_ballot; value = p.max_value; count = 0 })

abbrev pub take_scan : Proposer → Scan → Proposer
take_scan p s = record p { max_ballot = s.ballot; max_value = s.value }

unfoldable pub handle_msg_promise :
    Mode → Fec → View → MsgAckPrepare → Proposer → Outcome (AckType × Proposer)
handle_msg_promise mode fec v m p =
    if ltb m.ballot_id p.curr_ballot || is_set p.curr_value
    then ok (AckType.drop, p)
    else let q = record p {
      msg_ack_prepare = SortedMap.insert (u16 m.header.node_id) m p.msg_ack_prepare;
    } in
      if ltb (length q.msg_ack_prepare) q.qr
      then ok (AckType.not_enough, q)
      else let s = scanned q in
        if leb q.qr s.count
        then adopt mode fec v (take_scan q s)
        else ok (AckType.restart, take_scan q s)

unfoldable pub count_yes : List (ℕ × MsgAckAccept) → ℕ
count_yes [] = 0
count_yes ((node, m) ∷ acks) = (if m.reply then 1 else 0) + count_yes acks

unfoldable pub handle_msg_accepted : MsgAckAccept → Proposer → AckType × Proposer
handle_msg_accepted m p =
    if ltb m.ballot_id p.curr_ballot || not (is_set p.curr_value)
    then (AckType.drop, p)
    else let q = record p {
      msg_ack_accept = SortedMap.insert (u16 m.header.node_id) m p.msg_ack_accept;
    } in
      if ltb (length q.msg_ack_accept) q.qw
      then (AckType.not_enough, q)
      else if leb q.qw (count_yes q.msg_ack_accept)
      then (AckType.choose, q)
      else (AckType.restart, q)
