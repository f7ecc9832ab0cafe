-- ===== src/Types.antt =====
-- libndnpaxos/internal_types.hpp and the messages of libndnpaxos/ndnpaxos.proto: the enumerations,
-- the values that are agreed on, and the messages that the nodes exchange.
use ndnpaxos.Prelude.{ℕ, ◌%◌, ◌^◌, List, Option, Bool}

-- The macro MODE_TYPE, which wscript sets: undefined, 1, 2 or 3.
pub data Mode : Type 0 where
  basic rs multi quorum : Mode

-- `#if MODE_TYPE == 1`, `#if MODE_TYPE == 2`, `#if MODE_TYPE >= 2`
abbrev pub mode_type : Mode → ℕ
mode_type basic = 0
mode_type rs = 1
mode_type multi = 2
mode_type quorum = 3

pub data AckType : Type 0 where
  drop not_enough continue restart choose : AckType

pub data ProposerStatus : Type 0 where
  init phase_i phase_ii chosen done die empty : ProposerStatus

pub data MsgType : Type 0 where
  prepare promise accept accepted decide learn teach commit command : MsgType

-- The number of each message type, as the wire format has it.
abbrev pub msg_type_code : MsgType → ℕ
msg_type_code MsgType.prepare = 0
msg_type_code MsgType.promise = 1
msg_type_code MsgType.accept = 2
msg_type_code MsgType.accepted = 3
msg_type_code MsgType.decide = 4
msg_type_code MsgType.learn = 5
msg_type_code MsgType.teach = 6
msg_type_code MsgType.commit = 7
msg_type_code MsgType.command = 8

pub data CmdType : Type 0 where
  set_master reply_decide reply_teach : CmdType

-- A string, as its bytes.
abbrev pub Bytes : Type 0
Bytes = List ℕ

pub record PropValue : Type 0 where
  pub id : ℕ
  pub content : Bytes  -- `data`
  pub cmd_type : Option CmdType

-- What `mutable_max_prop_value` makes of a field that is not set.
abbrev pub default_value : PropValue
default_value = record { id = 0; content = List.[]; cmd_type = Option.none }

pub record MsgHeader : Type 0 where
  pub msg_type : MsgType
  pub node_id : ℕ
  pub slot_id : ℕ

pub record MsgPrepare : Type 0 where
  pub header : MsgHeader
  pub ballot_id : ℕ

pub record MsgAckPrepare : Type 0 where
  pub header : MsgHeader
  pub ballot_id : ℕ
  pub reply : Bool
  pub max_ballot_id : ℕ
  pub max_prop_value : Option PropValue

pub record MsgAccept : Type 0 where
  pub header : MsgHeader
  pub ballot_id : ℕ
  pub prop_value : PropValue

pub record MsgAckAccept : Type 0 where
  pub header : MsgHeader
  pub ballot_id : ℕ
  pub reply : Bool

pub record MsgDecide : Type 0 where
  pub header : MsgHeader
  pub value_id : ℕ

pub record MsgLearn : Type 0 where
  pub header : MsgHeader

pub record MsgTeach : Type 0 where
  pub header : MsgHeader
  pub prop_value : PropValue

pub record MsgCommit : Type 0 where
  pub header : MsgHeader
  pub prop_value : PropValue

pub record MsgCommand : Type 0 where
  pub header : MsgHeader
  pub cmd_type : CmdType

-- A `google::protobuf::Message *` with the `MsgType` that it is handed on with.
pub data Message : Type 0 where
  prepare : MsgPrepare → Message
  promise : MsgAckPrepare → Message
  accept : MsgAccept → Message
  accepted : MsgAckAccept → Message
  decide : MsgDecide → Message
  learn : MsgLearn → Message
  teach : MsgTeach → Message
  commit : MsgCommit → Message
  command : MsgCommand → Message

abbrev pub msg_type : Message → MsgType
msg_type (Message.prepare m) = MsgType.prepare
msg_type (Message.promise m) = MsgType.promise
msg_type (Message.accept m) = MsgType.accept
msg_type (Message.accepted m) = MsgType.accepted
msg_type (Message.decide m) = MsgType.decide
msg_type (Message.learn m) = MsgType.learn
msg_type (Message.teach m) = MsgType.teach
msg_type (Message.commit m) = MsgType.commit
msg_type (Message.command m) = MsgType.command

-- `node_id_t` is uint16_t, the other identifiers are uint64_t.
abbrev pub u16 : ℕ → ℕ
u16 n = n % 2 ^ 16

abbrev pub u32 : ℕ → ℕ
u32 n = n % 2 ^ 32

abbrev pub u64 : ℕ → ℕ
u64 n = n % 2 ^ 64
