-- ===== src/Commo/Wire.antt =====
-- Messages on the wire (commo.cpp): the serialized message followed by the digit of its type, and
-- what the replica makes of an interest. Protocol buffers are the parameter `Codec`; the names of
-- ndn-cxx are the parameter `NameApi`.
use ndnpaxos.Prelude.{
  ℕ, ◌+◌, ◌≡◌, ◌<◌, refl, [], ◌∷◌, ◌++◌, Option, none, some, split_last, split_last-append,
  Option-cases, ◌⊎◌, inl, inr, arith, ◌==◌, if◌then◌else◌, Outcome, ok, fault, deref, ◌>>=◌,
}
use ndnpaxos.Types.{Mode, MsgType, Bytes, Message, msg_type, msg_type_code, u32}
use ndnpaxos.Captain.State.{Captain, DataName, named, answered, emit}
use ndnpaxos.Captain.Start.{commit_data}
use ndnpaxos.Commo.{Handler}

-- `SerializeToString` of a message, and `ParseFromString` into a new message of a type.
pub record Codec : Type 0 where
  pub serialize : Message → Bytes
  pub parse : MsgType → Bytes → Message

-- `get(-i).value()` and `get(-i).toUri()` as bytes, and `get(-i).toNumber()`, which throws if the
-- component is no number.
pub record NameApi (Name : Type 0) : Type 0 where
  pub value_at : Name → ℕ → Bytes
  pub uri_at : Name → ℕ → Bytes
  pub number_at : Name → ℕ → Outcome ℕ

-- `msg_str.append(std::to_string(msg_type))`: the types have one digit.
unfoldable pub encode : Codec → Message → Bytes
encode codec m = codec.serialize m ++ (b'0' + msg_type_code (msg_type m)) ∷ []

-- The cases of `switch (type)`; `none` is a type with no case.
unfoldable pub type_of_char : ℕ → Option MsgType
type_of_char ch =
    if ch == b'0'
    then some MsgType.prepare
    else if ch == b'1'
    then some MsgType.promise
    else if ch == b'2'
    then some MsgType.accept
    else if ch == b'3'
    then some MsgType.accepted
    else if ch == b'4'
    then some MsgType.decide
    else if ch == b'5'
    then some MsgType.learn
    else if ch == b'6'
    then some MsgType.teach
    else if ch == b'7'
    then some MsgType.commit
    else if ch == b'8'
    then some MsgType.command
    else none

type_of_char-code : (t : MsgType) → type_of_char (b'0' + msg_type_code t) ≡ some t
unfolding type_of_char
type_of_char-code MsgType.prepare = refl
type_of_char-code MsgType.promise = refl
type_of_char-code MsgType.accept = refl
type_of_char-code MsgType.accepted = refl
type_of_char-code MsgType.decide = refl
type_of_char-code MsgType.learn = refl
type_of_char-code MsgType.teach = refl
type_of_char-code MsgType.commit = refl
type_of_char-code MsgType.command = refl

type_of_char_unknown : (ch : ℕ) → (ch < b'0') ⊎ (b'8' < ch) → type_of_char ch ≡ none
unfolding type_of_char
type_of_char_unknown ch odd = ground arith

module _ {Name : Type 0} where
  -- `back` of an empty string, and a null pointer for an unknown type, are faults.
  unfoldable pub deal_msg :
      Codec → Handler Name → Bytes → DataName Name → Captain Name → Outcome (Captain Name)
  deal_msg codec self msg_str name c = do
    parts ← deref (split_last msg_str)
    type ← deref (type_of_char parts.1)
    self (codec.parse type parts.0) name c

  -- An interest for this node carries the message in its last component.
  unfoldable pub on_interest :
      Codec → NameApi Name → Handler Name → Name → Captain Name → Outcome (Captain Name)
  on_interest codec api self name c = deal_msg codec self (api.value_at name 1) (named name) c

  -- A data packet carries the message as its content.
  unfoldable pub on_data :
      Codec → Handler Name → Name → Bytes → Captain Name → Outcome (Captain Name)
  on_data codec self name content c = deal_msg codec self content (named name) c

  -- A request of a client: a write, of type 0, is committed; a read is answered with a fixed text.
  unfoldable pub on_interest_commit :
      Mode → NameApi Name → Bytes → Handler Name → Name → Captain Name → Outcome (Captain Name)
  on_interest_commit mode api fixed self name c = do
    let value = api.uri_at name 1
    counter ← api.number_at name 2
    client ← api.number_at name 3
    type ← api.number_at name 4
    if u32 type == 0
        then commit_data mode self value (named name) c
        else ok (emit (answered fixed name) c)

  -- What one node sends, another node handles as the same message, if the codec reads back what it
  -- writes.
  pub deal_msg-encode :
      (codec : Codec) (self : Handler Name) (m : Message) (name : DataName Name) (c : Captain Name)
      → codec.parse (msg_type m) (codec.serialize m) ≡ m
      → deal_msg codec self (encode codec m) name c ≡ self m name c
  unfolding deal_msg encode
  deal_msg-encode codec self m name c back =
      rw (split_last-append (codec.serialize m) (b'0' + msg_type_code (msg_type m)))
        (rw (type_of_char-code (msg_type m)) (rw back refl))

  -- A string that ends in no digit from 0 to 8, or is empty, is a fault of the receiver.
  pub deal_msg_unknown :
      (codec : Codec) (self : Handler Name) (msg_str : Bytes) (name : DataName Name)
      (c : Captain Name)
      → ((front : Bytes) (ch : ℕ)
          → split_last msg_str ≡ some (front, ch)
          → (ch < b'0') ⊎ (b'8' < ch))
      → deal_msg codec self msg_str name c ≡ fault
  unfolding deal_msg
  deal_msg_unknown codec self msg_str name c odd = elim (Option-cases (split_last msg_str)) [
    | inl e ↦ rw e
    | inr ((front, ch), e) ↦ rw e (rw (type_of_char_unknown ch (odd front ch e)))
  ]
