-- ===== src/Captain/State.antt =====
-- The state of a replica (captain.hpp), and its constructor. `Name` is the type `ndn::Name` of ndn-cxx;
-- the captain only stores names and hands them on.
use ndnpaxos.Prelude.{ℕ, ◌+◌, ◌^◌, Bool, true, false, List, [], ◌∷◌, Option, none, some, replicate}
use ndnpaxos.Types.{Mode, ProposerStatus, Bytes, PropValue, Message, u64}
use ndnpaxos.View.{View, whoami}
use ndnpaxos.Acceptor.{Acceptor, new_acceptor, update_max_proposed}
use ndnpaxos.Proposer.{Proposer}

pub record ProposerInfo (Name : Type 0) : Type 0 where
  pub try_time : ℕ
  pub client_name : Name
  pub curr_proposer : Proposer
  pub proposer_status : ProposerStatus

-- What a replica does to the outside: an interest to a node, a data packet in reply, the data packet
-- that informs a client (slot, number of tries), a message handed to the pool, the three callbacks,
-- the answer to a read request,
-- and a `commit` that begins to wait for the master.
pub data Event (Name : Type 0) : Type 0 where
  sent : ℕ → Message → Event Name
  replied : Message → Name → Event Name
  informed : ℕ → ℕ → Name → Event Name
  scheduled : Message → Event Name
  called : ℕ → Bytes → Event Name
  called_full : ℕ → PropValue → ℕ → Event Name
  called_latency : ℕ → PropValue → ℕ → Event Name
  answered : Bytes → Name → Event Name
  waits : Event Name

-- `has_*`: the callback is set. `events` is the record of what the replica has done, latest first. Slot
-- numbers stay below 2^31, where the loops over `int i` agree with the 64-bit numbers.
pub record Captain (Name : Type 0) : Type 0 where
  pub view : View
  pub acceptors : List (Option Acceptor)
  pub proposers : List (ℕ × ProposerInfo Name)
  pub chosen_values : List (Option PropValue)
  pub tocommit_values : List PropValue
  pub tocommit_clients : List Name
  pub max_chosen : ℕ
  pub max_chosen_without_hole : ℕ
  pub max_slot : ℕ
  pub last_slot : ℕ
  pub value_id : ℕ
  pub window_size : ℕ
  pub has_callback : Bool
  pub has_callback_full : Bool
  pub has_callback_latency : Bool
  pub work : Bool
  pub commit_ok : Bool
  pub dum_name : Name
  pub events : List (Event Name)

-- The argument `ndn::Name &dataName`: the static `Captain::dumName_`, which is the default argument,
-- or a name of the caller.
pub data DataName (Name : Type 0) : Type 0 where
  dum : DataName Name
  named : Name → DataName Name

abbrev pub resolve : {Name : Type 0} → Captain Name → DataName Name → Name
resolve c dum = c.dum_name
resolve c (named name) = name

-- `dataName = name`: an assignment through the reference. No caller reads its own name afterwards.
abbrev pub assign : {Name : Type 0} → Captain Name → DataName Name → Name → Captain Name
assign c dum name = record c { dum_name = name }
assign c (named old) name = c

abbrev pub emit : {Name : Type 0} → Event Name → Captain Name → Captain Name
emit e c = record c { events = e ∷ c.events }

-- The acceptors that the constructor makes: none but slot 0's null pointer, or, in the build with
-- MODE_TYPE 2, one for each slot of the lease, promised to the first ballot of the master.
abbrev pub init_acceptors : Mode → View → List (Option Acceptor)
init_acceptors Mode.multi v =
    none ∷ replicate v.length (some (update_max_proposed (2 ^ 16 + v.master_id) new_acceptor))
init_acceptors _ v = none ∷ []

-- The constructor with a window size; `empty_name` is `ndn::Name("")`.
unfoldable pub new_captain : {Name : Type 0} → Mode → View → ℕ → Name → Captain Name
new_captain mode v window_size empty_name = record {
  view = v;
  acceptors = init_acceptors mode v;
  proposers = [];
  chosen_values = none ∷ [];
  tocommit_values = [];
  tocommit_clients = [];
  max_chosen = 0;
  max_chosen_without_hole = 0;
  max_slot = 0;
  last_slot = 0;
  value_id = whoami v;
  window_size = window_size;
  has_callback = false;
  has_callback_full = false;
  has_callback_latency = false;
  work = true;
  commit_ok = false;
  dum_name = empty_name;
  events = [];
}

-- `value_id_ += (1 << 16)`
unfoldable pub next_value_id : {Name : Type 0} → Captain Name → Captain Name
next_value_id c = record c { value_id = u64 (c.value_id + 2 ^ 16) }

abbrev pub crash : {Name : Type 0} → Captain Name → Captain Name
crash c = record c { work = false }
