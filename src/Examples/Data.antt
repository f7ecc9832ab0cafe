-- ===== src/Examples/Data.antt =====
-- The data of the examples: a cluster of three nodes as in config/localhost-3.yaml, and messages.
use ndnpaxos.Prelude.{true, ℕ, ◌+◌, ◌*◌, ◌^◌, [], ◌∷◌, none}
use ndnpaxos.Types.{MsgType, PropValue, MsgHeader, MsgPrepare, MsgAccept}
use ndnpaxos.View.{HostInfo, Config, View}
use ndnpaxos.Rs.{Fec}

abbrev pub local_host : ℕ → HostInfo
local_host i = record { name = b'n' ∷ (b'0' + i) ∷ []; addr = b'l' ∷ [] }

abbrev pub three_hosts : Config
three_hosts = record {
  prefix = b'p' ∷ [];
  host = local_host 0 ∷ local_host 1 ∷ local_host 2 ∷ [];
  lease = none;
  has_db = true;
  rs = none;
}

abbrev pub node : ℕ → View
node i = record {
  prefix = b'p' ∷ [];
  node_id = i;
  host_nodes = three_hosts.host;
  size = 3;
  master_id = 0;
  period = 500;
  length = 100000;
  q_size = 2;
  rs_x = 0;
  rs_n = 0;
  rs_f = 0;
  rs_qr = 0;
  rs_qw = 0;
}

abbrev pub value : ℕ → PropValue
value i = record { id = 2 ^ 16 + i; content = b'v' ∷ i ∷ []; cmd_type = none }

abbrev pub header : MsgType → ℕ → MsgHeader
header type i = record { msg_type = type; node_id = i; slot_id = 1 }

abbrev pub ballot : ℕ → ℕ → ℕ
ballot n i = n * 2 ^ 16 + i

abbrev pub prepare_of : ℕ → ℕ → MsgPrepare
prepare_of n i = record { header = header MsgType.prepare i; ballot_id = ballot n i }

abbrev pub accept_of : ℕ → ℕ → MsgAccept
accept_of n i = record {
  header = header MsgType.accept i;
  ballot_id = ballot n i;
  prop_value = value i;
}

-- A library that recovers nothing.
abbrev pub no_fec : Fec
no_fec = record { fec_encode = λ k n src nums size. []; fec_decode = λ k n blocks index size. [] }
