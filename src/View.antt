-- ===== src/View.antt =====
-- libndnpaxos/view.hpp and view.cpp: what a node knows of the cluster. The configuration file is
-- read by yaml-cpp, so `load` takes its content; the commands that the constructor runs (`nfdc
-- register`, the folder of the database) are not modelled. A field that a build leaves without a
-- value (`rs_*` outside the RS build) is 0 here.
pub mod Quorum
use ndnpaxos.Prelude.{
  ℕ, ◌+◌, ◌-◌, ◌/◌, ◌%◌, ◌^◌, Bool, List, Option, none, some, length, get_elem?, ltb, ◌==◌,
  if◌then◌else◌, Outcome, ok, deref, ◌>>=◌,
}
use ndnpaxos.Types.{Mode, rs, mode_type, Bytes, u16, u32, u64}

pub record HostInfo : Type 0 where
  pub name : Bytes
  pub addr : Bytes

pub record Lease : Type 0 where
  pub master_id : ℕ
  pub period : ℕ
  pub length : ℕ

pub record RsInfo : Type 0 where
  pub x : ℕ
  pub n : ℕ
  pub qr : ℕ
  pub qw : ℕ
  pub f : ℕ

-- The parsed configuration file.
pub record Config : Type 0 where
  pub prefix : Bytes
  pub host : List HostInfo
  pub lease : Option Lease
  pub has_db : Bool
  pub rs : Option RsInfo

pub record View : Type 0 where
  pub prefix : Bytes
  pub node_id : ℕ
  pub host_nodes : List HostInfo
  pub size : ℕ
  pub master_id : ℕ
  pub period : ℕ
  pub length : ℕ
  pub q_size : ℕ
  pub rs_x : ℕ
  pub rs_n : ℕ
  pub rs_f : ℕ
  pub rs_qr : ℕ
  pub rs_qw : ℕ

-- `ceil((size + 1) / 2.0)`, cast to node_id_t. (The sum is exact in a double below 2^53.)
abbrev pub quorum_of : ℕ → ℕ
quorum_of size = u16 ((u64 (size + 1) + 1) / 2)

abbrev pub load_lease : Option Lease → Lease
load_lease none = record { master_id = 0; period = 500; length = 100000 }
load_lease (some l) = record {
  master_id = u16 l.master_id;
  period = u32 l.period;
  length = u32 l.length;
}

-- The default of `rs_x_`.
abbrev pub rs_x_of : ℕ → ℕ
rs_x_of n = if n == 1 then 1 else if n % 2 == 0 then 2 else 3

-- Without an `rs` node: everything from the number of nodes. `rs_n_` is a node_id_t.
abbrev pub default_rs : ℕ → RsInfo
default_rs size =
    let n = u16 size in
    let x = rs_x_of n in
    let qr = (n + x) / 2 in
    record { x = x; n = n; qr = u16 qr; qw = u16 qr; f = (n + 2 ^ 16 - u16 qr) % 2 ^ 16 }

abbrev pub load_rs : Mode → ℕ → Option RsInfo → RsInfo
load_rs Mode.rs size none = default_rs size
load_rs Mode.rs size (some i) = record {
  x = u16 i.x;
  n = u16 i.n;
  qr = u16 i.qr;
  qw = u16 i.qw;
  f = u16 i.f;
}
load_rs _ size i = record { x = 0; n = 0; qr = 0; qw = 0; f = 0 }

-- What the constructor makes of the file. A node number out of range becomes 0.
unfoldable pub load : Mode → ℕ → Config → View
load mode node_id config =
    let size = length config.host in
    let lease = load_lease config.lease in
    let rs_info = load_rs mode size config.rs in
    record {
      prefix = config.prefix;
      node_id = if ltb node_id size then node_id else 0;
      host_nodes = config.host;
      size = size;
      master_id = lease.master_id;
      period = lease.period;
      length = lease.length;
      q_size = quorum_of size;
      rs_x = rs_info.x;
      rs_n = rs_info.n;
      rs_f = rs_info.f;
      rs_qr = rs_info.qr;
      rs_qw = rs_info.qw;
    }

-- The constructor. With an empty file name it reads config/localhost-1.yaml and takes node 0, which is
-- `new_view` of that file at 0. With a `db` section, the name of the node's host is read for the path of
-- the database before the node number is brought into range.
unfoldable pub new_view : Mode → ℕ → Config → Outcome View
unfolding load
new_view mode node_id config =
    if config.has_db
    then (deref (get_elem? config.host node_id) >>= λ info. ok (load mode node_id config))
    else ok (load mode node_id config)

abbrev pub whoami : View → ℕ
whoami v = v.node_id

abbrev pub if_master : View → Bool
if_master v = v.node_id == v.master_id

abbrev pub if_quorum : View → Bool
if_quorum v = ltb v.node_id v.q_size

abbrev pub set_master : View → ℕ → View
set_master v node_id = record v { master_id = node_id }

-- `host_nodes_[node_id]`; `none` is out of range.
abbrev pub host : View → ℕ → Option HostInfo
host v node_id = get_elem? v.host_nodes node_id

abbrev pub nodes_size : View → ℕ
nodes_size v = v.size

abbrev pub quorum_size : View → ℕ
quorum_size v = v.q_size
