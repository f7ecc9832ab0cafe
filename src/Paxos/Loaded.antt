-- ===== src/Paxos/Loaded.antt =====
-- The cluster of a configuration file (view.cpp).
use ndnpaxos.Prelude.{ℕ, ◌<◌, ◌≡◌, ◌≢◌, arith, length, refl}
use ndnpaxos.Types.{Mode, mode_type, PropValue}
use ndnpaxos.View.{Config, load, quorum_of}
use ndnpaxos.View.Quorum.{load_majority}
use ndnpaxos.Rs.{Fec}
use ndnpaxos.Paxos.System.{Cluster, IsCluster}

-- The nodes that the file lists, each with the view that it loads from the file.
abbrev pub loaded : Mode → Fec → Config → (ℕ → PropValue) → Cluster
loaded mode fec config value = record {
  mode = mode;
  fec = fec;
  n = length config.host;
  q = quorum_of (length config.host);
  view = λ i. load mode i config;
  value = value;
}

load-node_id :
    (mode : Mode) (config : Config) (i : ℕ)
    → i < length config.host
    → (load mode i config).node_id ≡ i
unfolding load
load-node_id mode config i below = ground arith

load-q_size :
    (mode : Mode) (config : Config) (i : ℕ)
    → (load mode i config).q_size ≡ quorum_of (length config.host)
unfolding load
load-q_size mode config i = refl

load-size : (mode : Mode) (config : Config) (i : ℕ) → (load mode i config).size ≡ length config.host
unfolding load
load-size mode config i = refl

-- In the basic and the quorum build, the nodes of a configuration file with 1 to 65534 hosts, which
-- each load it with their own number, form a cluster as agreement and validity need it: each knows its
-- number, all use one quorum size, two quorums have more nodes than the cluster, and the node numbers
-- fit in 16 bits.
pub loaded-IsCluster :
    (mode : Mode) (fec : Fec) (config : Config) (value : ℕ → PropValue)
    → mode_type mode ≢ 1
    → mode_type mode ≢ 2
    → 0 < length config.host
    → length config.host < 65535
    → IsCluster (loaded mode fec config value)
loaded-IsCluster mode fec config value rs multi pos small = record {
  not_rs = rs;
  not_multi = multi;
  numbered = load-node_id mode config;
  quorums = load-q_size mode config;
  majority = omega (
    arith,
    (load_majority mode 0 config pos small).0,
    load-q_size mode config 0,
    load-size mode config 0,
  );
  few = omega arith;
}
