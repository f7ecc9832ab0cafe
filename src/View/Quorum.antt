-- ===== src/View/Quorum.antt =====
-- The quorum sizes of view.cpp, of majorities and of the Reed-Solomon build.
use ndnpaxos.Prelude.{
  ℕ, zero, suc, ◌+◌, ◌-◌, ◌*◌, ◌≤◌, ◌<◌, ◌≡◌, ◌⊎◌, inl, inr, refl, true, false, List, [], ◌∷◌, none,
  arith, length, get_elem?, get_elem?-lt, dec_lt, Bool-cases, ok, fault,
}
use ndnpaxos.Types.{Mode}
use ndnpaxos.View.{View, Config, load, new_view}

load-size :
    (mode : Mode) (node_id : ℕ) (config : Config)
    → (load mode node_id config).size ≡ length config.host
unfolding load
load-size mode node_id config = refl

get_elem?-behind {ℓ} : {A : Type ℓ} (xs : List A) (i : ℕ) → length xs ≤ i → get_elem? xs i ≡ none
get_elem?-behind [] i h = refl
get_elem?-behind (x ∷ xs) zero h = absurd (omega arith)
get_elem?-behind (x ∷ xs) (suc i) h = get_elem?-behind xs i (omega arith)

pub load_majority :
    (mode : Mode) (node_id : ℕ) (config : Config)
    → 0 < length config.host
    → length config.host < 65535
    → let v = load mode node_id config in
      (v.size < 2 * v.q_size)
      × (2 * (v.q_size - 1) ≤ v.size)
      × (v.q_size ≤ v.size)
      × (v.node_id < v.size)
unfolding load
load_majority mode node_id config pos small = ground arith

-- The constructor for a configuration of 1 to 65534 hosts. If the file has a `db` section and the node
-- number is out of range, the constructor reads behind the hosts, which is a fault. In all other cases
-- it makes a view whose quorum is the least majority (twice its size exceeds the number of nodes, one
-- node less would not, and it fits in the cluster), and whose node number is in range.
pub new_view_majority :
    (mode : Mode) (node_id : ℕ) (config : Config)
    → 0 < length config.host
    → length config.host < 65535
    → ((config.has_db ≡ true)
        × (length config.host ≤ node_id)
        × (new_view mode node_id config ≡ fault))
      ⊎ (((config.has_db ≡ false) ⊎ (node_id < length config.host))
          × (v : View) × (new_view mode node_id config ≡ ok v)
          × (v.size ≡ length config.host)
          × (v.size < 2 * v.q_size)
          × (2 * (v.q_size - 1) ≤ v.size)
          × (v.q_size ≤ v.size)
          × (v.node_id < v.size))
unfolding new_view
new_view_majority mode node_id config pos small =
    let (least, tight, fits, own) = load_majority mode node_id config pos small in
    elim (Bool-cases config.has_db) [
      | inr without ↦ inr (
        inl without,
        load mode node_id config,
        rw without refl,
        load-size mode node_id config,
        least,
        tight,
        fits,
        own,
      )
      | inl db ↦ elim (dec_lt node_id (length config.host)) [
        | yes low ↦
            let (info, at) = get_elem?-lt config.host node_id low in
            inr (
              inr low,
              load mode node_id config,
              rw (db, at) refl,
              load-size mode node_id config,
              least,
              tight,
              fits,
              own,
            )
        | no high ↦
            let behind = get_elem?-behind config.host node_id (omega arith) in
            inl (db, omega arith, rw (db, behind) refl)
      ]
    ]

-- In the RS build with no `rs` section, for at most 65000 nodes and at least one: a read quorum and a
-- write quorum share `rs_x` nodes, the number of data blocks, and `rs_f` is the number of nodes that
-- a read quorum can miss. A quorum holds at least `rs_x` nodes and fits in the cluster.
pub load_rs_overlap :
    (node_id : ℕ) (config : Config)
    → config.rs ≡ none
    → 0 < length config.host
    → length config.host ≤ 65000
    → let v = load Mode.rs node_id config in
      (v.rs_qr + v.rs_qw ≡ v.rs_n + v.rs_x)
      × (v.rs_f + v.rs_qr ≡ v.size)
      × (v.rs_x ≤ v.rs_qr)
      × (v.rs_qr ≤ v.size)
unfolding load
load_rs_overlap node_id config e pos small = rw e (ground arith)
