-- ===== src/Proposer/Ballots.antt =====
-- The ballots of proposer.cpp: a counter in the high 48 bits over the node's number.
use ndnpaxos.Prelude.{ℕ, zero, suc, ◌+◌, ◌*◌, ◌^◌, ◌<◌, ◌≡◌, refl, arith}
use ndnpaxos.Types.{Mode, PropValue}
use ndnpaxos.View.{View}
use ndnpaxos.Proposer.{Proposer, new_proposer, gen_next_ballot}

-- The proposer after `n` calls of `gen_next_ballot`.
pub generate : View → ℕ → Proposer → Proposer
generate v zero p = p
generate v (suc n) p = gen_next_ballot v (generate v n p)

generate-ballot :
    (mode : Mode) (v : View) (value : PropValue) (n : ℕ)
    → v.node_id < 2 ^ 16
    → suc n < 2 ^ 48
    → (generate v (suc n) (new_proposer mode v value)).curr_ballot ≡ suc n * 2 ^ 16 + v.node_id
unfolding generate gen_next_ballot new_proposer
generate-ballot mode v value zero small few = ground arith
generate-ballot mode v value (suc n) small few =
    ground (arith, generate-ballot mode v value n small)

new_proposer-ballot :
    (mode : Mode) (v : View) (value : PropValue) → (new_proposer mode v value).curr_ballot ≡ 0
unfolding new_proposer
new_proposer-ballot mode v value = refl

-- For a node number of 16 bits and fewer than 2^48 generations, the n-th ballot is n in the high bits
-- and the node's number in the low bits, and each ballot exceeds the one before it.
pub generate_form :
    (mode : Mode) (v : View) (value : PropValue) (n : ℕ)
    → v.node_id < 2 ^ 16
    → suc n < 2 ^ 48
    → let p = generate v n (new_proposer mode v value) in
      ((gen_next_ballot v p).curr_ballot ≡ suc n * 2 ^ 16 + v.node_id)
      × (p.curr_ballot < (gen_next_ballot v p).curr_ballot)
unfolding generate
generate_form mode v value zero small few =
    let form = generate-ballot mode v value zero small few in
    (form, omega (arith, form, new_proposer-ballot mode v value))
generate_form mode v value (suc n) small few =
    let form = generate-ballot mode v value (suc n) small few in
    (form, omega (arith, form, generate-ballot mode v value n small (omega arith)))
