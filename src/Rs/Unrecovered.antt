-- ===== src/Rs/Unrecovered.antt =====
-- What `rs_decode` (rs_decoder.hpp) gives when block 0 has not arrived: the block size is read off the
-- string in its place, which is empty.
use ndnpaxos.Prelude.{
  ℕ, zero, suc, ◌+◌, ◌-◌, ◌≤◌, ◌<◌, ◌≡◌, refl, sym, ◌∙◌, ap, subst, inl, inr, Bool, true, false,
  List, [], ◌∷◌, ◌++◌, none, some, length, get_elem?, get_elem?-lt, lt_of_get_elem?, replicate,
  length-replicate, length-append, arith, All, count_from, leb, ◌==◌, if◌then◌else◌, ok,
}
use ndnpaxos.Types.{Bytes}
use ndnpaxos.Rs.{
  Fec, new_decoder, read_bytes, rs_decode, any_missing, read_block, pick_blocks, join_blocks,
}
use ndnpaxos.Rs.Split.{join}
use ndnpaxos.Rs.Pick.{available, missing, Picks, Readable, pick_blocks_lem}
use ndnpaxos.Rs.RoundTrip.{IsFec, replaced, Picks-IsIndex, join_blocks_lem, add_zero, All-append}

-- A data block that has arrived, or nothing in its place.
abbrev pub arrived_at : List Bytes → List Bool → ℕ → Bytes
arrived_at blocks map i = elim (get_elem? map i) [
  | none ↦ []
  | some here ↦ if here then elim (get_elem? blocks i) [ none ↦ [] | some b ↦ b ] else []
]

unfoldable pub arrived : List Bytes → List Bool → ℕ → ℕ → List Bytes
arrived blocks map i zero = []
arrived blocks map i (suc rounds) = arrived_at blocks map i ∷ arrived blocks map (suc i) rounds

length-arrived :
    (blocks : List Bytes) (map : List Bool) (i rounds : ℕ)
    → length (arrived blocks map i rounds) ≡ rounds
unfolding arrived
length-arrived blocks map i zero = refl
length-arrived blocks map i (suc rounds) = ap suc (length-arrived blocks map (suc i) rounds)

-- What stands in for the missing blocks is the same as for blocks without bytes.
replaced-arrived :
    (blocks : List Bytes) (map : List Bool) (i r rounds : ℕ) (nums : List ℕ)
    → i + rounds ≤ r
    → Picks map i r nums
    → length nums ≡ rounds
    → replaced (arrived blocks map i rounds) nums i ≡ replaced (replicate rounds []) nums i
unfolding arrived
replaced-arrived blocks map i r zero nums low picks count = refl
replaced-arrived blocks map i r (suc rounds) [] low picks count = absurd (omega arith)
replaced-arrived blocks map i r (suc rounds) (num ∷ nums) low picks count = elim picks [
  | inl (there, same, rest) ↦
      let test : (num == i) ≡ true = ground arith in
      rw test (replaced-arrived blocks map (suc i) r rounds nums (omega arith) rest (omega arith))
  | inr (lost, above, there, rest) ↦
      let test : (num == i) ≡ false = ground arith in
      rw (test, arrived_at, lost)
        (ap (λ r. [] ∷ r)
          (replaced-arrived blocks map (suc i) (suc num) rounds nums (omega arith) rest
            (omega arith)))
]

arrived-held :
    (blocks : List Bytes) (map : List Bool) (i rounds j : ℕ) (d : Bytes)
    → ((at : ℕ) → get_elem? map at ≡ some true → (b : Bytes) × (get_elem? blocks at ≡ some b))
    → get_elem? (arrived blocks map i rounds) j ≡ some d
    → get_elem? map (i + j) ≡ some true
    → get_elem? blocks (i + j) ≡ some d
unfolding arrived
arrived-held blocks map i zero j d there e at_j = cc
arrived-held blocks map i (suc rounds) zero d there e at_j =
    let here : get_elem? map i ≡ some true =
      subst (λ x. get_elem? map x ≡ some true) (add_zero i) at_j in
    let (b, block) = there i here in
    let first : arrived_at blocks map i ≡ b = rw (arrived_at, here, block) refl in
    subst (λ x. get_elem? blocks x ≡ some d) (sym (add_zero i)) (block ∙ (ap some (sym first) ∙ e))
arrived-held blocks map i (suc rounds) (suc j) d there e at_j =
    let next : suc i + j ≡ i + suc j = omega arith in
    subst (λ x. get_elem? blocks x ≡ some d) next
      (arrived-held blocks map (suc i) rounds j d there e
        (subst (λ x. get_elem? map x ≡ some true) (sym next) at_j))

empty_entry :
    (xs : List Bytes) (j : ℕ)
    → All (λ b. length b ≡ 0) xs
    → j < length xs
    → get_elem? xs j ≡ some []
empty_entry [] j h low = absurd (omega arith)
empty_entry ([] ∷ xs) zero h low = refl
empty_entry ((y ∷ ys) ∷ xs) zero h low = absurd (omega (arith, h.0))
empty_entry (x ∷ xs) (suc j) h low = empty_entry xs j h.1 (omega arith)

read_none : (b : Bytes) → read_bytes b 0 0 ≡ ok []
unfolding read_bytes
read_none b = let test : leb (0 + 0) (length b + 1) ≡ true = ground arith in rw test refl

replicate-All : (n : ℕ) → All (λ b. length b ≡ 0) (replicate {A = Bytes} n [])
replicate-All zero = tt
replicate-All (suc n) = (refl, replicate-All n)

first_missing :
    (map : List Bool) (k : ℕ) → get_elem? map 0 ≡ some false → any_missing map 0 (suc k) ≡ true
unfolding any_missing
first_missing map k lost = rw lost refl

zero-arrived :
    (fec : Fec) (n : ℕ) (blocks : List Bytes) (map : List Bool)
    → get_elem? blocks 0 ≡ some []
    → let got = join (arrived blocks map 0 0) in
      rs_decode fec blocks map (new_decoder 0 n)
      ≡ ok (got, record { k = 0; n = n; decoded_data = got })
unfolding rs_decode pick_blocks join_blocks arrived join any_missing
zero-arrived fec n blocks map empty = rw empty refl

positive-arrived :
    (fec : Fec) (k n : ℕ) (blocks : List Bytes) (map : List Bool)
    → any_missing map 0 k ≡ true
    → IsFec fec k n 0
    → k ≤ n
    → length map ≡ n
    → get_elem? map 0 ≡ some false
    → get_elem? blocks 0 ≡ some []
    → missing map 0 k ≤ available map 0 k
    → length blocks ≡ n
    → let got = join (arrived blocks map 0 k) in
      rs_decode fec blocks map (new_decoder k n)
      ≡ ok (got, record { k = k; n = n; decoded_data = got })
unfolding rs_decode
positive-arrived fec k n blocks map reads law fits size lost empty enough held =
    let ds = replicate {A = Bytes} k [] in
    let all = ds ++ fec.fec_encode k n ds (count_from k (n - k)) 0 in
    let (more, more_sizes) = law.makes ds (length-replicate k []) (replicate-All k) in
    let readable : Readable (any_missing map 0 k) all blocks map 0 = record {
      there = λ j at_j.
          let low : j < n = omega (arith, lt_of_get_elem? map j true at_j) in
          let (b, block) = get_elem?-lt blocks j (omega arith) in
          (
            b,
            [],
            block,
            subst (λ r. read_block r b 0 ≡ ok []) (sym reads) (read_none b),
            empty_entry all j (All-append (λ x. length x ≡ 0) ds _ (replicate-All k) more_sizes) (
                omega (
                  arith,
                  length-append ds (fec.fec_encode k n ds (count_from k (n - k)) 0),
                  length-replicate {A = Bytes} k [],
                  more,
                )),
          );
    } in
    let (cs, nums, picked, picks, contents, count) =
      pick_blocks_lem (any_missing map 0 k) all blocks map 0 readable k 0 k (omega arith) enough in
    let recovered : fec.fec_decode k n cs nums 0 ≡ replaced (arrived blocks map 0 k) nums 0 =
      law.recovers ds nums cs (length-replicate k []) (replicate-All k) count
        (Picks-IsIndex map n 0 k nums size picks) contents
      ∙ sym (replaced-arrived blocks map 0 k k nums (omega arith) picks count) in
    let joined =
      join_blocks_lem blocks map (arrived blocks map 0 k) nums 0 k k (length-arrived blocks map 0 k)
        (omega arith) (λ j d e at_j. arrived-held blocks map 0 k j d there e at_j) picks count in
    rw (empty, picked, recovered, joined) refl
  where
    there : (at : ℕ) → get_elem? map at ≡ some true → (b : Bytes) × (get_elem? blocks at ≡ some b)
    there at at_map = get_elem?-lt blocks at (omega (arith, lt_of_get_elem? map at true at_map))

-- Over a code library that does what it documents, also for blocks without bytes: if block 0 has not
-- arrived and the empty string stands in its place, and as many of the blocks behind the data blocks
-- have arrived as data blocks are missing, then a new decoder returns the data blocks that have arrived,
-- put together, and recovers none of the others.
pub rs_decode-arrived :
    (fec : Fec) (k n : ℕ) (blocks : List Bytes) (map : List Bool)
    → IsFec fec k n 0
    → k ≤ n
    → length map ≡ n
    → get_elem? map 0 ≡ some false
    → get_elem? blocks 0 ≡ some []
    → missing map 0 k ≤ available map 0 k
    → length blocks ≡ n
    → let got = join (arrived blocks map 0 k) in
      rs_decode fec blocks map (new_decoder k n)
      ≡ ok (got, record { k = k; n = n; decoded_data = got })
rs_decode-arrived fec zero n blocks map law fits size lost empty enough held =
    zero-arrived fec n blocks map empty
rs_decode-arrived fec (suc i) n blocks map law fits size lost empty enough held =
    positive-arrived fec (suc i) n blocks map (first_missing map i lost) law fits size lost empty
      enough held
