-- ===== src/Rs/Pick.antt =====
-- The blocks that `rs_decode` (rs_decoder.hpp) picks for the code library.
use ndnpaxos.Prelude.{
  ℕ, zero, suc, ◌+◌, ◌-◌, ◌≤◌, ◌<◌, ◌≡◌, refl, ◌∙◌, ap, ◌⊎◌, inl, inr, Bool, true, false, ◌&&◌,
  List, [], ◌∷◌, ◌++◌, none, some, take, length, get_elem?, get_elem?-lt, arith, leb, if◌then◌else◌,
  ok, Bool-cases,
}
use ndnpaxos.Types.{Bytes}
use ndnpaxos.Rs.{read_bytes, read_block, next_present, pick_blocks}

-- How many blocks from `r` on are there; `at` is the number of the first entry.
unfoldable pub available : List Bool → ℕ → ℕ → ℕ
available [] at r = 0
available (b ∷ map) at r = (if leb r at && b then 1 else 0) + available map (suc at) r

-- How many of the `rounds` blocks from `i` on are missing.
unfoldable pub missing : List Bool → ℕ → ℕ → ℕ
missing map i zero = 0
missing map i (suc rounds) =
    elim (get_elem? map i) [ none ↦ 1 | some here ↦ if here then 0 else 1 ]
    + missing map (suc i) rounds

available_low :
    (map : List Bool) (at r s : ℕ) → r ≤ at → s ≤ at → available map at r ≡ available map at s
unfolding available
available_low [] at r s h g = refl
available_low (b ∷ map) at r s h g = ground (arith, available_low map (suc at) r s)

-- The first block from `r` on that is there.
abbrev Found : List Bool → ℕ → ℕ → Type 0
Found map at r =
    (j : ℕ) × (next_present map at r ≡ some j)
    × (r ≤ j)
    × (at ≤ j)
    × (get_elem? map (j - at) ≡ some true)
    × (available map at (suc j) + 1 ≡ available map at r)

skip_block :
    (b : Bool) (map : List Bool) (at r : ℕ)
    → (leb r at && b) ≡ false
    → Found map (suc at) r
    → Found (b ∷ map) at r
unfolding available next_present
skip_block b map at r e (j, found, above, from, there, left) =
    let next : j - at ≡ suc (j - suc at) = omega arith in
    let past : (leb (suc j) at && b) ≡ false = ground arith in
    (
      j,
      rw e found,
      above,
      omega arith,
      ap (get_elem? (b ∷ map)) next ∙ there,
      rw (e, past) (omega (arith, left)),
    )

next_present_lem : (map : List Bool) (at r : ℕ) → 0 < available map at r → Found map at r
unfolding available next_present
next_present_lem [] at r h = absurd (omega arith)
next_present_lem (b ∷ map) at r h = elim (Bool-cases (leb r at && b)) [
  | inl e ↦
      let here : b ≡ true = ground arith in
      let low : r ≤ at = ground arith in
      let first : at - at ≡ 0 = omega arith in
      let past : leb (suc at) at ≡ false = ground arith in
      (
        at,
        rw e refl,
        low,
        omega arith,
        ap (get_elem? (b ∷ map)) first ∙ ap some here,
        rw (e, past) (omega (arith, available_low map (suc at) r (suc at))),
      )
  | inr e ↦ skip_block b map at r e (next_present_lem map (suc at) r (omega (arith, rw e at h)))
]

-- What a list of block numbers is: at each position the data block of that position if it is there, or
-- else the next of the later blocks that is there.
abbrev pub Picks : List Bool → ℕ → ℕ → List ℕ → Type 0
Picks map i r [] = Unit
Picks map i r (num ∷ nums) =
    ((get_elem? map i ≡ some true) × (num ≡ i) × Picks map (suc i) r nums)
    ⊎ ((get_elem? map i ≡ some false)
        × (r ≤ num)
        × (get_elem? map num ≡ some true)
        × Picks map (suc i) (suc num) nums)

-- The contents of the numbered blocks.
abbrev pub Contents : List Bytes → List ℕ → List Bytes → Type 0
Contents all [] [] = Unit
Contents all [] (c ∷ cs) = ⊥
Contents all (num ∷ nums) [] = ⊥
Contents all (num ∷ nums) (c ∷ cs) = (get_elem? all num ≡ some c) × Contents all nums cs

-- The blocks that are there are those that were made, of `size` bytes.
pub record Received (all blocks : List Bytes) (map : List Bool) (size : ℕ) : Type 0 where
  pub same : (j : ℕ) → get_elem? map j ≡ some true → get_elem? blocks j ≡ get_elem? all j
  pub there :
      (j : ℕ)
      → get_elem? map j ≡ some true
      → (b : Bytes) × (get_elem? all j ≡ some b) × (length b ≡ size)

take_all {ℓ} : {A : Type ℓ} (xs ys : List A) (n : ℕ) → length xs ≡ n → take n (xs ++ ys) ≡ xs
take_all [] ys zero h = refl
take_all [] ys (suc n) h = absurd (omega arith)
take_all (x ∷ xs) ys zero h = absurd (omega arith)
take_all (x ∷ xs) ys (suc n) h = ap (λ zs. x ∷ zs) (take_all xs ys n (omega arith))

read_whole : (b : Bytes) (size : ℕ) → length b ≡ size → read_bytes b 0 size ≡ ok b
unfolding read_bytes
read_whole b size h =
    let test : leb (0 + size) (length b + 1) ≡ true = ground arith in
    rw test (ap ok (take_all b (0 ∷ []) size h))

read_block_whole :
    (reads : Bool) (b : Bytes) (size : ℕ) → length b ≡ size → read_block reads b size ≡ ok b
read_block_whole true b size h = read_whole b size h
read_block_whole false b size h = refl

-- What can be read of `size` bytes of the blocks that are there.
pub record Readable (reads : Bool) (all blocks : List Bytes) (map : List Bool) (size : ℕ)
    : Type 0 where
  pub there :
      (j : ℕ)
      → get_elem? map j ≡ some true
      → (b : Bytes) × (c : Bytes) × (get_elem? blocks j ≡ some b)
        × (read_block reads b size ≡ ok c)
        × (get_elem? all j ≡ some c)

pub Received-Readable :
    (reads : Bool) (all blocks : List Bytes) (map : List Bool) (size : ℕ)
    → Received all blocks map size
    → Readable reads all blocks map size
Received-Readable reads all blocks map size h = record {
  there = λ j at_j.
      let (b, made, len) = h.there j at_j in
      (b, b, h.same j at_j ∙ made, read_block_whole reads b size len, made);
}

sub_zero : (j : ℕ) → j ≡ j - 0
sub_zero j = omega arith

module _ (reads : Bool) (all blocks : List Bytes) (map : List Bool) (size : ℕ)
    (h : Readable reads all blocks map size) where
  -- What the loop picks.
  abbrev pub Picked : ℕ → ℕ → ℕ → Type 0
  Picked r i rounds =
      (contents : List Bytes) × (nums : List ℕ) × (pick_blocks reads blocks map size r i rounds
        ≡ ok (contents, nums))
      × Picks map i r nums
      × Contents all nums contents
      × (length nums ≡ rounds)

  pick_here :
      (r i rounds : ℕ)
      → get_elem? map i ≡ some true
      → Picked r (suc i) rounds
      → Picked r i (suc rounds)
  unfolding pick_blocks
  pick_here r i rounds at_i (cs, ns, picked, picks, contents, count) =
      let (b, c, block, reads, made) = h.there i at_i in
      (
        c ∷ cs,
        i ∷ ns,
        rw (at_i, block, reads, picked) refl,
        inl (at_i, refl, picks),
        (made, contents),
        ap suc count,
      )

  pick_other :
      (r i rounds j : ℕ)
      → get_elem? map i ≡ some false
      → next_present map 0 r ≡ some j
      → r ≤ j
      → get_elem? map j ≡ some true
      → Picked (suc j) (suc i) rounds
      → Picked r i (suc rounds)
  unfolding pick_blocks
  pick_other r i rounds j at_i found above at_j (cs, ns, picked, picks, contents, count) =
      let (b, c, block, reads, made) = h.there j at_j in
      (
        c ∷ cs,
        j ∷ ns,
        rw (at_i, found, block, reads, picked) refl,
        inr (at_i, above, at_j, picks),
        (made, contents),
        ap suc count,
      )

  -- While enough later blocks are there, the loop picks a block for each position.
  pub pick_blocks_lem :
      (r i rounds : ℕ)
      → i + rounds ≤ length map
      → missing map i rounds ≤ available map 0 r
      → Picked r i rounds
  unfolding pick_blocks missing
  pick_blocks_lem r i zero fits enough = ([], [], refl, tt, tt, refl)
  pick_blocks_lem r i (suc rounds) fits enough =
      let (here, e) = get_elem?-lt map i (omega arith) in
      elim (Bool-cases here) [
        | inl t ↦
            let at_i : get_elem? map i ≡ some true = e ∙ ap some t in
            pick_here r i rounds at_i
              (pick_blocks_lem r (suc i) rounds (omega arith) (omega (arith, rw at_i at enough)))
        | inr f ↦
            let at_i : get_elem? map i ≡ some false = e ∙ ap some f in
            let (j, found, above, from, there, left) =
              next_present_lem map 0 r (omega (arith, rw at_i at enough)) in
            pick_other r i rounds j at_i found above (ap (get_elem? map) (sub_zero j) ∙ there) (
              pick_blocks_lem (suc j) (suc i) rounds (omega arith)
                (omega (arith, rw at_i at enough, left)))
      ]
