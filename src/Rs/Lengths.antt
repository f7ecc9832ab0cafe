-- ===== src/Rs/Lengths.antt =====
-- Which values `rs_encode` (rs_encoder.hpp) can split, and what an encoder returns that is used again.
use ndnpaxos.Prelude.{
  Bool, Outcome, if◌then◌else◌, ℕ, zero, suc, ◌+◌, ◌-◌, ◌*◌, ◌≤◌, ◌<◌, ◌≡◌, refl, true, false, ◌∙◌,
  ap, ◌⊎◌, inl, inr, List, [], ◌∷◌, ◌++◌, take, drop, length, arith, count_from, leb, ◌==◌, ok,
  fault, dec_le,
}
use native.Mathlib.Nat.{mul_comm, lt-div-mul-add}
use ndnpaxos.Types.{Bytes}
use ndnpaxos.Rs.{
  Fec, RsEncoder, read_bytes, substr, split_blocks, source_blocks, check_blocks, block_size,
  rs_encode,
}
use ndnpaxos.Rs.Split.{parts, join, suc_mul, zero_mul, drop-drop, take-drop, length-parts}

read_bytes-ok :
    (content : Bytes) (start size : ℕ)
    → start + size ≤ length content + 1
    → (src : Bytes) × (read_bytes content start size ≡ ok src)
unfolding read_bytes
read_bytes-ok content start size h =
    let test : leb (start + size) (length content + 1) ≡ true = ground arith in
    (take size (drop start (content ++ 0 ∷ [])), rw test refl)

read_bytes-fault :
    (content : Bytes) (start size : ℕ)
    → length content + 1 < start + size
    → read_bytes content start size ≡ fault
unfolding read_bytes
read_bytes-fault content start size h =
    let test : leb (start + size) (length content + 1) ≡ false = ground arith in rw test refl

substr-ok :
    (content : Bytes) (start size : ℕ)
    → start ≤ length content
    → substr content start size ≡ ok (take size (drop start content))
unfolding substr
substr-ok content start size h =
    let test : leb start (length content) ≡ true = ground arith in rw test refl

substr-fault :
    (content : Bytes) (start size : ℕ) → length content < start → substr content start size ≡ fault
unfolding substr
substr-fault content start size h =
    let test : leb start (length content) ≡ false = ground arith in rw test refl

split_blocks-ok :
    (content : Bytes) (size i rounds : ℕ)
    → i * size + rounds * size ≤ length content + size
    → split_blocks content size i rounds ≡ ok (parts size rounds (drop (i * size) content))
unfolding split_blocks parts
split_blocks-ok content size i zero h = refl
split_blocks-ok content size i (suc rounds) h =
    rw
      (
        substr-ok content (i * size) size (omega (arith, suc_mul rounds size)),
        split_blocks-ok content size (suc i) rounds
            (omega (arith, suc_mul i size, suc_mul rounds size)),
        drop-drop (i * size) size (suc i * size) content (suc_mul i size),
      )
      refl

split_blocks-fault :
    (content : Bytes) (size i rounds : ℕ)
    → i * size ≤ length content + size
    → length content + size < i * size + rounds * size
    → split_blocks content size i rounds ≡ fault
unfolding split_blocks
split_blocks-fault content size i zero low h = absurd (omega (arith, zero_mul size))
split_blocks-fault content size i (suc rounds) low h = elim (dec_le (i * size) (length content)) [
  | yes inside ↦
      let later : split_blocks content size (suc i) rounds ≡ fault =
        split_blocks-fault content size (suc i) rounds (omega (arith, suc_mul i size))
          (omega (arith, suc_mul i size, suc_mul rounds size)) in
      rw (substr-ok content (i * size) size inside, later) refl
  | no behind ↦ let throws = substr-fault content (i * size) size (omega arith) in rw throws refl
]

source_blocks-ok :
    (content : Bytes) (size i rounds : ℕ)
    → i * size + rounds * size ≤ length content + 1
    → (sources : List Bytes) × (source_blocks content size i rounds ≡ ok sources)
unfolding source_blocks
source_blocks-ok content size i zero h = ([], refl)
source_blocks-ok content size i (suc rounds) h =
    let (src, reads) = read_bytes-ok content (i * size) size (omega (arith, suc_mul rounds size)) in
    let (sources, rest) =
      source_blocks-ok content size (suc i) rounds
        (omega (arith, suc_mul i size, suc_mul rounds size)) in
    (src ∷ sources, rw (reads, rest) refl)

source_blocks-fault :
    (content : Bytes) (size i rounds : ℕ)
    → i * size ≤ length content + 1
    → length content + 1 < i * size + rounds * size
    → source_blocks content size i rounds ≡ fault
unfolding source_blocks
source_blocks-fault content size i zero low h = absurd (omega (arith, zero_mul size))
source_blocks-fault content size i (suc rounds) low h =
    elim (dec_le (i * size + size) (length content + 1)) [
      | yes room ↦
          let (src, reads) = read_bytes-ok content (i * size) size room in
          let later : source_blocks content size (suc i) rounds ≡ fault =
            source_blocks-fault content size (suc i) rounds (omega (arith, suc_mul i size))
              (omega (arith, suc_mul i size, suc_mul rounds size)) in
          rw (reads, later) refl
      | no short ↦
          let behind = read_bytes-fault content (i * size) size (omega arith) in rw behind refl
    ]

length-drop-le : (n m : ℕ) (xs : Bytes) → length xs ≤ n + m → length (drop n xs) ≤ m
length-drop-le zero m xs h = omega arith
length-drop-le (suc n) m [] h = omega arith
length-drop-le (suc n) m (x ∷ xs) h = length-drop-le n m xs (omega arith)

-- Parts that are long enough hold everything.
join-parts-le :
    (size k : ℕ) (content : Bytes)
    → length content ≤ k * size
    → join (parts size k content) ≡ content
unfolding join parts
join-parts-le size zero [] h = refl
join-parts-le size zero (x ∷ xs) h = absurd (omega (arith, zero_mul size))
join-parts-le size (suc k) content h =
    ap (λ ys. take size content ++ ys)
      (join-parts-le size k (drop size content)
        (length-drop-le size (k * size) content (omega (arith, suc_mul k size))))
    ∙ take-drop size content

block_size-le : (n k : ℕ) → 0 < k → n ≤ k * block_size n k
block_size-le n k pos =
    omega (arith, lt-div-mul-add {a = n + k - 1} {b = k} pos, mul_comm k (block_size n k))

-- What the library is given of the value: with no block to make, `none_made`, it reads nothing.
abbrev sources_of : Bool → List Bytes → Bytes → ℕ → ℕ → Outcome (List Bytes)
sources_of none_made data_blocks content size k =
    if none_made then ok data_blocks else source_blocks content size 0 k

-- How many bytes the data blocks may need more than the value has: the zero byte at the end of the
-- string, which the library reads, or, if it makes no block, all of one block.
abbrev pub spare : Bool → ℕ → ℕ
spare none_made size = if none_made then size else 1

-- With room for the zero byte only, no block begins behind the end.
block_room : (size k n : ℕ) → k * size ≤ n + 1 → k * size ≤ n + size
block_room zero k n h = omega (arith, mul_comm k 0)
block_room (suc size) k n h = omega arith

split_cases :
    (none_made : Bool) (content : Bytes) (size k : ℕ)
    → ((k * size ≤ length content + spare none_made size)
        × (split_blocks content size 0 k ≡ ok (parts size k (drop (0 * size) content)))
        × (sources : List Bytes) × (sources_of none_made
              (parts size k (drop (0 * size) content))
              content
              size
              k
            ≡ ok sources))
      ⊎ ((length content + spare none_made size < k * size)
          × ((split_blocks content size 0 k ≡ fault)
              ⊎ ((split_blocks content size 0 k ≡ ok (parts size k (drop (0 * size) content)))
                  × (sources_of none_made (parts size k (drop (0 * size) content)) content size k
                      ≡ fault))))
split_cases true content size k =
    let start = zero_mul size in
    elim (dec_le (k * size) (length content + size)) [
      | yes fits ↦ inl (fits, split_blocks-ok content size 0 k (omega arith), _, refl)
      | no long ↦
          inr (omega arith, inl (split_blocks-fault content size 0 k (omega arith) (omega arith)))
    ]
split_cases false content size k =
    let start = zero_mul size in
    elim (dec_le (k * size) (length content + 1)) [
      | yes fits ↦
          let room = block_room size k (length content) fits in
          let (sources, reads) = source_blocks-ok content size 0 k (omega arith) in
          inl (fits, split_blocks-ok content size 0 k (omega arith), sources, reads)
      | no long ↦
          let behind = source_blocks-fault content size 0 k (omega arith) (omega arith) in
          elim (dec_le (k * size) (length content + size)) [
            | yes room ↦
                inr (omega arith, inr (split_blocks-ok content size 0 k (omega arith), behind))
            | no longer ↦
                inr (
                  omega arith,
                  inl (split_blocks-fault content size 0 k (omega arith) (omega arith)),
                )
          ]
    ]

no_blocks : (k n : ℕ) → k ≤ n → (check_blocks k n == 0) ≡ (k == n)
no_blocks k n order = elim (dec_le n k) [
  | yes below ↦ let same : k ≡ n = omega arith in ground arith
  | no above ↦ ground arith
]

-- A value is split just if its data blocks need at most one byte more than it has, or, for an encoder with k = n,
-- which makes no other blocks, at most one block more. The encoder then returns what it has returned
-- before, followed by as many blocks as it has data blocks, which put together are the value, and by the
-- others; otherwise the call is a fault. This is so for encoders with 0 < k and k ≤ n.
pub rs_encode_lem :
    (fec : Fec) (content : Bytes) (e : RsEncoder)
    → 0 < e.k
    → e.k ≤ e.n
    → let size = block_size (length content) e.k in
      let none_made = e.k == e.n in
      ((e.k * size ≤ length content + spare none_made size)
        × (data_blocks : List Bytes) × (others : List Bytes) × (length data_blocks ≡ e.k)
        × (join data_blocks ≡ content)
        × (rs_encode fec content e
            ≡ ok (
              e.encoded_data ++ (data_blocks ++ others),
              record e { encoded_data = e.encoded_data ++ (data_blocks ++ others) },
            )))
      ⊎ ((length content + spare none_made size < e.k * size) × (rs_encode fec content e ≡ fault))
unfolding rs_encode
rs_encode_lem fec content e pos order =
    let size = block_size (length content) e.k in
    let c = check_blocks e.k e.n in
    let test : (e.k == 0) ≡ false = ground arith in
    let whole : drop (0 * size) content ≡ content = ap (λ j. drop j content) (zero_mul size) in
    rw (← no_blocks e.k e.n order) (elim (split_cases (c == 0) content size e.k) [
      | inl (fits, splits, sources, reads) ↦ inl (
        fits,
        parts size e.k (drop (0 * size) content),
        fec.fec_encode e.k e.n sources (count_from e.k c) size,
        length-parts size e.k (drop (0 * size) content),
        ap (λ x. join (parts size e.k x)) whole
            ∙ join-parts-le size e.k content (block_size-le (length content) e.k pos),
        rw (test, splits, reads) refl,
      )
      | inr (long, inl throws) ↦ inr (long, rw (test, throws) refl)
      | inr (long, inr (splits, behind)) ↦ inr (long, rw (test, splits, behind) refl)
    ])
