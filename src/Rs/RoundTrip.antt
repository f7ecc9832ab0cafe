-- ===== src/Rs/RoundTrip.antt =====
-- Encoding (rs_encoder.hpp) followed by decoding (rs_decoder.hpp) from the blocks that arrived.
use ndnpaxos.Prelude.{
  ℕ, zero, suc, ◌+◌, ◌-◌, ◌*◌, ◌≤◌, ◌<◌, ◌≡◌, refl, sym, ◌∙◌, ap, subst, ◌⊎◌, inl, inr, Bool, true,
  false, List, [], ◌∷◌, ◌++◌, some, length, get_elem?, get_elem?-lt, lt_of_get_elem?,
  get_elem?-append_left, length-append, ok-injective, arith, All, count_from, ◌==◌, if◌then◌else◌,
  ok, some-injective,
}
use ndnpaxos.Types.{Bytes}
use ndnpaxos.Rs.{
  any_missing, Fec, RsEncoder, new_encoder, new_decoder, rs_encode, rs_decode, join_blocks,
}
use ndnpaxos.Rs.Split.{parts, join, rs_encode-parts, length-parts, parts-All}
use ndnpaxos.Rs.Pick.{
  available, missing, Picks, Contents, Received, Received-Readable, pick_blocks_lem,
}

-- The data blocks whose positions a list of block numbers replaces.
abbrev pub replaced : List Bytes → List ℕ → ℕ → List Bytes
replaced [] nums i = []
replaced (d ∷ ds) [] i = []
replaced (d ∷ ds) (num ∷ nums) i =
    let rest = replaced ds nums (suc i) in if num == i then rest else d ∷ rest

-- A list of block numbers as zfec wants it: a data block at its own position, or a later block, which
-- is below `n` and occurs once.
abbrev pub IsIndex : ℕ → ℕ → ℕ → List ℕ → Type 0
IsIndex n i r [] = Unit
IsIndex n i r (num ∷ nums) =
    ((num ≡ i) × IsIndex n (suc i) r nums)
    ⊎ ((r ≤ num) × (num < n) × IsIndex n (suc i) (suc num) nums)

-- What the library documents, for `k` of `n` blocks of `size` bytes: the encoder makes `n - k` blocks
-- of that size, and from the contents of any `k` blocks the decoder gets the data blocks that are not
-- among them.
pub record IsFec (fec : Fec) (k n size : ℕ) : Type 0 where
  pub makes :
      (data_blocks : List Bytes)
      → length data_blocks ≡ k
      → All (λ b. length b ≡ size) data_blocks
      → (length (fec.fec_encode k n data_blocks (count_from k (n - k)) size) ≡ n - k)
        × All (λ b. length b ≡ size) (fec.fec_encode k n data_blocks (count_from k (n - k)) size)
  pub recovers :
      (data_blocks : List Bytes) (nums : List ℕ) (contents : List Bytes)
      → length data_blocks ≡ k
      → All (λ b. length b ≡ size) data_blocks
      → length nums ≡ k
      → IsIndex n 0 k nums
      → Contents
          (data_blocks ++ fec.fec_encode k n data_blocks (count_from k (n - k)) size)
          nums
          contents
      → fec.fec_decode k n contents nums size ≡ replaced data_blocks nums 0

pub Picks-IsIndex :
    (map : List Bool) (n i r : ℕ) (nums : List ℕ)
    → length map ≡ n
    → Picks map i r nums
    → IsIndex n i r nums
Picks-IsIndex map n i r [] len h = tt
Picks-IsIndex map n i r (num ∷ nums) len h = elim h [
  | inl (there, same, rest) ↦ inl (same, Picks-IsIndex map n (suc i) r nums len rest)
  | inr (lost, above, there, rest) ↦ inr (
    above,
    omega (arith, lt_of_get_elem? map num true there),
    Picks-IsIndex map n (suc i) (suc num) nums len rest,
  )
]

pub add_zero : (i : ℕ) → i + 0 ≡ i
add_zero i = omega arith

pub add_suc : (i j : ℕ) → i + suc j ≡ suc i + j
add_suc i j = omega arith

pub zero_add : (i : ℕ) → 0 + i ≡ i
zero_add i = omega arith

-- The last loop puts the data blocks together.
pub join_blocks_lem :
    (blocks : List Bytes) (map : List Bool) (ds : List Bytes) (nums : List ℕ) (i r rounds : ℕ)
    → length ds ≡ rounds
    → i + rounds ≤ r
    → ((j : ℕ) (d : Bytes)
        → get_elem? ds j ≡ some d
        → get_elem? map (i + j) ≡ some true
        → get_elem? blocks (i + j) ≡ some d)
    → Picks map i r nums
    → length nums ≡ rounds
    → join_blocks blocks map (replaced ds nums i) i rounds ≡ ok (join ds)
unfolding join_blocks join
join_blocks_lem blocks map [] nums i r zero len low held picks count = refl
join_blocks_lem blocks map ds [] i r (suc rounds) len low held picks count = absurd (omega arith)
join_blocks_lem blocks map [] (num ∷ nums) i r (suc rounds) len low held picks count =
    absurd (omega arith)
join_blocks_lem blocks map (d ∷ ds) nums i r zero len low held picks count = absurd (omega arith)
join_blocks_lem blocks map (d ∷ ds) (num ∷ nums) i r (suc rounds) len low held picks count =
    elim picks [
      | inl (there, same, rest) ↦
          let test : (num == i) ≡ true = ground arith in
          let here : get_elem? blocks i ≡ some d =
            subst (λ x. get_elem? blocks x ≡ some d) (add_zero i)
              (held 0 d refl (subst (λ x. get_elem? map x ≡ some true) (sym (add_zero i)) there)) in
          rw
            (
              test,
              there,
              here,
              join_blocks_lem blocks map ds nums (suc i) r rounds (omega arith) (omega arith) later
                  rest (omega arith),
            )
            refl
      | inr (lost, above, there, rest) ↦
          let test : (num == i) ≡ false = ground arith in
          rw
            (
              test,
              lost,
              join_blocks_lem blocks map ds nums (suc i) (suc num) rounds (omega arith)
                  (omega arith) later rest (omega arith),
            )
            refl
    ]
  where
    later :
        (j : ℕ) (e : Bytes)
        → get_elem? ds j ≡ some e
        → get_elem? map (suc i + j) ≡ some true
        → get_elem? blocks (suc i + j) ≡ some e
    later j e at there =
        subst (λ x. get_elem? blocks x ≡ some e) (add_suc i j)
          (held (suc j) e at (subst (λ x. get_elem? map x ≡ some true) (sym (add_suc i j)) there))

pub All-append {ℓ κ} :
    {A : Type ℓ} (P : A → Type κ) (xs ys : List A) → All P xs → All P ys → All P (xs ++ ys)
All-append P [] ys h g = g
All-append P (x ∷ xs) ys h g = (h.0, All-append P xs ys h.1 g)

All-get_elem? {ℓ κ} :
    {A : Type ℓ} (P : A → Type κ) (xs : List A) (i : ℕ) (a : A)
    → All P xs
    → get_elem? xs i ≡ some a
    → P a
All-get_elem? P [] i a h e = cc
All-get_elem? P (x ∷ xs) zero a h e = subst P (some-injective e) h.0
All-get_elem? P (x ∷ xs) (suc i) a h e = All-get_elem? P xs i a h.1 e

-- The decoder on blocks of which enough are those that were made of `ds`.
decode-Received :
    (fec : Fec) (k n size : ℕ) (ds blocks : List Bytes) (map : List Bool)
    → IsFec fec k n size
    → length ds ≡ k
    → All (λ b. length b ≡ size) ds
    → length map ≡ n
    → k ≤ n
    → get_elem? map 0 ≡ some true
    → missing map 0 k ≤ available map 0 k
    → Received (ds ++ fec.fec_encode k n ds (count_from k (n - k)) size) blocks map size
    → rs_decode fec blocks map (new_decoder k n)
      ≡ ok (join ds, record { k = k; n = n; decoded_data = join ds })
unfolding rs_decode
decode-Received fec k n size ds blocks map law len sizes fits few first enough r =
    let all = ds ++ fec.fec_encode k n ds (count_from k (n - k)) size in
    let (b, made, b_size) = r.there 0 first in
    let (cs, nums, picked, picks, contents, count) =
      pick_blocks_lem (any_missing map 0 k) all blocks map size
        (Received-Readable (any_missing map 0 k) all blocks map size r) k 0 k (omega arith)
        enough in
    rw
      (
        r.same 0 first,
        made,
        b_size,
        picked,
        law.recovers ds nums cs len sizes count (Picks-IsIndex map n 0 k nums fits picks) contents,
        join_blocks_lem blocks map ds nums 0 k k len (omega arith)
            (λ j d at there.
              ap (get_elem? blocks) (zero_add j)
              ∙ (r.same j (subst (λ x. get_elem? map x ≡ some true) (zero_add j) there)
                  ∙ get_elem?-append_left ds _ j d at))
            picks count,
      )
      refl

-- The round trip, for a value of `k * size` bytes, `0 < k ≤ n`, over a code library that does what it
-- documents. If block 0 has arrived, and as many of the blocks behind the data blocks as data blocks are
-- missing, and what has arrived is what a new encoder made, then a new decoder gives the value back.
pub rs_decode-rs_encode :
    (fec : Fec) (k n size : ℕ) (content : Bytes) (encoded : List Bytes) (e : RsEncoder)
    (blocks : List Bytes) (map : List Bool)
    → IsFec fec k n size
    → 0 < k
    → k ≤ n
    → length content ≡ k * size
    → rs_encode fec content (new_encoder k n) ≡ ok (encoded, e)
    → length map ≡ n
    → get_elem? map 0 ≡ some true
    → missing map 0 k ≤ available map 0 k
    → ((j : ℕ) → get_elem? map j ≡ some true → get_elem? blocks j ≡ get_elem? encoded j)
    → rs_decode fec blocks map (new_decoder k n)
      ≡ ok (content, record { k = k; n = n; decoded_data = content })
rs_decode-rs_encode fec k n size content encoded e blocks map law pos fits len codes all_map first
      enough arrived =
    let ds = parts size k content in
    let parity = fec.fec_encode k n ds (count_from k (n - k)) size in
    let (coded, joins) = rs_encode-parts fec k n size content pos fits len in
    let made : encoded ≡ ds ++ parity = ap (λ r. r.0) (ok-injective (sym codes ∙ coded)) in
    let count : length ds ≡ k = length-parts size k content in
    let sizes = parts-All size k content len in
    let (more, more_sizes) = law.makes ds count sizes in
    let received : Received (ds ++ parity) blocks map size = record {
      same = λ j there. arrived j there ∙ ap (λ x. get_elem? x j) made;
      there = λ j there.
          let (b, at) = get_elem?-lt (ds ++ parity) j (
            omega
              (arith, lt_of_get_elem? map j true there, length-append ds parity, count, more)) in
          (
            b,
            at,
            All-get_elem? (λ x. length x ≡ size) (ds ++ parity) j b
                (All-append (λ x. length x ≡ size) ds parity sizes more_sizes) at,
          );
    } in
    subst
      (λ c.
        rs_decode fec blocks map (new_decoder k n)
        ≡ ok (c, record { k = k; n = n; decoded_data = c }))
      joins
      (decode-Received fec k n size ds blocks map law count sizes all_map fits first enough
        received)
