-- ===== src/Examples/Coding.antt =====
-- A code that makes one block of two: their sum, byte by byte (of unbounded bytes). It recovers a missing
-- data block, and the round trip is applied to it.
use ndnpaxos.Prelude.{
  ℕ, zero, suc, ◌+◌, ◌-◌, ◌≡◌, ◌≤◌, ◌<◌, ◌⊎◌, fault, refl, sym, ◌∙◌, ap, inl, inr, true, false,
  List, [], ◌∷◌, ◌++◌, some, length, get_elem?, arith, ◌==◌, if◌then◌else◌, ok, All,
}
use ndnpaxos.Types.{Bytes}
use ndnpaxos.Rs.{
  Fec, RsEncoder, new_decoder, rs_encode, rs_decode, split_blocks, source_blocks, read_bytes,
  substr,
}
use ndnpaxos.Rs.RoundTrip.{IsFec, IsIndex, replaced, rs_decode-rs_encode}
use ndnpaxos.Rs.Split.{join}
use ndnpaxos.Rs.Lengths.{rs_encode_lem}
use ndnpaxos.Rs.Unrecovered.{arrived, rs_decode-arrived}
use ndnpaxos.Rs.Pick.{available, missing, Contents}

abbrev sums : Bytes → Bytes → Bytes
sums [] ys = []
sums (x ∷ xs) [] = []
sums (x ∷ xs) (y ∷ ys) = (x + y) ∷ sums xs ys

abbrev differences : Bytes → Bytes → Bytes
differences [] ys = []
differences (x ∷ xs) [] = []
differences (x ∷ xs) (y ∷ ys) = (x - y) ∷ differences xs ys

abbrev encode_sum : List Bytes → List Bytes
encode_sum (a ∷ b ∷ []) = sums a b ∷ []
encode_sum bs = []

abbrev decode_sum : List Bytes → List ℕ → List Bytes
decode_sum (x ∷ y ∷ []) (i ∷ j ∷ []) =
    if i == 0 then (if j == 1 then [] else differences y x ∷ []) else differences x y ∷ []
decode_sum bs is = []

abbrev sum_fec : Fec
sum_fec = record {
  fec_encode = λ k n src nums size. encode_sum src;
  fec_decode = λ k n blocks index size. decode_sum blocks index;
}

length-sums : (a b : Bytes) → length a ≡ length b → length (sums a b) ≡ length a
length-sums [] b h = refl
length-sums (x ∷ xs) [] h = absurd (omega arith)
length-sums (x ∷ xs) (y ∷ ys) h = ap suc (length-sums xs ys (omega arith))

differences-sums_left : (a b : Bytes) → length a ≡ length b → differences (sums a b) a ≡ b
differences-sums_left [] [] h = refl
differences-sums_left [] (y ∷ ys) h = absurd (omega arith)
differences-sums_left (x ∷ xs) [] h = absurd (omega arith)
differences-sums_left (x ∷ xs) (y ∷ ys) h =
    let e : x + y - x ≡ y = omega arith in rw (e, differences-sums_left xs ys (omega arith)) refl

differences-sums_right : (a b : Bytes) → length a ≡ length b → differences (sums a b) b ≡ a
differences-sums_right [] [] h = refl
differences-sums_right [] (y ∷ ys) h = absurd (omega arith)
differences-sums_right (x ∷ xs) [] h = absurd (omega arith)
differences-sums_right (x ∷ xs) (y ∷ ys) h =
    let e : x + y - y ≡ x = omega arith in rw (e, differences-sums_right xs ys (omega arith)) refl

sum_fec_makes :
    (size : ℕ) (ds : List Bytes)
    → length ds ≡ 2
    → All (λ b. length b ≡ size) ds
    → (length (encode_sum ds) ≡ 1) × All (λ b. length b ≡ size) (encode_sum ds)
sum_fec_makes size [] len h = absurd (omega arith)
sum_fec_makes size (a ∷ []) len h = absurd (omega arith)
sum_fec_makes size (a ∷ b ∷ c ∷ ds) len h = absurd (omega arith)
sum_fec_makes size (a ∷ b ∷ []) len (la, (lb, _)) = (refl, (length-sums a b (la ∙ sym lb) ∙ la, tt))

sum_fec_recovers :
    (a b x y : Bytes) (i j : ℕ)
    → length a ≡ length b
    → IsIndex 3 0 2 (i ∷ j ∷ [])
    → Contents (a ∷ b ∷ sums a b ∷ []) (i ∷ j ∷ []) (x ∷ y ∷ [])
    → decode_sum (x ∷ y ∷ []) (i ∷ j ∷ []) ≡ replaced (a ∷ b ∷ []) (i ∷ j ∷ []) 0
sum_fec_recovers a b x y i j len h c = elim h [
  | inl (first, rest) ↦ elim rest [
    | inl (second, _) ↦ rw (first, second) refl
    | inr (low, high, _) ↦
        let last : j ≡ 2 = omega arith in
        let ex : a ≡ x = cc (rw first at c.0) in
        let ey : sums a b ≡ y = cc (rw last at c.1.0) in
        rw (first, last, ← ex, ← ey, differences-sums_left a b len) refl
  ]
  | inr (low, high, rest) ↦ elim rest [
    | inl (second, _) ↦
        let last : i ≡ 2 = omega arith in
        let ex : sums a b ≡ x = cc (rw last at c.0) in
        let ey : b ≡ y = cc (rw second at c.1.0) in
        rw (last, second, ← ex, ← ey, differences-sums_right a b len) refl
    | inr (low2, high2, _) ↦ absurd (omega arith)
  ]
]

sum_fec-IsFec : (size : ℕ) → IsFec sum_fec 2 3 size
sum_fec-IsFec size = record { makes = sum_fec_makes size; recovers = recover }
  where
    recover :
        (ds : List Bytes) (nums : List ℕ) (contents : List Bytes)
        → length ds ≡ 2
        → All (λ b. length b ≡ size) ds
        → length nums ≡ 2
        → IsIndex 3 0 2 nums
        → Contents (ds ++ encode_sum ds) nums contents
        → decode_sum contents nums ≡ replaced ds nums 0
    recover (a ∷ b ∷ []) (i ∷ j ∷ []) (x ∷ y ∷ []) len (la, (lb, _)) count h c =
        sum_fec_recovers a b x y i j (la ∙ sym lb) h c
    recover (a ∷ b ∷ []) (i ∷ j ∷ []) [] len l count h c = absurd c
    recover (a ∷ b ∷ []) (i ∷ j ∷ []) (x ∷ []) len l count h c = absurd c.1
    recover (a ∷ b ∷ []) (i ∷ j ∷ []) (x ∷ y ∷ z ∷ zs) len l count h c = absurd c.1.1
    recover (a ∷ b ∷ []) [] contents len l count h c = absurd (omega arith)
    recover (a ∷ b ∷ []) (i ∷ []) contents len l count h c = absurd (omega arith)
    recover (a ∷ b ∷ []) (i ∷ j ∷ n ∷ ns) contents len l count h c = absurd (omega arith)
    recover [] nums contents len l count h c = absurd (omega arith)
    recover (a ∷ []) nums contents len l count h c = absurd (omega arith)
    recover (a ∷ b ∷ d ∷ ds) nums contents len l count h c = absurd (omega arith)

abbrev content : Bytes
content = 10 ∷ 20 ∷ 30 ∷ 40 ∷ []

abbrev coded : List Bytes
coded = (10 ∷ 20 ∷ []) ∷ (30 ∷ 40 ∷ []) ∷ (40 ∷ 60 ∷ []) ∷ []

-- Block 1 is lost: the first and the third arrive.
rs_decode-rs_encode_example :
    rs_decode sum_fec
      ((10 ∷ 20 ∷ []) ∷ [] ∷ (40 ∷ 60 ∷ []) ∷ [])
      (true ∷ false ∷ true ∷ [])
      (new_decoder 2 3)
    ≡ ok (content, record { k = 2; n = 3; decoded_data = content })
unfolding rs_encode split_blocks source_blocks read_bytes substr available missing
rs_decode-rs_encode_example =
    rs_decode-rs_encode sum_fec 2 3 2 content coded (record { k = 2; n = 3; encoded_data = coded })
      ((10 ∷ 20 ∷ []) ∷ [] ∷ (40 ∷ 60 ∷ []) ∷ []) (true ∷ false ∷ true ∷ []) (sum_fec-IsFec 2)
      (omega arith) (omega arith) refl refl refl refl (omega arith) arrived
  where
    arrived :
        (j : ℕ)
        → get_elem? (true ∷ false ∷ true ∷ []) j ≡ some true
        → get_elem? ((10 ∷ 20 ∷ []) ∷ [] ∷ (40 ∷ 60 ∷ []) ∷ []) j ≡ get_elem? coded j
    arrived zero e = refl
    arrived (suc zero) e = cc
    arrived (suc (suc zero)) e = refl
    arrived (suc (suc (suc j))) e = cc

-- Block 0 is lost: block 1 is all that comes back.
rs_decode-arrived_example :
    rs_decode sum_fec
      ([] ∷ (30 ∷ 40 ∷ []) ∷ (40 ∷ 60 ∷ []) ∷ [])
      (false ∷ true ∷ true ∷ [])
      (new_decoder 2 3)
    ≡ ok (30 ∷ 40 ∷ [], record { k = 2; n = 3; decoded_data = 30 ∷ 40 ∷ [] })
unfolding available missing arrived join
rs_decode-arrived_example =
    rs_decode-arrived sum_fec 2 3 ([] ∷ (30 ∷ 40 ∷ []) ∷ (40 ∷ 60 ∷ []) ∷ [])
      (false ∷ true ∷ true ∷ []) (sum_fec-IsFec 0) (omega arith) refl refl refl (omega arith) refl

-- An encoder that has encoded a value before, and a value of three bytes.
abbrev used_encoder : RsEncoder
used_encoder = record { k = 2; n = 3; encoded_data = coded }

abbrev odd_content : Bytes
odd_content = 1 ∷ 2 ∷ 3 ∷ []

rs_encode_lem_example :
    ((4 ≤ 4)
      × (data_blocks : List Bytes) × (others : List Bytes) × (length data_blocks ≡ 2)
      × (join data_blocks ≡ odd_content)
      × (rs_encode sum_fec odd_content used_encoder
          ≡ ok (
            coded ++ (data_blocks ++ others),
            record used_encoder { encoded_data = coded ++ (data_blocks ++ others) },
          )))
    ⊎ ((4 < 4) × (rs_encode sum_fec odd_content used_encoder ≡ fault))
rs_encode_lem_example = rs_encode_lem sum_fec odd_content used_encoder (omega arith) (omega arith)

-- The sizes of three nodes, and a value of four bytes: the third block is empty, and no block is made.
whole_encoded :
    rs_encode sum_fec (1 ∷ 2 ∷ 3 ∷ 4 ∷ []) (record { k = 3; n = 3; encoded_data = [] })
    ≡ ok (
      (1 ∷ 2 ∷ []) ∷ (3 ∷ 4 ∷ []) ∷ [] ∷ [],
      record { k = 3; n = 3; encoded_data = (1 ∷ 2 ∷ []) ∷ (3 ∷ 4 ∷ []) ∷ [] ∷ [] },
    )
unfolding rs_encode split_blocks substr
whole_encoded = refl
