-- ===== src/Rs/Split.antt =====
-- What `rs_encode` (rs_encoder.hpp) makes of a value whose length is a multiple of the number of blocks.
use ndnpaxos.Prelude.{
  ℕ, zero, suc, ◌+◌, ◌-◌, ◌*◌, ◌≤◌, ◌<◌, ◌≡◌, refl, true, false, Bool, if◌then◌else◌, sym, ◌∙◌, ap,
  List, [], ◌∷◌, ◌++◌, take, drop, length, arith, All, count_from, leb, ◌==◌, ok,
}
use native.Mathlib.Nat.{mul_comm, div-eq_of_lt-le}
use ndnpaxos.Types.{Bytes}
use ndnpaxos.Rs.{
  Fec, new_encoder, read_bytes, substr, split_blocks, source_blocks, block_size, rs_encode,
}

-- The first `k` parts of `size` bytes.
unfoldable pub parts : ℕ → ℕ → Bytes → List Bytes
parts size zero content = []
parts size (suc k) content = take size content ∷ parts size k (drop size content)

unfoldable pub join : List Bytes → Bytes
join [] = []
join (b ∷ bs) = b ++ join bs

module _ {ℓ} {A : Type ℓ} where
  take-append-le : (n : ℕ) (xs ys : List A) → n ≤ length xs → take n (xs ++ ys) ≡ take n xs
  take-append-le zero xs ys h = refl
  take-append-le (suc n) [] ys h = absurd (omega arith)
  take-append-le (suc n) (x ∷ xs) ys h = ap (λ zs. x ∷ zs) (take-append-le n xs ys (omega arith))

  drop-append-le : (n : ℕ) (xs ys : List A) → n ≤ length xs → drop n (xs ++ ys) ≡ drop n xs ++ ys
  drop-append-le zero xs ys h = refl
  drop-append-le (suc n) [] ys h = absurd (omega arith)
  drop-append-le (suc n) (x ∷ xs) ys h = drop-append-le n xs ys (omega arith)

  length-drop : (n : ℕ) (xs : List A) → n ≤ length xs → length (drop n xs) + n ≡ length xs
  length-drop zero xs h = omega arith
  length-drop (suc n) [] h = absurd (omega arith)
  length-drop (suc n) (x ∷ xs) h = omega (arith, length-drop n xs (omega arith))

  pub length-take : (n : ℕ) (xs : List A) → n ≤ length xs → length (take n xs) ≡ n
  length-take zero xs h = refl
  length-take (suc n) [] h = absurd (omega arith)
  length-take (suc n) (x ∷ xs) h = omega (arith, length-take n xs (omega arith))

  drop-nil : (n : ℕ) → drop {A = A} n [] ≡ []
  drop-nil zero = refl
  drop-nil (suc n) = refl

  pub drop-drop : (m n k : ℕ) (xs : List A) → k ≡ m + n → drop n (drop m xs) ≡ drop k xs
  drop-drop zero n k xs e = ap (λ j. drop j xs) (omega arith)
  drop-drop (suc m) n k [] e = drop-nil n ∙ sym (drop-nil k)
  drop-drop (suc m) n zero (x ∷ xs) e = absurd (omega arith)
  drop-drop (suc m) n (suc k) (x ∷ xs) e = drop-drop m n k xs (omega arith)

  pub take-drop : (n : ℕ) (xs : List A) → take n xs ++ drop n xs ≡ xs
  take-drop zero xs = refl
  take-drop (suc n) [] = refl
  take-drop (suc n) (x ∷ xs) = ap (λ zs. x ∷ zs) (take-drop n xs)

read_bytes_lem :
    (content : Bytes) (start size : ℕ)
    → start + size ≤ length content
    → read_bytes content start size ≡ ok (take size (drop start content))
unfolding read_bytes
read_bytes_lem content start size h =
    let test : leb (start + size) (length content + 1) ≡ true = ground arith in
    rw test (
      ap ok (
        ap (take size) (drop-append-le start content (0 ∷ []) (omega arith))
        ∙ take-append-le size (drop start content) (0 ∷ [])
            (omega (arith, length-drop start content (omega arith)))))

substr_lem :
    (content : Bytes) (start size : ℕ)
    → start + size ≤ length content
    → substr content start size ≡ ok (take size (drop start content))
unfolding substr
substr_lem content start size h =
    let test : leb start (length content) ≡ true = ground arith in rw test refl

pub suc_mul : (i size : ℕ) → suc i * size ≡ i * size + size
suc_mul i size = omega arith

pub zero_mul : (size : ℕ) → 0 * size ≡ 0
zero_mul size = omega arith

split_blocks_lem :
    (content : Bytes) (size i rounds : ℕ)
    → i * size + rounds * size ≤ length content
    → split_blocks content size i rounds ≡ ok (parts size rounds (drop (i * size) content))
unfolding split_blocks parts
split_blocks_lem content size i zero h = refl
split_blocks_lem content size i (suc rounds) h =
    let room : i * size + size ≤ length content = omega (arith, suc_mul rounds size) in
    rw
      (
        substr_lem content (i * size) size room,
        split_blocks_lem content size (suc i) rounds
            (omega (arith, suc_mul i size, suc_mul rounds size)),
        drop-drop (i * size) size (suc i * size) content (suc_mul i size),
      )
      refl

source_blocks_lem :
    (content : Bytes) (size i rounds : ℕ)
    → i * size + rounds * size ≤ length content
    → source_blocks content size i rounds ≡ ok (parts size rounds (drop (i * size) content))
unfolding source_blocks parts
source_blocks_lem content size i zero h = refl
source_blocks_lem content size i (suc rounds) h =
    let room : i * size + size ≤ length content = omega (arith, suc_mul rounds size) in
    rw
      (
        read_bytes_lem content (i * size) size room,
        source_blocks_lem content size (suc i) rounds
            (omega (arith, suc_mul i size, suc_mul rounds size)),
        drop-drop (i * size) size (suc i * size) content (suc_mul i size),
      )
      refl

join-parts :
    (size k : ℕ) (content : Bytes)
    → length content ≡ k * size
    → join (parts size k content) ≡ content
unfolding join parts
join-parts size zero [] h = refl
join-parts size zero (x ∷ xs) h = absurd (omega arith)
join-parts size (suc k) content h =
    ap (λ ys. take size content ++ ys)
      (join-parts size k (drop size content)
        (omega (arith, suc_mul k size, length-drop size content (omega (arith, suc_mul k size)))))
    ∙ take-drop size content

block_size-mul : (size k : ℕ) → 0 < k → block_size (k * size) k ≡ size
block_size-mul size k pos =
    div-eq_of_lt-le k (omega (arith, mul_comm k size))
      (omega (arith, mul_comm k size, suc_mul size k))

if_same {ℓ} : {A : Type ℓ} (b : Bool) (x y : A) → y ≡ x → (if b then x else y) ≡ x
if_same true x y e = refl
if_same false x y e = e

-- A new encoder, for a value of `k * size` bytes and at most `n` blocks: the parts of the value, then
-- what the code library makes of them.
pub rs_encode-parts :
    (fec : Fec) (k n size : ℕ) (content : Bytes)
    → 0 < k
    → k ≤ n
    → length content ≡ k * size
    → let all =
        parts size k content
        ++ fec.fec_encode k n (parts size k content) (count_from k (n - k)) size in
      (rs_encode fec content (new_encoder k n)
        ≡ ok (all, record { k = k; n = n; encoded_data = all }))
      × (join (parts size k content) ≡ content)
unfolding rs_encode
rs_encode-parts fec k n size content pos fits h =
    let test : (k == 0) ≡ false = ground arith in
    let few : leb k n ≡ true = ground arith in
    let exact : block_size (length content) k ≡ size =
      ap (λ l. block_size l k) h ∙ block_size-mul size k pos in
    let whole : drop (0 * size) content ≡ content = ap (λ j. drop j content) (zero_mul size) in
    let sources : source_blocks content size 0 k ≡ ok (parts size k content) =
      source_blocks_lem content size 0 k (omega (arith, h)) ∙ ap (λ x. ok (parts size k x)) whole in
    (
      rw
          (
            test,
            few,
            exact,
            split_blocks_lem content size 0 k (omega (arith, h)),
            whole,
            if_same (n - k == 0) (ok (parts size k content)) (source_blocks content size 0 k)
                sources,
          )
          refl,
      join-parts size k content h,
    )

pub length-parts : (size k : ℕ) (content : Bytes) → length (parts size k content) ≡ k
unfolding parts
length-parts size zero content = refl
length-parts size (suc k) content = ap suc (length-parts size k (drop size content))

-- Every part has `size` bytes.
pub parts-All :
    (size k : ℕ) (content : Bytes)
    → length content ≡ k * size
    → All (λ b. length b ≡ size) (parts size k content)
unfolding parts
parts-All size zero content h = tt
parts-All size (suc k) content h = (
  length-take size content (omega (arith, suc_mul k size)),
  parts-All size k (drop size content)
      (omega (arith, suc_mul k size, length-drop size content (omega (arith, suc_mul k size)))),
)
