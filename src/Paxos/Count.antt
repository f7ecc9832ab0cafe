-- ===== src/Paxos/Count.antt =====
-- Counting nodes in sets and in maps of acks.
use ndnpaxos.Prelude.{
  ℕ, zero, suc, ◌+◌, ◌≤◌, ◌<◌, ◌≡◌, refl, Bool, true, false, List, [], ◌∷◌, arith, ◌==◌,
  if◌then◌else◌, Bool-cases, inl, inr, All, sym, subst, ℕ_discrete,
}
use ndnpaxos.Prelude.SortedMap.{Above, IsSorted}

-- How many of the nodes below `n` are in the set.
pub count : (ℕ → Bool) → ℕ → ℕ
count p zero = 0
count p (suc n) = (if p n then 1 else 0) + count p n

pub count-overlap :
    (p r : ℕ → Bool) (n : ℕ)
    → n < count p n + count r n
    → (i : ℕ) × (i < n) × (p i ≡ true) × (r i ≡ true)
unfolding count
count-overlap p r zero h = absurd (omega arith)
count-overlap p r (suc n) h = elim (Bool-cases (p n)) [
  | inr out ↦ let (i, below, a, b) = count-overlap p r n (ground arith) in (i, omega arith, a, b)
  | inl within ↦ elim (Bool-cases (r n)) [
    | inl also ↦ (n, omega arith, within, also)
    | inr out ↦ let (i, below, a, b) = count-overlap p r n (ground arith) in (i, omega arith, a, b)
  ]
]

count-none : (n : ℕ) → count (λ i. false) n ≡ 0
unfolding count
count-none zero = refl
count-none (suc n) = omega (arith, count-none n)

-- One node more in the set.
abbrev join : ℕ → Bool → (ℕ → Bool) → ℕ → Bool
join k b p i = if k == i then b else p i

count-join_above :
    (k : ℕ) (b : Bool) (p : ℕ → Bool) (n : ℕ) → n ≤ k → count (join k b p) n ≡ count p n
unfolding count
count-join_above k b p zero h = refl
count-join_above k b p (suc n) h = ground (arith, count-join_above k b p n)

count-join :
    (k : ℕ) (b : Bool) (p : ℕ → Bool) (n : ℕ)
    → k < n
    → p k ≡ false
    → count (join k b p) n ≡ (if b then 1 else 0) + count p n
unfolding count
count-join k b p zero h out = absurd (omega arith)
count-join k b p (suc n) h out = ground (arith, count-join k b p n, count-join_above k b p n)

-- Entries of a map from nodes that pass a test, as a number and as a set.
module _ {ℓ} {V : Type ℓ} (test : V → Bool) where
  unfoldable pub count_entries : List (ℕ × V) → ℕ
  count_entries [] = 0
  count_entries ((node, v) ∷ m) = (if test v then 1 else 0) + count_entries m

  pub passes : List (ℕ × V) → ℕ → Bool
  passes [] i = false
  passes ((node, v) ∷ m) i = if node == i then test v else passes m i

  passes-Above : (k j : ℕ) (m : List (ℕ × V)) → k ≤ j → Above j m → passes m k ≡ false
  unfolding passes
  passes-Above k j [] h a = refl
  passes-Above k j ((i, v) ∷ m) h a = ground (arith, passes-Above k i m)

  count_entries-Above :
      (k n : ℕ) (m : List (ℕ × V))
      → Above k m
      → All (λ e. e.0 < n) m
      → count_entries m ≡ count (passes m) n
  unfolding count_entries passes
  count_entries-Above k n [] a h = sym (count-none n)
  count_entries-Above k n ((j, v) ∷ m) a h = omega (
    arith,
    count-join j (test v) (passes m) n h.0 (passes-Above j j m (omega arith) a.1),
    count_entries-Above j n m a.1 h.1,
  )

  -- The entries of a sorted map over the nodes below `n` are counted node by node.
  pub count_entries-count :
      (n : ℕ) (m : List (ℕ × V))
      → IsSorted m
      → All (λ e. e.0 < n) m
      → count_entries m ≡ count (passes m) n
  unfolding count_entries passes
  count_entries-count n [] a h = sym (count-none n)
  count_entries-count n ((j, v) ∷ m) a h = omega (
    arith,
    count-join j (test v) (passes m) n h.0 (passes-Above j j m (omega arith) a),
    count_entries-Above j n m a h.1,
  )

  -- A node of the set has an entry that passes.
  pub passes-All {κ} :
      (P : ℕ × V → Type κ) (m : List (ℕ × V)) (i : ℕ)
      → passes m i ≡ true
      → All P m
      → (v : V) × (test v ≡ true) × P (i, v)
  unfolding passes
  passes-All P [] i h a = cc
  passes-All P ((j, v) ∷ m) i h a = elim (ℕ_discrete j i) [
    | yes e ↦ (v, ground arith, subst (λ x. P (x, v)) e a.0)
    | no ne ↦ passes-All P m i (ground arith) a.1
  ]
