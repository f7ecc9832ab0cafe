-- ===== src/Prelude/SortedMap.antt =====
-- `std::map` over numbers: an association list in increasing order of the keys, the order in which
-- the source iterates.
use Prim.Native.Nat.{ℕ, ◌+◌, ◌≤◌, ◌<◌}
use mathlib.Core.Path.{◌≡◌, refl}
use mathlib.Core.List.{List, [], ◌∷◌}
use mathlib.Core.Option.{Option, none, some}
use native.Mathlib.Omega.{arith}
use ndnpaxos.Prelude.Tests.{ltb, ◌==◌, if◌then◌else◌}
use ndnpaxos.Prelude.Lists.{length}

-- All keys lie above `k`, and they increase.
abbrev pub Above {ℓ} : {V : Type ℓ} → ℕ → List (ℕ × V) → Type 0
Above k [] = Unit
Above k ((j, v) ∷ m) = (k < j) × Above j m

abbrev pub IsSorted {ℓ} : {V : Type ℓ} → List (ℕ × V) → Type 0
IsSorted [] = Unit
IsSorted ((j, v) ∷ m) = Above j m

module _ {ℓ} {V : Type ℓ} where
  unfoldable pub find : ℕ → List (ℕ × V) → Option V
  find k [] = none
  find k ((j, v) ∷ m) = if j == k then some v else find k m

  -- `m[k] = v`
  unfoldable pub insert : ℕ → V → List (ℕ × V) → List (ℕ × V)
  insert k v [] = (k, v) ∷ []
  insert k v ((j, w) ∷ m) =
      if j == k then (k, v) ∷ m else if ltb k j then (k, v) ∷ (j, w) ∷ m else (j, w) ∷ insert k v m

  unfoldable pub erase : ℕ → List (ℕ × V) → List (ℕ × V)
  erase k [] = []
  erase k ((j, w) ∷ m) = if j == k then m else (j, w) ∷ erase k m

  find-Above : (k j : ℕ) (m : List (ℕ × V)) → k ≤ j → Above j m → find k m ≡ none
  unfolding find
  find-Above k j [] h a = refl
  find-Above k j ((i, w) ∷ m) h a = ground (arith, find-Above k i m)

  pub find-later :
      (k j : ℕ) (v w : V) (m : List (ℕ × V))
      → Above j m
      → find k m ≡ some v
      → find k ((j, w) ∷ m) ≡ some v
  unfolding find
  find-later k j v w m a h = ground (arith, find-Above k j m)

  pub Above-IsSorted : (k : ℕ) (m : List (ℕ × V)) → Above k m → IsSorted m
  Above-IsSorted k [] a = tt
  Above-IsSorted k ((j, v) ∷ m) a = a.1

  pub find-insert :
      (k j : ℕ) (v : V) (m : List (ℕ × V))
      → find j (insert k v m) ≡ (if k == j then some v else find j m)
  unfolding find insert
  find-insert k j v [] = refl
  find-insert k j v ((i, w) ∷ m) = ground (arith, find-insert k j v m)

  insert-Above : (l k : ℕ) (v : V) (m : List (ℕ × V)) → l < k → Above l m → Above l (insert k v m)
  unfolding insert
  insert-Above l k v [] h a = (h, tt)
  insert-Above l k v ((i, w) ∷ m) h a = ground (arith, insert-Above i k v m)

  pub insert-IsSorted : (k : ℕ) (v : V) (m : List (ℕ × V)) → IsSorted m → IsSorted (insert k v m)
  unfolding insert
  insert-IsSorted k v [] s = tt
  insert-IsSorted k v ((i, w) ∷ m) s = ground (arith, insert-Above i k v m)

  pub length-insert_new :
      (k : ℕ) (v : V) (m : List (ℕ × V)) → find k m ≡ none → length (insert k v m) ≡ length m + 1
  unfolding find insert
  length-insert_new k v [] h = omega arith
  length-insert_new k v ((i, w) ∷ m) h = ground (arith, length-insert_new k v m)

  pub length-insert_old :
      (k : ℕ) (v w : V) (m : List (ℕ × V))
      → IsSorted m
      → find k m ≡ some w
      → length (insert k v m) ≡ length m
  unfolding find insert
  length-insert_old k v w [] s h = cc
  length-insert_old k v w ((i, u) ∷ []) s h = ground arith
  length-insert_old k v w ((i, u) ∷ (j, x) ∷ m) s h =
      ground (arith, length-insert_old k v w ((j, x) ∷ m) s.1, find-Above k i ((j, x) ∷ m))

  pub length-erase :
      (k : ℕ) (v : V) (m : List (ℕ × V)) → find k m ≡ some v → length (erase k m) + 1 ≡ length m
  unfolding find erase
  length-erase k v [] h = cc
  length-erase k v ((i, w) ∷ m) h = ground (arith, length-erase k v m)

  erase-Above : (l k : ℕ) (m : List (ℕ × V)) → Above l m → Above l (erase k m)
  unfolding erase
  erase-Above l k [] a = tt
  erase-Above l k ((i, w) ∷ []) a = ground arith
  erase-Above l k ((i, w) ∷ (j, u) ∷ m) a = ground (arith, erase-Above i k ((j, u) ∷ m))

  pub erase-IsSorted : (k : ℕ) (m : List (ℕ × V)) → IsSorted m → IsSorted (erase k m)
  unfolding erase
  erase-IsSorted k [] s = tt
  erase-IsSorted k ((i, w) ∷ []) s = ground arith
  erase-IsSorted k ((i, w) ∷ (j, u) ∷ m) s = ground (arith, erase-Above i k ((j, u) ∷ m))
