-- ===== src/Prelude/Below.antt =====
-- Entries of a map from numbers (`SortedMap`) with keys below a bound.
use Prim.Native.Nat.{ℕ, suc, ◌+◌, ◌≤◌, ◌<◌}
use mathlib.Core.List.{List, [], ◌∷◌}
use native.Mathlib.Omega.{arith}
use ndnpaxos.Prelude.Tests.{ltb, if◌then◌else◌}
use ndnpaxos.Prelude.Lists.{length, All}
use ndnpaxos.Prelude.SortedMap

module _ {ℓ} {V : Type ℓ} where
  pub below : ℕ → List (ℕ × V) → ℕ
  below k [] = 0
  below k ((j, v) ∷ m) = (if ltb j k then 1 else 0) + below k m

  pub below-le : (k : ℕ) (m : List (ℕ × V)) → below k m ≤ length m
  unfolding below
  below-le k [] = omega arith
  below-le k ((j, v) ∷ m) = ground (arith, below-le k m)

  below_mono : (k : ℕ) (m : List (ℕ × V)) → below k m ≤ below (suc k) m
  unfolding below
  below_mono k [] = omega arith
  below_mono k ((j, v) ∷ m) = ground (arith, below_mono k m)

  -- An entry for `k` is one more below the next bound.
  pub below-insert :
      (k : ℕ) (v : V) (m : List (ℕ × V)) → below k m < below (suc k) (SortedMap.insert k v m)
  unfolding below SortedMap.insert
  below-insert k v [] = ground arith
  below-insert k v ((j, w) ∷ m) = ground (arith, below-insert k v m, below_mono k m)

  -- A property of every entry, after an entry is written.
  pub All-insert {κ} :
      (P : ℕ × V → Type κ) (k : ℕ) (v : V) (m : List (ℕ × V))
      → P (k, v)
      → All P m
      → All P (SortedMap.insert k v m)
  unfolding SortedMap.insert
  All-insert P k v [] h a = (h, tt)
  All-insert P k v ((j, w) ∷ m) h a = ground (arith, All-insert P k v m h a.1)
