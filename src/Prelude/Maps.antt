-- ===== src/Prelude/Maps.antt =====
-- `HashMap<Uuid, V>` as an association list. A `Uuid` is a number, and `Uuid::nil()` is 0.
use shed.Prelude.Tests.{◌==◌, if◌then◌else◌}
use Prim.Native.Nat.{ℕ}
use mathlib.Core.Path.{◌≡◌}
use mathlib.Core.Option.{Option, none, some}
use mathlib.Core.List.{List, [], ◌∷◌}
use native.Mathlib.Omega.{arith}

abbrev pub IdMap {ℓ} : Type ℓ → Type ℓ
IdMap V = List (ℕ × V)

module _ {ℓ} {V : Type ℓ} where
  unfoldable pub lookup : IdMap V → ℕ → Option V
  lookup [] k = none
  lookup ((j, v) ∷ m) k = if j == k then some v else lookup m k

  unfoldable pub remove : IdMap V → ℕ → IdMap V
  remove [] k = []
  remove ((j, v) ∷ m) k = let rest = remove m k in if j == k then rest else (j, v) ∷ rest

  -- An insertion replaces the entry under the key.
  unfoldable pub insert : IdMap V → ℕ → V → IdMap V
  unfolding remove
  insert m k v = (k, v) ∷ remove m k

  pub lookup-remove :
      (m : IdMap V) (k j : ℕ) → lookup (remove m k) j ≡ (if k == j then none else lookup m j)
  unfolding lookup remove
  lookup-remove [] k j = ground arith
  lookup-remove ((i, v) ∷ m) k j = ground (arith, lookup-remove m k j)

  pub lookup-insert :
      (m : IdMap V) (k : ℕ) (v : V) (j : ℕ)
      → lookup (insert m k v) j ≡ (if k == j then some v else lookup m j)
  unfolding lookup insert
  lookup-insert m k v j = ground (arith, lookup-remove m k j)
