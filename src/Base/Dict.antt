-- ===== src/Base/Dict.antt =====
-- A `HashMap` keyed by numbers, as an association list in which the first entry of a key counts.
use Prim.Native.Nat.{ℕ}
use mathlib.Core.Path.{◌≡◌, refl}
use mathlib.Core.Option.{Option, none, some}
use mathlib.Core.List.{List, [], ◌∷◌}
use native.Mathlib.Omega.{arith}
use narth_network.Base.Tests.{◌==◌, if◌then◌else◌}

module _ {ℓ} {V : Type ℓ} where
  unfoldable pub lookup : ℕ → List (ℕ × V) → Option V
  lookup key [] = none
  lookup key ((other, value) ∷ rest) = if other == key then some value else lookup key rest

  unfoldable pub remove : ℕ → List (ℕ × V) → List (ℕ × V)
  remove key [] = []
  remove key ((other, value) ∷ rest) =
      let left = remove key rest in if other == key then left else (other, value) ∷ left

  unfoldable pub insert : ℕ → V → List (ℕ × V) → List (ℕ × V)
  insert key new [] = (key, new) ∷ []
  insert key new ((other, value) ∷ rest) =
      let later = insert key new rest in
      if other == key then (key, new) ∷ rest else (other, value) ∷ later

  pub lookup-remove :
      (key asked : ℕ) (table : List (ℕ × V))
      → lookup asked (remove key table) ≡ (if key == asked then none else lookup asked table)
  unfolding lookup remove
  lookup-remove key asked [] = ground arith
  lookup-remove key asked ((other, value) ∷ rest) = ground (arith, lookup-remove key asked rest)

  pub lookup-insert :
      (key asked : ℕ) (new : V) (table : List (ℕ × V))
      → lookup asked (insert key new table)
        ≡ (if key == asked then some new else lookup asked table)
  unfolding lookup insert
  lookup-insert key asked new [] = refl
  lookup-insert key asked new ((other, value) ∷ rest) =
      ground (arith, lookup-insert key asked new rest)
