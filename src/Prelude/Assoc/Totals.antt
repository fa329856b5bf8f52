-- ===== src/Prelude/Assoc/Totals.antt =====
-- Maps in which no key stands twice, and sums over the values of a map.
use Prim.Native.Nat.{ℕ, ◌+◌}
use Prim.Native.String.{String}
use mathlib.Core.Path.{◌≡◌, refl}
use mathlib.Core.List.{List, [], ◌∷◌}
use mathlib.Core.Logic.{inl, inr}
use mathlib.Core.Option.{Option, none, some}
use native.Mathlib.Omega.{arith}
use text.Mathlib.Text.{◌==◌}
use text.Mathlib.TextEquality.{eq_iff}
use comm_network.Prelude.Tests.{Bool-cases}
use comm_network.Prelude.Assoc.{lookup, assign, erase, lookup-assign, lookup-erase, erase-absent}

module _ {ℓ} {V : Type ℓ} where
  -- No key stands twice.
  abbrev pub Distinct : List (String × V) → Type ℓ
  Distinct [] = Unit
  Distinct ((k, v) ∷ m) = (lookup k m ≡ none) × Distinct m

  pub assign-Distinct :
      (k : String) (v : V) (m : List (String × V)) → Distinct m → Distinct (assign k v m)
  unfolding assign lookup
  assign-Distinct k v [] d = (refl, tt)
  assign-Distinct k v ((j, w) ∷ m) d = elim (Bool-cases (j == k)) [
    | inl e ↦ rw e (ground (arith, eq_iff j k, d.0), d.1)
    | inr e ↦ rw e (
      rw (lookup-assign k j v m) (ground (arith, eq_iff j k, eq_iff k j, d.0)),
      assign-Distinct k v m d.1,
    )
  ]

  pub erase-Distinct : (k : String) (m : List (String × V)) → Distinct m → Distinct (erase k m)
  unfolding erase
  erase-Distinct k [] d = tt
  erase-Distinct k ((j, w) ∷ m) d = elim (Bool-cases (j == k)) [
    | inl e ↦ rw e (erase-Distinct k m d.1)
    | inr e ↦ rw e (rw (lookup-erase k j m) (ground (arith, d.0)), erase-Distinct k m d.1)
  ]

  module _ (f : V → ℕ) where
    -- The sum of f over the values.
    abbrev pub total : List (String × V) → ℕ
    total [] = 0
    total ((k, v) ∷ m) = f v + total m

    abbrev pub at_value : Option V → ℕ
    at_value none = 0
    at_value (some v) = f v

    pub total-assign :
        (k : String) (v : V) (m : List (String × V))
        → total (assign k v m) + at_value (lookup k m) ≡ total m + f v
    unfolding assign lookup
    total-assign k v [] = omega arith
    total-assign k v ((j, w) ∷ m) = ground (arith, total-assign k v m)

    pub total-erase :
        (k : String) (m : List (String × V))
        → Distinct m
        → total (erase k m) + at_value (lookup k m) ≡ total m
    unfolding erase lookup
    total-erase k [] d = omega arith
    total-erase k ((j, w) ∷ m) d =
        ground (arith, eq_iff j k, erase-absent j m d.0, total-erase k m d.1)
