-- ===== src/Prelude/Assoc.antt =====
-- `std::unordered_map` with text keys, as a list of entries.
pub mod Totals
use Prim.Native.String.{String}
use mathlib.Core.Path.{◌≡◌, refl, ap, ◌∙◌}
use mathlib.Core.Bool.{Bool, true, false}
use mathlib.Core.Logic.{inl, inr}
use mathlib.Core.List.{List, [], ◌∷◌, ◌++◌}
use mathlib.Core.Option.{Option, none, some}
use native.Mathlib.Omega.{arith}
use text.Mathlib.Text.{◌==◌}
use text.Mathlib.TextEquality.{eq_iff}
use text.Mathlib.TextPositions.{eq_refl}
use comm_network.Prelude.Tests.{if◌then◌else◌, Bool-cases}

module _ {ℓ} {V : Type ℓ} where
  unfoldable pub lookup : String → List (String × V) → Option V
  lookup k [] = none
  lookup k ((j, v) ∷ m) = if j == k then some v else lookup k m

  -- `m[k] = v`
  unfoldable pub assign : String → V → List (String × V) → List (String × V)
  assign k v [] = (k, v) ∷ []
  assign k v ((j, w) ∷ m) = if j == k then (k, v) ∷ m else (j, w) ∷ assign k v m

  unfoldable pub erase : String → List (String × V) → List (String × V)
  erase k [] = []
  erase k ((j, w) ∷ m) = if j == k then erase k m else (j, w) ∷ erase k m

  pub lookup-nil : (k : String) → lookup k [] ≡ none
  unfolding lookup
  lookup-nil k = refl

  pub lookup-assign :
      (k j : String) (v : V) (m : List (String × V))
      → lookup j (assign k v m) ≡ (if k == j then some v else lookup j m)
  unfolding lookup assign
  lookup-assign k j v [] = refl
  lookup-assign k j v ((i, w) ∷ m) =
      ground (arith, eq_iff k j, eq_iff i k, eq_iff i j, lookup-assign k j v m)

  pub lookup-erase :
      (k j : String) (m : List (String × V))
      → lookup j (erase k m) ≡ (if k == j then none else lookup j m)
  unfolding lookup erase
  lookup-erase k j [] = ground arith
  lookup-erase k j ((i, w) ∷ m) =
      ground (arith, eq_iff k j, eq_iff i k, eq_iff i j, lookup-erase k j m)

  pub lookup-assign_self :
      (k : String) (v : V) (m : List (String × V)) → lookup k (assign k v m) ≡ some v
  lookup-assign_self k v m = rw (lookup-assign k k v m, eq_refl k)

  -- Writing a key that was absent and erasing it leaves the map as it was.
  pub erase-absent : (k : String) (m : List (String × V)) → lookup k m ≡ none → erase k m ≡ m
  unfolding lookup erase
  erase-absent k [] h = refl
  erase-absent k ((i, w) ∷ m) h = ground (arith, erase-absent k m)

  pub erase-assign_any :
      (k : String) (v : V) (m : List (String × V)) → erase k (assign k v m) ≡ erase k m
  unfolding erase assign
  erase-assign_any k v [] = rw (eq_refl k)
  erase-assign_any k v ((i, w) ∷ m) = ground (arith, eq_refl k, erase-assign_any k v m)

  pub erase-assign :
      (k : String) (v : V) (m : List (String × V)) → lookup k m ≡ none → erase k (assign k v m) ≡ m
  erase-assign k v m h = erase-assign_any k v m ∙ erase-absent k m h

  pub assign-assign :
      (k : String) (v w : V) (m : List (String × V)) → assign k w (assign k v m) ≡ assign k w m
  unfolding assign
  assign-assign k v w [] = rw (eq_refl k)
  assign-assign k v w ((i, u) ∷ m) = ground (arith, eq_refl k, assign-assign k v w m)

  pub assign-same :
      (k : String) (v : V) (m : List (String × V)) → lookup k m ≡ some v → assign k v m ≡ m
  unfolding lookup assign
  assign-same k v [] h = ground (arith, h)
  assign-same k v ((i, w) ∷ m) h = ground (arith, h, eq_iff i k, assign-same k v m)
