-- ===== src/Prelude/Lists.antt =====
-- Lists measured and indexed by native numbers (`std::vector`, `std::queue`, `std::list`).
use Prim.Native.Nat.{ℕ, zero, suc, ◌+◌, ◌-◌, ◌<◌, ◌≤◌}
use mathlib.Core.Path.{◌≡◌, refl, ap, ◌∙◌}
use mathlib.Core.Logic.{◌≢◌}
use mathlib.Core.Bool.{Bool, true, false}
use mathlib.Core.List.{List, [], ◌∷◌, ◌++◌, map}
use mathlib.Core.Option.{Option, none, some}
use native.Mathlib.Omega.{arith}

module _ {ℓ} {A : Type ℓ} where
  abbrev pub length : List A → ℕ
  length [] = 0
  length (_ ∷ l) = suc (length l)

  abbrev pub is_empty : List A → Bool
  is_empty [] = true
  is_empty (_ ∷ _) = false

  abbrev pub get_elem? : List A → ℕ → Option A
  get_elem? [] _ = none
  get_elem? (a ∷ _) zero = some a
  get_elem? (_ ∷ l) (suc i) = get_elem? l i

  -- `v[i] = a`; a write out of range changes nothing.
  abbrev pub set : List A → ℕ → A → List A
  set [] _ _ = []
  set (_ ∷ l) zero a = a ∷ l
  set (b ∷ l) (suc i) a = b ∷ set l i a

  abbrev pub replicate : ℕ → A → List A
  replicate zero a = []
  replicate (suc n) a = a ∷ replicate n a

  abbrev pub All {κ} : (A → Type κ) → List A → Type κ
  All P [] = Unit
  All P (a ∷ l) = P a × All P l

-- i, i + 1, …, i + n - 1
abbrev pub range_from : ℕ → ℕ → List ℕ
range_from i zero = []
range_from i (suc n) = i ∷ range_from (i + 1) n

module _ {ℓ} {A : Type ℓ} where
  pub length-append : (l r : List A) → length (l ++ r) ≡ length l + length r
  length-append [] r = omega arith
  length-append (a ∷ l) r = omega (arith, length-append l r)

  pub length-map {κ} : {B : Type κ} (f : A → B) (l : List A) → length (map f l) ≡ length l
  length-map f [] = refl
  length-map f (a ∷ l) = ap suc (length-map f l)

  pub length-set : (l : List A) (i : ℕ) (a : A) → length (set l i a) ≡ length l
  length-set [] i a = refl
  length-set (b ∷ l) zero a = refl
  length-set (b ∷ l) (suc i) a = ap suc (length-set l i a)

  pub All-append {κ} : (P : A → Type κ) (l r : List A) → All P l → All P r → All P (l ++ r)
  All-append P [] r pl pr = pr
  All-append P (a ∷ l) r pl pr = (pl.0, All-append P l r pl.1 pr)

  pub get_elem?-lt : (l : List A) (i : ℕ) → i < length l → (a : A) × (get_elem? l i ≡ some a)
  get_elem?-lt [] i h = absurd (omega arith)
  get_elem?-lt (a ∷ l) zero h = (a, refl)
  get_elem?-lt (a ∷ l) (suc i) h = get_elem?-lt l i (omega arith)

pub get_elem?-map {ℓ κ} :
    {A : Type ℓ} {B : Type κ} (f : A → B) (l : List A) (j : ℕ) (a : A)
    → get_elem? l j ≡ some a
    → get_elem? (map f l) j ≡ some (f a)
get_elem?-map f [] j a e = cc
get_elem?-map f (x ∷ l) zero a e = ground (arith, e)
get_elem?-map f (x ∷ l) (suc j) a e = get_elem?-map f l j a e

pub get_elem?-set {ℓ} :
    {A : Type ℓ} (l : List A) (i : ℕ) (a : A) {x : A}
    → get_elem? l i ≡ some x
    → get_elem? (set l i a) i ≡ some a
get_elem?-set [] i a e = ground arith
get_elem?-set (y ∷ l) zero a e = refl
get_elem?-set (y ∷ l) (suc i) a {x} e = get_elem?-set l i a {x = x} e

module _ {ℓ} {A : Type ℓ} where
  pub get_elem?-left : (l r : List A) (i : ℕ) → i < length l → get_elem? (l ++ r) i ≡ get_elem? l i
  get_elem?-left [] r i h = absurd (omega arith)
  get_elem?-left (a ∷ l) r zero h = refl
  get_elem?-left (a ∷ l) r (suc i) h = get_elem?-left l r i (omega arith)

  pub get_elem?-right :
      (l r : List A) (k : ℕ) → length l ≤ k → get_elem? (l ++ r) k ≡ get_elem? r (k - length l)
  get_elem?-right [] r k h = ap (get_elem? r) (omega arith)
  get_elem?-right (a ∷ l) r zero h = absurd (omega arith)
  get_elem?-right (a ∷ l) r (suc k) h =
      get_elem?-right l r k (omega arith) ∙ ap (get_elem? r) (omega arith)

  pub get_elem?-replicate : (n i : ℕ) (a : A) → i < n → get_elem? (replicate n a) i ≡ some a
  get_elem?-replicate zero i a h = absurd (omega arith)
  get_elem?-replicate (suc n) zero a h = refl
  get_elem?-replicate (suc n) (suc i) a h = get_elem?-replicate n i a (omega arith)

  pub get_elem?-set_other :
      (l : List A) (i j : ℕ) (a : A) → i ≢ j → get_elem? (set l i a) j ≡ get_elem? l j
  get_elem?-set_other [] i j a other = refl
  get_elem?-set_other (b ∷ l) zero zero a other = absurd (other refl)
  get_elem?-set_other (b ∷ l) zero (suc j) a other = refl
  get_elem?-set_other (b ∷ l) (suc i) zero a other = refl
  get_elem?-set_other (b ∷ l) (suc i) (suc j) a other =
      get_elem?-set_other l i j a (λ e. other (ap suc e))

module _ {ℓ} {A : Type ℓ} where
  -- What stands in a list from index i on.
  abbrev pub StartsAt : List A → ℕ → List A → Type ℓ
  StartsAt l i rest = (j : ℕ) → get_elem? l (i + j) ≡ get_elem? rest j

  pub StartsAt-zero : (l : List A) → StartsAt l 0 l
  StartsAt-zero l j = ap (get_elem? l) (omega arith)

  -- The element at that index, or the end of the list.
  pub StartsAt-head :
      (l rest : List A) (i : ℕ) → StartsAt l i rest → get_elem? l i ≡ get_elem? rest 0
  StartsAt-head l rest i from_i = ap (get_elem? l) {y = i + 0} (omega arith) ∙ from_i 0

  pub StartsAt-next :
      (l : List A) (x : A) (rest : List A) (i : ℕ)
      → StartsAt l i (x ∷ rest)
      → StartsAt l (i + 1) rest
  StartsAt-next l x rest i from_i j =
      ap (get_elem? l) {y = i + suc j} (omega arith) ∙ from_i (suc j)
