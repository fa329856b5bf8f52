-- ===== src/Common/Traits/Laws.antt =====
-- comm_network/common/cplusplus_14.h: what `std::apply` and `std::conjunction` come to.
use comm_network.Prelude.{
  ℕ, ◌+◌, ◌≡◌, refl, ap, ◌∙◌, List, [], ◌∷◌, Option, none, some, Bool, true, length, range_from,
  ◌&&◌, StartsAt, StartsAt-zero, StartsAt-head, StartsAt-next, arith,
}
use comm_network.Common.IndexSequence.Laws.{make_index_sequence_lem}
use comm_network.Common.Traits.{get_each, apply_helper, apply, conjunction}

get_each_lem {ℓ} :
    {A : Type ℓ} (tp rest : List A) (i : ℕ)
    → StartsAt tp i rest
    → get_each tp (range_from i (length rest)) ≡ some rest
unfolding get_each
get_each_lem tp [] i from_i = refl
get_each_lem tp (x ∷ rest) i from_i =
    rw
      (
        StartsAt-head tp (x ∷ rest) i from_i,
        get_each_lem tp rest (i + 1) (StartsAt-next tp x rest i from_i),
      )
      refl

abbrev all {ℓ} : {A : Type ℓ} → (A → Bool) → List A → Bool
all value [] = true
all value (b ∷ bs) = value b && all value bs

abbrev value_of {ℓ} : {A : Type ℓ} → (A → Bool) → Option A → Bool
value_of value none = true
value_of value (some b) = value b

conjunction_lem {ℓ} :
    {A : Type ℓ} (value : A → Bool) (bs : List A)
    → value_of value (conjunction value bs) ≡ all value bs
unfolding conjunction
conjunction_lem value [] = refl
conjunction_lem value (b ∷ []) = ground arith
conjunction_lem value (b ∷ c ∷ bs) = ground (arith, conjunction_lem value (c ∷ bs))

-- `apply` calls the function with all elements of the tuple in their order, and the value of a
-- conjunction is that of all its arguments together.
traits_lem {ℓ κ} :
    {A : Type ℓ} {B : Type κ} (f : List A → B) (value : A → Bool) (tp : List A)
    → (apply f tp ≡ some (f tp)) × (value_of value (conjunction value tp) ≡ all value tp)
unfolding apply apply_helper
traits_lem f value tp = (
  ap (λ idx. apply_helper f tp idx) (make_index_sequence_lem (length tp))
      ∙ rw (get_each_lem tp tp 0 (StartsAt-zero tp)) refl,
  conjunction_lem value tp,
)
