-- ===== src/Common/Traits.antt =====
-- comm_network/common/cplusplus_14.h: `std::apply` and `std::conjunction`. A tuple is the list of
-- its elements, and a type with a `value` an element with a test.
pub mod Laws
use comm_network.Prelude.{
  ℕ, List, [], ◌∷◌, Option, none, some, Bool, true, false, get_elem?, length, if◌then◌else◌,
}
use comm_network.Prelude.Options.{◌>>=◌}
use comm_network.Common.IndexSequence.{make_index_sequence}

-- `std::get<Idx>(tp)...`
unfoldable pub get_each {ℓ} : {A : Type ℓ} → List A → List ℕ → Option (List A)
get_each tp [] = some []
get_each tp (i ∷ idx) = do x ← get_elem? tp i; rest ← get_each tp idx; some (x ∷ rest)

unfoldable pub apply_helper {ℓ κ} :
    {A : Type ℓ} {B : Type κ} → (List A → B) → List A → List ℕ → Option B
unfolding get_each
apply_helper f tp idx = get_each tp idx >>= λ args. some (f args)

unfoldable pub apply {ℓ κ} : {A : Type ℓ} {B : Type κ} → (List A → B) → List A → Option B
unfolding apply_helper
apply f tp = apply_helper f tp (make_index_sequence (length tp))

-- The type that `conjunction` derives from: `true_type` is none.
unfoldable pub conjunction {ℓ} : {A : Type ℓ} → (A → Bool) → List A → Option A
conjunction value [] = none
conjunction value (b ∷ []) = some b
conjunction value (b ∷ c ∷ bs) =
    let rest = conjunction value (c ∷ bs) in if value b then rest else some b
