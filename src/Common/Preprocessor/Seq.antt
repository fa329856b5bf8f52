-- ===== src/Common/Preprocessor/Seq.antt =====
-- comm_network/common/preprocessor_internal.h: sequences, their size, and the iteration over them,
-- which is a table of rows that a php script writes. What a macro makes of an element is a list, or
-- none where it is given what it does not take.
pub mod Iteration
use comm_network.Prelude.{
  ℕ, zero, suc, ◌+◌, List, [], ◌∷◌, ◌++◌, Option, none, some, ltb, leb, if◌then◌else◌,
}
use comm_network.Prelude.Options.{◌>>=◌}

-- How many rows the script writes.
abbrev pub limit : ℕ
limit = 512

module _ {ℓ} {A : Type ℓ} where
  unfoldable pub seq_to_pair : List A → Option (A × List A)
  seq_to_pair [] = none
  seq_to_pair (x ∷ s) = some (x, s)

  unfoldable pub seq_head : List A → Option A
  unfolding seq_to_pair
  seq_head s = seq_to_pair s >>= λ p. some (p.0)

  unfoldable pub seq_tail : List A → Option (List A)
  unfolding seq_to_pair
  seq_tail s = seq_to_pair s >>= λ p. some (p.1)

  -- The rows `SEQ_SIZE_i(_)`, each of which takes an element and names the next.
  unfoldable pub seq_size_rows : ℕ → List A → Option ℕ
  seq_size_rows i [] = some i
  seq_size_rows i (x ∷ s) = let rest = seq_size_rows (i + 1) s in if ltb i limit then rest else none

-- The rows that turn the name of the last row into a number.
unfoldable pub seq_size_table : ℕ → Option ℕ
seq_size_table i = if ltb i limit then some i else none

unfoldable pub seq_size {ℓ} : {A : Type ℓ} → List A → Option ℕ
unfolding seq_size_rows seq_size_table
seq_size s = seq_size_rows 0 s >>= seq_size_table

module _ {ℓ κ} {A : Type ℓ} {B : Type κ} where
  -- What the script writes for row n + 1, from row n.
  unfoldable pub for_each_row :
      ((A → Option (List B)) → List A → Option (List B))
      → ℕ
      → (A → Option (List B))
      → List A
      → Option (List B)
  unfolding seq_head seq_tail
  for_each_row row n apply s =
      if ltb n limit
      then (do
        x ← seq_head s
        out ← apply x
        tail ← seq_tail s
        rest ← row apply tail
        some (out ++ rest))
      else none

  -- The rows of `D0_SEQ_FOR_EACH`, `D1_SEQ_FOR_EACH` and `D2_SEQ_FOR_EACH`.
  unfoldable pub d0_rows : ℕ → (A → Option (List B)) → List A → Option (List B)
  unfolding for_each_row
  d0_rows zero apply s = some []
  d0_rows (suc n) apply s = for_each_row (d0_rows n) n apply s

  unfoldable pub d1_rows : ℕ → (A → Option (List B)) → List A → Option (List B)
  unfolding for_each_row
  d1_rows zero apply s = some []
  d1_rows (suc n) apply s = for_each_row (d1_rows n) n apply s

  unfoldable pub d2_rows : ℕ → (A → Option (List B)) → List A → Option (List B)
  unfolding for_each_row
  d2_rows zero apply s = some []
  d2_rows (suc n) apply s = for_each_row (d2_rows n) n apply s

  unfoldable pub d0_seq_for_each : (A → Option (List B)) → List A → Option (List B)
  unfolding seq_size d0_rows
  d0_seq_for_each apply s = seq_size s >>= λ n. d0_rows n apply s

  unfoldable pub d1_seq_for_each : (A → Option (List B)) → List A → Option (List B)
  unfolding seq_size d1_rows
  d1_seq_for_each apply s = seq_size s >>= λ n. d1_rows n apply s

  unfoldable pub d2_seq_for_each : (A → Option (List B)) → List A → Option (List B)
  unfolding seq_size d2_rows
  d2_seq_for_each apply s = seq_size s >>= λ n. d2_rows n apply s
