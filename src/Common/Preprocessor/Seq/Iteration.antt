-- ===== src/Common/Preprocessor/Seq/Iteration.antt =====
-- comm_network/common/preprocessor_internal.h: the size of a sequence, and the iteration over it.
use comm_network.Prelude.{
  ℕ, zero, suc, ◌+◌, ◌≤◌, ◌<◌, ◌≡◌, refl, ap, ◌∙◌, List, [], ◌∷◌, ◌++◌, Option, none, some, true,
  false, Bool-cases, inl, inr, length, All, ltb, if◌then◌else◌, arith,
}
use comm_network.Prelude.Options.{◌>>=◌}
use comm_network.Common.Preprocessor.Seq.{
  limit, seq_to_pair, seq_head, seq_tail, seq_size_rows, seq_size_table, seq_size, for_each_row,
  d0_rows, d1_rows, d2_rows, d0_seq_for_each, d1_seq_for_each, d2_seq_for_each,
}

-- What the elements make, one after the other.
abbrev pub flat_map {ℓ κ} : {A : Type ℓ} {B : Type κ} → (A → List B) → List A → List B
flat_map f [] = []
flat_map f (x ∷ s) = f x ++ flat_map f s

seq_size_rows_lem {ℓ} :
    {A : Type ℓ} (i : ℕ) (s : List A)
    → i + length s ≤ limit
    → seq_size_rows i s ≡ some (i + length s)
unfolding seq_size_rows
seq_size_rows_lem i [] few = ap some (omega arith)
seq_size_rows_lem i (x ∷ s) few =
    let row : ltb i limit ≡ true = ground (arith, few) in
    rw (row, seq_size_rows_lem (i + 1) s (omega (arith, few))) (ap some (omega arith))

-- More elements than there are rows.
seq_size_rows_more {ℓ} :
    {A : Type ℓ} (i : ℕ) (s : List A) → i ≤ limit → limit < i + length s → seq_size_rows i s ≡ none
unfolding seq_size_rows
seq_size_rows_more i [] lo more = absurd (omega (arith, lo, more))
seq_size_rows_more i (x ∷ s) lo more = elim (Bool-cases (ltb i limit)) [
  | inl y ↦ rw (y, seq_size_rows_more (i + 1) s (ground (arith, y)) (omega (arith, more))) refl
  | inr n ↦ rw n refl
]

-- `SEQ_SIZE` of up to 511 elements is their number, and there is no row for more.
pub seq_size_lem {ℓ} :
    {A : Type ℓ} (s : List A)
    → seq_size s ≡ (if ltb (length s) limit then some (length s) else none)
unfolding seq_size seq_size_table
seq_size_lem s = elim (Bool-cases (ltb limit (length s))) [
  | inl y ↦
      let over : ltb (length s) limit ≡ false = ground (arith, y) in
      rw (over, seq_size_rows_more 0 s (omega arith) (ground (arith, y))) refl
  | inr n ↦
      let from_zero : 0 + length s ≡ length s = omega arith in
      rw (seq_size_rows_lem 0 s (ground (arith, n)), from_zero) refl
]

module _ {ℓ κ} {A : Type ℓ} {B : Type κ}
    (rows : ℕ → (A → Option (List B)) → List A → Option (List B))
    (rows-zero : (apply : A → Option (List B)) (s : List A) → rows zero apply s ≡ some [])
    (rows-suc : (n : ℕ) (apply : A → Option (List B)) (s : List A)
      → rows (suc n) apply s ≡ for_each_row (rows n) n apply s) where
  rows_lem :
      (apply : A → Option (List B)) (f : A → List B) (s : List A)
      → length s ≤ limit
      → All (λ x. apply x ≡ some (f x)) s
      → rows (length s) apply s ≡ some (flat_map f s)
  unfolding for_each_row seq_head seq_tail seq_to_pair
  rows_lem apply f [] few all = rows-zero apply []
  rows_lem apply f (x ∷ s) few (one, rest) =
      let row : ltb (length s) limit ≡ true = ground (arith, few) in
      rows-suc (length s) apply (x ∷ s)
      ∙ rw (row, one, rows_lem apply f s (omega (arith, few)) rest) refl

  for_each_lem :
      (apply : A → Option (List B)) (f : A → List B) (s : List A)
      → All (λ x. apply x ≡ some (f x)) s
      → (seq_size s >>= λ n. rows n apply s)
        ≡ (if ltb (length s) limit then some (flat_map f s) else none)
  for_each_lem apply f s all = elim (Bool-cases (ltb (length s) limit)) [
    | inl y ↦ rw (seq_size_lem s, y, rows_lem apply f s (ground (arith, y)) all) refl
    | inr n ↦ rw (seq_size_lem s, n) refl
  ]

-- Each of the three copies of the iteration over up to 511 elements makes what the macro makes of
-- each, in their order, and has no row for more.
pub seq_for_each_lem {ℓ κ} :
    {A : Type ℓ} {B : Type κ} (apply : A → Option (List B)) (f : A → List B) (s : List A)
    → All (λ x. apply x ≡ some (f x)) s
    → let made = if ltb (length s) limit then some (flat_map f s) else none in
      (d0_seq_for_each apply s ≡ made)
      × (d1_seq_for_each apply s ≡ made)
      × (d2_seq_for_each apply s ≡ made)
unfolding d0_seq_for_each d1_seq_for_each d2_seq_for_each d0_rows d1_rows d2_rows
seq_for_each_lem apply f s all = (
  for_each_lem d0_rows (λ g l. refl) (λ n g l. refl) apply f s all,
  for_each_lem d1_rows (λ g l. refl) (λ n g l. refl) apply f s all,
  for_each_lem d2_rows (λ g l. refl) (λ n g l. refl) apply f s all,
)

module _ {ℓ κ} {A : Type ℓ} {B : Type κ}
    (rows : ℕ → (A → Option (List B)) → List A → Option (List B))
    (rows-suc : (n : ℕ) (apply : A → Option (List B)) (s : List A)
      → rows (suc n) apply s ≡ for_each_row (rows n) n apply s) where
  for_each-none :
      (apply : A → Option (List B)) (x : A) (s : List A)
      → apply x ≡ none
      → (seq_size (x ∷ s) >>= λ n. rows n apply (x ∷ s)) ≡ none
  unfolding for_each_row seq_head seq_to_pair
  for_each-none apply x s fails = elim (Bool-cases (ltb (length (x ∷ s)) limit)) [
    | inl y ↦
        let row : ltb (length s) limit ≡ true = ground (arith, y) in
        rw (seq_size_lem (x ∷ s), y) (rows-suc (length s) apply (x ∷ s) ∙ rw (row, fails) refl)
    | inr n ↦ rw (seq_size_lem (x ∷ s), n) refl
  ]

pub seq_for_each-none {ℓ κ} :
    {A : Type ℓ} {B : Type κ} (apply : A → Option (List B)) (x : A) (s : List A)
    → apply x ≡ none
    → (d1_seq_for_each apply (x ∷ s) ≡ none) × (d2_seq_for_each apply (x ∷ s) ≡ none)
unfolding d1_seq_for_each d2_seq_for_each d1_rows d2_rows
seq_for_each-none apply x s fails = (
  for_each-none d1_rows (λ n g l. refl) apply x s fails,
  for_each-none d2_rows (λ n g l. refl) apply x s fails,
)
